-- ===== src/Process/StackImage/Strings.antt =====
-- The strings of an array, and how they are copied to the stack.
use best_os.Common.{
  ℕ, zero, suc, ◌+◌, ◌-◌, ◌^◌, ◌≤◌, ◌<◌, ◌≡◌, ◌≢◌, ◌⊎◌, refl, ap, ◌∙◌, subst, arith, some, List, [],
  ◌∷◌, length, add64, sub64,
}
use best_os.Mem.{Memory}
use best_os.Mem.Words.{read64, read64-same}
use best_os.Str.{Text, strcpy}
use best_os.Str.Equality.{IsText}
use best_os.Str.Copy.{Holds, Holds-same, strcpy-Copied}
use best_os.Process.StackImage.{strlen_at, Image, push_string, push_strings}

-- Only addresses from `lo` up to `top` differ.
abbrev pub Kept : ℕ → ℕ → Memory → Memory → Type 0
Kept lo top m w = (b : ℕ) → (b < lo) ⊎ (top ≤ b) → w b ≡ m b

-- A block of `n` bytes that is no part of the region.
abbrev pub Apart : ℕ → ℕ → ℕ → ℕ → Type 0
Apart lo top a n = (a + n ≤ lo) ⊎ (top ≤ a)

-- The array at `a` points to the texts, none of them longer than the fuel, and ends with NULL; array
-- and texts are no part of the region.
abbrev pub Strings : ℕ → ℕ → ℕ → Memory → ℕ → List Text → Type 0
Strings fuel lo top m a [] = (read64 a m ≡ 0) × Apart lo top a 8
Strings fuel lo top m a (s ∷ ss) =
    (p : ℕ) × (read64 a m ≡ p)
    × (p ≢ 0)
    × IsText s
    × (length s < fuel)
    × Holds m p s
    × Apart lo top p (length s + 1)
    × Apart lo top a 8
    × (a + 8 < 2 ^ 64)
    × Strings fuel lo top m (a + 8) ss

-- The bytes that the texts take with their terminators.
abbrev pub total : List Text → ℕ
total [] = 0
total (s ∷ ss) = length s + 1 + total ss

-- The texts one below the other, from `st` down.
abbrev pub Laid : Memory → ℕ → List Text → Type 0
Laid m st [] = Unit {0}
Laid m st (s ∷ ss) = Holds m (st - (length s + 1)) s × Laid m (st - (length s + 1)) ss

pub read64-Kept :
    (lo top a : ℕ) (m w : Memory) → Kept lo top m w → Apart lo top a 8 → read64 a w ≡ read64 a m
read64-Kept lo top a m w kept apart = read64-same a m w (λ b p q. kept b (omega arith))

pub Strings-Kept :
    (fuel lo top : ℕ) (m w : Memory) (a : ℕ) (ss : List Text)
    → Kept lo top m w
    → Strings fuel lo top m a ss
    → Strings fuel lo top w a ss
Strings-Kept fuel lo top m w a [] kept h = (read64-Kept lo top a m w kept h.1 ∙ h.0, h.1)
Strings-Kept fuel lo top m w a (s ∷ ss) kept (p, at, ne, t, few, held, apart, here, low, rest) = (
  p,
  read64-Kept lo top a m w kept here ∙ at,
  ne,
  t,
  few,
  Holds-same m w p s (λ b p q. kept b (omega arith)) held,
  apart,
  here,
  low,
  Strings-Kept fuel lo top m w (a + 8) ss kept rest,
)

-- A change below the texts leaves them.
pub Laid-Kept :
    (lo mid : ℕ) (m w : Memory) (st : ℕ) (ss : List Text)
    → Kept lo mid m w
    → mid + total ss ≤ st
    → Laid m st ss
    → Laid w st ss
Laid-Kept lo mid m w st [] kept below h = tt
Laid-Kept lo mid m w st (s ∷ ss) kept below (held, rest) = (
  Holds-same m w (st - (length s + 1)) s (λ b p q. kept b (omega arith)) held,
  Laid-Kept lo mid m w (st - (length s + 1)) ss kept (omega arith) rest,
)

pub strlen_at_lem :
    (f p : ℕ) (m : Memory) (s : Text)
    → IsText s
    → Holds m p s
    → length s < f
    → strlen_at f p m ≡ some (length s)
unfolding strlen_at
strlen_at_lem zero p m s t h few = absurd (omega arith)
strlen_at_lem (suc f) p m [] t h few = ground arith
strlen_at_lem (suc f) p m (c ∷ s) t h few =
    ground (arith, t.0, h.0, strlen_at_lem f (p + 1) m s t.1 h.1 (omega arith))

-- What the copy of texts of `n` bytes below the stack pointer leaves.
pub record Pushed (n count : ℕ) (s t : Image) : Type 0 where
  pub stack : t.stack ≡ s.stack - n
  pub count' : t.count ≡ s.count + count
  pub kept : Kept (s.stack - n) s.stack s.memory t.memory

push_string_run :
    (fuel p n stack : ℕ) (s : Image) (w : Memory)
    → strlen_at fuel p s.memory ≡ some n
    → sub64 s.stack (n + 1) ≡ stack
    → strcpy fuel stack p s.memory ≡ some w
    → push_string fuel p s ≡ some (record { stack = stack; memory = w; count = s.count + 1 })
unfolding push_string
push_string_run fuel p n stack s w len at run = rw (len, at, run) refl

push_string-Pushed :
    (fuel lo top p : ℕ) (str : Text) (s : Image)
    → IsText str
    → length str < fuel
    → Holds s.memory p str
    → Apart lo top p (length str + 1)
    → lo + (length str + 1) ≤ s.stack
    → s.stack ≤ top
    → s.stack < 2 ^ 64
    → (t : Image) × (push_string fuel p s ≡ some t)
      × Holds t.memory (s.stack - (length str + 1)) str
      × Pushed (length str + 1) 1 s t
push_string-Pushed fuel lo top p str s t few held apart room high small =
    let stack = s.stack - (length str + 1) in
    let at : sub64 s.stack (length str + 1) ≡ stack = omega arith in
    let (w, run, copied) = strcpy-Copied str fuel stack p s.memory t held (omega arith) few in
    (
      record { stack = stack; memory = w; count = s.count + 1 },
      push_string_run fuel p (length str) stack s w (strlen_at_lem fuel p s.memory str t held few)
          at run,
      copied.held,
      record { stack = refl; count' = refl; kept = λ b out. copied.same b (omega arith) },
    )

push_strings_end :
    (fuel f elem : ℕ) (s : Image)
    → read64 elem s.memory ≡ 0
    → push_strings fuel (suc f) elem s ≡ some s
unfolding push_strings
push_strings_end fuel f elem s last = ground arith

push_strings_round :
    (fuel f elem : ℕ) (s t : Image)
    → read64 elem s.memory ≢ 0
    → push_string fuel (read64 elem s.memory) s ≡ some t
    → push_strings fuel (suc f) elem s ≡ push_strings fuel f (add64 elem 8) t
unfolding push_strings
push_strings_round fuel f elem s t ne run = ground (arith, run)

-- The strings of an array lie below the stack pointer afterwards, the first one highest.
pub push_strings-Pushed :
    (fuel f lo top elem : ℕ) (ss : List Text) (s : Image)
    → Strings fuel lo top s.memory elem ss
    → length ss < f
    → lo + total ss ≤ s.stack
    → s.stack ≤ top
    → s.stack < 2 ^ 64
    → (t : Image) × (push_strings fuel f elem s ≡ some t)
      × Laid t.memory s.stack ss
      × Pushed (total ss) (length ss) s t
push_strings-Pushed fuel zero lo top elem ss s h few room high small = absurd (omega arith)
push_strings-Pushed fuel (suc f) lo top elem [] s h few room high small = (
  s,
  push_strings_end fuel f elem s h.0,
  tt,
  record { stack = omega arith; count' = omega arith; kept = λ b out. refl },
)
push_strings-Pushed fuel (suc f) lo top elem (str ∷ ss) s
      (p, at, ne, t, short, held, apart, here, low, rest) few room high small =
    let (s1, run1, held1, r1) =
      push_string-Pushed fuel lo top p str s t short held apart (omega arith) high small in
    let kept1 : Kept lo top s.memory s1.memory = λ b out. r1.kept b (omega arith) in
    let next : add64 elem 8 ≡ elem + 8 = omega arith in
    let (s2, run2, laid, r2) =
      push_strings-Pushed fuel f lo top (elem + 8) ss s1
        (Strings-Kept fuel lo top s.memory s1.memory (elem + 8) ss kept1 rest) (omega arith)
        (omega (arith, r1.stack)) (omega (arith, r1.stack)) (omega (arith, r1.stack)) in
    (
      s2,
      push_strings_round fuel f elem s s1 (rw at ne) (rw at run1)
          ∙ ap (λ (e : ℕ). push_strings fuel f e s1) next
          ∙ run2,
      (
        Holds-same s1.memory s2.memory (s.stack - (length str + 1)) str
            (λ b lo' hi. r2.kept b (omega (arith, r1.stack))) held1,
        subst (λ (x : ℕ). Laid s2.memory x ss) r1.stack laid,
      ),
      record {
        stack = omega (arith, r1.stack, r2.stack);
        count' = omega (arith, r1.count', r2.count');
        kept = λ b out. r2.kept b (omega (arith, r1.stack)) ∙ r1.kept b (omega arith);
      },
    )
