-- ===== src/Str/Path.antt =====
-- `basename` and `dirname`.
use best_os.Common.{
  ℕ, zero, suc, ◌+◌, ◌-◌, ◌^◌, ◌≤◌, ◌<◌, ◌≡◌, refl, ap, subst, ◌∙◌, arith, true, false, not, ◌&&◌,
  none, some, [], ◌∷◌, ◌++◌, ◌==◌, if◌then◌else◌, length, drop, take, Bool-cases, inl, inr, ◌⊎◌,
  Option-cases, add64, sub64, int_to_u64,
}
use best_os.Str.{
  Text, slash, head0, next, strstr, step_path, basename_loop, basename, last_slash, dirname,
}
use best_os.Str.Equality.{IsText, strlen_lem}
use best_os.Str.Search.{has_char, from_char, strstr-find_sub, find_sub-char}

-- The part of a path behind its last slash, the whole of a path without one.
unfoldable pub last_segment : Text → Text
last_segment [] = []
last_segment (c ∷ s) =
    if has_char slash s then last_segment s else (if c == slash then s else c ∷ s)

-- What is known of the rest `t` of a text `s` from its first slash.
record Rest (s t : Text) : Type 0 where
  len : length t ≤ length s
  some_left : 0 < length t
  dropped : drop (length s - length t + 1) s ≡ next t
  text : IsText t
  last : last_segment s ≡ (if has_char slash (next t) then last_segment (next t) else next t)

Rest-cons :
    (c : ℕ) (s t : Text)
    → (c == slash) ≡ false
    → has_char slash s ≡ true
    → Rest s t
    → Rest (c ∷ s) t
unfolding last_segment
Rest-cons c s t ne has r = record {
  len = omega (arith, r.len);
  some_left = r.some_left;
  dropped =
      let shift : length (c ∷ s) - length t + 1 ≡ suc (length s - length t + 1) =
        omega (arith, r.len) in
      rw shift r.dropped;
  text = r.text;
  last = rw has r.last;
}

from_char-has_char : (c : ℕ) (s t : Text) → from_char c s ≡ some t → has_char c s ≡ true
unfolding from_char has_char
from_char-has_char c [] t h = cc
from_char-has_char c (x ∷ s) t h = ground (arith, from_char-has_char c s t)

from_char-none : (c : ℕ) (s : Text) → from_char c s ≡ none → has_char c s ≡ false
unfolding from_char has_char
from_char-none c [] h = refl
from_char-none c (x ∷ s) h = ground (arith, from_char-none c s)

from_char-Rest : (s t : Text) → IsText s → from_char slash s ≡ some t → Rest s t
unfolding from_char last_segment
from_char-Rest [] t ts h = cc
from_char-Rest (c ∷ s) t ts h = elim (Bool-cases (c == slash)) [
  | inl e ↦
      let same : c ∷ s ≡ t = ground arith in
      let one : length (c ∷ s) - length (c ∷ s) + 1 ≡ 1 = omega arith in
      subst (Rest (c ∷ s)) same (record {
        len = omega arith;
        some_left = omega arith;
        dropped = rw one;
        text = ts;
        last = rw e;
      })
  | inr e ↦
      let found : from_char slash s ≡ some t = ground arith in
      Rest-cons c s t e (from_char-has_char slash s t found) (from_char-Rest s t ts.1 found)
]

strstr-slash : (s : Text) → IsText s → strstr s (slash ∷ []) ≡ some (from_char slash s)
strstr-slash s t =
    strstr-find_sub s (slash ∷ []) t (ground arith, tt) ∙ ap some (find_sub-char slash s)

IsText-next : (t : Text) → IsText t → IsText (next t)
IsText-next [] h = tt
IsText-next (c ∷ t) h = h.1

length-next : (t : Text) → 0 < length t → length t ≡ suc (length (next t))
length-next [] h = absurd (omega arith)
length-next (c ∷ t) h = refl

-- The pointer arithmetic of `basename` moves just behind the slash.
step_path_lem : (s t : Text) → IsText s → length s < 2 ^ 31 - 1 → Rest s t → step_path s t ≡ next t
unfolding step_path
step_path_lem s t ts small r =
    let shift : add64 (sub64 (length s) (int_to_u64 (length t + 1))) 2 ≡ length s - length t + 1 =
      ground (arith, r.len, r.some_left) in
    rw (strlen_lem s ts, strlen_lem t r.text, shift) r.dropped

basename_loop_lem :
    (f : ℕ) (s t : Text)
    → IsText s
    → length s < 2 ^ 31 - 1
    → length s ≤ f
    → Rest s t
    → basename_loop f s t ≡ some (last_segment s)
unfolding basename_loop
basename_loop_lem zero s t ts small fuel r = absurd (omega (arith, r.len, r.some_left))
basename_loop_lem (suc f) s t ts small fuel r =
    let u = IsText-next t r.text in
    let shorter = length-next t r.some_left in
    let again = λ (w : Text) (k : Rest (next t) w).
      basename_loop_lem f (next t) w u (omega (arith, r.len)) (omega (arith, r.len)) k in
    rw (step_path_lem s t ts small r, strstr-slash (next t) u)
      (elim (Option-cases (from_char slash (next t))) [
        | inl e ↦ rw e (rw (r.last, from_char-none slash (next t) e))
        | inr (w, e) ↦ rw e (
            again w (from_char-Rest (next t) w u e)
            ∙ rw (r.last, from_char-has_char slash (next t) w e))
      ])

from_char_self : (c : ℕ) (s : Text) → (c == slash) ≡ true → from_char slash (c ∷ s) ≡ some (c ∷ s)
unfolding from_char
from_char_self c s e = rw e

-- `basename` always returns: the part behind the last slash for a path that begins with a slash
-- and is longer than that, and the path itself otherwise, also for a relative path with slashes
-- in it. The path has less than 2 ^ 31 - 1 bytes.
pub basename-last_segment :
    (path : Text)
    → IsText path
    → length path < 2 ^ 31 - 1
    → basename path
      ≡ some (if head0 path == slash && not (length path == 1) then last_segment path else path)
unfolding basename
basename-last_segment [] t small = refl
basename-last_segment (c ∷ s) t small = elim (Bool-cases (c == slash)) [
  | inr e ↦ rw e
  | inl e ↦ elim (Bool-cases (length (c ∷ s) == 1)) [
    | inl z ↦ rw (e, strlen_lem (c ∷ s) t, z)
    | inr n ↦
        let first = from_char_self c s e in
        rw (e, strlen_lem (c ∷ s) t, n, strstr-slash (c ∷ s) t, first)
          (basename_loop_lem (length (c ∷ s)) (c ∷ s) (c ∷ s) t small (omega arith)
            (from_char-Rest (c ∷ s) (c ∷ s) t first))
  ]
]

last_segment_shorter : (s : Text) → has_char slash s ≡ true → length (last_segment s) < length s
unfolding last_segment has_char
last_segment_shorter [] has = cc
last_segment_shorter (c ∷ s) has = ground (arith, last_segment_shorter s)

-- The index of the last slash, counted from `i`.
last_slash_lem :
    (s : Text) (i j : ℕ)
    → IsText s
    → last_slash s i j
      ≡ (if has_char slash s then i + length s - suc (length (last_segment s)) else j)
unfolding last_slash last_segment has_char
last_slash_lem [] i j t = refl
last_slash_lem (c ∷ s) i j t =
    ground (
      arith,
      last_slash_lem s (i + 1) i t.1,
      last_slash_lem s (i + 1) j t.1,
      last_segment_shorter s,
    )

take-last_segment :
    (s : Text)
    → has_char slash s ≡ true
    → take (length s - suc (length (last_segment s))) s ++ slash ∷ last_segment s ≡ s
unfolding last_segment has_char
take-last_segment [] has = cc
take-last_segment (c ∷ s) has = elim (Bool-cases (has_char slash s)) [
  | inl h ↦
      let shift : length (c ∷ s) - suc (length (last_segment s))
          ≡ suc (length s - suc (length (last_segment s))) =
        omega (arith, last_segment_shorter s h) in
      rw (h, shift, take-last_segment s h)
  | inr h ↦
      let slash_here : c ≡ slash = ground arith in
      let none_left : suc (length s) - suc (length s) ≡ 0 = omega arith in
      rw (h, slash_here, none_left)
]

-- The loop of `dirname` over a path with a slash behind its first character: where it is cut.
cut_at :
    (c : ℕ) (s : Text)
    → IsText (c ∷ s)
    → has_char slash s ≡ true
    → (last_slash (c ∷ s) 0 0 ≡ length (c ∷ s) - suc (length (last_segment (c ∷ s))))
      × (0 < last_slash (c ∷ s) 0 0)
      × (has_char slash (c ∷ s) ≡ true)
unfolding last_segment has_char
cut_at c s t has = ground (arith, last_slash_lem (c ∷ s) 0 0 t, last_segment_shorter s has)

no_cut : (c : ℕ) (s : Text) → IsText (c ∷ s) → has_char slash s ≡ false → last_slash (c ∷ s) 0 0 ≡ 0
unfolding last_slash
no_cut c s t has = ground (arith, last_slash_lem s 1 0 t.1)

-- `dirname` cuts a path at its last slash, when that is not its first character: the result, a
-- slash and the last segment are the path. Otherwise it gives "/".
pub dirname-last_segment :
    (path : Text)
    → IsText path
    → (has_char slash (next path) ≡ true) × (dirname path ++ slash ∷ last_segment path ≡ path)
      ⊎ (has_char slash (next path) ≡ false) × (dirname path ≡ slash ∷ [])
unfolding dirname has_char last_slash
dirname-last_segment [] t = inr (refl, refl)
dirname-last_segment (c ∷ s) t = elim (Bool-cases (has_char slash s)) [
  | inl h ↦
      let (at, positive, has) = cut_at c s t h in
      let later : (last_slash (c ∷ s) 0 0 == 0) ≡ false = ground arith in
      inl (h, rw later (rw at (take-last_segment (c ∷ s) has)))
  | inr h ↦ inr (h, rw (no_cut c s t h))
]
