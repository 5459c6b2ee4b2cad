-- ===== src/Process/StackImage/Pointers.antt =====
-- The arrays of pointers and the single words that go on the stack below the strings.
use best_os.Common.{
  ℕ, suc, ◌+◌, ◌-◌, ◌*◌, ◌^◌, ◌≤◌, ◌<◌, ◌≡◌, refl, sym, ◌∙◌, subst, arith, some, List, [], ◌∷◌,
  length, u64, add64, sub64,
}
use best_os.Mem.{Memory}
use best_os.Mem.Words.{read64, write64, read64-write64, write64-outside}
use best_os.Str.{Text}
use best_os.Process.StackImage.{strlen_at, Image, push_word, write_pointers, push_pointers}
use best_os.Process.StackImage.Strings.{
  Kept, Strings, total, read64-Kept, Strings-Kept, strlen_at_lem,
}

-- The words from `a` are the addresses of the texts in the address space of the task, from `sa` down.
abbrev pub Pointers : Memory → ℕ → ℕ → List Text → Type 0
Pointers m a sa [] = Unit {0}
Pointers m a sa (s ∷ ss) =
    (read64 a m ≡ sa - (length s + 1)) × Pointers m (a + 8) (sa - (length s + 1)) ss

pub write64-Kept : (a v : ℕ) (m : Memory) → Kept a (a + 8) m (write64 a v m)
write64-Kept a v m b out = write64-outside a v m b out

pub push_word_lem :
    (v : ℕ) (s : Image)
    → 8 ≤ s.stack
    → s.stack < 2 ^ 64
    → v < 2 ^ 64
    → ((push_word v s).stack ≡ s.stack - 8)
      × (read64 (s.stack - 8) (push_word v s).memory ≡ v)
      × Kept (s.stack - 8) s.stack s.memory (push_word v s).memory
      × ((push_word v s).count ≡ s.count)
unfolding push_word
push_word_lem v s room small fits =
    let at : sub64 s.stack 8 ≡ s.stack - 8 = omega arith in
    (
      at,
      rw at (read64-write64 (s.stack - 8) v s.memory fits),
      rw at (λ b out. write64-outside (s.stack - 8) v s.memory b (omega arith)),
      refl,
    )

pointer_round :
    (fuel n i strings len at sa : ℕ) (s : Image)
    → strlen_at fuel (read64 (add64 strings (i * 8)) s.memory) s.memory ≡ some len
    → add64 s.stack (i * 8) ≡ at
    → sub64 s.count (len + 1) ≡ sa
    → write_pointers fuel (suc n) i strings s
      ≡ write_pointers fuel n
          (i + 1)
          strings
          (record { stack = s.stack; memory = write64 at sa s.memory; count = sa })
unfolding write_pointers
pointer_round fuel n i strings len at sa s is to less = rw (is, to, less) refl

-- What the loop over the pointers of `n` texts of `bytes` bytes leaves, from the word at `a` on.
pub record Written (a n bytes : ℕ) (s t : Image) : Type 0 where
  pub stack : t.stack ≡ s.stack
  pub count : t.count ≡ s.count - bytes
  pub kept : Kept a (a + 8 * n) s.memory t.memory

write_pointers-Written :
    (fuel lo top i strings : ℕ) (ss : List Text) (s : Image)
    → Strings fuel lo top s.memory (strings + i * 8) ss
    → lo ≤ s.stack
    → s.stack + i * 8 + 8 * length ss ≤ top
    → top < 2 ^ 64
    → total ss ≤ s.count
    → s.count < 2 ^ 64
    → (t : Image) × (write_pointers fuel (length ss) i strings s ≡ some t)
      × Pointers t.memory (s.stack + i * 8) s.count ss
      × Written (s.stack + i * 8) (length ss) (total ss) s t
write_pointers-Written fuel lo top i strings [] s h above room small sum fits = (
  s,
  unfold write_pointers in refl,
  tt,
  record { stack = refl; count = omega arith; kept = λ b out. refl },
)
write_pointers-Written fuel lo top i strings (str ∷ ss) s
      (p, at, ne, t, short, held, apart, here, low, rest) above room small sum fits =
    let from : add64 strings (i * 8) ≡ strings + i * 8 = omega arith in
    let to : add64 s.stack (i * 8) ≡ s.stack + i * 8 = omega arith in
    let sa = s.count - (length str + 1) in
    let less : sub64 s.count (length str + 1) ≡ sa = omega arith in
    let len : strlen_at fuel (read64 (add64 strings (i * 8)) s.memory) s.memory
        ≡ some (length str) =
      rw (from, at) (strlen_at_lem fuel p s.memory str t held short) in
    let m1 = write64 (s.stack + i * 8) sa s.memory in
    let s1 : Image = record { stack = s.stack; memory = m1; count = sa } in
    let kept1 : Kept (s.stack + i * 8) (s.stack + i * 8 + 8) s.memory m1 =
      write64-Kept (s.stack + i * 8) sa s.memory in
    let inside : Kept lo top s.memory m1 = λ b out. kept1 b (omega arith) in
    let on : strings + i * 8 + 8 ≡ strings + (i + 1) * 8 = omega arith in
    let next : s.stack + (i + 1) * 8 ≡ s.stack + i * 8 + 8 = omega arith in
    let later : Strings fuel lo top m1 (strings + (i + 1) * 8) ss =
      subst (λ (x : ℕ). Strings fuel lo top m1 x ss) on
        (Strings-Kept fuel lo top s.memory m1 (strings + i * 8 + 8) ss inside rest) in
    let (t2, run, pointers, w) =
      write_pointers-Written fuel lo top (i + 1) strings ss s1 later above (omega arith) small
        (omega arith) (omega arith) in
    let kept2 : Kept (s.stack + i * 8 + 8) (s.stack + i * 8 + 8 + 8 * length ss) m1 t2.memory =
      subst (λ (x : ℕ). Kept x (x + 8 * length ss) m1 t2.memory) next w.kept in
    (
      t2,
      pointer_round fuel (length ss) i strings (length str) (s.stack + i * 8) sa s len to less
          ∙ run,
      (
        read64-Kept (s.stack + i * 8 + 8) (s.stack + i * 8 + 8 + 8 * length ss) (s.stack + i * 8) m1
              t2.memory kept2 (omega arith)
            ∙ read64-write64 (s.stack + i * 8) sa s.memory (omega arith),
        subst (λ (x : ℕ). Pointers t2.memory x sa ss) next pointers,
      ),
      record {
        stack = w.stack;
        count = omega (arith, w.count);
        kept = λ b out. kept2 b (omega arith) ∙ kept1 b (omega arith);
      },
    )

push_pointers_run :
    (fuel n strings stack : ℕ) (s t : Image)
    → sub64 (push_word 0 s).stack (u64 (n * 8)) ≡ stack
    → write_pointers fuel n 0 strings (record (push_word 0 s) { stack = stack }) ≡ some t
    → push_pointers fuel n strings s ≡ some t
unfolding push_pointers
push_pointers_run fuel n strings stack s t at run = rw at run

-- What the array of pointers of `n` texts of `bytes` bytes leaves below the stack pointer.
pub record Array (n bytes : ℕ) (s t : Image) : Type 0 where
  pub stack : t.stack ≡ s.stack - 8 * (n + 1)
  pub count : t.count ≡ s.count - bytes
  pub kept : Kept (s.stack - 8 * (n + 1)) s.stack s.memory t.memory
  pub marker : read64 (s.stack - 8) t.memory ≡ 0

pub push_pointers-Array :
    (fuel lo top strings : ℕ) (ss : List Text) (s : Image)
    → Strings fuel lo top s.memory strings ss
    → lo + 8 * (length ss + 1) ≤ s.stack
    → s.stack ≤ top
    → top < 2 ^ 64
    → total ss ≤ s.count
    → s.count < 2 ^ 64
    → (t : Image) × (push_pointers fuel (length ss) strings s ≡ some t)
      × Pointers t.memory (s.stack - 8 * (length ss + 1)) s.count ss
      × Array (length ss) (total ss) s t
push_pointers-Array fuel lo top strings ss s h room high small sum fits =
    let n = length ss in
    let (at, zero_word, kept1, same) =
      push_word_lem 0 s (omega arith) (omega arith) (omega arith) in
    let m1 = (push_word 0 s).memory in
    let stack = s.stack - 8 * (n + 1) in
    let s1 : Image = record (push_word 0 s) { stack = stack } in
    let down : sub64 (push_word 0 s).stack (u64 (n * 8)) ≡ stack = omega (arith, at) in
    let start : strings + 0 * 8 ≡ strings = omega arith in
    let base : stack + 0 * 8 ≡ stack = omega arith in
    let h1 : Strings fuel lo top m1 (strings + 0 * 8) ss =
      subst (λ (x : ℕ). Strings fuel lo top m1 x ss) (sym start)
        (Strings-Kept fuel lo top s.memory m1 strings ss (λ b out. kept1 b (omega arith)) h) in
    let (t, run, pointers, w) =
      write_pointers-Written fuel lo top 0 strings ss s1 h1 (omega arith) (omega arith) small
        (omega (arith, same)) (omega (arith, same)) in
    let kept2 : Kept stack (stack + 8 * n) m1 t.memory =
      subst (λ (x : ℕ). Kept x (x + 8 * n) m1 t.memory) base w.kept in
    (
      t,
      push_pointers_run fuel n strings stack s t down run,
      subst (λ (x : ℕ). Pointers t.memory x s.count ss) base
          (subst (λ (c : ℕ). Pointers t.memory (stack + 0 * 8) c ss) same pointers),
      record {
        stack = w.stack;
        count = omega (arith, w.count, same);
        kept = λ b out. kept2 b (omega arith) ∙ kept1 b (omega arith);
        marker =
            read64-Kept stack (stack + 8 * n) (s.stack - 8) m1 t.memory kept2 (omega arith)
            ∙ zero_word;
      },
    )
