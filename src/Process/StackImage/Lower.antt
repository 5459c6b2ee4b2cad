-- ===== src/Process/StackImage/Lower.antt =====
-- The words below the strings.
use best_os.Common.{
  ℕ, ◌+◌, ◌-◌, ◌*◌, ◌%◌, ◌^◌, ◌≤◌, ◌<◌, ◌≡◌, refl, ap, sym, ◌∙◌, subst, arith, some, List, bit_and,
  bit_and_mask, length, u64,
}
use best_os.Mem.Words.{read64}
use best_os.Str.{Text}
use best_os.Elf.Headers.{Auxval}
use best_os.Process.StackImage.{Image, align_stack, push_auxval, push_pointers, push_word}
use best_os.Process.StackImage.Strings.{Kept, Strings, total, Strings-Kept}
use best_os.Process.StackImage.Pointers.{push_word_lem}
use best_os.Process.StackImage.Words.{Words, Words-Kept, Fits, aux_words, push_auxval-Stacked}
use best_os.Process.StackImage.Vectors.{Vectors, Vectors-Kept, Arrays, push_both}

-- The words below the strings: from the image `a` with the strings in place to the end.
pub record Lower (base rsp : ℕ) (args envs : List Text) (val : Auxval) (a t : Image) : Type 0 where
  pub stack : t.stack ≡ base
  pub argc : read64 base t.memory ≡ length args
  pub vectors : Vectors (base + 8) rsp args envs t.memory
  pub auxv : Words t.memory (base + 24 + 8 * (length args + length envs)) (aux_words val)
  pub kept : Kept base a.stack a.memory t.memory

-- The count at the end, and the auxiliary vector above the arrays.
Lower-join :
    (base rsp : ℕ) (args envs : List Text) (val : Auxval) (a s q t : Image)
    → s.stack ≡ base + 24 + 8 * (length args + length envs)
    → s.stack ≤ a.stack
    → Kept s.stack a.stack a.memory s.memory
    → Words s.memory s.stack (aux_words val)
    → Arrays (base + 8) rsp args envs s q
    → t.stack ≡ base
    → read64 base t.memory ≡ length args
    → Kept base (base + 8) q.memory t.memory
    → Lower base rsp args envs val a t
Lower-join base rsp args envs val a s q t place below kept_s words r at argc kept =
    let kept_q : Kept base s.stack s.memory t.memory =
      λ b out. kept b (omega arith) ∙ r.kept b (omega arith) in
    record {
      stack = at;
      argc = argc;
      vectors =
          Vectors-Kept base (base + 8) (base + 8) rsp args envs q.memory t.memory kept (omega arith)
            r.vectors;
      auxv =
          subst (λ (x : ℕ). Words t.memory x (aux_words val)) place
            (Words-Kept base s.stack s.stack s.memory t.memory (aux_words val) kept_q (omega arith)
              words);
      kept = λ b out. kept_q b (omega arith) ∙ kept_s b (omega arith);
    }

count_last :
    (base n : ℕ) (q : Image)
    → q.stack ≡ base + 8
    → base + 8 < 2 ^ 64
    → n < 2 ^ 64
    → ((push_word n q).stack ≡ base)
      × (read64 base (push_word n q).memory ≡ n)
      × Kept base (base + 8) q.memory (push_word n q).memory
count_last base n q place small fits =
    let (at, argc, kept, same) = push_word_lem n q (omega arith) (omega arith) fits in
    let low : q.stack - 8 ≡ base = omega arith in
    (
      at ∙ low,
      subst (λ (x : ℕ). read64 x (push_word n q).memory ≡ n) low argc,
      λ b out. kept b (omega arith),
    )

-- From the auxiliary vector to the end.
pub push_rest :
    (fuel lo top argv envp base rsp : ℕ) (args envs : List Text) (val : Auxval) (a s : Image)
    → Strings fuel lo top a.memory argv args
    → Strings fuel lo top a.memory envp envs
    → s.stack ≡ base + 24 + 8 * (length args + length envs)
    → s.stack ≤ a.stack
    → a.stack ≤ top
    → top < 2 ^ 64
    → lo ≤ base
    → Kept s.stack a.stack a.memory s.memory
    → Words s.memory s.stack (aux_words val)
    → s.count ≡ rsp
    → total envs + total args ≤ rsp
    → rsp < 2 ^ 64
    → (p : Image) × (q : Image) × (push_pointers fuel (length envs) envp s ≡ some p)
      × (push_pointers fuel (length args) argv p ≡ some q)
      × Lower base rsp args envs val a (push_word (length args) q)
push_rest fuel lo top argv envp base rsp args envs val a s ha he place below high small room kept
      words count sum fits =
    let kept_s : Kept lo top a.memory s.memory = λ b out. kept b (omega arith) in
    let (p, q, run_p, run_q, r) =
      push_both fuel lo top argv envp (base + 8) rsp args envs s
        (Strings-Kept fuel lo top a.memory s.memory argv args kept_s ha)
        (Strings-Kept fuel lo top a.memory s.memory envp envs kept_s he) (omega arith) small
        (omega arith) (omega arith) count sum fits in
    let (at, argc, kept_t) = count_last base (length args) q r.stack (omega arith) (omega arith) in
    (
      p,
      q,
      run_p,
      run_q,
      Lower-join base rsp args envs val a s q (push_word (length args) q) place below kept words r
          at argc kept_t,
    )

-- The stack pointer above the auxiliary vector, and that at the end.
abbrev pub high_of : ℕ → ℕ → ℕ
high_of stack n = stack - stack % 16 - 8 * ((n + 1) % 2)

abbrev pub base_of : ℕ → ℕ → ℕ
base_of stack n = high_of stack n - (104 + 8 * n)

align_stack_lem :
    (words : ℕ) (s : Image)
    → s.stack < 2 ^ 64
    → 24 ≤ s.stack
    → align_stack words s ≡ record s { stack = s.stack - s.stack % 16 - 8 * (words % 2) }
unfolding align_stack
align_stack_lem words s small room =
    let low : bit_and s.stack 0xf ≡ s.stack % 16 = bit_and_mask 4 s.stack in
    let odd : bit_and words 1 ≡ words % 2 = bit_and_mask 1 words in
    ap (λ (x : ℕ). record s { stack = x }) (ground (arith, low, odd))

pub push_upper :
    (val : Auxval) (rsp n : ℕ) (a : Image)
    → a.stack < 2 ^ 64
    → 128 + 8 * n ≤ a.stack
    → Fits val
    → (s : Image) × (record (push_auxval val (align_stack (u64 (n + 1)) a)) { count = rsp } ≡ s)
      × (s.stack ≡ high_of a.stack n - 80)
      × (s.count ≡ rsp)
      × Kept s.stack a.stack a.memory s.memory
      × Words s.memory s.stack (aux_words val)
push_upper val rsp n a small room fits =
    let high = high_of a.stack n in
    let align : align_stack (u64 (n + 1)) a ≡ record a { stack = high } =
      align_stack_lem (u64 (n + 1)) a small (omega arith)
      ∙ ap (λ (x : ℕ). record a { stack = x }) (omega arith) in
    let x = push_auxval-Stacked val (record a { stack = high }) (omega arith) (omega arith) fits in
    (
      record (push_auxval val (record a { stack = high })) { count = rsp },
      rw align refl,
      x.stack,
      refl,
      λ b out. x.kept b (omega (arith, x.stack)),
      subst
          (λ (y : ℕ). Words (push_auxval val (record a { stack = high })).memory y (aux_words val))
          (sym x.stack) x.words,
    )
