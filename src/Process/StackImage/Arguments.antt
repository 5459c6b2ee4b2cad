-- ===== src/Process/StackImage/Arguments.antt =====
-- The stack that a new program finds: its arguments, its environment and the auxiliary vector.
use best_os.Common.{
  ℕ, ◌+◌, ◌-◌, ◌*◌, ◌%◌, ◌^◌, ◌≤◌, ◌<◌, ◌≡◌, refl, sym, ◌∙◌, subst, arith, some, List, [], ◌∷◌,
  length, u64,
}
use best_os.Mem.{Memory}
use best_os.Mem.Words.{read64}
use best_os.Str.{Text}
use best_os.Str.Copy.{Holds}
use best_os.Elf.Headers.{Auxval}
use best_os.Process.StackImage.{
  Image, push_strings, align_stack, push_auxval, push_pointers, push_word, build_stack,
}
use best_os.Process.StackImage.Strings.{
  Kept, Strings, total, Laid, Laid-Kept, Strings-Kept, push_strings-Pushed,
}
use best_os.Process.StackImage.Pointers.{Pointers}
use best_os.Process.StackImage.Words.{Words, Fits, aux_words}
use best_os.Process.StackImage.Lower.{Lower, push_rest, base_of, push_upper}

-- An array of the new program, at the address `a` of the direct map: each word is the address of a text
-- in the address space of the program, whose `rsp` is the address `top`, and the array ends with NULL.
abbrev pub Vector : Memory → ℕ → ℕ → ℕ → List Text → Type 0
Vector m top rsp a [] = read64 a m ≡ 0
Vector m top rsp a (s ∷ ss) =
    (p : ℕ) × (read64 a m + top ≡ p + rsp) × Holds m p s × Vector m top rsp (a + 8) ss

Vector-join :
    (m : Memory) (top rsp a sa st : ℕ) (ss : List Text)
    → Pointers m a sa ss
    → Laid m st ss
    → sa + top ≡ st + rsp
    → total ss ≤ sa
    → total ss ≤ st
    → read64 (a + 8 * length ss) m ≡ 0
    → Vector m top rsp a ss
Vector-join m top rsp a sa st [] ps laid shift h1 h2 last =
    subst (λ (x : ℕ). read64 x m ≡ 0) (omega arith) last
Vector-join m top rsp a sa st (s ∷ ss) ps laid shift h1 h2 last = (
  st - (length s + 1),
  omega (arith, ps.0),
  laid.0,
  Vector-join m top rsp (a + 8) (sa - (length s + 1)) (st - (length s + 1)) ss ps.1 laid.1
      (omega arith) (omega arith) (omega arith)
      (subst (λ (x : ℕ). read64 x m ≡ 0) (omega arith) last),
)

-- The run of the whole from the runs of its parts.
build_stack_run :
    (fuel few argv envp nargs nenv : ℕ) (val : Auxval) (rsp top : ℕ) (m : Memory)
    (e a s p q : Image)
    → push_strings fuel few envp (record { stack = top; memory = m; count = 0 }) ≡ some e
    → push_strings fuel few argv (record e { count = 0 }) ≡ some a
    → (e.count ≡ nenv) × (a.count ≡ nargs)
    → record (push_auxval val (align_stack (u64 (nargs + nenv + 1)) a)) { count = rsp } ≡ s
    → push_pointers fuel nenv envp s ≡ some p
    → push_pointers fuel nargs argv p ≡ some q
    → build_stack fuel few argv envp val rsp top m ≡ some (push_word nargs q)
unfolding build_stack
build_stack_run fuel few argv envp nargs nenv val rsp top m e a s p q h1 h2 counts is h3 h4 =
    simp (h1, h2, counts.0, counts.1, is, h3, h4) refl

-- What the new program finds on its stack.
pub record Started (lo top rsp : ℕ) (args envs : List Text) (val : Auxval) (m : Memory) (t : Image)
    : Type 0 where
  pub room : (lo ≤ t.stack) × (t.stack ≤ top)
  pub whole : t.stack % 16 ≡ 0
  pub argc : read64 t.stack t.memory ≡ length args
  pub argv : Vector t.memory top rsp (t.stack + 8) args
  pub envp : Vector t.memory top rsp (t.stack + 16 + 8 * length args) envs
  pub auxv : Words t.memory (t.stack + 24 + 8 * (length args + length envs)) (aux_words val)
  pub kept : Kept lo top m t.memory

-- Both sets of strings, the environment above the arguments.
record Copied (lo top : ℕ) (args envs : List Text) (m : Memory) (e a : Image) : Type 0 where
  pub counts : (e.count ≡ length envs) × (a.count ≡ length args)
  pub stack : a.stack ≡ top - total envs - total args
  pub laid_envs : Laid a.memory top envs
  pub laid_args : Laid a.memory (top - total envs) args
  pub kept : Kept lo top m a.memory

copy_both :
    (fuel few lo top argv envp : ℕ) (args envs : List Text) (m : Memory)
    → Strings fuel lo top m argv args
    → Strings fuel lo top m envp envs
    → length args < few
    → length envs < few
    → lo + total envs + total args ≤ top
    → top < 2 ^ 64
    → (e : Image) × (a : Image) × (push_strings fuel few envp
          (record { stack = top; memory = m; count = 0 })
        ≡ some e)
      × (push_strings fuel few argv (record e { count = 0 }) ≡ some a)
      × Copied lo top args envs m e a
copy_both fuel few lo top argv envp args envs m ha he fa fe room small =
    let (e, run_e, laid_e, re) =
      push_strings-Pushed fuel few lo top envp envs (record { stack = top; memory = m; count = 0 })
        he fe (omega arith) (omega arith) small in
    let kept_e : Kept lo top m e.memory = λ b out. re.kept b (omega arith) in
    let (a, run_a, laid_a, ra) =
      push_strings-Pushed fuel few lo top argv args (record e { count = 0 })
        (Strings-Kept fuel lo top m e.memory argv args kept_e ha) fa (omega (arith, re.stack))
        (omega (arith, re.stack)) (omega (arith, re.stack)) in
    (
      e,
      a,
      run_e,
      run_a,
      record {
        counts = (omega (arith, re.count'), omega (arith, ra.count'));
        stack = omega (arith, re.stack, ra.stack);
        laid_envs =
            Laid-Kept (e.stack - total args) e.stack e.memory a.memory top envs ra.kept
              (omega (arith, re.stack)) laid_e;
        laid_args = subst (λ (x : ℕ). Laid a.memory x args) re.stack laid_a;
        kept = λ b out. ra.kept b (omega (arith, re.stack)) ∙ kept_e b out;
      },
    )

Started-join :
    (lo top rsp base : ℕ) (args envs : List Text) (val : Auxval) (m : Memory) (e a t : Image)
    → Copied lo top args envs m e a
    → Lower base rsp args envs val a t
    → base ≡ base_of a.stack (length args + length envs)
    → lo + total envs + total args + 128 + 8 * (length args + length envs) ≤ top
    → total envs + total args ≤ rsp
    → Started lo top rsp args envs val m t
Started-join lo top rsp base args envs val m e a t c l is_base room sum =
    let envs_held : Laid t.memory top envs =
      Laid-Kept base a.stack a.memory t.memory top envs l.kept (omega (arith, c.stack))
        c.laid_envs in
    let args_held : Laid t.memory (top - total envs) args =
      Laid-Kept base a.stack a.memory t.memory (top - total envs) args l.kept
        (omega (arith, c.stack)) c.laid_args in
    let up : base + 8 + 8 + 8 * length args ≡ base + 16 + 8 * length args = omega arith in
    record {
      room = (omega (arith, l.stack, c.stack), omega (arith, l.stack, c.stack));
      whole = omega (arith, l.stack, c.stack);
      argc = subst (λ (x : ℕ). read64 x t.memory ≡ length args) (sym l.stack) l.argc;
      argv =
          subst (λ (x : ℕ). Vector t.memory top rsp (x + 8) args) (sym l.stack)
            (Vector-join t.memory top rsp (base + 8) (rsp - total envs) (top - total envs) args
              l.vectors.argv args_held (omega arith) (omega arith) (omega arith)
              l.vectors.argv_end);
      envp =
          subst (λ (x : ℕ). Vector t.memory top rsp (x + 16 + 8 * length args) envs) (sym l.stack)
            (subst (λ (x : ℕ). Vector t.memory top rsp x envs) up
              (Vector-join t.memory top rsp (base + 8 + 8 + 8 * length args) rsp top envs
                l.vectors.envp envs_held (omega arith) (omega arith) (omega arith)
                l.vectors.envp_end));
      auxv =
          subst
            (λ (x : ℕ). Words t.memory (x + 24 + 8 * (length args + length envs)) (aux_words val))
            (sym l.stack) l.auxv;
      kept = λ b out. l.kept b (omega (arith, c.stack)) ∙ c.kept b out;
    }

build_rest :
    (fuel few lo top rsp argv envp : ℕ) (args envs : List Text) (val : Auxval) (m : Memory)
    (e a : Image)
    → Strings fuel lo top m argv args
    → Strings fuel lo top m envp envs
    → Fits val
    → top % 16 ≡ 0
    → top < 2 ^ 64
    → rsp < 2 ^ 64
    → total envs + total args ≤ rsp
    → lo + total envs + total args + 128 + 8 * (length args + length envs) ≤ top
    → push_strings fuel few envp (record { stack = top; memory = m; count = 0 }) ≡ some e
    → push_strings fuel few argv (record e { count = 0 }) ≡ some a
    → Copied lo top args envs m e a
    → (t : Image) × (build_stack fuel few argv envp val rsp top m ≡ some t)
      × Started lo top rsp args envs val m t
build_rest fuel few lo top rsp argv envp args envs val m e a ha he fits whole small rsp_small sum
      room run_e run_a c =
    let n = length args + length envs in
    let (s, is, place, count, kept_s, words) =
      push_upper val rsp n a (omega (arith, c.stack)) (omega (arith, c.stack)) fits in
    let base = base_of a.stack n in
    let (p, q, run_p, run_q, l) =
      push_rest fuel lo top argv envp base rsp args envs val a s
        (Strings-Kept fuel lo top m a.memory argv args c.kept ha)
        (Strings-Kept fuel lo top m a.memory envp envs c.kept he) (omega (arith, place, c.stack))
        (omega (arith, place, c.stack)) (omega (arith, c.stack)) small (omega (arith, c.stack))
        kept_s words count sum rsp_small in
    (
      push_word (length args) q,
      build_stack_run fuel few argv envp (length args) (length envs) val rsp top m e a s p q run_e
          run_a c.counts is run_p run_q,
      Started-join lo top rsp base args envs val m e a (push_word (length args) q) c l refl room
          sum,
    )

-- The stack of a new program. The caller's arrays `argv` and `envp` hold the texts `args` and `envs`,
-- and neither they nor the texts lie in the region from `lo` to `top`, which has room for the copies,
-- 8 bytes for each text and 128 more. Then with fuel for the longest text and the longer array the set-up
-- returns; it changes nothing outside the region, and at its stack pointer, a multiple of 16, are the
-- number of arguments, the array of the arguments, that of the environment, each with its NULL, and the
-- auxiliary vector with its end. A word of the arrays is the address, for the program, whose `rsp`
-- began at `top`, of a copy of its text.
pub build_stack-Started :
    (fuel few lo top rsp argv envp : ℕ) (args envs : List Text) (val : Auxval) (m : Memory)
    → Strings fuel lo top m argv args
    → Strings fuel lo top m envp envs
    → length args < few
    → length envs < few
    → Fits val
    → top % 16 ≡ 0
    → top < 2 ^ 64
    → rsp < 2 ^ 64
    → total envs + total args ≤ rsp
    → lo + total envs + total args + 128 + 8 * (length args + length envs) ≤ top
    → (t : Image) × (build_stack fuel few argv envp val rsp top m ≡ some t)
      × Started lo top rsp args envs val m t
build_stack-Started fuel few lo top rsp argv envp args envs val m ha he fa fe fits whole small
      rsp_small sum room =
    let (e, a, run_e, run_a, c) =
      copy_both fuel few lo top argv envp args envs m ha he fa fe (omega arith) small in
    build_rest fuel few lo top rsp argv envp args envs val m e a ha he fits whole small rsp_small
      sum room run_e run_a c
