-- ===== src/Process/StackImage/Words.antt =====
-- The words that are pushed one after the other, and the auxiliary vector.
use best_os.Common.{
  ℕ, ◌+◌, ◌-◌, ◌^◌, ◌≤◌, ◌<◌, ◌≡◌, refl, sym, ◌∙◌, subst, arith, List, [], ◌∷◌, add64, sub64,
}
use best_os.Mem.{Memory}
use best_os.Mem.Words.{read64, write64, read64-write64, read64-write64_ne, write64-outside}
use best_os.Elf.Headers.{Auxval}
use best_os.Process.StackImage.{
  at_entry, at_phdr, at_phent, at_phnum, Image, push_word, push_aux, push_auxval,
}
use best_os.Process.StackImage.Strings.{Kept, read64-Kept}
use best_os.Process.StackImage.Pointers.{push_word_lem}

-- The words from `a` on.
abbrev pub Words : Memory → ℕ → List ℕ → Type 0
Words m a [] = Unit {0}
Words m a (v ∷ vs) = (read64 a m ≡ v) × Words m (a + 8) vs

-- A change below the words leaves them.
pub Words-Kept :
    (lo mid a : ℕ) (m w : Memory) (vs : List ℕ)
    → Kept lo mid m w
    → mid ≤ a
    → Words m a vs
    → Words w a vs
Words-Kept lo mid a m w [] kept below h = tt
Words-Kept lo mid a m w (v ∷ vs) kept below h = (
  read64-Kept lo mid a m w kept (omega arith) ∙ h.0,
  Words-Kept lo mid (a + 8) m w vs kept (omega arith) h.1,
)

-- After pushes of `n` bytes the words `vs` are at the stack pointer.
pub record Stacked (s : Image) (n : ℕ) (vs : List ℕ) (t : Image) : Type 0 where
  pub stack : t.stack ≡ s.stack - n
  pub count : t.count ≡ s.count
  pub kept : Kept (s.stack - n) s.stack s.memory t.memory
  pub words : Words t.memory (s.stack - n) vs

pub Stacked-nil : (s : Image) → Stacked s 0 [] s
Stacked-nil s = record { stack = omega arith; count = refl; kept = λ b out. refl; words = tt }

pub push_word-Stacked :
    (v n : ℕ) (vs : List ℕ) (s t : Image)
    → n + 8 ≤ s.stack
    → s.stack < 2 ^ 64
    → v < 2 ^ 64
    → Stacked s n vs t
    → Stacked s (n + 8) (v ∷ vs) (push_word v t)
push_word-Stacked v n vs s t room small fits h =
    let (at, here, kept, same) =
      push_word_lem v t (omega (arith, h.stack)) (omega (arith, h.stack)) fits in
    let place : t.stack - 8 ≡ s.stack - (n + 8) = omega (arith, h.stack) in
    let up : s.stack - n ≡ s.stack - (n + 8) + 8 = omega arith in
    record {
      stack = at ∙ place;
      count = same ∙ h.count;
      kept = λ b out. kept b (omega (arith, h.stack)) ∙ h.kept b (omega arith);
      words = (
        subst (λ (x : ℕ). read64 x (push_word v t).memory ≡ v) place here,
        subst (λ (x : ℕ). Words (push_word v t).memory x vs) up
            (Words-Kept (t.stack - 8) t.stack (s.stack - n) t.memory (push_word v t).memory vs kept
              (omega (arith, h.stack)) h.words),
      );
    }

push_aux-run :
    (type v low high : ℕ) (t : Image)
    → sub64 t.stack 16 ≡ low
    → add64 low 8 ≡ high
    → push_aux type v t
      ≡ record t { stack = low; memory = write64 high v (write64 low type t.memory) }
unfolding push_aux
push_aux-run type v low high t e1 e2 = rw (e1, e2) refl

pub push_aux-Stacked :
    (type v n : ℕ) (vs : List ℕ) (s t : Image)
    → n + 16 ≤ s.stack
    → s.stack < 2 ^ 64
    → type < 2 ^ 64
    → v < 2 ^ 64
    → Stacked s n vs t
    → Stacked s (n + 16) (type ∷ v ∷ vs) (push_aux type v t)
push_aux-Stacked type v n vs s t room small fits fits2 h =
    let low = s.stack - (n + 16) in
    let high = low + 8 in
    let m1 = write64 low type t.memory in
    let m2 = write64 high v m1 in
    let kept : Kept low (low + 16) t.memory m2 = λ b out.
      write64-outside high v m1 b (omega arith)
      ∙ write64-outside low type t.memory b (omega arith) in
    let up : s.stack - n ≡ low + 8 + 8 = omega arith in
    let after : Stacked s (n + 16) (type ∷ v ∷ vs) (record t { stack = low; memory = m2 }) =
      record {
        stack = refl;
        count = h.count;
        kept = λ b out. kept b (omega arith) ∙ h.kept b (omega arith);
        words = (
          read64-write64_ne high low v m1 (omega arith) ∙ read64-write64 low type t.memory fits,
          (
            read64-write64 high v m1 fits2,
            subst (λ (x : ℕ). Words m2 x vs) up
                (Words-Kept low (low + 16) (s.stack - n) t.memory m2 vs kept (omega arith) h.words),
          ),
        );
      } in
    subst (λ (x : Image). Stacked s (n + 16) (type ∷ v ∷ vs) x)
      (sym (push_aux-run type v low high t (omega (arith, h.stack)) (omega arith))) after

-- The values of the vector fit their words.
abbrev pub Fits : Auxval → Type 0
Fits a =
    (a.at_entry < 2 ^ 64) × (a.at_phdr < 2 ^ 64) × (a.at_phent < 2 ^ 64) × (a.at_phnum < 2 ^ 64)

-- The auxiliary vector in the order of its words, with its end.
abbrev pub aux_words : Auxval → List ℕ
aux_words a =
    at_phnum ∷ a.at_phnum ∷ at_phent ∷ a.at_phent ∷ at_phdr ∷ a.at_phdr ∷ at_entry ∷ a.at_entry ∷ 0
    ∷ 0 ∷ []

pub push_auxval-Stacked :
    (val : Auxval) (s : Image)
    → 80 ≤ s.stack
    → s.stack < 2 ^ 64
    → Fits val
    → Stacked s 80 (aux_words val) (push_auxval val s)
unfolding push_auxval
push_auxval-Stacked val s room small fits =
    let s1 = push_word-Stacked 0 0 [] s s (omega arith) small (omega arith) (Stacked-nil s) in
    let s2 =
      push_word-Stacked 0 8 (0 ∷ []) s (push_word 0 s) (omega arith) small (omega arith) s1 in
    let s3 =
      push_aux-Stacked at_entry val.at_entry 16 (0 ∷ 0 ∷ []) s (push_word 0 (push_word 0 s))
        (omega arith) small (omega arith) fits.0 s2 in
    let t3 = push_aux at_entry val.at_entry (push_word 0 (push_word 0 s)) in
    let s4 =
      push_aux-Stacked at_phdr val.at_phdr 32 (at_entry ∷ val.at_entry ∷ 0 ∷ 0 ∷ []) s t3
        (omega arith) small (omega arith) fits.1 s3 in
    let t4 = push_aux at_phdr val.at_phdr t3 in
    let s5 =
      push_aux-Stacked at_phent val.at_phent 48
        (at_phdr ∷ val.at_phdr ∷ at_entry ∷ val.at_entry ∷ 0 ∷ 0 ∷ []) s t4 (omega arith) small
        (omega arith) fits.2 s4 in
    push_aux-Stacked at_phnum val.at_phnum 64
      (at_phent ∷ val.at_phent ∷ at_phdr ∷ val.at_phdr ∷ at_entry ∷ val.at_entry ∷ 0 ∷ 0 ∷ []) s
      (push_aux at_phent val.at_phent t4) (omega arith) small (omega arith) fits.3 s5
