-- ===== src/Vec.antt =====
-- The calls of lib/vec.h, a copy of another project's library, as an interface: a vector is the
-- list of the elements below its length.
pub mod Lists
use best_os.Common.{ℕ, ◌+◌, ◌≤◌, ◌≡◌, ◌≢◌, List, [], ◌∷◌, ◌++◌, length, take, drop}

-- `vec_push` appends (memory for the new element is assumed), and `vec_splice` closes the gap.
pub record VecOps (A : Type 0) : Type 0 where
  pub push : List A → A → List A
  pub splice : List A → ℕ → ℕ → List A
  pub push_lem : (v : List A) (a : A) → push v a ≡ v ++ a ∷ []
  pub splice_lem :
      (v : List A) (start count : ℕ)
      → start + count ≤ length v
      → splice v start count ≡ take start v ++ drop (start + count) v

-- No element of the list is `a`.
abbrev pub Absent : ℕ → List ℕ → Type 0
Absent a [] = Unit {0}
Absent a (x ∷ xs) = (x ≢ a) × Absent a xs

-- `vec_remove` of a pointer takes out the first place where it stands.
pub record PtrOps : Type 0 where
  pub ops : VecOps ℕ
  pub remove : List ℕ → ℕ → List ℕ
  pub remove_lem : (xs ys : List ℕ) (p : ℕ) → Absent p xs → remove (xs ++ p ∷ ys) p ≡ xs ++ ys
