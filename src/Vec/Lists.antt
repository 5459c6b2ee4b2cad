-- ===== src/Vec/Lists.antt =====
-- Lists meet the interface of the vectors.
use best_os.Common.{ℕ, ◌+◌, ◌≡◌, arith, refl, List, [], ◌∷◌, ◌++◌, ◌==◌, if◌then◌else◌, take, drop}
use best_os.Vec.{VecOps, PtrOps, Absent}

abbrev pub list_vec : {A : Type 0} → VecOps A
list_vec = record {
  push = λ v a. v ++ a ∷ [];
  splice = λ v start count. take start v ++ drop (start + count) v;
  push_lem = λ v a. refl;
  splice_lem = λ v start count h. refl;
}

unfoldable pub erase : List ℕ → ℕ → List ℕ
erase [] p = []
erase (x ∷ xs) p = if x == p then xs else x ∷ erase xs p

pub erase_lem : (xs ys : List ℕ) (p : ℕ) → Absent p xs → erase (xs ++ p ∷ ys) p ≡ xs ++ ys
unfolding erase
erase_lem [] ys p absent = ground arith
erase_lem (x ∷ xs) ys p absent = ground (arith, erase_lem xs ys p absent.1, absent.0)

abbrev pub list_ptrs : PtrOps
list_ptrs = record { ops = list_vec; remove = erase; remove_lem = erase_lem }
