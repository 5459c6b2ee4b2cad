-- ===== src/Vfs/Node/Walk.antt =====
-- `vfs_get_parent` beside a walk over the segments of the path.
use best_os.Common.{
  ℕ, zero, suc, ◌+◌, ◌-◌, ◌≡◌, ◌≢◌, refl, sym, ◌∙◌, arith, true, false, List, [], ◌∷◌, ◌++◌, ◌==◌,
  length, get_or, length-append, Bool-cases, inl, inr,
}
use mathlib.Core.List.{append_assoc}
use native.Mathlib.Decide.{ℕ_discrete}
use best_os.Str.{Text, strlen}
use best_os.Str.Equality.{IsText}
use best_os.Str.Tokens.{split}
use best_os.Vec.{VecOps}
use best_os.Vfs.{Vfs, Ptr, Cmd, ok, pure, ◌>>=◌, on_ok, on_ok-congr}
use best_os.Vfs.Parse.{parse_path-split}
use best_os.Vfs.Node.{find_node, get_parent_from, get_parent}

-- The reference: one `vfs_find_node` for each segment.
unfoldable pub walk : Ptr → List Text → Cmd Ptr
walk node [] = pure node
walk node (s ∷ ss) = do node' ← find_node node s; walk node' ss

-- Segments that are texts with at least one byte.
abbrev pub AreNames : List Text → Type 0
AreNames [] = Unit {0}
AreNames (s ∷ ss) = (strlen s ≢ 0) × AreNames ss

get_or-append :
    (pre : List Text) (a : Text) (ss : List Text) → get_or (pre ++ a ∷ ss) (length pre) [] ≡ a
get_or-append [] a ss = refl
get_or-append (p ∷ pre) a ss = get_or-append pre a ss

get_or-append_next :
    (pre : List Text) (a b : Text) (ss : List Text)
    → get_or (pre ++ a ∷ b ∷ ss) (length pre + 1) [] ≡ b
get_or-append_next [] a b ss = refl
get_or-append_next (p ∷ pre) a b ss =
    let moved : suc (length pre) + 1 ≡ suc (length pre + 1) = omega arith in
    rw moved (get_or-append_next pre a b ss)

-- One round of the loop.
module _ (n i : ℕ) (start node : Ptr) (segments : List Text) (s : Vfs) where
  round_stop :
      (strlen (get_or segments i []) == 0) ≡ false
      → i + 2 ≡ length segments
      → get_parent_from (suc n) i start node segments s ≡ ok node s
  unfolding get_parent_from
  round_stop named end =
      let stop : (i + 2 == length segments) ≡ true = ground arith in rw (named, stop)

  round_down :
      (strlen (get_or segments i []) == 0) ≡ false
      → i + 2 ≢ length segments
      → get_parent_from (suc n) i start node segments s
        ≡ on_ok
            (find_node node (get_or segments (i + 1) []) s)
            (λ m. get_parent_from n (i + 1) start m segments)
  unfolding get_parent_from
  round_down named more =
      let go : (i + 2 == length segments) ≡ false = ground arith in rw (named, go)

  round_first :
      (strlen (get_or segments i []) == 0) ≡ true
      → length segments ≢ 2
      → get_parent_from (suc n) i start node segments s
        ≡ on_ok
            (find_node start (get_or segments (i + 1) []) s)
            (λ m. get_parent_from n (i + 1) start m segments)
  unfolding get_parent_from
  round_first empty more = let go : (length segments == 2) ≡ false = ground arith in rw (empty, go)

  round_single :
      (strlen (get_or segments i []) == 0) ≡ true
      → length segments ≡ 2
      → get_parent_from (suc n) i start node segments s ≡ ok start s
  unfolding get_parent_from
  round_single empty two =
      let stop : (length segments == 2) ≡ true = ground arith in rw (empty, stop)

strlen-nil : (strlen [] == 0) ≡ true
unfolding strlen
strlen-nil = refl

-- From a segment `a` that is a name, with the names `ss` and a last segment behind it.
get_parent_from-walk :
    (ss pre : List Text) (a last : Text) (start node : Ptr) (s : Vfs)
    → strlen a ≢ 0
    → AreNames ss
    → get_parent_from (suc (length ss)) (length pre) start node (pre ++ a ∷ (ss ++ last ∷ [])) s
      ≡ walk node ss s
unfolding walk
get_parent_from-walk [] pre a last start node s ne names =
    let here = get_or-append pre a (last ∷ []) in
    round_stop 0 (length pre) start node (pre ++ a ∷ last ∷ []) s (rw here (ground arith))
      (omega (arith, length-append pre (a ∷ last ∷ [])))
get_parent_from-walk (b ∷ ss) pre a last start node s ne names =
    let rest = ss ++ last ∷ [] in
    let all = pre ++ a ∷ b ∷ rest in
    let here = get_or-append pre a (b ∷ rest) in
    round_down (suc (length ss)) (length pre) start node all s (rw here (ground arith))
      (omega (arith, length-append pre (a ∷ b ∷ rest), length-append ss (last ∷ [])))
    ∙ rw (get_or-append_next pre a b rest) (
        on_ok-congr (find_node node b s) _ _ (λ m t. rw (length-append pre (a ∷ [])) at (
          rw (append_assoc pre (a ∷ []) (b ∷ rest)) at
            (get_parent_from-walk ss (pre ++ a ∷ []) b last start m t names.0 names.1))))

-- On an absolute path whose middle segments are not empty `vfs_get_parent` gives the node that the
-- segments but the last lead to from `start`, and the state and faults of that walk.
pub get_parent-walk :
    (vec : VecOps Text) (start : Ptr) (path : Text) (ss : List Text) (last : Text) (s : Vfs)
    → IsText path
    → split path ≡ [] ∷ (ss ++ last ∷ [])
    → AreNames ss
    → get_parent vec start path s ≡ walk start ss s
unfolding get_parent walk
get_parent-walk vec start path [] last s t segments names =
    rw (parse_path-split vec path t, segments)
      (round_single 0 0 start start ([] ∷ last ∷ []) s strlen-nil refl)
get_parent-walk vec start path (b ∷ ss) last s t segments names =
    let rest = ss ++ last ∷ [] in
    let rounds : suc (length (b ∷ rest)) - 1 ≡ suc (suc (length ss)) =
      omega (arith, length-append ss (last ∷ [])) in
    rw (parse_path-split vec path t, segments, rounds)
      (round_first (suc (length ss)) 0 start start ([] ∷ b ∷ rest) s strlen-nil
          (omega (arith, length-append ss (last ∷ [])))
        ∙ on_ok-congr (find_node start b s) _ _
            (λ m t. get_parent_from-walk ss ([] ∷ []) b last start m t names.0 names.1))

-- Behind the first segment the loop does not look at it.
first_irrelevant :
    (n i : ℕ) (x y : Text) (ss : List Text) (start node : Ptr) (s : Vfs)
    → get_parent_from n (suc i) start node (x ∷ ss) s
      ≡ get_parent_from n (suc i) start node (y ∷ ss) s
unfolding get_parent_from
first_irrelevant zero i x y ss start node s = refl
first_irrelevant (suc n) i x y ss start node s =
    let moved : suc i + 1 ≡ suc (i + 1) = omega arith in
    let rest = λ (m : Ptr) (t : Vfs). first_irrelevant n (i + 1) x y ss start m t in
    rw moved (elim (Bool-cases (strlen (get_or ss i []) == 0)) [
      | inl e ↦ elim (Bool-cases (suc (length ss) == 2)) [
        | inl f ↦ rw (e, f)
        | inr f ↦ rw (e, f) (on_ok-congr (find_node start (get_or ss (i + 1) []) s) _ _ rest)
      ]
      | inr e ↦ elim (Bool-cases (suc i + 2 == suc (length ss))) [
        | inl f ↦ rw (e, f)
        | inr f ↦ rw (e, f) (on_ok-congr (find_node node (get_or ss (i + 1) []) s) _ _ rest)
      ]
    ])

parent_relative :
    (ss : List Text) (first : Text) (start : Ptr) (s : Vfs)
    → strlen first ≢ 0
    → get_parent_from (suc (length ss) - 1) 0 start start (first ∷ ss) s
      ≡ get_parent_from (suc (length ss) - 1) 0 start start ([] ∷ ss) s
parent_relative [] first start s named = unfold get_parent_from in refl
parent_relative (b ∷ ss) first start s named =
    let rounds : suc (length (b ∷ ss)) - 1 ≡ suc (length ss) = omega arith in
    let given : (strlen first == 0) ≡ false = ground arith in
    let n = length ss in
    rw rounds (elim (ℕ_discrete (length ss) 0) [
      | yes e ↦
          round_stop n 0 start start (first ∷ b ∷ ss) s given (omega arith)
          ∙ sym (round_single n 0 start start ([] ∷ b ∷ ss) s strlen-nil (omega arith))
      | no e ↦
          round_down n 0 start start (first ∷ b ∷ ss) s given (omega arith)
          ∙ on_ok-congr (find_node start b s) _ _
              (λ m t. first_irrelevant n 0 first [] (b ∷ ss) start m t)
          ∙ sym (round_first n 0 start start ([] ∷ b ∷ ss) s strlen-nil (omega arith))
    ])

-- The first segment of a relative path is never looked at: the parent of such a path is that of the
-- absolute path with the same segments behind the first.
pub get_parent-relative :
    (vec : VecOps Text) (start : Ptr) (relative absolute first : Text) (ss : List Text) (s : Vfs)
    → IsText relative
    → IsText absolute
    → split relative ≡ first ∷ ss
    → split absolute ≡ [] ∷ ss
    → strlen first ≢ 0
    → get_parent vec start relative s ≡ get_parent vec start absolute s
unfolding get_parent
get_parent-relative vec start relative absolute first ss s tr ta er ea named =
    rw (parse_path-split vec relative tr, parse_path-split vec absolute ta, er, ea)
      (parent_relative ss first start s named)
