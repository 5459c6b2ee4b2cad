-- ===== src/Vfs/Node.antt =====
-- `vfs_find_node` and `vfs_get_parent`.
pub mod Walk
pub mod Scan
use best_os.Common.{
  ℕ, zero, suc, ◌+◌, ◌-◌, Bool, true, false, Option, none, some, List, [], ◌∷◌, ◌==◌, if◌then◌else◌,
  length, get_or,
}
use best_os.Str.{Text, strlen, str_eq}
use best_os.Vec.{VecOps}
use best_os.Vfs.{Ptr, null, Cmd, pure, ◌>>=◌, ◌>>◌, of_option, load, set_errno, enoent}
use best_os.Vfs.Parse.{parse_path}

-- The scan of a vector of children.
unfoldable pub find_in : Text → List Ptr → Cmd Ptr
find_in name [] = pure null
find_in name (p ∷ ps) = do
  child ← load p
  if str_eq name child.name then pure p else find_in name ps

-- First the children of the node that `start` points to, then its own.
unfoldable pub find_node : Ptr → Text → Cmd Ptr
find_node start name = do
  n ← load start
  hit ←
      (if n.points_to == null then pure null else do t ← load n.points_to; find_in name t.children)
  if hit == null then find_in name n.children else pure hit

-- The end of `vfs_get_parent`.
unfoldable pub report : Ptr → Cmd Ptr
report node = if node == null then set_errno enoent >> pure node else pure node

-- The loop of `vfs_get_parent`: the rounds left, and `i`.
unfoldable pub get_parent_from : ℕ → ℕ → Ptr → Ptr → List Text → Cmd Ptr
get_parent_from zero i start node segments = report node
get_parent_from (suc n) i start node segments =
    let after = get_parent_from n (i + 1) start in
    if strlen (get_or segments i []) == 0
    then (if length segments == 2
        then pure start
        else do node' ← find_node start (get_or segments (i + 1) []); after node' segments)
    else (if i + 2 == length segments
        then pure node
        else do node' ← find_node node (get_or segments (i + 1) []); after node' segments)

unfoldable pub get_parent : VecOps Text → Ptr → Text → Cmd Ptr
get_parent vec start path = do
  segments ← of_option (parse_path vec path)
  get_parent_from (length segments - 1) 0 start start segments
