-- ===== src/Vfs/Open/Results.antt =====
-- What `vfs_open` returns for an entry that is there.
use best_os.Common.{
  ℕ, ◌≡◌, ◌≢◌, arith, false, not, ◌&&◌, some, ◌==◌, if◌then◌else◌, bit_and, Bool-cases, inl, inr,
}
use best_os.Str.{Text}
use best_os.Vfs.{Ptr, null, VfsNode, Vfs, ok, put, set_errno, eisdir}
use best_os.Vfs.Node.{find_node}
use best_os.Vfs.Node.Scan.{load_ok, modify_ok, put_self}
use best_os.Vfs.Open.{
  Env, o_creat, o_directory, is_directory, unwanted_directory, open_existing, open_or_create,
  open_node, open_in,
}

-- The node with the flags of the last `vfs_open`.
abbrev pub opened : ℕ → VfsNode → VfsNode
opened flags n = record n { o_mode = flags }

unwanted_directory-found :
    (env : Env) (node : Ptr) (n : VfsNode) (flags : ℕ) (s : Vfs)
    → node ≢ null
    → s.nodes node ≡ some n
    → unwanted_directory env node flags s
      ≡ ok (bit_and flags o_directory == 0 && is_directory n.type) s
unfolding unwanted_directory
unwanted_directory-found env node n flags s ne there =
    let here : (node == null) ≡ false = ground arith in
    elim (Bool-cases (bit_and flags o_directory == 0)) [
      | inl e ↦ rw (e, here, load_ok node n s ne there)
      | inr e ↦ rw e
    ]

open_node-found :
    (env : Env) (parent node : Ptr) (base : Text) (n : VfsNode) (flags : ℕ) (s : Vfs)
    → node ≢ null
    → s.nodes node ≡ some n
    → open_node env parent base node flags s
      ≡ ok
          (if bit_and flags o_creat == 0 && not (n.points_to == null) then n.points_to else node)
          (record s { nodes = put s.nodes node (opened flags n) })
unfolding open_node open_existing open_or_create
open_node-found env parent node base n flags s ne there =
    let here : (node == null) ≡ false = ground arith in
    let t = record s { nodes = put s.nodes node (opened flags n) } in
    elim (Bool-cases (bit_and flags o_creat == 0)) [
      | inl e ↦
          rw
            (
              e,
              here,
              modify_ok node (opened flags) n s ne there,
              load_ok node (opened flags n) t ne (put_self s.nodes node (opened flags n)),
            )
            (elim (Bool-cases (n.points_to == null)) [ inl z ↦ rw z | inr z ↦ rw z ])
      | inr e ↦ rw (e, here, modify_ok node (opened flags) n s ne there)
    ]

-- Where the entry is there, `vfs_open` refuses a directory that is not asked for as one, with EISDIR
-- and no change of a node. Otherwise it records the flags in the node, and returns the node, or,
-- without O_CREAT, the node that it points to.
pub open_in-found :
    (env : Env) (parent node : Ptr) (base : Text) (n : VfsNode) (flags : ℕ) (s : Vfs)
    → find_node parent base s ≡ ok node s
    → node ≢ null
    → s.nodes node ≡ some n
    → open_in env parent base flags s ≡ (
        if bit_and flags o_directory == 0 && is_directory n.type
        then ok null (record s { errno = eisdir })
        else ok
            (if bit_and flags o_creat == 0 && not (n.points_to == null) then n.points_to else node)
            (record s { nodes = put s.nodes node (opened flags n) }))
unfolding open_in set_errno
open_in-found env parent node base n flags s found ne there =
    elim (Bool-cases (bit_and flags o_directory == 0 && is_directory n.type)) [
      | inl e ↦ rw (found, unwanted_directory-found env node n flags s ne there, e)
      | inr e ↦
          rw (found, unwanted_directory-found env node n flags s ne there, e)
            (open_node-found env parent node base n flags s ne there)
    ]
