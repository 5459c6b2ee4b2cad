-- ===== src/Vfs/Tests.antt =====
-- The file system's theorems at a concrete tree: "/" holds the directory "usr", and that holds the
-- file "a".
use best_os.Common.{
  Option-cases, Bool-cases, inl, inr, ap, sym, ◌∙◌, ◌+◌, ◌≡◌, ◌≢◌, refl, arith, false, not, ◌&&◌,
  some, none, List, [], ◌∷◌, ◌++◌, ◌==◌, if◌then◌else◌, take, drop, bit_and,
}
use best_os.Str.{
  Text, slash, strlen, str_eq, str_eq_from, is_some, basename, strtok, strtok_scan, strdup, strchr,
  strstr, strstr_loop, basename_loop, step_path,
}
use best_os.Str.Equality.{IsText, is_text, is_text-IsText}
use best_os.Str.Tokens.{split, cons_head}
use best_os.Vec.{VecOps}
use best_os.Vfs.{
  Ptr, null, file, directory, VfsNode, tmpfs, Vfs, ok, put, load, eisdir, Malloc, MallocLaws,
}
use best_os.Vfs.Parse.{parse_path, segments_from, parse_path-split}
use best_os.Vfs.Node.{find_in, find_node, get_parent, get_parent_from}
use best_os.Vfs.Node.Walk.{walk, get_parent-walk, get_parent-relative}
use best_os.Vfs.Open.{Env, o_creat, o_directory, is_directory, open_in, vfs_mkdir, vfs_mount}
use best_os.Vfs.Open.Lookup.{Creates, open_in-create}
use best_os.Vfs.Open.Mkdir.{Links, started, directory_node, vfs_mkdir-Links}
use best_os.Vfs.Open.Mount.{Mounted, vfs_mount-Mounted}
use best_os.Vfs.Open.Results.{opened, open_in-found}

abbrev list_vec : {A : Type 0} → VecOps A
list_vec = record {
  push = λ v a. v ++ a ∷ [];
  splice = λ v start count. take start v ++ drop (start + count) v;
  push_lem = λ v a. refl;
  splice_lem = λ v start count h. refl;
}

abbrev node_named : Text → List Ptr → VfsNode
node_named name children = record {
  type = directory;
  name = name;
  parent = 0;
  points_to = 0;
  children = children;
  mountpoint = 7;
  st_size = 0;
  cursor = 0;
  o_mode = 0;
  address = 0;
  internal_address = 0;
  init = false;
}

abbrev usr : Text
usr = b'u' ∷ b's' ∷ b'r' ∷ []

abbrev name_a : Text
name_a = b'a' ∷ []

abbrev root_node : VfsNode
root_node = node_named (slash ∷ []) (2 ∷ [])

abbrev usr_node : VfsNode
usr_node = node_named usr (3 ∷ [])

abbrev a_node : VfsNode
a_node = record (node_named name_a []) { type = file }

abbrev tree : Vfs
tree = record {
  nodes = λ p.
      if p == 1
      then some root_node
      else (if p == 2 then some usr_node else (if p == 3 then some a_node else none));
  mounts = λ p. none;
  mountpoints = [];
  root = 1;
  errno = 0;
}

-- The memory for the next node is at 10.
abbrev heap : Malloc
heap = record {
  node_at = λ s. 10;
  node_bytes = λ s. a_node;
  mount_at = λ s. 20;
  mount_bytes = λ s. record { fs = tmpfs; root = 0 };
  buffer_at = λ s size. 30;
}

abbrev env : Env
env = record { malloc = heap; texts = list_vec; ptrs = list_vec }

abbrev path_a : Text
path_a = slash ∷ (usr ++ slash ∷ name_a)

path_a-IsText : IsText path_a
unfolding is_text
path_a-IsText = is_text-IsText path_a refl

-- "xx/a" and "/a"
abbrev relative : Text
relative = b'x' ∷ b'x' ∷ slash ∷ name_a

relative-IsText : IsText relative
unfolding is_text
relative-IsText = is_text-IsText relative refl

name_a-IsText : IsText name_a
unfolding is_text
name_a-IsText = is_text-IsText name_a refl

absolute-IsText : IsText (slash ∷ name_a)
unfolding is_text
absolute-IsText = is_text-IsText (slash ∷ name_a) refl

path_a-split : split path_a ≡ [] ∷ (usr ∷ []) ++ name_a ∷ []
unfolding split cons_head
path_a-split = refl

relative-split : split relative ≡ (b'x' ∷ b'x' ∷ []) ∷ name_a ∷ []
unfolding split cons_head
relative-split = refl

absolute-split : split (slash ∷ name_a) ≡ [] ∷ name_a ∷ []
unfolding split cons_head
absolute-split = refl

usr-named : strlen usr ≢ 0
unfolding strlen
usr-named e = ground arith

xx-named : strlen (b'x' ∷ b'x' ∷ []) ≢ 0
unfolding strlen
xx-named e = ground arith

parse_path-split_example : parse_path list_vec path_a ≡ some (split path_a)
parse_path-split_example = parse_path-split list_vec path_a path_a-IsText

get_parent-walk_example : get_parent list_vec 1 path_a tree ≡ walk 1 (usr ∷ []) tree
get_parent-walk_example =
    get_parent-walk list_vec 1 path_a (usr ∷ []) name_a tree path_a-IsText path_a-split
      (usr-named, tt)

get_parent-relative_example :
    get_parent list_vec 1 relative tree ≡ get_parent list_vec 1 (slash ∷ name_a) tree
get_parent-relative_example =
    get_parent-relative list_vec 1 relative (slash ∷ name_a) (b'x' ∷ b'x' ∷ []) (name_a ∷ []) tree
      relative-IsText absolute-IsText relative-split absolute-split xx-named

a_found : find_node 2 name_a tree ≡ ok 3 tree
unfolding find_node find_in load str_eq str_eq_from strlen
a_found = refl

a_missing : find_node 1 name_a tree ≡ ok null tree
unfolding find_node find_in load str_eq str_eq_from strlen
a_missing = refl

usr_found : find_node 1 usr tree ≡ ok 2 tree
unfolding find_node find_in load str_eq str_eq_from strlen
usr_found = refl

heap-MallocLaws : MallocLaws heap tree
heap-MallocLaws = record { node_ne_null = λ e. ground arith; node_unused = refl }

open_in-create_example :
    (t : Vfs) × (open_in env 1 name_a o_creat tree ≡ ok 10 t)
    × Creates env 1 root_node name_a o_creat tree t
    × (find_node 1 name_a t ≡ ok 10 t)
open_in-create_example =
    open_in-create env 1 root_node name_a o_creat tree heap-MallocLaws name_a-IsText
      (λ e. ground arith) refl a_missing (λ e. ground arith)

open_in-found_example : open_in env 1 usr 0 tree ≡ (
    if bit_and 0 o_directory == 0 && is_directory usr_node.type
    then ok null (record tree { errno = eisdir })
    else ok
        (if bit_and 0 o_creat == 0 && not (usr_node.points_to == null)
          then usr_node.points_to
          else 2)
        (record tree { nodes = put tree.nodes 2 (opened 0 usr_node) }))
open_in-found_example = open_in-found env 1 2 usr usr_node 0 tree usr_found (λ e. ground arith) refl

-- A heap that gives the first free address from 10 on, which looks at three of them.
abbrev growing : Malloc
growing = record heap {
  node_at = λ s. if is_some (s.nodes 10) then (if is_some (s.nodes 11) then 12 else 11) else 10;
}

abbrev growing_env : Env
growing_env = record env { malloc = growing }

growing_at :
    (t : Vfs) (k : Ptr) → growing.node_at t ≡ k → k ≢ null → t.nodes k ≡ none → MallocLaws growing t
growing_at t k at ne free = record {
  node_ne_null = λ z. ne (sym at ∙ z);
  node_unused = ap t.nodes at ∙ free;
}

growing-MallocLaws :
    (t : Vfs) (a : Ptr)
    → ((x : Ptr) → x ≢ 10 → x ≢ a → t.nodes x ≡ tree.nodes x)
    → MallocLaws growing t
growing-MallocLaws t a same = elim (Option-cases (t.nodes 10)) [
  | inl e ↦ growing_at t 10 (rw e refl) (λ z. ground arith) e
  | inr (n, e) ↦ elim (Option-cases (t.nodes 11)) [
    | inl e' ↦ growing_at t 11 (rw (e, e') refl) (λ z. ground arith) e'
    | inr (n', e') ↦
        let last : t.nodes 12 ≡ none = elim (Bool-cases (a == 12)) [
          | inl at ↦ absurd (cc (e', same 11 (λ z. ground arith) (λ z. ground arith)))
          | inr at ↦ same 12 (λ z. ground arith) (λ z. ground arith)
        ] in
        growing_at t 12 (rw (e, e') refl) (λ z. ground arith) last
  ]
]

abbrev path_b : Text
path_b = slash ∷ (usr ++ slash ∷ b'b' ∷ [])

usr_parent :
    get_parent list_vec 1 path_b (started growing_env tree) ≡ ok 2 (started growing_env tree)
unfolding get_parent parse_path segments_from strtok strtok_scan strdup strchr get_parent_from
    strlen find_node load put find_in str_eq str_eq_from
usr_parent = refl

path_b-below : str_eq path_b (slash ∷ []) ≡ false
unfolding str_eq str_eq_from strlen
path_b-below = refl

path_b-base : basename path_b ≡ some (b'b' ∷ [])
unfolding basename strlen strstr strstr_loop basename_loop step_path
path_b-base = refl

vfs_mkdir-Links_example :
    (t : Vfs) × (vfs_mkdir growing_env path_b tree ≡ ok 10 t)
    × Links growing_env 10 2 (directory_node growing_env (b'b' ∷ []) 2 7 tree) usr_node tree t
vfs_mkdir-Links_example =
    vfs_mkdir-Links growing_env path_b (b'b' ∷ []) 2 usr_node root_node tree growing-MallocLaws
      path_b-below usr_parent path_b-base (λ e. ground arith) refl (λ e. ground arith) refl

vfs_mount-Mounted_example :
    (t : Vfs) × (vfs_mount growing_env path_b tmpfs tree ≡ ok 0 t)
    × Mounted 10 2 (b'b' ∷ []) tmpfs tree t
vfs_mount-Mounted_example =
    vfs_mount-Mounted growing_env path_b (b'b' ∷ []) tmpfs 2 usr_node root_node tree
      growing-MallocLaws path_b-below usr_parent path_b-base (λ e. ground arith) refl
      (λ e. ground arith) refl (omega arith)
