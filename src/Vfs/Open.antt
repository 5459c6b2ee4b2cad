-- ===== src/Vfs/Open.antt =====
-- `vfs_open`, `vfs_mkdir` and `vfs_mount`. The log lines of `nerd_logs` change nothing and are left out.
pub mod Lookup
pub mod Results
pub mod Mkdir
pub mod Mount
use best_os.Common.{
  ℕ, zero, suc, ◌+◌, Bool, true, false, not, ◌&&◌, Option, none, some, List, [], ◌∷◌, ◌++◌, ltb,
  ◌==◌, if◌then◌else◌, bit_and, length,
}
use best_os.Str.{Text, slash, str_eq, basename, strdup}
use best_os.Vec.{VecOps}
use best_os.Vfs.{
  Ptr, null, VfsNodeType, file, directory, VfsNode, Filesystem, Mountpoint, Vfs, Run, ok, fault,
  Cmd, pure, ◌>>=◌, ◌>>◌, of_option, put, load, store_node, set_errno, modify, enoent, eisdir,
  Malloc,
}
use best_os.Vfs.Node.{find_node, get_parent}

abbrev pub o_append : ℕ
o_append = 0x0008

abbrev pub o_creat : ℕ
o_creat = 0x0010

abbrev pub o_directory : ℕ
o_directory = 0x0020

abbrev pub is_directory : VfsNodeType → Bool
is_directory file = false
is_directory directory = true

abbrev pub get_root : Cmd Ptr
get_root s = ok s.root s

-- The libraries that the file system calls.
pub record Env : Type 0 where
  pub malloc : Malloc
  pub texts : VecOps Text
  pub ptrs : VecOps Ptr

module _ (env : Env) where
  -- `malloc(sizeof(VfsNode))`: the node begins with what the memory holds.
  unfoldable pub malloc_node : Cmd Ptr
  malloc_node s =
      ok (env.malloc.node_at s)
        (record s { nodes = put s.nodes (env.malloc.node_at s) (env.malloc.node_bytes s) })

  unfoldable pub malloc_mount : Cmd Ptr
  malloc_mount s =
      ok (env.malloc.mount_at s)
        (record s { mounts = put s.mounts (env.malloc.mount_at s) (env.malloc.mount_bytes s) })

  abbrev pub malloc_buffer : ℕ → Cmd ℕ
  malloc_buffer size s = ok (env.malloc.buffer_at s size) s

  -- `vec_push(&p->children, child)`.
  unfoldable pub push_child : Ptr → Ptr → Cmd (Unit {0})
  push_child p child = modify p (λ n. record n { children = env.ptrs.push n.children child })

  -- The file that `vfs_open` creates.
  unfoldable pub create_file : Ptr → Text → ℕ → Cmd Ptr
  create_file parent base flags = do
    ret ← malloc_node
    modify ret (λ n. record n { name = strdup base; type = file; parent = parent; o_mode = flags })
    dir ← load parent
    modify ret (λ n. record n { mountpoint = dir.mountpoint })
    buffer ← malloc_buffer 2
    modify ret (λ n. record n { address = buffer })
    push_child parent ret
    pure ret

  -- A node that is a directory, asked for without O_DIRECTORY.
  unfoldable pub unwanted_directory : Ptr → ℕ → Cmd Bool
  unwanted_directory node flags =
      if bit_and flags o_directory == 0 && not (node == null)
      then (do n ← load node; pure (is_directory n.type))
      else pure false

  -- The end of `vfs_open` without O_CREAT, and with it, from the node that was found.
  unfoldable pub open_existing : Ptr → ℕ → Cmd Ptr
  open_existing node flags = if node == null then set_errno enoent >> pure null else do
    modify node (λ n. record n { o_mode = flags })
    n ← load node
    pure (if n.points_to == null then node else n.points_to)

  unfoldable pub open_or_create : Ptr → Text → Ptr → ℕ → Cmd Ptr
  open_or_create parent base node flags =
      if node == null
      then create_file parent base flags
      else modify node (λ n. record n { o_mode = flags }) >> pure node

  unfoldable pub open_node : Ptr → Text → Ptr → ℕ → Cmd Ptr
  open_node parent base node flags =
      if bit_and flags o_creat == 0
      then open_existing node flags
      else open_or_create parent base node flags

  -- `vfs_open` below the parent.
  unfoldable pub open_in : Ptr → Text → ℕ → Cmd Ptr
  open_in parent base flags = do
    node ← find_node parent base
    refused ← unwanted_directory node flags
    if refused then set_errno eisdir >> pure null else open_node parent base node flags

  -- `start` is ignored: the path is looked up from the root.
  unfoldable pub vfs_open : Ptr → Text → ℕ → Cmd Ptr
  vfs_open start path flags = do
    top ← get_root
    parent ← get_parent env.texts top path
    if parent == null
        then set_errno enoent >> pure null
        else do base ← of_option (basename path); open_in parent base flags

  -- The directories "." and ".." of a new directory.
  unfoldable pub make_link : Text → Ptr → Cmd Ptr
  make_link name target = do
    link ← malloc_node
    modify link (λ n. record n { type = directory; name = name; points_to = target })
    pure link

  unfoldable pub add_links : Ptr → Ptr → Cmd Ptr
  add_links node parent = do
    prev_dir ← make_link (b'.' ∷ b'.' ∷ []) parent
    curr_dir ← make_link (b'.' ∷ []) node
    push_child node prev_dir
    push_child node curr_dir
    push_child parent node
    pure node

  -- `vfs_mkdir` of a path other than "/", from the look-up of the parent on.
  unfoldable pub link_directory : Ptr → Ptr → Text → Cmd Ptr
  link_directory top node path = do
    parent ← get_parent env.texts top path
    base ← of_option (basename path)
    modify node (λ n. record n { parent = parent; name = base })
    if parent == null then set_errno enoent >> pure null else do
      r ← load top
      modify node (λ n. record n { mountpoint = r.mountpoint })
      add_links node parent

  -- `vfs_mkdir` of "/".
  unfoldable pub root_directory : Ptr → Cmd Ptr
  root_directory node = do
    mount ← malloc_mount
    modify node (λ n. record n { parent = node; mountpoint = mount; name = slash ∷ [] })
    pure node

  unfoldable pub vfs_mkdir : Text → Cmd Ptr
  vfs_mkdir path = do
    node ← malloc_node
    modify node (λ n. record n { type = directory; children = [] })
    top ← get_root
    if not (str_eq path (slash ∷ [])) then link_directory top node path else root_directory node

  -- A write of fields of a mount point.
  unfoldable pub modify_mount : Ptr → (Mountpoint → Mountpoint) → Cmd (Unit {0})
  modify_mount p f s = elim (s.mounts p) [
    | none ↦ fault
    | some m ↦ ok tt (record s { mounts = put s.mounts p (f m) })
  ]

  -- `mountpoints[mountpoints_n++] = *p`, on an array of 64.
  unfoldable pub record_mount : Ptr → Cmd (Unit {0})
  record_mount p s = elim (s.mounts p) [
    | none ↦ fault
    | some m ↦
        if ltb (length s.mountpoints) 64
        then ok tt (record s { mountpoints = s.mountpoints ++ m ∷ [] })
        else fault
  ]

  unfoldable pub set_root : Ptr → Cmd (Unit {0})
  set_root p s = ok tt (record s { root = p })

  -- `vfs_mount` of the root, and below it.
  unfoldable pub mount_root : Text → Filesystem → Cmd ℕ
  mount_root place fs = do
    tmp ← vfs_mkdir place
    set_root tmp
    r ← load tmp
    modify_mount r.mountpoint (λ m. record m { fs = fs })
    modify_mount r.mountpoint (λ m. record m { root = tmp })
    record_mount r.mountpoint
    pure 0

  unfoldable pub mount_below : Text → Filesystem → Cmd ℕ
  mount_below place fs = do
    node ← vfs_mkdir place
    mount ← malloc_mount
    modify node (λ n. record n { mountpoint = mount })
    modify_mount mount (λ m. record m { fs = fs })
    record_mount mount
    pure 0

  unfoldable pub vfs_mount : Text → Filesystem → Cmd ℕ
  vfs_mount place fs = do
    top ← get_root
    if top == null then mount_root place fs else mount_below place fs
