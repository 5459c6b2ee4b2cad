-- ===== src/Vfs/Open/Mount.antt =====
-- The mount point that `vfs_mount` makes below the root.
use best_os.Common.{
  Option, ◌≡◌, ◌≢◌, ◌<◌, refl, ap, arith, true, false, none, some, List, [], ◌∷◌, ◌++◌, ◌==◌, ltb,
  length,
}
use best_os.Str.{Text, slash, str_eq, basename}
use best_os.Vfs.{Ptr, null, VfsNode, Filesystem, Mountpoint, Vfs, ok, put, MallocLaws}
use best_os.Vfs.Node.{get_parent}
use best_os.Vfs.Node.Scan.{put_self, modify_ok}
use best_os.Vfs.Open.{Env, malloc_mount, modify_mount, record_mount, mount_below, vfs_mount}
use best_os.Vfs.Open.Mkdir.{started, directory_node, vfs_mkdir-Links}

-- A file system `fs` mounted at the new directory `node`.
pub record Mounted (node parent : Ptr) (base : Text) (fs : Filesystem) (s t : Vfs) : Type 0 where
  pub mount_at : Ptr
  pub mount : Mountpoint
  pub made : VfsNode
  pub at_node : t.nodes node ≡ some made
  pub made_name : made.name ≡ base
  pub made_parent : made.parent ≡ parent
  pub made_mount : made.mountpoint ≡ mount_at
  pub at_mount : t.mounts mount_at ≡ some mount
  pub mount_fs : mount.fs ≡ fs
  pub listed : t.mountpoints ≡ s.mountpoints ++ mount ∷ []
  pub nodes : (a : Ptr) → a ≢ node → a ≢ parent → s.nodes a ≢ none → t.nodes a ≡ s.nodes a
  pub mounts : (a : Ptr) → a ≢ mount_at → t.mounts a ≡ s.mounts a

modify_mount_ok :
    (env : Env) (p : Ptr) (f : Mountpoint → Mountpoint) (m : Mountpoint) (s : Vfs)
    → s.mounts p ≡ some m
    → modify_mount env p f s ≡ ok tt (record s { mounts = put s.mounts p (f m) })
unfolding modify_mount
modify_mount_ok env p f m s at = rw (modify_mount, at) refl

record_mount_ok :
    (env : Env) (p : Ptr) (m : Mountpoint) (s : Vfs)
    → s.mounts p ≡ some m
    → length s.mountpoints < 64
    → record_mount env p s ≡ ok tt (record s { mountpoints = s.mountpoints ++ m ∷ [] })
unfolding record_mount
record_mount_ok env p m s at room =
    let e : ltb (length s.mountpoints) 64 ≡ true = ground arith in rw (record_mount, at, e) refl

-- `vfs_mount` below the root returns 0 and leaves a new directory of the last segment's name below
-- the parent, whose mount point is a new one with the given file system; the mount point is
-- appended to the list of mount points, the other mount points stay, and no other node but the
-- parent changes. The path is not "/" and its parent is there, looked up after the first allocation;
-- the list has room; and every allocation of a node gives memory that is not in use, also after one
-- or two nodes have been made.
pub vfs_mount-Mounted :
    (env : Env) (path base : Text) (fs : Filesystem) (parent : Ptr) (dir top : VfsNode) (s : Vfs)
    → ((t : Vfs) (a : Ptr)
        → ((x : Ptr) → x ≢ env.malloc.node_at s → x ≢ a → t.nodes x ≡ s.nodes x)
        → MallocLaws env.malloc t)
    → str_eq path (slash ∷ []) ≡ false
    → get_parent env.texts s.root path (started env s) ≡ ok parent (started env s)
    → basename path ≡ some base
    → parent ≢ null
    → s.nodes parent ≡ some dir
    → s.root ≢ null
    → s.nodes s.root ≡ some top
    → length s.mountpoints < 64
    → (t : Vfs) × (vfs_mount env path fs s ≡ ok 0 t)
      × Mounted (env.malloc.node_at s) parent base fs s t
unfolding vfs_mount mount_below malloc_mount
vfs_mount-Mounted env path base fs parent dir top s fresh below look name ne there ne_root at_root
      room =
    let p = env.malloc.node_at s in
    let ne_p = (fresh s p (λ x h k. refl)).node_ne_null in
    let (t1, run, links) =
      vfs_mkdir-Links env path base parent dir top s fresh below look name ne there ne_root
        at_root in
    let made = record (directory_node env base parent top.mountpoint s) {
      children = links.prev ∷ links.curr ∷ [];
    } in
    let m = env.malloc.mount_at t1 in
    let bytes = env.malloc.mount_bytes t1 in
    let t2 = record t1 { mounts = put t1.mounts m bytes } in
    let made' = record made { mountpoint = m } in
    let t3 = record t2 { nodes = put t2.nodes p made' } in
    let mount = record bytes { fs = fs } in
    let t4 = record t3 { mounts = put t3.mounts m mount } in
    let has_root : (s.root == null) ≡ false = ground arith in
    let fits : length t1.mountpoints < 64 =
      omega (arith, ap (λ (ms : List Mountpoint). length ms) links.mountpoints, room) in
    (
      record t4 { mountpoints = t4.mountpoints ++ mount ∷ [] },
      rw
          (
            has_root,
            run,
            modify_ok p _ made t2 ne_p links.at_node,
            modify_mount_ok env m _ bytes t3 (put_self _ m bytes),
            record_mount_ok env m mount t4 (put_self _ m mount) fits,
          )
          refl,
      record {
        mount_at = m;
        mount = mount;
        made = made';
        at_node = put_self _ p made';
        made_name = refl;
        made_parent = refl;
        made_mount = refl;
        at_mount = put_self _ m mount;
        mount_fs = refl;
        listed = ap (λ (ms : List Mountpoint). ms ++ mount ∷ []) links.mountpoints;
        nodes = λ a n other held.
            let kept = links.others a n other held in unfold put in ground (arith, kept);
        mounts = λ a other.
            let kept = ap (λ (h : Ptr → Option Mountpoint). h a) links.mounts in
            unfold put in ground (arith, kept);
      },
    )
