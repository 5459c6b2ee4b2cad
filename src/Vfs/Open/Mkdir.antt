-- ===== src/Vfs/Open/Mkdir.antt =====
-- The directory that `vfs_mkdir` makes below a parent.
use best_os.Common.{◌≡◌, ◌≢◌, refl, ap, sym, ◌∙◌, arith, false, none, some, List, [], ◌∷◌, ◌==◌}
use best_os.Str.{Text, slash, str_eq, basename}
use best_os.Vfs.{Ptr, null, VfsNode, directory, Vfs, ok, put, Malloc, MallocLaws}
use best_os.Vfs.Node.{get_parent}
use best_os.Vfs.Node.Scan.{load_ok, put_self, modify_ok}
use best_os.Vfs.Open.{Env, malloc_node, push_child, make_link, add_links, link_directory, vfs_mkdir}

-- The state after a node is allocated and the node `n` is written to it.
abbrev pub with_new : Env → VfsNode → Vfs → Vfs
with_new env n s =
    let p = env.malloc.node_at s in
    record s { nodes = put (put s.nodes p (env.malloc.node_bytes s)) p n }

abbrev pub link_of : Text → Ptr → VfsNode → VfsNode
link_of name target bytes = record bytes { type = directory; name = name; points_to = target }

make_link_lem :
    (env : Env) (name : Text) (target : Ptr) (s : Vfs)
    → MallocLaws env.malloc s
    → make_link env name target s
      ≡ ok (env.malloc.node_at s) (with_new env (link_of name target (env.malloc.node_bytes s)) s)
unfolding make_link malloc_node
make_link_lem env name target s laws =
    let p = env.malloc.node_at s in
    let bytes = env.malloc.node_bytes s in
    rw
      (modify_ok p _ bytes (record s { nodes = put s.nodes p bytes }) laws.node_ne_null
        (put_self s.nodes p bytes))
      refl

-- A new node is at no address in use.
new_apart :
    {m : Malloc} (a : Ptr) (n : VfsNode) (s : Vfs)
    → MallocLaws m s
    → s.nodes a ≡ some n
    → m.node_at s ≢ a
new_apart a n s laws there e = cc (laws.node_unused, ap s.nodes e)

-- What the links of the directory `node` below `parent` leave.
pub record Links (env : Env) (node parent : Ptr) (made dir : VfsNode) (s t : Vfs) : Type 0 where
  pub prev : Ptr
  pub curr : Ptr
  pub prev_dir : VfsNode
  pub curr_dir : VfsNode
  pub at_node : t.nodes node ≡ some (record made { children = prev ∷ curr ∷ [] })
  pub at_prev : t.nodes prev ≡ some (link_of (b'.' ∷ b'.' ∷ []) parent prev_dir)
  pub at_curr : t.nodes curr ≡ some (link_of (b'.' ∷ []) node curr_dir)
  pub at_parent : t.nodes parent ≡ some (record dir { children = env.ptrs.push dir.children node })
  pub others : (a : Ptr) → a ≢ node → a ≢ parent → s.nodes a ≢ none → t.nodes a ≡ s.nodes a
  pub mounts : t.mounts ≡ s.mounts
  pub mountpoints : t.mountpoints ≡ s.mountpoints

-- The state after the link "..".
abbrev pub first_link : Env → Ptr → Vfs → Vfs
first_link env parent s =
    with_new env (link_of (b'.' ∷ b'.' ∷ []) parent (env.malloc.node_bytes s)) s

pushed : (env : Env) (p q : Ptr) → env.ptrs.push (env.ptrs.push [] p) q ≡ p ∷ q ∷ []
pushed env p q = rw (env.ptrs.push_lem [] p) (env.ptrs.push_lem (p ∷ []) q)

add_links-Links :
    (env : Env) (node parent : Ptr) (made dir : VfsNode) (s : Vfs)
    → MallocLaws env.malloc s
    → MallocLaws env.malloc (first_link env parent s)
    → node ≢ null
    → parent ≢ null
    → node ≢ parent
    → s.nodes node ≡ some made
    → made.children ≡ []
    → s.nodes parent ≡ some dir
    → (t : Vfs) × (add_links env node parent s ≡ ok node t) × Links env node parent made dir s t
unfolding add_links push_child
add_links-Links env node parent made dir s laws laws' ne ne' apart at_node empty there =
    let q = env.malloc.node_at s in
    let s1 = first_link env parent s in
    let q' = env.malloc.node_at s1 in
    let h = link_of (b'.' ∷ b'.' ∷ []) parent (env.malloc.node_bytes s) in
    let h' = link_of (b'.' ∷ []) node (env.malloc.node_bytes s1) in
    let q_node = new_apart node made s laws at_node in
    let q_parent = new_apart parent dir s laws there in
    let at_node1 : s1.nodes node ≡ some made = unfold put in ground arith in
    let at_parent1 : s1.nodes parent ≡ some dir = unfold put in ground arith in
    let q'_node = new_apart node made s1 laws' at_node1 in
    let q'_parent = new_apart parent dir s1 laws' at_parent1 in
    let q'_q = new_apart q h s1 laws' (put_self _ q h) in
    let q'_unused : s.nodes q' ≡ none = unfold put in ground (arith, laws'.node_unused) in
    let s2 = with_new env h' s1 in
    let m1 = record made { children = env.ptrs.push made.children q } in
    let s3 = record s { nodes = put s2.nodes node m1 } in
    let m2 = record made { children = env.ptrs.push (env.ptrs.push made.children q) q' } in
    let s4 = record s { nodes = put s3.nodes node m2 } in
    let dir' = record dir { children = env.ptrs.push dir.children node } in
    let at_node2 : s2.nodes node ≡ some made = unfold put in ground arith in
    let at_parent4 : s4.nodes parent ≡ some dir = unfold put in ground arith in
    let both : env.ptrs.push (env.ptrs.push made.children q) q' ≡ q ∷ q' ∷ [] =
      ap (λ (ps : List Ptr). env.ptrs.push (env.ptrs.push ps q) q') empty ∙ pushed env q q' in
    let node_kept : put s4.nodes parent dir' node ≡ some m2 = unfold put in ground arith in
    (
      record s { nodes = put s4.nodes parent dir' },
      rw
          (
            make_link_lem env (b'.' ∷ b'.' ∷ []) parent s laws,
            make_link_lem env (b'.' ∷ []) node s1 laws',
            modify_ok node _ made s2 ne at_node2,
            modify_ok node _ m1 s3 ne (put_self _ node m1),
            modify_ok parent _ dir s4 ne' at_parent4,
          )
          refl,
      record {
        prev = q;
        curr = q';
        prev_dir = env.malloc.node_bytes s;
        curr_dir = env.malloc.node_bytes s1;
        at_node = node_kept ∙ ap (λ (ps : List Ptr). some (record made { children = ps })) both;
        at_prev = unfold put in ground arith;
        at_curr = unfold put in ground arith;
        at_parent = put_self _ parent dir';
        mounts = refl;
        mountpoints = refl;
        others = λ a n m held.
            let a_q : a ≢ q = λ e. held (ap s.nodes e ∙ laws.node_unused) in
            let a_q' : a ≢ q' = λ e. held (ap s.nodes e ∙ q'_unused) in unfold put in ground arith;
      },
    )

-- The state after the first allocation, with the node of a directory without children.
abbrev pub started : Env → Vfs → Vfs
started env s =
    with_new env (record (env.malloc.node_bytes s) { type = directory; children = [] }) s

-- The node of the new directory before its links.
abbrev pub directory_node : Env → Text → Ptr → Ptr → Vfs → VfsNode
directory_node env base parent mount s = record (env.malloc.node_bytes s) {
  type = directory;
  children = [];
  parent = parent;
  name = base;
  mountpoint = mount;
}

-- `vfs_mkdir` of a path other than "/", whose parent is there and whose last segment is `base`,
-- returns a new node: a directory of that name with the parent's address and the mount point of
-- the root, whose two children are a directory ".." that points to the parent and a directory "."
-- that points to the new node. The new node is appended to the parent's children, and no other node
-- changes. Every allocation gives memory that is not in use, also after one or two nodes have been
-- made, and the look-up of the parent is made after the first allocation.
pub vfs_mkdir-Links :
    (env : Env) (path base : Text) (parent : Ptr) (dir top : VfsNode) (s : Vfs)
    → ((t : Vfs) (a : Ptr)
        → ((x : Ptr) → x ≢ env.malloc.node_at s → x ≢ a → t.nodes x ≡ s.nodes x)
        → MallocLaws env.malloc t)
    → str_eq path (slash ∷ []) ≡ false
    → get_parent env.texts s.root path (started env s) ≡ ok parent (started env s)
    → basename path ≡ some base
    → parent ≢ null
    → s.nodes parent ≡ some dir
    → s.root ≢ null
    → s.nodes s.root ≡ some top
    → (t : Vfs) × (vfs_mkdir env path s ≡ ok (env.malloc.node_at s) t)
      × Links env
          (env.malloc.node_at s)
          parent
          (directory_node env base parent top.mountpoint s)
          dir
          s
          t
unfolding vfs_mkdir link_directory malloc_node
vfs_mkdir-Links env path base parent dir top s fresh below look name ne there ne_root at_root =
    let p = env.malloc.node_at s in
    let laws = fresh s p (λ x h k. refl) in
    let ne_p = laws.node_ne_null in
    let apart : p ≢ parent = new_apart parent dir s laws there in
    let p_root : p ≢ s.root = new_apart s.root top s laws at_root in
    let g0 = env.malloc.node_bytes s in
    let g1 = record g0 { type = directory; children = [] } in
    let g2 = record g1 { parent = parent; name = base } in
    let made = directory_node env base parent top.mountpoint s in
    let s1 = record s { nodes = put s.nodes p g0 } in
    let s2 = started env s in
    let s3 = record s { nodes = put s2.nodes p g2 } in
    let s4 = record s { nodes = put s3.nodes p made } in
    let not_null : (parent == null) ≡ false = ground arith in
    let at_root3 : s3.nodes s.root ≡ some top = unfold put in ground arith in
    let at_parent4 : s4.nodes parent ≡ some dir = unfold put in ground arith in
    let (t, run, links) =
      add_links-Links env p parent made dir s4 (fresh s4 p (λ x h k. unfold put in ground arith))
        (fresh (first_link env parent s4) (env.malloc.node_at s4)
          (λ x h k. unfold put in ground arith))
        ne_p ne apart (put_self _ p made) refl at_parent4 in
    (
      t,
      rw
          (
            modify_ok p _ g0 s1 ne_p (put_self _ p g0),
            below,
            look,
            name,
            modify_ok p _ g1 s2 ne_p (put_self _ p g1),
            not_null,
            load_ok s.root top s3 ne_root at_root3,
            modify_ok p _ g2 s3 ne_p (put_self _ p g2),
          )
          run,
      record {
        prev = links.prev;
        curr = links.curr;
        prev_dir = links.prev_dir;
        curr_dir = links.curr_dir;
        at_node = links.at_node;
        at_prev = links.at_prev;
        at_curr = links.at_curr;
        at_parent = links.at_parent;
        mounts = links.mounts;
        mountpoints = links.mountpoints;
        others = λ a n m held.
            let before : s4.nodes a ≡ s.nodes a = unfold put in ground arith in
            links.others a n m (λ e. held (sym before ∙ e)) ∙ before;
      },
    )
