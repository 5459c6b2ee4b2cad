-- ===== src/Vfs/Open/Lookup.antt =====
-- The file that `vfs_open` creates, and the look-up of its name.
use best_os.Common.{
  ℕ, ◌≡◌, ◌≢◌, refl, ap, sym, ◌∙◌, arith, true, false, some, [], ◌∷◌, ◌==◌, bit_and, Bool-cases,
  ==_iff, inl, inr,
}
use mathlib.Core.List.{append-nil}
use best_os.Str.{Text, str_eq, strdup}
use best_os.Str.Equality.{IsText, str_eq_iff}
use best_os.Str.Copy.{strdup_lem}
use best_os.Vfs.{Ptr, null, VfsNode, file, Vfs, ok, put, MallocLaws}
use best_os.Vfs.Node.{find_in, find_node}
use best_os.Vfs.Node.Scan.{
  Keeps, find_in-append, find_in-hit, load_ok, put_self, modify_ok, Missed, find_node-Missed,
}
use best_os.Vfs.Open.{
  Env, o_creat, o_directory, malloc_node, push_child, create_file, unwanted_directory, open_node,
  open_or_create, open_in,
}

-- What `vfs_open` does to create a file.
pub record Creates (env : Env) (parent : Ptr) (dir : VfsNode) (base : Text) (flags : ℕ) (s t : Vfs)
    : Type 0 where
  pub child : VfsNode
  pub at_child : t.nodes (env.malloc.node_at s) ≡ some child
  pub child_name : child.name ≡ strdup base
  pub child_type : child.type ≡ file
  pub child_parent : child.parent ≡ parent
  pub child_mode : child.o_mode ≡ flags
  pub child_mount : child.mountpoint ≡ dir.mountpoint
  pub at_parent :
      t.nodes parent
      ≡ some (record dir { children = env.ptrs.push dir.children (env.malloc.node_at s) })
  pub others : (a : Ptr) → a ≢ parent → a ≢ env.malloc.node_at s → t.nodes a ≡ s.nodes a

Creates-Keeps :
    {env : Env} {parent : Ptr} {dir : VfsNode} {base : Text} {flags : ℕ} {s t : Vfs}
    → MallocLaws env.malloc s
    → s.nodes parent ≡ some dir
    → Creates env parent dir base flags s t
    → Keeps s t
Creates-Keeps {env} {parent} {dir} {s} laws there c a n at = elim (Bool-cases (a == parent)) [
  | inl e ↦
      let here : a ≡ parent = ground arith in
      (
        record dir { children = env.ptrs.push dir.children (env.malloc.node_at s) },
        rw here c.at_parent,
        ground (arith, ap s.nodes here),
      )
  | inr e ↦
      (n, c.others a (λ z. ground arith) (λ z. cc (laws.node_unused, ap s.nodes z)) ∙ at, refl)
]

create_file-Creates :
    (env : Env) (parent : Ptr) (dir : VfsNode) (base : Text) (flags : ℕ) (s : Vfs)
    → MallocLaws env.malloc s
    → parent ≢ null
    → s.nodes parent ≡ some dir
    → (t : Vfs) × (create_file env parent base flags s ≡ ok (env.malloc.node_at s) t)
      × Creates env parent dir base flags s t
unfolding create_file malloc_node push_child
create_file-Creates env parent dir base flags s laws ne there =
    let p = env.malloc.node_at s in
    let apart : p ≢ parent = λ e. cc (laws.node_unused, ap s.nodes e) in
    let ne' = laws.node_ne_null in
    let g0 = env.malloc.node_bytes s in
    let g1 = record g0 { name = strdup base; type = file; parent = parent; o_mode = flags } in
    let g2 = record g1 { mountpoint = dir.mountpoint } in
    let s1 = record s { nodes = put s.nodes p g0 } in
    let s2 = record s { nodes = put s1.nodes p g1 } in
    let s3 = record s { nodes = put s2.nodes p g2 } in
    let g3 = record g2 { address = env.malloc.buffer_at s3 2 } in
    let s4 = record s { nodes = put s3.nodes p g3 } in
    let dir' = record dir { children = env.ptrs.push dir.children p } in
    (
      record s { nodes = put s4.nodes parent dir' },
      rw (
        modify_ok p _ g0 s1 ne' (put_self s.nodes p g0),
        load_ok parent dir s2 ne (unfold put in ground arith),
        modify_ok p _ g1 s2 ne' (put_self s1.nodes p g1),
        modify_ok p _ g2 s3 ne' (put_self s2.nodes p g2),
        modify_ok parent _ dir s4 ne (unfold put in ground arith),
      ),
      record {
        child = g3;
        at_child = unfold put in ground arith;
        child_name = refl;
        child_type = refl;
        child_parent = refl;
        child_mode = refl;
        child_mount = refl;
        at_parent = put_self s4.nodes parent dir';
        others = λ a n m. unfold put in ground arith;
      },
    )

-- After the new child is pushed, the scans come to it.
find_node-Creates :
    (env : Env) (parent : Ptr) (dir : VfsNode) (base : Text) (flags : ℕ) (s t : Vfs)
    → MallocLaws env.malloc s
    → IsText base
    → parent ≢ null
    → s.nodes parent ≡ some dir
    → Missed base dir s
    → Creates env parent dir base flags s t
    → find_node parent base t ≡ ok (env.malloc.node_at s) t
unfolding find_node find_in
find_node-Creates env parent dir base flags s t laws text ne there missed c =
    let p = env.malloc.node_at s in
    let hit : str_eq base c.child.name ≡ true =
      rw (c.child_name, strdup_lem base text) ((str_eq_iff base base text text).1 refl) in
    let own : find_in base (env.ptrs.push dir.children p) t ≡ ok p t =
      rw (env.ptrs.push_lem dir.children p) (
        find_in-append base dir.children (p ∷ []) s t (Creates-Keeps laws there c) missed.own
        ∙ find_in-hit base p [] c.child t (laws.node_ne_null) c.at_child hit) in
    let found : (p == null) ≡ false = ground (arith, laws.node_ne_null) in
    rw (load_ok parent _ t ne c.at_parent) (elim missed.linked [
      | inl z ↦
          let none_linked : (dir.points_to == null) ≡ true = ground arith in rw (none_linked) own
      | inr (node, link, at, miss) ↦
          let q = dir.points_to in
          let linked : (q == null) ≡ false = ground arith in
          rw linked (elim (Bool-cases (q == parent)) [
            | inl e ↦
                let at' = ap t.nodes ((==_iff q parent).0 e) ∙ c.at_parent in
                rw (load_ok q _ t link at', own, found)
            | inr e ↦
                let kept =
                  c.others q (λ z. ground arith) (λ z. cc (laws.node_unused, ap s.nodes z)) ∙ at in
                let scan : find_in base node.children t ≡ ok null t =
                  ap (λ ps. find_in base ps t) (sym (append-nil node.children))
                  ∙ find_in-append base node.children [] s t (Creates-Keeps laws there c) miss in
                rw (load_ok q node t link kept, scan) own
          ])
    ])

-- With O_CREAT, where the directory has no entry of that name, `vfs_open` always succeeds: it makes
-- a file node with the copied name, the parent, the flags and the parent's mount point, appends it to
-- the parent's children, changes no other node, and `vfs_find_node` finds the new node from then on.
pub open_in-create :
    (env : Env) (parent : Ptr) (dir : VfsNode) (base : Text) (flags : ℕ) (s : Vfs)
    → MallocLaws env.malloc s
    → IsText base
    → parent ≢ null
    → s.nodes parent ≡ some dir
    → find_node parent base s ≡ ok null s
    → bit_and flags o_creat ≢ 0
    → (t : Vfs) × (open_in env parent base flags s ≡ ok (env.malloc.node_at s) t)
      × Creates env parent dir base flags s t
      × (find_node parent base t ≡ ok (env.malloc.node_at s) t)
unfolding open_in unwanted_directory open_node open_or_create
open_in-create env parent dir base flags s laws text ne there missing creat =
    let (t, run, c) = create_file-Creates env parent dir base flags s laws ne there in
    let creating : (bit_and flags o_creat == 0) ≡ false = ground arith in
    let allowed : unwanted_directory env null flags s ≡ ok false s =
      elim (Bool-cases (bit_and flags o_directory == 0)) [ inl e ↦ rw e | inr e ↦ rw e ] in
    let missed = find_node-Missed base parent dir s ne there missing in
    (
      t,
      rw (missing, allowed, creating) run,
      c,
      find_node-Creates env parent dir base flags s t laws text ne there missed c,
    )
