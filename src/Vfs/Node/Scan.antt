-- ===== src/Vfs/Node/Scan.antt =====
-- What the scans of `vfs_find_node` have seen, and loads and writes that do not fault.
use best_os.Common.{
  ◌≡◌, ◌≢◌, refl, arith, true, false, Option, none, some, List, [], ◌∷◌, ◌++◌, ◌==◌, if◌then◌else◌,
  ◌⊎◌, Bool-cases, Option-cases, inl, inr,
}
use best_os.Str.{Text, str_eq}
use best_os.Vfs.{
  Ptr, null, VfsNode, Vfs, Run, ok, fault, pure, on_ok, put, load, store_node, modify,
}
use best_os.Vfs.Node.{find_in, find_node}

-- Every node of `s` is still there in `t`, with its name and the node it points to.
abbrev pub Keeps : Vfs → Vfs → Type 0
Keeps s t =
    (a : Ptr) (n : VfsNode)
    → s.nodes a ≡ some n
    → (m : VfsNode) × (t.nodes a ≡ some m) × (m.name ≡ n.name)

-- What a scan that finds nothing has seen of its first child.
pub find_in-miss :
    (name : Text) (p : Ptr) (ps : List Ptr) (s : Vfs)
    → find_in name (p ∷ ps) s ≡ ok null s
    → (p ≢ null)
      × ((n : VfsNode) × (s.nodes p ≡ some n) × (str_eq name n.name ≡ false))
      × (find_in name ps s ≡ ok null s)
unfolding find_in load
find_in-miss name p ps s h = elim (Bool-cases (p == null)) [
  | inl e ↦ absurd (let bad : fault ≡ ok null s = rw e at h in cc)
  | inr e ↦ elim (Option-cases (s.nodes p)) [
    | inl gone ↦ absurd (let bad : fault ≡ ok null s = rw (e, gone) at h in cc)
    | inr (n, there) ↦ elim (Bool-cases (str_eq name n.name)) [
      | inl hit ↦ absurd (let bad : ok p s ≡ ok null s = rw (e, there, hit) at h in ground arith)
      | inr miss ↦ (λ z. ground arith, (n, there, miss), rw (e, there, miss) at h)
    ]
  ]
]

pub load_ok : (p : Ptr) (n : VfsNode) (s : Vfs) → p ≢ null → s.nodes p ≡ some n → load p s ≡ ok n s
unfolding load
load_ok p n s ne e = let there : (p == null) ≡ false = ground arith in rw (there, e)

pub load-none : (p : Ptr) (s : Vfs) → s.nodes p ≡ none → load p s ≡ fault
unfolding load
load-none p s e = elim (Bool-cases (p == null)) [ inl z ↦ rw z | inr z ↦ rw (z, e) ]

pub put_self : {A : Type 0} (h : Ptr → Option A) (p : Ptr) (a : A) → put h p a p ≡ some a
unfolding put
put_self h p a = ground arith

pub modify_ok :
    (p : Ptr) (f : VfsNode → VfsNode) (n : VfsNode) (s : Vfs)
    → p ≢ null
    → s.nodes p ≡ some n
    → modify p f s ≡ ok tt (record s { nodes = put s.nodes p (f n) })
unfolding modify store_node
modify_ok p f n s ne e = rw (load_ok p n s ne e)

-- Such a scan over a state that keeps the names goes on behind these children.
pub find_in-append :
    (name : Text) (ps qs : List Ptr) (s t : Vfs)
    → Keeps s t
    → find_in name ps s ≡ ok null s
    → find_in name (ps ++ qs) t ≡ find_in name qs t
unfolding find_in
find_in-append name [] qs s t keeps h = refl
find_in-append name (p ∷ ps) qs s t keeps h =
    let (ne, (n, there, miss), rest) = find_in-miss name p ps s h in
    let (m, kept, same) = keeps p n there in
    rw (load_ok p m t ne kept, same, miss) (find_in-append name ps qs s t keeps rest)

-- The scan of the child just behind them.
pub find_in-hit :
    (name : Text) (p : Ptr) (ps : List Ptr) (n : VfsNode) (t : Vfs)
    → p ≢ null
    → t.nodes p ≡ some n
    → str_eq name n.name ≡ true
    → find_in name (p ∷ ps) t ≡ ok p t
unfolding find_in
find_in-hit name p ps n t ne there hit = rw (load_ok p n t ne there, hit)

pub find_in-state :
    (name : Text) (ps : List Ptr) (h : Ptr) (s t : Vfs) → find_in name ps s ≡ ok h t → t ≡ s
unfolding find_in load
find_in-state name [] h s t e = cc
find_in-state name (p ∷ ps) h s t e = elim (Bool-cases (p == null)) [
  | inl z ↦ absurd (let bad : fault ≡ ok h t = rw z at e in cc)
  | inr z ↦ elim (Option-cases (s.nodes p)) [
    | inl gone ↦ absurd (let bad : fault ≡ ok h t = rw (z, gone) at e in cc)
    | inr (n, there) ↦ elim (Bool-cases (str_eq name n.name)) [
      | inl hit ↦ let same : ok p s ≡ ok h t = rw (z, there, hit) at e in cc
      | inr miss ↦ find_in-state name ps h s t (rw (z, there, miss) at e)
    ]
  ]
]

-- A look-up in the node `dir` that finds nothing: both scans have found nothing.
pub record Missed (base : Text) (dir : VfsNode) (s : Vfs) : Type 0 where
  pub own : find_in base dir.children s ≡ ok null s
  pub linked :
      (dir.points_to ≡ null)
      ⊎ (node : VfsNode) × (dir.points_to ≢ null)
        × (s.nodes dir.points_to ≡ some node)
        × (find_in base node.children s ≡ ok null s)

pub Run-cases : {A : Type 0} (r : Run A) → (r ≡ fault) ⊎ ((a : A) × (t : Vfs) × (r ≡ ok a t))
Run-cases (ok a t) = inr (a, t, refl)
Run-cases fault = inl refl

linked-Missed :
    (base : Text) (dir : VfsNode) (s : Vfs)
    → dir.points_to ≢ null
    → on_ok
        (on_ok (load dir.points_to s) (λ t. find_in base t.children))
        (λ hit. if hit == null then find_in base dir.children else pure hit)
      ≡ ok null s
    → Missed base dir s
linked-Missed base dir s ne h = elim (Option-cases (s.nodes dir.points_to)) [
  | inl gone ↦ absurd (let bad : fault ≡ ok null s = rw (load-none dir.points_to s gone) at h in cc)
  | inr (node, there) ↦
      let h' = rw (load_ok dir.points_to node s ne there) at h in
      elim (Run-cases (find_in base node.children s)) [
        | inl f ↦ absurd (let bad : fault ≡ ok null s = rw f at h' in cc)
        | inr (a, t, e) ↦
            let same = find_in-state base node.children a s t e in
            elim (Bool-cases (a == null)) [
              | inl z ↦
                  let zero : a ≡ null = ground arith in
                  record {
                    own = rw (e, z, same) at h';
                    linked = inr (node, ne, there, rw (zero, same) at e);
                  }
              | inr z ↦ absurd (let bad : ok a t ≡ ok null s = rw (e, z) at h' in ground arith)
            ]
      ]
]

pub find_node-Missed :
    (base : Text) (parent : Ptr) (dir : VfsNode) (s : Vfs)
    → parent ≢ null
    → s.nodes parent ≡ some dir
    → find_node parent base s ≡ ok null s
    → Missed base dir s
unfolding find_node
find_node-Missed base parent dir s ne there h =
    let h' = rw (load_ok parent dir s ne there) at h in
    elim (Bool-cases (dir.points_to == null)) [
      | inl z ↦ record { own = rw z at h'; linked = inl (ground arith) }
      | inr z ↦ linked-Missed base dir s (λ e. ground arith) (rw z at h')
    ]
