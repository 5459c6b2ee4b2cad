-- ===== src/Vmm/Tables.antt =====
-- The invariant of the page tables, and what keeps it when a table is linked.
use best_os.Common.{
  ℕ, suc, ◌+◌, ◌-◌, ◌*◌, ◌%◌, ◌^◌, ◌<◌, ◌≡◌, ◌≢◌, ◌⊎◌, inl, inr, ap, sym, ◌∙◌, arith, ◌==◌,
  if◌then◌else◌, Bool-cases, false,
}
use best_os.Mem.{Memory}
use best_os.Pmm.{Pmm, mmap_io_base}
use best_os.Pmm.Range.{used, Marks}
use best_os.Vmm.Walk.{entry_at, target}
use best_os.Vmm.Entries.{Placed, Linked}

-- The page `p` in the direct map.
abbrev pub direct : ℕ → ℕ
direct p = p * 4096 + mmap_io_base

-- The tables in use, by their level: 4 for the first, 1 for the last, 0 for what is no table. No
-- table is a free page, every present entry points to a table of the next level, and no two entries
-- to the same one.
pub record Tables (level : ℕ → ℕ) (pmm : Pmm) (m : Memory) : Type 0 where
  pub placed : (t : ℕ) → level t ≢ 0 → Placed t
  pub in_use : (p : ℕ) → used p pmm ≡ 0 → level (direct p) ≡ 0
  pub entry :
      (t i n : ℕ)
      → level t ≡ suc (suc n)
      → i < 512
      → entry_at t i m % 2 ≢ 0
      → (entry_at t i m < 2 ^ 47)
        × (entry_at t i m % 4096 < 512)
        × (level (target (entry_at t i m)) ≡ suc n)
  pub parents :
      (t i x j : ℕ)
      → 1 < level t
      → 1 < level x
      → i < 512
      → j < 512
      → entry_at t i m % 2 ≢ 0
      → entry_at x j m % 2 ≢ 0
      → target (entry_at t i m) ≡ target (entry_at x j m)
      → (t ≡ x) × (i ≡ j)

-- The levels with a new table.
abbrev pub with_table : (ℕ → ℕ) → ℕ → ℕ → ℕ → ℕ
with_table level u n x = if x == u then n else level x

pub with_table-old :
    (level : ℕ → ℕ) (u n x : ℕ) → level u ≡ 0 → level x ≢ 0 → with_table level u n x ≡ level x
with_table-old level u n x fresh old = elim (Bool-cases (x == u)) [
  | inl z ↦ absurd (let same : x ≡ u = ground arith in old (ap level same ∙ fresh))
  | inr z ↦ rw z
]

-- A table is linked: `u` at entry `i` of `t`.
module _ (level : ℕ → ℕ) (m w : Memory) (t i n u e : ℕ) (fresh : level u ≡ 0)
    (above : level t ≡ suc (suc n)) (hi : i < 512) (placed : (x : ℕ) → level x ≢ 0 → Placed x)
    (l : Linked t i u e m w) where
  -- A present entry afterwards is the new one, or an old one of an old table.
  linked_entry :
      (x j : ℕ)
      → 1 < with_table level u (suc n) x
      → j < 512
      → entry_at x j w % 2 ≢ 0
      → (x ≡ t) × (j ≡ i)
        ⊎ (with_table level u (suc n) x ≡ level x) × (entry_at x j w ≡ entry_at x j m)
  linked_entry x j high hj here = elim (Bool-cases (x == u)) [
    | inl z ↦ absurd (
        let same : x ≡ u = ground arith in
        here (ap (λ (y : ℕ). entry_at y j w % 2) same ∙ ap (λ (y : ℕ). y % 2) (l.empty j hj)))
    | inr z ↦
        let same : with_table level u (suc n) x ≡ level x = rw z in
        let old : level x ≢ 0 = λ q. omega arith in
        elim (Bool-cases (x == t)) [
          | inr a ↦
              inr
                (same, l.others x j (placed x old) (λ q. ground arith) hj (inl (λ q. ground arith)))
          | inl a ↦ elim (Bool-cases (j == i)) [
            | inl b ↦ inl (ground arith, ground arith)
            | inr b ↦
                inr (
                  same,
                  l.others x j (placed x old) (λ q. ground arith) hj (inr (λ q. ground arith)),
                )
          ]
        ]
  ]

  module _
      (old_entry : (x j k : ℕ)
        → level x ≡ suc (suc k)
        → j < 512
        → entry_at x j m % 2 ≢ 0
        → (entry_at x j m < 2 ^ 47)
          × (entry_at x j m % 4096 < 512)
          × (level (target (entry_at x j m)) ≡ suc k))
      (points : target e ≡ u) (small : e < 2 ^ 47) (low : e % 4096 < 512) where
    kept_level : (x : ℕ) → level x ≢ 0 → with_table level u (suc n) x ≡ level x
    kept_level x old = with_table-old level u (suc n) x fresh old

    at_parent : with_table level u (suc n) t ≡ suc (suc n)
    at_parent = kept_level t (λ z. omega arith) ∙ above

    at_new : with_table level u (suc n) (target e) ≡ suc n
    at_new = ground (arith, points)

    -- The target of an old entry is an old table.
    old_target :
        (x j k : ℕ)
        → level x ≡ suc (suc k)
        → j < 512
        → entry_at x j m % 2 ≢ 0
        → (target (entry_at x j m) ≢ u)
          × (with_table level u (suc n) (target (entry_at x j m)) ≡ suc k)
    old_target x j k lx hj here =
        let f = (old_entry x j k lx hj here).2 in
        (
          λ z. omega (arith, f, ap level z, fresh),
          kept_level (target (entry_at x j m)) (λ z. omega arith) ∙ f,
        )

    new_at : (x j : ℕ) → x ≡ t → j ≡ i → entry_at x j w ≡ e
    new_at x j a b = ap (λ (y : ℕ). entry_at y j w) a ∙ ap (λ (z : ℕ). entry_at t z w) b ∙ l.at

    linked_target :
        (x j k : ℕ)
        → with_table level u (suc n) x ≡ suc (suc k)
        → j < 512
        → entry_at x j w % 2 ≢ 0
        → (entry_at x j w < 2 ^ 47)
          × (entry_at x j w % 4096 < 512)
          × (with_table level u (suc n) (target (entry_at x j w)) ≡ suc k)
    linked_target x j k lx hj here = elim (linked_entry x j (omega arith) hj here) [
      | inl (a, b) ↦
          let same = new_at x j a b in
          let lk : suc n ≡ suc k =
            omega (arith, lx, ap (with_table level u (suc n)) a, at_parent) in
          (
            omega (arith, same, small),
            omega (arith, same, low),
            ap (λ (y : ℕ). with_table level u (suc n) (target y)) same ∙ at_new ∙ lk,
          )
      | inr (old, same) ↦
          let lx' : level x ≡ suc (suc k) = sym old ∙ lx in
          let here' : entry_at x j m % 2 ≢ 0 = λ z. omega (arith, same, here) in
          let f = old_entry x j k lx' hj here' in
          (
            omega (arith, same, f.0),
            omega (arith, same, f.1),
            ap (λ (y : ℕ). with_table level u (suc n) (target y)) same
                ∙ (old_target x j k lx' hj here').1,
          )
    ]

    -- No old entry leads to the new table.
    old_apart :
        (x j : ℕ)
        → 1 < with_table level u (suc n) x
        → with_table level u (suc n) x ≡ level x
        → j < 512
        → entry_at x j w % 2 ≢ 0
        → entry_at x j w ≡ entry_at x j m
        → target (entry_at x j w) ≢ u
    old_apart x j high old hj here same z =
        (old_target x j (level x - 2) (omega arith) hj (λ q. omega (arith, same, here))).0
          (ap target (sym same) ∙ z)

    linked_parents :
        ((x j y k : ℕ)
          → 1 < level x
          → 1 < level y
          → j < 512
          → k < 512
          → entry_at x j m % 2 ≢ 0
          → entry_at y k m % 2 ≢ 0
          → target (entry_at x j m) ≡ target (entry_at y k m)
          → (x ≡ y) × (j ≡ k))
        → (x j y k : ℕ) → 1 < with_table level u (suc n) x
        → 1 < with_table level u (suc n) y
        → j < 512
        → k < 512
        → entry_at x j w % 2 ≢ 0
        → entry_at y k w % 2 ≢ 0
        → target (entry_at x j w) ≡ target (entry_at y k w)
        → (x ≡ y) × (j ≡ k)
    linked_parents old x j y k hx hy hj hk px py same = elim (linked_entry x j hx hj px) [
      | inl (a, b) ↦ elim (linked_entry y k hy hk py) [
        | inl (c, d) ↦ (a ∙ sym c, b ∙ sym d)
        | inr (ly, ey) ↦
            absurd (old_apart y k hy ly hk py ey (sym same ∙ ap target (new_at x j a b) ∙ points))
      ]
      | inr (lx, ex) ↦ elim (linked_entry y k hy hk py) [
        | inl (c, d) ↦
            absurd (old_apart x j hx lx hj px ex (same ∙ ap target (new_at y k c d) ∙ points))
        | inr (ly, ey) ↦
            old x j y k (omega arith) (omega arith) hj hk (λ z. omega (arith, ex, px))
              (λ z. omega (arith, ey, py)) (ap target (sym ex) ∙ same ∙ ap target ey)
      ]
    ]

-- The invariant after a table is linked.
pub Tables-Linked :
    (level : ℕ → ℕ) (pmm pmm' : Pmm) (m w : Memory) (t i n p e : ℕ)
    → Tables level pmm m
    → level t ≡ suc (suc n)
    → i < 512
    → used p pmm ≡ 0
    → Marks 1 p 1 pmm pmm'
    → p < 2 ^ 35
    → Linked t i (direct p) e m w
    → e ≡ p * 4096 + e % 512
    → Tables (with_table level (direct p) (suc n)) pmm' w
Tables-Linked level pmm pmm' m w t i n p e T lt hi free marks hp l he =
    let fresh : level (direct p) ≡ 0 = T.in_use p free in
    let points : target e ≡ direct p = omega arith in
    record {
      placed = λ x h. elim (Bool-cases (x == direct p)) [
        | inl z ↦ record { whole = ground arith; ends = ground arith }
        | inr z ↦ T.placed x (rw z at h)
      ];
      in_use = λ q unused. elim (Bool-cases (q == p)) [
        | inl z ↦ absurd (ground (arith, marks.bits q))
        | inr z ↦
            let apart : (direct q == direct p) ≡ false = ground arith in
            rw apart (T.in_use q (ground (arith, marks.bits q)))
      ];
      entry =
          linked_target level m w t i n (direct p) e fresh lt hi T.placed l T.entry points
            (omega arith) (omega arith);
      parents =
          linked_parents level m w t i n (direct p) e fresh lt hi T.placed l T.entry points
            (omega arith) (omega arith) T.parents;
    }
