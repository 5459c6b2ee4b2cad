-- ===== src/Vmm/Spine.antt =====
-- The last table that a walk comes to.
use best_os.Common.{
  ℕ, zero, suc, ◌%◌, ◌≤◌, ◌<◌, ◌≡◌, ◌≢◌, inl, inr, refl, ap, sym, ◌∙◌, arith, ◌==◌, if◌then◌else◌,
  Bool-cases, Option, none, some,
}
use best_os.Mem.{Memory}
use best_os.Pmm.{Pmm}
use best_os.Vmm.{Vmm}
use best_os.Vmm.Walk.{index_at, entry_at, target, walk}
use best_os.Vmm.Tables.{Tables}
use best_os.Vmm.Descend.{Descent}

pub index_lt : (k address : ℕ) → index_at k address < 512
index_lt k address = omega arith

unfoldable pub spine : ℕ → ℕ → ℕ → Memory → Option ℕ
spine zero table address m = some table
spine (suc n) table address m =
    let e = entry_at table (index_at (suc n) address) m in
    let rest = spine n (target e) address m in if e % 2 == 0 then none else rest

pub walk-spine-none :
    (n table address : ℕ) (m : Memory)
    → spine n table address m ≡ none
    → walk n table address m ≡ none
unfolding walk spine
walk-spine-none zero table address m h = cc
walk-spine-none (suc n) table address m h =
    ground
      (arith, walk-spine-none n (target (entry_at table (index_at (suc n) address) m)) address m)

pub walk-spine-some :
    (n table address last : ℕ) (m : Memory)
    → spine n table address m ≡ some last
    → walk n table address m ≡ walk 0 last address m
unfolding walk spine
walk-spine-some zero table address last m h =
    let same : table ≡ last = ground arith in ap (λ (t : ℕ). walk 0 t address m) same
walk-spine-some (suc n) table address last m h =
    ground (
      arith,
      walk-spine-some n (target (entry_at table (index_at (suc n) address) m)) address last m,
    )

index_same : (n k a b : ℕ) → k ≡ n → index_at n a ≡ index_at n b → index_at k a ≡ index_at k b
index_same n k a b e h = rw e h

-- Two walks to the same last table come from the same table by the same indices.
pub spine_unique :
    (n : ℕ) (level : ℕ → ℕ) (pmm : Pmm) (m : Memory) (x y a b last : ℕ)
    → Tables level pmm m
    → level x ≡ suc n
    → level y ≡ suc n
    → spine n x a m ≡ some last
    → spine n y b m ≡ some last
    → (x ≡ y) × ((k : ℕ) → 0 < k → k ≤ n → index_at k a ≡ index_at k b)
unfolding spine
spine_unique zero level pmm m x y a b last T lx ly sa sb =
    (ground arith, λ k lo hi. absurd (omega arith))
spine_unique (suc n) level pmm m x y a b last T lx ly sa sb =
    let ex = entry_at x (index_at (suc n) a) m in
    let ey = entry_at y (index_at (suc n) b) m in
    elim (Bool-cases (ex % 2 == 0)) [
      | inl z ↦ absurd (let bad : none ≡ some last = rw z at sa in cc)
      | inr px ↦ elim (Bool-cases (ey % 2 == 0)) [
        | inl z ↦ absurd (let bad : none ≡ some last = rw z at sb in cc)
        | inr py ↦
            let hx : ex % 2 ≢ 0 = λ z. ground arith in
            let hy : ey % 2 ≢ 0 = λ z. ground arith in
            let below =
              spine_unique n level pmm m (target ex) (target ey) a b last T
                (T.entry x (index_at (suc n) a) n lx (index_lt (suc n) a) hx).2
                (T.entry y (index_at (suc n) b) n ly (index_lt (suc n) b) hy).2 (rw px at sa)
                (rw py at sb) in
            let (xy, top) =
              T.parents x (index_at (suc n) a) y (index_at (suc n) b) (omega arith) (omega arith)
                (index_lt (suc n) a) (index_lt (suc n) b) hx hy below.0 in
            (
              xy,
              λ k lo hi. elim (Bool-cases (k == suc n)) [
                | inl z ↦ index_same (suc n) k a b (ground arith) top
                | inr z ↦ below.1 k lo (ground arith)
              ],
            )
      ]
    ]

-- A new or an old next table: the walks from the old tables are as before.
walk-empty :
    (n table address : ℕ) (m : Memory)
    → ((j : ℕ) → j < 512 → entry_at table j m ≡ 0)
    → walk n table address m ≡ none
unfolding walk
walk-empty zero table address m empty = rw (empty (index_at 0 address) (omega arith))
walk-empty (suc n) table address m empty = rw (empty (index_at (suc n) address) (omega arith))

-- The same entry is present in both memories or in none.
walk-entry :
    (k x address : ℕ) (m w : Memory)
    → entry_at x (index_at (suc k) address) w ≡ entry_at x (index_at (suc k) address) m
    → (entry_at x (index_at (suc k) address) m % 2 ≢ 0
        → walk k (target (entry_at x (index_at (suc k) address) m)) address w
          ≡ walk k (target (entry_at x (index_at (suc k) address) m)) address m)
    → walk (suc k) x address w ≡ walk (suc k) x address m
unfolding walk
walk-entry k x address m w same below =
    elim (Bool-cases (entry_at x (index_at (suc k) address) m % 2 == 0)) [
      | inl z ↦ rw (same, z)
      | inr z ↦ rw (same, z) (below (λ q. ground arith))
    ]

walk-new :
    (k x address next : ℕ) (m w : Memory)
    → entry_at x (index_at (suc k) address) m % 2 ≡ 0
    → target (entry_at x (index_at (suc k) address) w) ≡ next
    → ((j : ℕ) → j < 512 → entry_at next j w ≡ 0)
    → walk (suc k) x address w ≡ walk (suc k) x address m
unfolding walk
walk-new k x address next m w gone leads empty =
    elim (Bool-cases (entry_at x (index_at (suc k) address) w % 2 == 0)) [
      | inl z ↦ rw (gone, z)
      | inr z ↦ rw (gone, z, leads) (walk-empty k next address w empty)
    ]

pub Descent-walk :
    (k : ℕ) (level : ℕ → ℕ) (t i n : ℕ) (s : Vmm) (next : ℕ) (s' : Vmm) (x address : ℕ)
    → Tables level s.pmm s.memory
    → Descent level t i n s next s'
    → level t ≡ suc n
    → 0 < n
    → level x ≡ suc k
    → walk k x address s'.memory ≡ walk k x address s.memory
unfolding walk
Descent-walk zero level t i n s next s' x address T d lt pos lx = rw (
    d.others x (index_at 0 address) (λ z. omega arith) (index_lt 0 address)
      (inl (λ z. omega (arith, ap level z))))
Descent-walk (suc k) level t i n s next s' x address T d lt pos lx =
    let idx = index_at (suc k) address in
    let follow : entry_at x idx s'.memory ≡ entry_at x idx s.memory
        → walk (suc k) x address s'.memory ≡ walk (suc k) x address s.memory =
      λ same. walk-entry k x address s.memory s'.memory same (λ here.
        Descent-walk k level t i n s next s' (target (entry_at x idx s.memory)) address T d lt pos
          (T.entry x idx k lx (index_lt (suc k) address) here).2) in
    elim (Bool-cases (x == t)) [
      | inr z ↦
          follow
            (d.others x idx (λ q. omega arith) (index_lt (suc k) address) (inl (λ q. ground arith)))
      | inl z ↦ elim (Bool-cases (idx == i)) [
        | inr y ↦
            follow (
              d.others x idx (λ q. omega arith) (index_lt (suc k) address)
                (inr (λ q. ground arith)))
        | inl y ↦
            let here : x ≡ t = ground arith in
            let there : idx ≡ i = ground arith in
            let entries : (m : Memory) → entry_at x idx m ≡ entry_at t i m =
              λ m. ap (λ (q : ℕ). entry_at q idx m) here ∙ ap (λ (j : ℕ). entry_at t j m) there in
            elim d.was [
              | inl same ↦ follow (entries s'.memory ∙ same ∙ sym (entries s.memory))
              | inr (gone, empty) ↦
                  walk-new k x address next s.memory s'.memory
                    (ap (λ (e : ℕ). e % 2) (entries s.memory) ∙ gone)
                    (ap target (entries s'.memory) ∙ d.leads) empty
            ]
      ]
    ]

-- The last table of a walk has the last level.
pub spine-level :
    (n : ℕ) (level : ℕ → ℕ) (pmm : Pmm) (m : Memory) (x a last : ℕ)
    → Tables level pmm m
    → level x ≡ suc n
    → spine n x a m ≡ some last
    → level last ≡ 1
unfolding spine
spine-level zero level pmm m x a last T lx h = let same : x ≡ last = ground arith in rw same at lx
spine-level (suc n) level pmm m x a last T lx h =
    elim (Bool-cases (entry_at x (index_at (suc n) a) m % 2 == 0)) [
      | inl z ↦ absurd (let bad : none ≡ some last = rw z at h in cc)
      | inr z ↦
          spine-level n level pmm m (target (entry_at x (index_at (suc n) a) m)) a last T
            (T.entry x (index_at (suc n) a) n lx (index_lt (suc n) a) (λ q. ground arith)).2
            (rw z at h)
    ]

-- Memories with the same entries in the tables above the last level.
pub spine-same :
    (n : ℕ) (level : ℕ → ℕ) (pmm : Pmm) (m w : Memory) (x a : ℕ)
    → Tables level pmm m
    → ((y j : ℕ) → 1 < level y → j < 512 → entry_at y j w ≡ entry_at y j m)
    → level x ≡ suc n
    → spine n x a w ≡ spine n x a m
unfolding spine
spine-same zero level pmm m w x a T same lx = refl
spine-same (suc n) level pmm m w x a T same lx =
    let kept = same x (index_at (suc n) a) (omega arith) (index_lt (suc n) a) in
    elim (Bool-cases (entry_at x (index_at (suc n) a) m % 2 == 0)) [
      | inl z ↦ rw (kept, z)
      | inr z ↦
          rw (kept, z)
            (spine-same n level pmm m w (target (entry_at x (index_at (suc n) a) m)) a T same
              (T.entry x (index_at (suc n) a) n lx (index_lt (suc n) a) (λ q. ground arith)).2)
    ]
