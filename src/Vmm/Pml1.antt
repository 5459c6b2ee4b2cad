-- ===== src/Vmm/Pml1.antt =====
-- The three calls of `get_next_level` in `vmm_map` and `vmm_unmap`.
use best_os.Common.{ℕ, ◌+◌, ◌/◌, ◌%◌, ◌≤◌, ◌<◌, ◌≡◌, ◌≢◌, inl, ap, ◌∙◌, arith, ◌==◌, false, some}
use best_os.Mem.{Memory}
use best_os.Pmm.{page_size}
use best_os.Pmm.Count.{free_pages}
use best_os.Vmm.{Vmm, get_next_level, get_pml1}
use best_os.Vmm.Entries.{pml_entry_lem}
use best_os.Vmm.Walk.{index_at, entry_at, target, walk}
use best_os.Vmm.Grown.{Grown, Grown-trans}
use best_os.Vmm.Tables.{Tables}
use best_os.Vmm.Descend.{Descent, Sized, get_next_level-Descent}
use best_os.Vmm.Spine.{index_lt, spine, Descent-walk}

-- After the three calls of `get_next_level`.
pub record Found (level : ℕ → ℕ) (root address : ℕ) (s : Vmm) (last : ℕ) (t : Vmm) : Type 0 where
  pub level' : ℕ → ℕ
  pub tables : Tables level' t.pmm t.memory
  pub grows : (x : ℕ) → level x ≢ 0 → level' x ≡ level x
  pub grown : Grown level level' s t
  pub last_level : level' last ≡ 1
  pub path : spine 3 root address t.memory ≡ some last
  pub walks : (b : ℕ) → walk 3 root b t.memory ≡ walk 3 root b s.memory
  pub room : free_pages s.pmm ≤ free_pages t.pmm + 3
  pub sized : Sized t.pmm
  pub lock : t.lock ≡ s.lock

Sized-Descent :
    {level : ℕ → ℕ} {t i n next : ℕ} {s s' : Vmm}
    → Sized s.pmm
    → Descent level t i n s next s'
    → Sized s'.pmm
Sized-Descent {s} {s'} z d = record {
  some_size = omega (arith, z.some_size, d.sized);
  fits = omega (arith, z.fits, d.sized, ap (λ (h : ℕ). h / page_size) d.highest);
}

spine_three :
    (root address a b c : ℕ) (m : Memory)
    → entry_at root (index_at 3 address) m % 2 ≢ 0
    → target (entry_at root (index_at 3 address) m) ≡ a
    → entry_at a (index_at 2 address) m % 2 ≢ 0
    → target (entry_at a (index_at 2 address) m) ≡ b
    → entry_at b (index_at 1 address) m % 2 ≢ 0
    → target (entry_at b (index_at 1 address) m) ≡ c
    → spine 3 root address m ≡ some c
unfolding spine
spine_three root address a b c m p3 e3 p2 e2 p1 e1 =
    let q3 : (entry_at root (index_at 3 address) m % 2 == 0) ≡ false = ground arith in
    let q2 : (entry_at a (index_at 2 address) m % 2 == 0) ≡ false = ground arith in
    let q1 : (entry_at b (index_at 1 address) m % 2 == 0) ≡ false = ground arith in
    rw (q3, e3, q2, e2, q1, e1)

pub get_pml1-Found :
    (level : ℕ → ℕ) (root address flags : ℕ) (s : Vmm)
    → Tables level s.pmm s.memory
    → Sized s.pmm
    → level root ≡ 4
    → flags < 512
    → flags % 2 ≡ 1
    → 3 ≤ free_pages s.pmm
    → Found level root address s (get_pml1 root address flags s).0 (get_pml1 root address flags s).1
unfolding get_pml1
get_pml1-Found level root address flags s T z lr hf set room =
    let (i3, i2, i1, i0) = pml_entry_lem address in
    let r3 = get_next_level root (index_at 3 address) flags s in
    let d3 =
      get_next_level-Descent level root (index_at 3 address) 2 flags s T z lr (index_lt 3 address)
        hf set (omega arith) in
    let z3 = Sized-Descent z d3 in
    let r2 = get_next_level r3.0 (index_at 2 address) flags r3.1 in
    let d2 =
      get_next_level-Descent d3.level' r3.0 (index_at 2 address) 1 flags r3.1 d3.tables z3
        d3.next_level (index_lt 2 address) hf set (omega (arith, d3.room)) in
    let z2 = Sized-Descent z3 d2 in
    let r1 = get_next_level r2.0 (index_at 1 address) flags r2.1 in
    let d1 =
      get_next_level-Descent d2.level' r2.0 (index_at 1 address) 0 flags r2.1 d2.tables z2
        d2.next_level (index_lt 1 address) hf set (omega (arith, d3.room, d2.room)) in
    let root3 : d3.level' root ≡ 4 = d3.grows root (λ q. omega arith) ∙ lr in
    let root2 : d2.level' root ≡ 4 = d2.grows root (λ q. omega arith) ∙ root3 in
    let a2 : d2.level' r3.0 ≡ 3 =
      d2.grows r3.0 (λ q. omega (arith, d3.next_level)) ∙ d3.next_level in
    let kept_root2 =
      d2.others root (index_at 3 address) (λ q. omega arith) (index_lt 3 address)
        (inl (λ q. omega (arith, ap d3.level' q, d3.next_level))) in
    let kept_root1 =
      d1.others root (index_at 3 address) (λ q. omega arith) (index_lt 3 address)
        (inl (λ q. omega (arith, ap d2.level' q, d2.next_level))) in
    let kept_a =
      d1.others r3.0 (index_at 2 address) (λ q. omega arith) (index_lt 2 address)
        (inl (λ q. omega (arith, ap d2.level' q, d2.next_level))) in
    rw (i3, i2, i1)
      (record {
        level' = d1.level';
        tables = d1.tables;
        grows = λ x h.
            let g3 = d3.grows x h in
            let g2 = d2.grows x (λ q. omega arith) in d1.grows x (λ q. omega arith) ∙ g2 ∙ g3;
        grown = Grown-trans (Grown-trans d3.grown d2.grown) d1.grown;
        last_level = d1.next_level;
        path =
            spine_three root address r3.0 r2.0 r1.0 r1.1.memory
              (λ q. omega (arith, kept_root1, kept_root2, d3.present))
              (ap target (kept_root1 ∙ kept_root2) ∙ d3.leads)
              (λ q. omega (arith, kept_a, d2.present)) (ap target kept_a ∙ d2.leads) d1.present
              d1.leads;
        walks = λ b.
            Descent-walk 3 d2.level' r2.0 (index_at 1 address) 1 r2.1 r1.0 r1.1 root b d2.tables d1
              d2.next_level (omega arith) root2
            ∙ Descent-walk 3 d3.level' r3.0 (index_at 2 address) 2 r3.1 r2.0 r2.1 root b d3.tables
                d2 d3.next_level (omega arith) root3
            ∙ Descent-walk 3 level root (index_at 3 address) 3 s r3.0 r3.1 root b T d3 lr
                (omega arith) lr;
        room = omega (arith, d3.room, d2.room, d1.room);
        sized = Sized-Descent z2 d1;
        lock = d1.lock ∙ d2.lock ∙ d3.lock;
      })
