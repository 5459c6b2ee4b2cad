-- ===== src/Vmm/Ranges.antt =====
-- `vmm_map_range`: the pages of a range one after the other.
use best_os.Common.{
  ℕ, zero, suc, ◌+◌, ◌-◌, ◌*◌, ◌%◌, ◌^◌, ◌≤◌, ◌<◌, ◌≡◌, ◌≢◌, refl, ap, sym, ◌∙◌, arith, true, false,
  some, ltb, add64,
}
use best_os.Base.{div_roundup}
use best_os.Pmm.{page_size}
use best_os.Pmm.Count.{free_pages}
use best_os.Vmm.{Vmm, vmm_map, map_range_from, vmm_map_range}
use best_os.Vmm.Walk.{walk}
use best_os.Vmm.Grown.{Grown, Grown-refl, Grown-trans}
use best_os.Vmm.Tables.{Tables}
use best_os.Vmm.Descend.{Sized}
use best_os.Vmm.Map.{page_of, Mapped, vmm_map-Mapped}

-- The frame of page `k` of a range, and its virtual address.
abbrev pub frame : ℕ → ℕ → ℕ
frame start k = start + k * 4096

abbrev pub virtual : ℕ → ℕ → ℕ → ℕ
virtual start offset k = add64 (frame start k) offset

-- What the mapping of `n` pages from `start` leaves.
pub record Ranged (level : ℕ → ℕ) (root start offset flags n : ℕ) (s t : Vmm) : Type 0 where
  pub level' : ℕ → ℕ
  pub tables : Tables level' t.pmm t.memory
  pub grows : (x : ℕ) → level x ≢ 0 → level' x ≡ level x
  pub grown : Grown level level' s t
  pub each :
      (k : ℕ) → k < n → walk 3 root (virtual start offset k) t.memory ≡ some (frame start k + flags)
  pub elsewhere :
      (b : ℕ)
      → ((k : ℕ) → k < n → page_of b ≢ page_of (virtual start offset k))
      → walk 3 root b t.memory ≡ walk 3 root b s.memory
  pub room : free_pages s.pmm ≤ free_pages t.pmm + 3 * n
  pub sized : Sized t.pmm
  pub lock : t.lock ≡ false

-- The pages of a range are apart.
virtual-apart :
    (start offset k : ℕ)
    → start % 4096 ≡ 0
    → offset % 4096 ≡ 0
    → k + 1 < 2 ^ 36
    → page_of (virtual start offset 0) ≢ page_of (virtual (start + 4096) offset k)
virtual-apart start offset k ws wo h same = omega arith

frame-suc : (start k : ℕ) → frame (start + 4096) k ≡ frame start (suc k)
frame-suc start k = omega arith

-- One page, then the others.
Ranged-cons :
    (n : ℕ) (level : ℕ → ℕ) (root start offset flags : ℕ) (s t1 t : Vmm)
    → suc n < 2 ^ 36
    → start % 4096 ≡ 0
    → offset % 4096 ≡ 0
    → walk 3 root (add64 start offset) t1.memory ≡ some (start + flags)
    → (m : Mapped level root (add64 start offset) (start + flags) s t1)
    → Ranged m.level' root (start + 4096) offset flags n t1 t
    → Ranged level root start offset flags (suc n) s t
Ranged-cons n level root start offset flags s t1 t small ws wo hit m r =
    let first : virtual start offset 0 ≡ add64 start offset = omega arith in
    let later : (k : ℕ) → virtual (start + 4096) offset k ≡ virtual start offset (suc k) =
      λ k. ap (λ (x : ℕ). add64 x offset) (frame-suc start k) in
    record {
      level' = r.level';
      tables = r.tables;
      grows = λ x h. r.grows x (λ q. h (sym (m.grows x h) ∙ q)) ∙ m.grows x h;
      grown = Grown-trans m.grown r.grown;
      each = each;
      elsewhere = λ b out.
          r.elsewhere b (λ k h e. out (suc k) (omega arith) (e ∙ ap page_of (later k)))
          ∙ m.elsewhere b (λ e. out 0 (omega arith) (e ∙ ap page_of (sym first)));
      room = omega (arith, m.room, r.room);
      sized = r.sized;
      lock = r.lock;
    }
  where
    each :
        (k : ℕ)
        → k < suc n
        → walk 3 root (virtual start offset k) t.memory ≡ some (frame start k + flags)
    each zero h =
        r.elsewhere (virtual start offset 0)
          (λ k lt. virtual-apart start offset k ws wo (omega arith))
        ∙ ap (λ (x : ℕ). walk 3 root x t1.memory) {x = virtual start offset 0}
            {y = add64 start offset} (omega arith)
        ∙ hit
        ∙ ap (λ (x : ℕ). some (x + flags)) {x = start} {y = frame start 0} (omega arith)
    each (suc k) h =
        ap (λ (x : ℕ). walk 3 root (add64 x offset) t.memory) (sym (frame-suc start k))
        ∙ r.each k (omega arith)
        ∙ ap (λ (x : ℕ). some (x + flags)) (frame-suc start k)

range_round :
    (f root start end offset flags : ℕ) (s t : Vmm)
    → start < end
    → end + 4096 ≤ 2 ^ 64
    → vmm_map root start (add64 start offset) flags s ≡ some t
    → map_range_from (suc f) root start end offset flags s
      ≡ map_range_from f root (start + 4096) end offset flags t
unfolding map_range_from
range_round f root start end offset flags s t more top run =
    let inside : ltb start end ≡ true = ground arith in
    let next : add64 start page_size ≡ start + 4096 = omega arith in rw (inside, run, next)

pub range_end :
    (f root start end offset flags : ℕ) (s : Vmm)
    → end ≤ start
    → map_range_from (suc f) root start end offset flags s ≡ some s
unfolding map_range_from
range_end f root start end offset flags s past =
    let over : ltb start end ≡ false = ground arith in rw over

pub map_range_from-Ranged :
    (n f : ℕ) (level : ℕ → ℕ) (root start end offset flags : ℕ) (s : Vmm)
    → n < f
    → n < 2 ^ 36
    → (end ≤ frame start n) × (frame start n < end + 4096)
    → end + 4096 ≤ 2 ^ 64
    → start % 4096 ≡ 0
    → offset % 4096 ≡ 0
    → Tables level s.pmm s.memory
    → Sized s.pmm
    → level root ≡ 4
    → flags < 512
    → flags % 2 ≡ 1
    → 3 * n ≤ free_pages s.pmm
    → s.lock ≡ false
    → (t : Vmm) × (map_range_from f root start end offset flags s ≡ some t)
      × Ranged level root start offset flags n s t
map_range_from-Ranged n zero level root start end offset flags s nf small ends top ws wo T z lr hf
      set room free =
    absurd (omega arith)
map_range_from-Ranged zero (suc f) level root start end offset flags s nf small ends top ws wo T z
      lr hf set room free =
    (
      s,
      range_end f root start end offset flags s (omega arith),
      record {
        level' = level;
        tables = T;
        grows = λ x h. refl;
        grown = Grown-refl level s;
        each = λ k h. absurd (omega arith);
        elsewhere = λ b out. refl;
        room = omega arith;
        sized = z;
        lock = free;
      },
    )
map_range_from-Ranged (suc n) (suc f) level root start end offset flags s nf small ends top ws wo T
      z lr hf set room free =
    let (t1, run1, free1, hit, m) =
      vmm_map-Mapped level root start (add64 start offset) flags s T z lr ws (omega arith) hf set
        (omega arith) free in
    let (t, run, r) =
      map_range_from-Ranged n f m.level' root (start + 4096) end offset flags t1 (omega arith)
        (omega arith) (omega arith, omega arith) top (omega arith) wo m.tables m.sized
        (m.grows root (λ q. omega arith) ∙ lr) hf set (omega (arith, m.room)) free1 in
    (
      t,
      range_round f root start end offset flags s t1 (omega arith) top run1 ∙ run,
      Ranged-cons n level root start offset flags s t1 t small ws wo hit m r,
    )

-- `vmm_map_range` returns, at a free lock and with three free pages for each page of the range, and
-- maps the `n` pages from `start` up to `end`: a walk of the processor for `offset` behind a frame
-- of the range finds the frame with the flags, and the walk for an address in another page finds
-- what it found before. Start and offset are page addresses, there are fewer than 2 ^ 36 pages, and
-- the range ends a page before the end of the address space.
pub vmm_map_range-Ranged :
    (n : ℕ) (level : ℕ → ℕ) (root start end offset flags : ℕ) (s : Vmm)
    → n < 2 ^ 36
    → (end ≤ frame start n) × (frame start n < end + 4096)
    → start ≤ end
    → end + 4096 ≤ 2 ^ 64
    → start % 4096 ≡ 0
    → offset % 4096 ≡ 0
    → Tables level s.pmm s.memory
    → Sized s.pmm
    → level root ≡ 4
    → flags < 512
    → flags % 2 ≡ 1
    → 3 * n ≤ free_pages s.pmm
    → s.lock ≡ false
    → (t : Vmm) × (vmm_map_range root start end offset flags s ≡ some t)
      × Ranged level root start offset flags n s t
unfolding vmm_map_range div_roundup
vmm_map_range-Ranged n level root start end offset flags s small ends order top ws wo T z lr hf set
      room free =
    map_range_from-Ranged n (div_roundup (end - start) page_size + 1) level root start end offset
      flags s (omega arith) small ends top ws wo T z lr hf set room free
