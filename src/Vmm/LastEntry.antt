-- ===== src/Vmm/LastEntry.antt =====
-- The write of an entry of a last table.
use best_os.Common.{
  ℕ, ◌+◌, ◌*◌, ◌%◌, ◌^◌, ◌≤◌, ◌<◌, ◌≡◌, ◌≢◌, ◌⊎◌, inl, inr, refl, ap, sym, ◌∙◌, arith, ◌==◌,
  if◌then◌else◌, Bool-cases, Option-cases, none, some,
}
use best_os.Mem.{Memory}
use best_os.Mem.Words.{write64, read64-write64, read64-write64_ne}
use best_os.Pmm.{Pmm}
use best_os.Vmm.Walk.{index_at, entry_at, walk}
use best_os.Vmm.Tables.{Tables}
use best_os.Vmm.Spine.{index_lt, spine, spine-level, spine-same, walk-spine-none, walk-spine-some}

module _ (level : ℕ → ℕ) (pmm : Pmm) (m : Memory) (last address v : ℕ) (T : Tables level pmm m)
    (at_last : level last ≡ 1) (small : v < 2 ^ 64) where
  abbrev written : Memory
  written = write64 (last + index_at 0 address * 8) v m

  same_entry : entry_at last (index_at 0 address) written ≡ v
  same_entry = read64-write64 (last + index_at 0 address * 8) v m small

  other_entry :
      (x j : ℕ)
      → level x ≢ 0
      → j < 512
      → (x ≢ last) ⊎ (j ≢ index_at 0 address)
      → entry_at x j written ≡ entry_at x j m
  other_entry x j h hj other =
      let px = (T.placed x h).whole in
      let pl = (T.placed last (λ z. omega arith)).whole in
      let hi = index_lt 0 address in
      read64-write64_ne (last + index_at 0 address * 8) (x + j * 8) v m
        (apart x j last (index_at 0 address) px pl hj hi other)
    where
      apart :
          (x j y i : ℕ)
          → x % 4096 ≡ 0
          → y % 4096 ≡ 0
          → j < 512
          → i < 512
          → (x ≢ y) ⊎ (j ≢ i)
          → (x + j * 8 + 8 ≤ y + i * 8) ⊎ (y + i * 8 + 8 ≤ x + j * 8)
      apart x j y i px py hj hi other = ground arith

  upper_entry : (x j : ℕ) → 1 < level x → j < 512 → entry_at x j written ≡ entry_at x j m
  upper_entry x j h hj =
      other_entry x j (λ z. omega arith) hj (inl (λ z. omega (arith, ap level z)))

  pub Tables-write : Tables level pmm (write64 (last + index_at 0 address * 8) v m)
  Tables-write = record {
    placed = T.placed;
    in_use = T.in_use;
    entry = λ x j n lx hj here.
        let same = upper_entry x j (omega arith) hj in
        rw same (T.entry x j n lx hj (rw same at here));
    parents = λ x j y k hx hy hj hk px py same.
        let ex = upper_entry x j hx hj in
        let ey = upper_entry y k hy hk in
        T.parents x j y k hx hy hj hk (rw ex at px) (rw ey at py) (rw (ex, ey) at same);
  }

  last_walk :
      (q b : ℕ)
      → ((q ≡ last) → index_at 0 b ≢ index_at 0 address)
      → level q ≡ 1
      → walk 0 q b written ≡ walk 0 q b m
  unfolding walk
  last_walk q b other lq =
      let same =
        other_entry q (index_at 0 b) (λ z. omega arith) (index_lt 0 b)
          (elim (Bool-cases (q == last)) [
            | inl z ↦ inr (other (ground arith))
            | inr z ↦ inl (λ y. ground arith)
          ]) in
      rw same

  module _ (root : ℕ) (at_root : level root ≡ 4) (path : spine 3 root address m ≡ some last) where
    pub walk-write :
        walk 3 root address (write64 (last + index_at 0 address * 8) v m)
        ≡ (if v % 2 == 0 then none else some v)
    unfolding walk
    walk-write =
        walk-spine-some 3 root address last written
          (spine-same 3 level pmm m written root address T upper_entry at_root ∙ path)
        ∙ rw same_entry refl

    -- The walk for an address that does not come to the entry.
    pub walk-write_ne :
        (b : ℕ)
        → ((spine 3 root b m ≡ some last) → index_at 0 b ≢ index_at 0 address)
        → walk 3 root b (write64 (last + index_at 0 address * 8) v m) ≡ walk 3 root b m
    walk-write_ne b other =
        let kept = spine-same 3 level pmm m written root b T upper_entry at_root in
        elim (Option-cases (spine 3 root b m)) [
          | inl gone ↦
              walk-spine-none 3 root b written (kept ∙ gone) ∙ sym (walk-spine-none 3 root b m gone)
          | inr (q, there) ↦
              let lq = spine-level 3 level pmm m root b q T at_root there in
              walk-spine-some 3 root b q written (kept ∙ there)
              ∙ last_walk q b (λ same. other (there ∙ ap some same)) lq
              ∙ sym (walk-spine-some 3 root b q m there)
        ]
