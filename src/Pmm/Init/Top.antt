-- ===== src/Pmm/Init/Top.antt =====
-- The top of the memory that `pmm_initialize` finds in the memory map.
use best_os.Common.{
  ℕ, ◌^◌, ◌≤◌, ◌<◌, ◌≡◌, refl, ◌∙◌, ◌⊎◌, arith, Bool, true, false, ◌&&◌, ◌||◌, add64, List, [], ◌∷◌,
  ltb, ◌==◌, Bool-cases, inl, inr,
}
use best_os.Pmm.Init.{
  MmapEntry, mmap_usable, mmap_bootloader_reclaimable, mmap_kernel_and_modules, raise_top, find_top,
}

-- The entries that count for the top: usable, of the boot loader, of the kernel and its modules.
abbrev pub counts : MmapEntry → Bool
counts e =
    e.type == mmap_usable
    || e.type == mmap_bootloader_reclaimable
    || e.type == mmap_kernel_and_modules

-- `h` is `from` or the end of an entry that counts, and no entry that counts ends above it.
abbrev pub AreBelow : List MmapEntry → ℕ → Type 0
AreBelow [] h = Unit {0}
AreBelow (e ∷ es) h = (counts e ≡ true → add64 e.base e.len ≤ h) × AreBelow es h

pub ends_at : List MmapEntry → ℕ → Bool
ends_at [] h = false
ends_at (e ∷ es) h = (counts e && (add64 e.base e.len == h)) || ends_at es h

pub record IsTop (entries : List MmapEntry) (from h : ℕ) : Type 0 where
  pub above : from ≤ h
  pub highest : AreBelow entries h
  pub reached : (h ≡ from) ⊎ (ends_at entries h ≡ true)

raise_top-cases :
    (e : MmapEntry) (from : ℕ)
    → (raise_top e from ≡ from) ⊎ (counts e ≡ true) × (raise_top e from ≡ add64 e.base e.len)
unfolding raise_top
raise_top-cases e from = elim (Bool-cases (counts e && ltb from (add64 e.base e.len))) [
  | inl h ↦ inr (ground arith, ground arith)
  | inr h ↦ inl (ground arith)
]

raise_top-above :
    (e : MmapEntry) (from : ℕ)
    → (from ≤ raise_top e from) × (counts e ≡ true → add64 e.base e.len ≤ raise_top e from)
unfolding raise_top
raise_top-above e from = (ground arith, λ c. ground arith)

pub find_top-IsTop : (es : List MmapEntry) (from : ℕ) → IsTop es from (find_top es from)
unfolding find_top ends_at
find_top-IsTop [] from = record { above = omega arith; highest = tt; reached = inl refl }
find_top-IsTop (e ∷ es) from =
    let t = find_top-IsTop es (raise_top e from) in
    let up = raise_top-above e from in
    record {
      above = omega (arith, t.above, up.0);
      highest = (λ c. omega (arith, t.above, up.1 c), t.highest);
      reached = elim t.reached [
        | inr r ↦ inr (ground (arith, r))
        | inl same ↦ elim (raise_top-cases e from) [
          | inl kept ↦ inl (same ∙ kept)
          | inr (c, raised) ↦ inr (let at = same ∙ raised in ground (arith, at, c))
        ]
      ];
    }

pub find_top-lt : (es : List MmapEntry) (h : ℕ) → h < 2 ^ 64 → find_top es h < 2 ^ 64
unfolding find_top raise_top
find_top-lt [] h lt = lt
find_top-lt (e ∷ es) h lt = find_top-lt es (raise_top e h) (ground arith)
