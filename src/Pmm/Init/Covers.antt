-- ===== src/Pmm/Init/Covers.antt =====
-- The usable pages of a memory map, and the entry that `pmm_initialize` takes the bitmap from.
use best_os.Common.{
  ℕ, ◌+◌, ◌*◌, ◌/◌, ◌%◌, ◌^◌, ◌≤◌, ◌<◌, ◌≡◌, refl, arith, Bool, true, false, not, ◌&&◌, ◌||◌, add64,
  sub64, Option, none, some, List, [], ◌∷◌, leb, ◌==◌, if◌then◌else◌, Bool-cases, inl, inr, ==_iff,
}
use best_os.Pmm.{page_size, mmap_io_base}
use best_os.Pmm.Range.{within}
use best_os.Pmm.Init.{MmapEntry, mmap_usable, base_or, place_bitmap}

-- A usable entry begins at a page and ends inside the address space.
abbrev pub IsPaged : MmapEntry → Type 0
IsPaged e = e.type ≡ mmap_usable → (e.base % page_size ≡ 0) × (e.base + e.len ≤ 2 ^ 64)

abbrev pub ArePaged : List MmapEntry → Type 0
ArePaged [] = Unit {0}
ArePaged (e ∷ es) = IsPaged e × ArePaged es

-- Page `p` lies whole in a usable entry.
unfoldable pub covers : List MmapEntry → ℕ → Bool
covers [] p = false
covers (e ∷ es) p =
    (e.type == mmap_usable && within (e.base / page_size) (e.len / page_size) p) || covers es p

-- No page lies whole in two usable entries.
abbrev pub AreDisjoint : List MmapEntry → Type 0
AreDisjoint [] = Unit {0}
AreDisjoint (e ∷ es) =
    ((p : ℕ)
      → e.type ≡ mmap_usable
      → within (e.base / page_size) (e.len / page_size) p ≡ true
      → covers es p ≡ false)
    × AreDisjoint es

-- The first page of the first usable entry that holds `size` bytes.
pub home : ℕ → List MmapEntry → Option ℕ
home size [] = none
home size (e ∷ es) =
    let rest = home size es in
    if e.type == mmap_usable && leb size e.len then some (e.base / page_size) else rest

-- Page `p` is one of the pages of the bitmap.
abbrev pub holds : ℕ → Option ℕ → ℕ → Bool
holds size none p = false
holds size (some q) p = within q (size / page_size) p

pub place_bitmap-ArePaged :
    (size : ℕ) (es : List MmapEntry)
    → size % page_size ≡ 0
    → ArePaged es
    → ArePaged (place_bitmap size es).1
unfolding place_bitmap
place_bitmap-ArePaged size [] whole paged = tt
place_bitmap-ArePaged size (e ∷ es) whole paged =
    elim (Bool-cases (e.type == mmap_usable && leb size e.len)) [
      | inl u ↦ rw u (λ t. ground arith, paged.1)
      | inr u ↦ rw u (paged.0, place_bitmap-ArePaged size es whole paged.1)
    ]

holds-covers :
    (size p : ℕ) (es : List MmapEntry) → holds size (home size es) p ≡ true → covers es p ≡ true
unfolding home covers
holds-covers size p [] h = absurd (ground arith)
holds-covers size p (e ∷ es) h = elim (Bool-cases (e.type == mmap_usable && leb size e.len)) [
  | inl u ↦
      let here : within (e.base / page_size) (size / page_size) p ≡ true = rw u at h in ground arith
  | inr u ↦
      let there : holds size (home size es) p ≡ true = rw u at h in
      ground (arith, holds-covers size p es there)
]

within_moved :
    (b l size p : ℕ)
    → b % 4096 ≡ 0
    → size % 4096 ≡ 0
    → 0 < size
    → size ≤ l
    → b + l ≤ 2 ^ 64
    → within (add64 b size / 4096) (sub64 l size / 4096) p
      ≡ (within (b / 4096) (l / 4096) p && not (within (b / 4096) (size / 4096) p))
within_moved b l size p wb ws some_size fits ends = ground arith

-- The entry that holds the bitmap.
taken_head :
    (b n size p : ℕ) (moved rest : Bool)
    → moved ≡ (within b n p && not (within b size p))
    → size ≤ n
    → (within b n p ≡ true → rest ≡ false)
    → (moved || rest) ≡ ((within b n p || rest) && not (within b size p))
taken_head b n size p moved rest is fits apart = elim (Bool-cases (within b n p)) [
  | inl h ↦ rw (is, apart h, h) (ground arith)
  | inr h ↦ let out : within b size p ≡ false = ground arith in rw (is, h, out) (ground arith)
]

-- The usable pages after the bitmap is placed: those from before without the pages of the bitmap.
pub covers-place_bitmap :
    (size p : ℕ) (es : List MmapEntry)
    → size % page_size ≡ 0
    → 0 < size
    → ArePaged es
    → AreDisjoint es
    → covers (place_bitmap size es).1 p ≡ (covers es p && not (holds size (home size es) p))
unfolding place_bitmap home covers
covers-place_bitmap size p [] whole some_size paged apart = refl
covers-place_bitmap size p (e ∷ es) whole some_size paged apart =
    elim (Bool-cases (e.type == mmap_usable && leb size e.len)) [
      | inl u ↦
          let is_usable : (e.type == mmap_usable) ≡ true = ground arith in
          let (wb, ends) = paged.0 ((==_iff _ _).0 is_usable) in
          let moved = within_moved e.base e.len size p wb whole some_size (ground arith) ends in
          rw (u, is_usable)
            (taken_head (e.base / 4096) (e.len / 4096) (size / 4096) p _ _ moved (ground arith)
              (apart.0 p ((==_iff _ _).0 is_usable)))
      | inr u ↦ elim (Bool-cases (holds size (home size es) p)) [
        | inl h ↦
            let kept = holds-covers size p es h in
            rw u (
              ground (
                arith,
                covers-place_bitmap size p es whole some_size paged.1 apart.1,
                kept,
                apart.0 p,
                h,
              ))
        | inr h ↦
            rw u (ground (arith, covers-place_bitmap size p es whole some_size paged.1 apart.1, h))
      ]
    ]

-- The address of the bitmap: the first usable entry that holds it, in the direct map.
abbrev pub bitmap_at : Option ℕ → ℕ → ℕ
bitmap_at none base = base
bitmap_at (some q) base = add64 (q * page_size) mmap_io_base

pub place_bitmap-home :
    (size base : ℕ) (es : List MmapEntry)
    → ArePaged es
    → base_or (place_bitmap size es).0 base ≡ bitmap_at (home size es) base
unfolding place_bitmap home base_or
place_bitmap-home size base [] paged = refl
place_bitmap-home size base (e ∷ es) paged =
    elim (Bool-cases (e.type == mmap_usable && leb size e.len)) [
      | inl u ↦
          let is_usable : (e.type == mmap_usable) ≡ true = ground arith in
          let (whole, ends) = paged.0 ((==_iff _ _).0 is_usable) in
          let at : e.base / page_size * page_size ≡ e.base = omega arith in rw (u, at) refl
      | inr u ↦ rw u (place_bitmap-home size base es paged.1)
    ]
