-- ===== src/Pmm/Init/Laws.antt =====
-- `pmm_initialize` and the bitmap that it leaves.
use best_os.Common.{
  ℕ, ◌+◌, ◌*◌, ◌/◌, ◌%◌, ◌^◌, ◌≤◌, ◌<◌, ◌≡◌, refl, ◌∙◌, ◌⊎◌, arith, true, not, ◌&&◌, none, some,
  List, [], ◌∷◌, ◌==◌, if◌then◌else◌, bit, u8, Bool-cases, inl, inr, every, every_lem, ==_iff,
}
use best_os.Mem.{memset}
use best_os.Mem.Laws.{memset_lem}
use best_os.Pmm.{Pmm, page_size, bit_test, pmm_free}
use best_os.Pmm.Bitmap.{bit_test-bit}
use best_os.Pmm.Range.{used, within, SameShape, pmm_free-Marks, pmm_free-SameShape}
use best_os.Pmm.Init.{
  MmapEntry, mmap_usable, find_top, bitmap_size, place_bitmap, free_entry, free_usable, start_state,
  pmm_initialize,
}
use best_os.Pmm.Init.Bounds.{bitmap_size_lem}
use best_os.Pmm.Init.Covers.{
  ArePaged, IsPaged, AreDisjoint, covers, home, holds, bitmap_at, place_bitmap-ArePaged,
  covers-place_bitmap, place_bitmap-home,
}
use best_os.Pmm.Init.Top.{IsTop, find_top-IsTop, find_top-lt}

-- `pmm_free` at any page address.
used-pmm_free :
    (a n p : ℕ) (s : Pmm)
    → a % page_size ≡ 0
    → a + n * page_size ≤ 2 ^ 64
    → used p (pmm_free a n s) ≡ (if within (a / page_size) n p then 0 else used p s)
used-pmm_free a n p s whole fits =
    let at : a / page_size * page_size ≡ a = omega arith in
    let marks = (pmm_free-Marks (a / page_size) n s (omega arith)).0 in rw at at (marks.bits p)

used-free_entry :
    (e : MmapEntry) (p : ℕ) (s : Pmm)
    → IsPaged e
    → used p (free_entry e s) ≡ (
        if e.type == mmap_usable && within (e.base / page_size) (e.len / page_size) p
        then 0
        else used p s)
unfolding free_entry
used-free_entry e p s paged = elim (Bool-cases (e.type == mmap_usable)) [
  | inl u ↦
      let at = paged ((==_iff _ _).0 u) in
      rw u (used-pmm_free e.base (e.len / page_size) p s at.0 (omega arith))
  | inr u ↦ rw u
]

used-free_usable :
    (es : List MmapEntry) (p : ℕ) (s : Pmm)
    → ArePaged es
    → used p (free_usable es s) ≡ (if covers es p then 0 else used p s)
unfolding free_usable covers
used-free_usable [] p s paged = refl
used-free_usable (e ∷ es) p s paged =
    ground (arith, used-free_usable es p (free_entry e s) paged.1, used-free_entry e p s paged.0)

free_usable-SameShape : (es : List MmapEntry) (s : Pmm) → SameShape s (free_usable es s)
unfolding free_usable free_entry
free_usable-SameShape [] s = record { highest_page = refl; base = refl; size = refl }
free_usable-SameShape (e ∷ es) s = ground (
  arith,
  free_usable-SameShape es (free_entry e s),
  pmm_free-SameShape e.base (e.len / page_size) s,
)

ones_table : every (λ j. bit (u8 0xff) j == 1) 8 ≡ true
unfolding every
ones_table = refl

used-memset : (size p : ℕ) (f : ℕ → ℕ) → p < 8 * size → bit_test p (memset 0 0xff size f) ≡ 1
used-memset size p f h = ground (
  arith,
  bit_test-bit p (memset 0 0xff size f),
  memset_lem 0 0xff size f (p / 8),
  (==_iff _ _).0 (every_lem _ 8 (p % 8) ones_table (omega arith)),
)

-- What `pmm_initialize` leaves, by the memory map that it got: the top and the bitmap's size, the place
-- of the bitmap, and the bits.
pub record IsReady (entries : List MmapEntry) (s t : Pmm) : Type 0 where
  pub large : 2 ^ 15 ≤ t.highest_page
  pub top : IsTop entries s.highest_page t.highest_page
  pub size : t.size ≡ (t.highest_page / 32768 + 4095) / 4096 * 4096
  pub place : t.base ≡ bitmap_at (home t.size entries) s.base
  pub bits :
      (p : ℕ)
      → p < 8 * t.size
      → used p t ≡ (if covers entries p && not (holds t.size (home t.size entries) p) then 0 else 1)

ready :
    (entries : List MmapEntry) (s : Pmm)
    → ArePaged entries
    → AreDisjoint entries
    → s.highest_page < 2 ^ 64
    → 0 < bitmap_size (find_top entries s.highest_page)
    → let highest = find_top entries s.highest_page in
      let (found, es) = place_bitmap (bitmap_size highest) entries in
      IsReady entries s (free_usable es (start_state highest found s))
unfolding start_state
ready entries s paged apart lt some_size =
    let highest = find_top entries s.highest_page in
    let size = bitmap_size highest in
    let (found, es) = place_bitmap size entries in
    let start = start_state highest found s in
    let shape = free_usable-SameShape es start in
    let (whole, low, high) = bitmap_size_lem highest (find_top-lt entries s.highest_page lt) in
    let same_size : (free_usable es start).size ≡ size = shape.size in
    record {
      large = rw shape.highest_page (omega (arith, whole, low, high, some_size));
      top = rw shape.highest_page (find_top-IsTop entries s.highest_page);
      size = rw (shape.size, shape.highest_page) (omega (arith, whole, low, high));
      place = shape.base ∙ rw shape.size (place_bitmap-home size s.base entries paged);
      bits = λ p h. rw shape.size (
          ground (
            arith,
            used-free_usable es p start (place_bitmap-ArePaged size entries whole paged),
            covers-place_bitmap size p entries whole some_size paged apart,
            used-memset size p s.data_at,
            shape.size,
          ));
    }

-- `pmm_initialize` halts exactly when the top of the memory map is below 2 ^ 15, the memory of eight
-- pages. Otherwise `highest_page` is the top, the end of an entry that counts above which none ends, or
-- the former value; the size of the bitmap is a byte for every eight pages, rounded up to pages; the
-- bitmap is at the first usable entry that is large enough, if there is one; and over all pages that
-- it counts it has a clear bit for exactly the pages of the usable entries of the map without those
-- that the bitmap itself takes. The usable entries begin at a page, end inside the address space and
-- share no page, and `highest_page` is a 64-bit number before.
pub pmm_initialize-IsReady :
    (entries : List MmapEntry) (s : Pmm)
    → ArePaged entries
    → AreDisjoint entries
    → s.highest_page < 2 ^ 64
    → ((es : List MmapEntry) × (t : Pmm) × (pmm_initialize entries s ≡ some (es, t))
        × IsReady entries s t)
      ⊎ ((top : ℕ) × IsTop entries s.highest_page top
          × (top < 2 ^ 15)
          × (pmm_initialize entries s ≡ none))
unfolding pmm_initialize
pmm_initialize-IsReady entries s paged apart lt =
    let highest = find_top entries s.highest_page in
    let (whole, low, high) = bitmap_size_lem highest (find_top-lt entries s.highest_page lt) in
    elim (Bool-cases (bitmap_size highest == 0)) [
      | inl e ↦
          let none_left : bitmap_size highest ≡ 0 = ground arith in
          inr (
            highest,
            find_top-IsTop entries s.highest_page,
            omega (arith, low, none_left),
            rw e refl,
          )
      | inr e ↦
          let some_size : 0 < bitmap_size highest = ground arith in
          let (found, es) = place_bitmap (bitmap_size highest) entries in
          inl (
            es,
            free_usable es (start_state highest found s),
            rw e refl,
            ready entries s paged apart lt some_size,
          )
    ]
