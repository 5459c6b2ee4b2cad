-- ===== src/Boot/Tags.antt =====
-- The look-up of a tag of the boot loader.
use best_os.Common.{
  ℕ, zero, suc, ◌<◌, ◌≡◌, ◌≢◌, refl, arith, false, some, ◌==◌, Bool-cases, inl, inr,
}
use best_os.Mem.{Memory}
use best_os.Boot.{tags_of, identifier, next_tag, get_tag_from, stivale2_get_tag}

-- A chain of `n` tags from an address, which ends with NULL.
abbrev pub Chain : Memory → ℕ → ℕ → Type 0
Chain m tag zero = tag ≡ 0
Chain m tag (suc n) = (tag ≢ 0) × Chain m (next_tag tag m) n

-- `r` is the first tag with the identifier in the chain from a tag, or 0 where there is none.
pub data First (m : Memory) (id r : ℕ) : ℕ → Type 0 where
  missing : (tag : ℕ) → tag ≡ 0 → r ≡ 0 → First m id r tag
  here : (tag : ℕ) → tag ≢ 0 → identifier tag m ≡ id → r ≡ tag → First m id r tag
  later :
      (tag : ℕ) → tag ≢ 0 → identifier tag m ≢ id → First m id r (next_tag tag m) → First m id r tag

get_tag_from-First :
    (n f tag id : ℕ) (m : Memory)
    → Chain m tag n
    → n < f
    → (r : ℕ) × (get_tag_from f tag id m ≡ some r) × First m id r tag
unfolding get_tag_from
get_tag_from-First n zero tag id m c few = absurd (omega arith)
get_tag_from-First zero (suc f) tag id m c few = (0, ground (arith, c), missing tag c refl)
get_tag_from-First (suc n) (suc f) tag id m c few =
    let some_tag : (tag == 0) ≡ false = ground (arith, c.0) in
    elim (Bool-cases (identifier tag m == id)) [
      | inl e ↦ (tag, rw (some_tag, e) refl, here tag c.0 (ground arith) refl)
      | inr e ↦
          let (r, run, first) = get_tag_from-First n f (next_tag tag m) id m c.1 (omega arith) in
          (r, rw (some_tag, e) run, later tag c.0 (λ same. ground arith) first)
    ]

-- When the tags of the boot loader are a chain that ends, the loop ends too, with fuel for one round more
-- than there are tags, and gives the first tag of the identifier, or NULL where no tag has it.
pub stivale2_get_tag-First :
    (n f stivale2_struct id : ℕ) (m : Memory)
    → Chain m (tags_of stivale2_struct m) n
    → n < f
    → (r : ℕ) × (stivale2_get_tag f stivale2_struct id m ≡ some r)
      × First m id r (tags_of stivale2_struct m)
unfolding stivale2_get_tag
stivale2_get_tag-First n f stivale2_struct id m c few =
    get_tag_from-First n f (tags_of stivale2_struct m) id m c few
