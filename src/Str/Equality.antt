-- ===== src/Str/Equality.antt =====
-- `strlen` and `str_eq`.
use best_os.Common.{
  ℕ, zero, suc, ◌+◌, ◌≡◌, ◌≢◌, ◌↔◌, refl, ap, arith, Bool, true, false, [], ◌∷◌, ◌==◌,
  if◌then◌else◌, length,
}
use best_os.Str.{Text, strlen, str_eq_from, str_eq}

-- A list with no terminator inside: the text that a C string stands for.
abbrev pub IsText : Text → Type 0
IsText [] = Unit {0}
IsText (c ∷ s) = (c ≢ 0) × IsText s

-- The test of it.
unfoldable pub is_text : Text → Bool
is_text [] = true
is_text (c ∷ s) = if c == 0 then false else is_text s

pub is_text-IsText : (s : Text) → is_text s ≡ true → IsText s
unfolding is_text
is_text-IsText [] h = tt
is_text-IsText (c ∷ s) h = (λ e. ground arith, is_text-IsText s (ground arith))

pub strlen_lem : (s : Text) → IsText s → strlen s ≡ length s
unfolding strlen
strlen_lem [] t = refl
strlen_lem (c ∷ s) t = ground (arith, strlen_lem s t.1)

-- One position more at the front of both strings.
str_eq_from-cons :
    (n i a b : ℕ) (s1 s2 : Text) → str_eq_from n (suc i) (a ∷ s1) (b ∷ s2) ≡ str_eq_from n i s1 s2
unfolding str_eq_from
str_eq_from-cons zero i a b s1 s2 = refl
str_eq_from-cons (suc n) i a b s1 s2 =
    let moved : suc i + 1 ≡ suc (i + 1) = omega arith in
    rw (moved, str_eq_from-cons n (i + 1) a b s1 s2)

str_eq_from_iff :
    (s1 s2 : Text) → length s1 ≡ length s2 → (str_eq_from (length s1) 0 s1 s2 ≡ true) ↔ (s1 ≡ s2)
unfolding str_eq_from
str_eq_from_iff [] [] e = (λ h. refl, λ h. refl)
str_eq_from_iff [] (b ∷ s2) e = absurd (omega arith)
str_eq_from_iff (a ∷ s1) [] e = absurd (omega arith)
str_eq_from_iff (a ∷ s1) (b ∷ s2) e =
    let ih = str_eq_from_iff s1 s2 (omega arith) in
    let step = str_eq_from-cons (length s1) 0 a b s1 s2 in
    (λ h. ground (arith, step, ih.0), λ h. ground (arith, step, ih.1))

-- `str_eq` holds exactly of equal texts.
pub str_eq_iff : (s1 s2 : Text) → IsText s1 → IsText s2 → (str_eq s1 s2 ≡ true) ↔ (s1 ≡ s2)
unfolding str_eq
str_eq_iff s1 s2 t1 t2 =
    let l1 = strlen_lem s1 t1 in
    let l2 = strlen_lem s2 t2 in
    rw (l1, l2)
      (
        λ h. ground (arith, str_eq_from_iff s1 s2),
        λ h. ground (arith, (str_eq_from_iff s1 s2 (ap length h)).1, ap length h),
      )
