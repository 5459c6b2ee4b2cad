-- ===== src/Str/Copy.antt =====
-- `strdup`, `strcat` and `strcpy`.
use best_os.Common.{
  ℕ, zero, suc, ◌+◌, ◌≤◌, ◌<◌, ◌≡◌, ◌⊎◌, refl, ◌∙◌, arith, some, [], ◌∷◌, ◌++◌, length,
}
use best_os.Mem.{Memory, store}
use best_os.Str.{Text, strdup, strcat, strcpy_from, strcpy}
use best_os.Str.Equality.{IsText}

pub strdup_lem : (s : Text) → IsText s → strdup s ≡ s
unfolding strdup
strdup_lem [] t = refl
strdup_lem (c ∷ s) t = ground (arith, strdup_lem s t.1)

-- `strcat` gives the two texts one after the other.
pub strcat-append : (s s2 : Text) → IsText s → IsText s2 → strcat s s2 ≡ s ++ s2
unfolding strcat
strcat-append [] s2 t u = strdup_lem s2 u
strcat-append (c ∷ s) s2 t u = ground (arith, strcat-append s s2 t.1 u)

-- The memory holds the text at address `p`, with its terminator.
abbrev pub Holds : Memory → ℕ → Text → Type 0
Holds m p [] = m p ≡ 0
Holds m p (c ∷ s) = (m p ≡ c) × Holds m (p + 1) s

pub Holds-same :
    (m w : Memory) (p : ℕ) (s : Text)
    → ((a : ℕ) → p ≤ a → a ≤ p + length s → w a ≡ m a)
    → Holds m p s
    → Holds w p s
Holds-same m w p [] same h = same p (omega arith) (omega arith) ∙ h
Holds-same m w p (c ∷ s) same h = (
  same p (omega arith) (omega arith) ∙ h.0,
  Holds-same m w (p + 1) s (λ a lo hi. same a (omega arith) (omega arith)) h.1,
)

-- What a copy of the text `s` to `dest` leaves.
pub record Copied (dest : ℕ) (s : Text) (m w : Memory) : Type 0 where
  pub held : Holds w dest s
  pub same : (a : ℕ) → (a < dest) ⊎ (dest + length s < a) → w a ≡ m a

Copied-cons :
    (p c : ℕ) (s : Text) (m w : Memory) → Copied (p + 1) s (store m p c) w → Copied p (c ∷ s) m w
unfolding store
Copied-cons p c s m w r = record {
  held = (ground (arith, r.same p), r.held);
  same = λ a out. ground (arith, r.same a);
}

Holds-store :
    (m : Memory) (q p c : ℕ) (s : Text)
    → (q < p) ⊎ (p + length s < q)
    → Holds m p s
    → Holds (store m q c) p s
unfolding store
Holds-store m q p c s apart h = Holds-same m (store m q c) p s (λ a lo hi. ground arith) h

strcpy_from-Copied :
    (s : Text) (f i dest src : ℕ) (m : Memory)
    → IsText s
    → Holds m (src + i) s
    → (dest + length s < src) ⊎ (src + i + length s < dest + i)
    → length s < f
    → (w : Memory) × (strcpy_from f i dest src m ≡ some w) × Copied (dest + i) s m w
unfolding strcpy_from
strcpy_from-Copied s zero i dest src m t h apart fuel = absurd (omega arith)
strcpy_from-Copied [] (suc f) i dest src m t h apart fuel = (
  store m (dest + i) 0,
  ground arith,
  unfold store in record { held = ground arith; same = λ a out. ground arith },
)
strcpy_from-Copied (c ∷ s) (suc f) i dest src m t h apart fuel =
    let m' = store m (dest + i) (m (src + i)) in
    let from : src + i + 1 ≡ src + (i + 1) = omega arith in
    let to : dest + (i + 1) ≡ dest + i + 1 = omega arith in
    let held : Holds m' (src + (i + 1)) s =
      rw (← from) (Holds-store m (dest + i) (src + i + 1) (m (src + i)) s (omega arith) h.1) in
    let (w, run, copied) =
      strcpy_from-Copied s f (i + 1) dest src m' t.1 held (omega arith) (omega arith) in
    let copied' : Copied (dest + i + 1) s (store m (dest + i) c) w = rw (← to) (rw h.0 at copied) in
    (w, ground arith, Copied-cons (dest + i) c s m w copied')

-- With one unit of fuel for each byte and the terminator `strcpy` leaves the text with its
-- terminator at the target and changes nothing outside those bytes, when source and target do not
-- overlap.
pub strcpy-Copied :
    (s : Text) (fuel dest src : ℕ) (m : Memory)
    → IsText s
    → Holds m src s
    → (dest + length s < src) ⊎ (src + length s < dest)
    → length s < fuel
    → (w : Memory) × (strcpy fuel dest src m ≡ some w) × Copied dest s m w
unfolding strcpy
strcpy-Copied s fuel dest src m t h apart enough =
    let at : src + 0 ≡ src = omega arith in
    let to : dest + 0 ≡ dest = omega arith in
    let (w, run, copied) =
      strcpy_from-Copied s fuel 0 dest src m t (rw at h) (omega arith) enough in
    (w, run, rw to at copied)
