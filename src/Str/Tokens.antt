-- ===== src/Str/Tokens.antt =====
-- `strtok` with "/": a text is cut at its first slash.
use best_os.Common.{
  ℕ, suc, ◌≤◌, ◌≡◌, ◌≢◌, refl, ap, ◌∙◌, arith, true, false, Option, none, some, List, [], ◌∷◌, ◌++◌,
  ◌==◌, if◌then◌else◌, length, Bool-cases, inl, inr,
}
use best_os.Str.{Text, slash, strtok_scan, strchr, is_some}
use best_os.Str.Equality.{IsText}
use best_os.Str.Search.{has_char}
use best_os.Str.Path.{last_segment}

-- The reference: one segment more than there are slashes.
unfoldable pub cons_head : ℕ → List Text → List Text
cons_head c [] = (c ∷ []) ∷ []
cons_head c (s ∷ ss) = (c ∷ s) ∷ ss

unfoldable pub split : Text → List Text
split [] = [] ∷ []
split (c ∷ s) = if c == slash then [] ∷ split s else cons_head c (split s)

unfoldable pub split_rest : Option Text → List Text
split_rest none = []
split_rest (some s) = split s

abbrev pub rest_length : Option Text → ℕ
rest_length none = 0
rest_length (some s) = suc (length s)

abbrev pub RestIsText : Option Text → Type 0
RestIsText none = Unit {0}
RestIsText (some s) = IsText s

-- What one `strtok` makes of a text: the token is the first segment, the rest holds the others.
pub record Scanned (s : Text) (r : Text × Option Text) : Type 0 where
  pub whole : r.0 ∷ split_rest r.1 ≡ split s
  pub shorter : rest_length r.1 ≤ length s
  pub rest_text : RestIsText r.1
  pub token_text : IsText r.0

is_delim : (c : ℕ) → c ≢ 0 → is_some (strchr (slash ∷ []) c) ≡ (c == slash)
unfolding strchr
is_delim c ne = ground arith

pub strtok_scan-Scanned : (s : Text) → IsText s → Scanned s (strtok_scan (slash ∷ []) s)
unfolding strtok_scan split split_rest cons_head
strtok_scan-Scanned [] t = record {
  whole = refl;
  shorter = omega arith;
  rest_text = tt;
  token_text = tt;
}
strtok_scan-Scanned (c ∷ s) t =
    let inside : (c == 0) ≡ false = ground arith in
    let r = strtok_scan-Scanned s t.1 in
    elim (Bool-cases (c == slash)) [
      | inl e ↦
          rw (inside, is_delim c t.0, e)
            (record { whole = rw e; shorter = omega arith; rest_text = t.1; token_text = tt })
      | inr e ↦
          rw (inside, is_delim c t.0, e)
            (record {
              whole = rw (e, ← r.whole);
              shorter = omega (arith, r.shorter);
              rest_text = r.rest_text;
              token_text = (t.0, r.token_text);
            })
    ]

-- The segments put together again, with a slash between any two.
unfoldable pub join : List Text → Text
join [] = []
join (s ∷ []) = s
join (s ∷ t ∷ ss) = s ++ slash ∷ join (t ∷ ss)

abbrev pub AreSegments : List Text → Type 0
AreSegments [] = Unit {0}
AreSegments (s ∷ ss) = (has_char slash s ≡ false) × AreSegments ss

split-cons : (s : Text) → (t : Text) × (ts : List Text) × (split s ≡ t ∷ ts)
unfolding split cons_head
split-cons [] = ([], [], refl)
split-cons (c ∷ s) = elim (Bool-cases (c == slash)) [
  | inl e ↦ ([], split s, rw e)
  | inr e ↦ let (t, ts, same) = split-cons s in (c ∷ t, ts, rw (e, same))
]

join-cons_head :
    (c : ℕ) (t : Text) (ts : List Text) → join (cons_head c (t ∷ ts)) ≡ c ∷ join (t ∷ ts)
unfolding cons_head join
join-cons_head c t [] = refl
join-cons_head c t (u ∷ ts) = refl

-- Joining the segments gives back the path, and no segment has a slash.
pub join-split : (s : Text) → (join (split s) ≡ s) × AreSegments (split s)
unfolding split join cons_head has_char
join-split [] = (refl, (refl, tt))
join-split (c ∷ s) =
    let (t, ts, same) = split-cons s in
    let back : join (t ∷ ts) ≡ s = rw same at (join-split s).0 in
    let clean : AreSegments (t ∷ ts) = rw same at (join-split s).1 in
    elim (Bool-cases (c == slash)) [
      | inl e ↦ rw (e, same) (ground (arith, back), (refl, clean))
      | inr e ↦ rw (e, same) (join-cons_head c t ts ∙ ap (◌∷◌ c) back, (rw e clean.0, clean.1))
    ]

abbrev pub last_of : List Text → Text
last_of [] = []
last_of (s ∷ []) = s
last_of (s ∷ t ∷ ss) = last_of (t ∷ ss)

split-clean : (s : Text) → has_char slash s ≡ false → split s ≡ s ∷ []
unfolding split cons_head has_char
split-clean [] h = refl
split-clean (c ∷ s) h = ground (arith, split-clean s)

last_segment-clean : (s : Text) → has_char slash s ≡ false → last_segment s ≡ s
unfolding last_segment has_char
last_segment-clean [] h = refl
last_segment-clean (c ∷ s) h = ground arith

split-many :
    (s : Text) → has_char slash s ≡ true → (t u : Text) × (ts : List Text) × (split s ≡ t ∷ u ∷ ts)
unfolding split cons_head has_char
split-many [] h = cc
split-many (c ∷ s) h = elim (Bool-cases (c == slash)) [
  | inl e ↦ let (t, ts, same) = split-cons s in ([], t, ts, rw (e, same))
  | inr e ↦ let (t, u, ts, same) = split-many s (ground arith) in (c ∷ t, u, ts, rw (e, same))
]

-- The last segment of a path is what follows its last slash.
pub last_of-split : (s : Text) → last_of (split s) ≡ last_segment s
unfolding split cons_head last_segment
last_of-split [] = refl
last_of-split (c ∷ s) = elim (Bool-cases (has_char slash s)) [
  | inl h ↦
      let (t, u, ts, same) = split-many s h in
      let ih = last_of-split s in
      elim (Bool-cases (c == slash)) [
        | inl e ↦ rw (h, e, same) (rw same at ih)
        | inr e ↦ rw (h, e, same) (rw same at ih)
      ]
  | inr h ↦ elim (Bool-cases (c == slash)) [
    | inl e ↦ rw (h, e, split-clean s h)
    | inr e ↦ rw (h, e, split-clean s h)
  ]
]
