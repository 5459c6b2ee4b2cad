-- ===== src/Str/Search.antt =====
-- `strchr` and `strstr`: the first occurrence.
use best_os.Common.{
  ℕ, zero, suc, ◌+◌, ◌*◌, ◌≤◌, ◌<◌, ◌≡◌, ◌≢◌, refl, arith, Bool, true, false, Option, none, some,
  [], ◌∷◌, ◌==◌, if◌then◌else◌, length, Bool-cases, inl, inr,
}
use best_os.Str.{Text, next, strstr_loop, strstr_fuel, strstr, strchr, is_some}
use best_os.Str.Equality.{IsText}

-- `c` is one of the bytes of a text.
unfoldable pub has_char : ℕ → Text → Bool
has_char c [] = false
has_char c (x ∷ s) = if x == c then true else has_char c s

-- The rest from the first `c`, for `c` other than the terminator.
unfoldable pub from_char : ℕ → Text → Option Text
from_char c [] = none
from_char c (x ∷ s) = if x == c then some (x ∷ s) else from_char c s

-- `strchr` gives the rest of a text from the first occurrence of a character, and NULL when there
-- is none; the terminator is found behind the text.
pub strchr_lem :
    (s : Text) (c : ℕ) → IsText s → strchr s c ≡ (if c == 0 then some [] else from_char c s)
unfolding strchr from_char
strchr_lem [] c t = ground arith
strchr_lem (x ∷ s) c t = ground (arith, strchr_lem s c t.1)

is_some-strchr : (s : Text) (c : ℕ) → IsText s → c ≢ 0 → is_some (strchr s c) ≡ has_char c s
unfolding strchr has_char
is_some-strchr [] c t ne = ground arith
is_some-strchr (x ∷ s) c t ne = ground (arith, is_some-strchr s c t.1)

-- The text begins with `sub`.
unfoldable pub is_prefix : Text → Text → Bool
is_prefix [] s = true
is_prefix (b ∷ sub) [] = false
is_prefix (b ∷ sub) (a ∷ s) = if a == b then is_prefix sub s else false

-- The rest from the first place where `sub` stands.
unfoldable pub find_sub : Text → Text → Option Text
find_sub [] sub = if is_prefix sub [] then some [] else none
find_sub (c ∷ s) sub = if is_prefix sub (c ∷ s) then some (c ∷ s) else find_sub s sub

is_prefix-short : (sub s : Text) → length s < length sub → is_prefix sub s ≡ false
unfolding is_prefix
is_prefix-short [] s h = absurd (omega arith)
is_prefix-short (b ∷ sub) [] h = refl
is_prefix-short (b ∷ sub) (a ∷ s) h = ground (arith, is_prefix-short sub s)

find_sub-short : (s sub : Text) → length s < length sub → find_sub s sub ≡ none
unfolding find_sub
find_sub-short [] sub h = rw (is_prefix-short sub [] h)
find_sub-short (c ∷ s) sub h =
    rw (is_prefix-short sub (c ∷ s) h, find_sub-short s sub (omega arith))

find_sub-next :
    (s sub : Text) → find_sub s sub ≡ (if is_prefix sub s then some s else find_sub (next s) sub)
unfolding find_sub
find_sub-next [] sub = ground arith
find_sub-next (c ∷ s) sub = refl

length-next : (s : Text) → length (next s) ≤ length s
length-next [] = omega arith
length-next (c ∷ s) = omega arith

-- The loop, with `b` still to be matched at `a`, of which the text has at most one character less
-- to offer than from `str` on.
strstr_loop_lem :
    (f : ℕ) (a b str substr : Text)
    → IsText a
    → IsText b
    → IsText str
    → IsText substr
    → length b ≤ length substr
    → length str + length b ≡ length a + length substr
    → length b + length str * (length substr + 1) < f
    → strstr_loop f a b str substr
      ≡ some (if is_prefix b a then some str else find_sub (next str) substr)
unfolding strstr_loop is_prefix find_sub
strstr_loop_lem zero a b str substr ta tb ts tu lb le h = absurd (omega arith)
strstr_loop_lem (suc f) a [] str substr ta tb ts tu lb le h = refl
strstr_loop_lem (suc f) [] (y ∷ b) str substr ta tb ts tu lb le h =
    ground (arith, find_sub-short (next str) substr (omega (arith, length-next str)))
strstr_loop_lem (suc f) (x ∷ a) (y ∷ b) [] substr ta tb ts tu lb le h = absurd (omega arith)
strstr_loop_lem (suc f) (x ∷ a) (y ∷ b) (c ∷ str) substr ta tb ts tu lb le h =
    elim (Bool-cases (x == y)) [
      | inl e ↦ ground (
        arith,
        strstr_loop_lem f a b (c ∷ str) substr ta.1 tb.1 ts tu (omega arith) (omega arith)
            (omega arith),
      )
      | inr e ↦ ground (
        arith,
        find_sub-next str substr,
        strstr_loop_lem f str substr str substr ts.1 tu ts.1 tu (omega arith) (omega arith)
            (omega arith),
      )
    ]

-- `strstr` always returns, and gives the rest of the text from the first place where the other text
-- stands, or NULL when it stands nowhere.
pub strstr-find_sub :
    (str substr : Text)
    → IsText str
    → IsText substr
    → strstr str substr ≡ some (find_sub str substr)
unfolding strstr
strstr-find_sub str substr ts tu = ground (
  arith,
  find_sub-next str substr,
  strstr_loop_lem (strstr_fuel str substr) str substr str substr ts tu ts tu (omega arith)
      (omega arith) (omega arith),
)

-- Looking for one character.
pub find_sub-char : (c : ℕ) (s : Text) → find_sub s (c ∷ []) ≡ from_char c s
unfolding find_sub is_prefix from_char
find_sub-char c [] = refl
find_sub-char c (x ∷ s) = ground (arith, find_sub-char c s)
