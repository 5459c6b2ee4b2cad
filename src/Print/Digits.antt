-- ===== src/Print/Digits.antt =====
-- `string_convert`, read back.
use best_os.Common.{
  ℕ, zero, suc, ◌+◌, ◌-◌, ◌*◌, ◌/◌, ◌%◌, ◌^◌, ◌≤◌, ◌<◌, ◌≡◌, ◌≢◌, refl, ap, ◌∙◌, arith, true,
  Option, some, [], ◌∷◌, ltb, ◌==◌, if◌then◌else◌, length, get_or, u32, Bool-cases, inl, inr, every,
  every_lem, ==_iff,
}
use native.Mathlib.Nat.{pow-suc}
use best_os.Str.{Text}
use best_os.Print.{representation, convert_from, string_convert}

unfoldable pub digit_of : ℕ → ℕ
digit_of c = if ltb c b'A' then c - b'0' else c - b'A' + 10

-- The number that digits stand for, behind digits that stand for `n`.
unfoldable pub value_from : ℕ → ℕ → Text → ℕ
value_from base n [] = n
value_from base n (c ∷ s) = value_from base (n * base + digit_of c) s

digit_table : every (λ d. digit_of (get_or representation d 0) == d) 16 ≡ true
unfolding every digit_of
digit_table = refl

digit_of-representation : (d : ℕ) → d < 16 → digit_of (get_or representation d 0) ≡ d
digit_of-representation d h = (==_iff _ _).0 (every_lem _ 16 d digit_table h)

-- What the loop leaves.
record Converted (room num base : ℕ) (digits : Text) (o : Option Text) : Type 0 where
  text : Text
  result : o ≡ some text
  value : value_from base 0 text ≡ value_from base num digits
  short : length text ≤ room + length digits

module _ (base : ℕ) (halves : (n : ℕ) → n / base * 2 ≤ n)
    (back : (n : ℕ) → n / base * base + n % base ≡ n) (digit : (n : ℕ) → n % base < 16) where
  -- A number of more than one digit needs room for more than one.
  room_for : (num room : ℕ) → num < 2 ^ suc room → num / base ≢ 0 → 0 < room
  room_for num zero h more = absurd (omega (arith, halves num))
  room_for num (suc room) h more = omega arith

  convert_from-Converted :
      (room num : ℕ) (digits : Text)
      → num < 2 ^ room
      → 0 < room
      → Converted room num base digits (convert_from room num base digits)
  unfolding convert_from value_from
  convert_from-Converted zero num digits h some_room = absurd (omega arith)
  convert_from-Converted (suc room) num digits h some_room =
      let d = get_or representation (num % base) 0 in
      let next : num / base * base + digit_of d ≡ num =
        ap (λ (k : ℕ). num / base * base + k) (digit_of-representation (num % base) (digit num))
        ∙ back num in
      let joined = ap (λ (k : ℕ). value_from base k digits) next in
      elim (Bool-cases (num / base == 0)) [
        | inl e ↦
            let gone : num / base ≡ 0 = ground arith in
            let alone : 0 * base + digit_of d ≡ num =
              ap (λ (k : ℕ). k * base + digit_of d) {x = 0} {y = num / base} (omega arith) ∙ next in
            rw e (record {
              text = d ∷ digits;
              result = refl;
              value = ap (λ (k : ℕ). value_from base k digits) alone;
              short = omega arith;
            })
        | inr e ↦
            let room_left : 0 < room = room_for num room h (λ z. ground arith) in
            let c =
              convert_from-Converted room (num / base) (d ∷ digits)
                (omega (arith, halves num, pow-suc 2 room)) room_left in
            rw e (record {
              text = c.text;
              result = c.result;
              value = c.value ∙ joined;
              short = omega (arith, c.short);
            })
      ]

-- A 32-bit number that is converted to decimal or hexadecimal digits fits the buffer, and the digits
-- stand for it.
pub string_convert-value :
    (num : ℕ)
    → num < 2 ^ 32
    → ((t : Text) × (string_convert num 10 ≡ some t) × (value_from 10 0 t ≡ num))
      × ((t : Text) × (string_convert num 16 ≡ some t) × (value_from 16 0 t ≡ num))
unfolding string_convert value_from
string_convert-value num small =
    let same : u32 num ≡ num = omega arith in
    let d =
      convert_from-Converted 10 (λ n. omega arith) (λ n. omega arith) (λ n. omega arith) 49 num []
        (omega arith) (omega arith) in
    let x =
      convert_from-Converted 16 (λ n. omega arith) (λ n. omega arith) (λ n. omega arith) 49 num []
        (omega arith) (omega arith) in
    rw same ((d.text, d.result, d.value), (x.text, x.result, x.value))
