-- ===== src/Print/Tests.antt =====
-- Printing at concrete formats.
use best_os.Common.{◌≡◌, refl, arith, some, List, [], ◌∷◌}
use best_os.Str.{Text, strdup}
use best_os.Str.Equality.{IsText}
use best_os.Print.{
  int_arg, convert_from, string_convert, print_number, int_conversion, convert_arg, printed_before,
  then_format, fmt_str,
}
use best_os.Print.Digits.{value_from, string_convert-value}
use best_os.Print.Format.{
  Piece, byte, char, string, decimal, hex, format, arguments, ArePrintable, Printed,
  fmt_str-Printed,
}

string_convert-value_example :
    ((t : Text) × (string_convert 48879 10 ≡ some t) × (value_from 10 0 t ≡ 48879))
    × ((t : Text) × (string_convert 48879 16 ≡ some t) × (value_from 16 0 t ≡ 48879))
string_convert-value_example = string_convert-value 48879 (omega arith)

-- "BEEF"
hexadecimal : string_convert 48879 16 ≡ some (b'B' ∷ b'E' ∷ b'E' ∷ b'F' ∷ [])
unfolding string_convert convert_from
hexadecimal = refl

-- "n=%d %s%c%x".
abbrev pieces : List Piece
pieces =
    byte b'n'
    ∷ byte b'='
    ∷ decimal 42
    ∷ byte b' '
    ∷ string (b'a' ∷ b'b' ∷ [])
    ∷ char b'!'
    ∷ hex 48879
    ∷ []

pieces-ArePrintable : ArePrintable pieces
pieces-ArePrintable =
    let text : IsText (b'a' ∷ b'b' ∷ []) = (λ e. ground arith, (λ e. ground arith, tt)) in
    let numbers : ArePrintable (char b'!' ∷ hex 48879 ∷ []) =
      (λ e. ground arith, (omega arith, tt)) in
    let words : ArePrintable (byte b' ' ∷ string (b'a' ∷ b'b' ∷ []) ∷ char b'!' ∷ hex 48879 ∷ []) =
      (λ e. ground arith, (text, numbers)) in
    (λ e. ground arith, (λ e. ground arith, (omega arith, words)))

fmt_str-Printed_example :
    (out : Text) × (fmt_str (format pieces) (arguments pieces (int_arg 7 ∷ []))
      ≡ some (out, int_arg 7 ∷ []))
    × Printed pieces out
fmt_str-Printed_example = fmt_str-Printed pieces (int_arg 7 ∷ []) pieces-ArePrintable

-- "n=42 ab!BEEF"
pieces_printed :
    fmt_str (format pieces) (arguments pieces (int_arg 7 ∷ []))
    ≡ some (
      b'n' ∷ b'=' ∷ b'4' ∷ b'2' ∷ b' ' ∷ b'a' ∷ b'b' ∷ b'!' ∷ b'B' ∷ b'E' ∷ b'E' ∷ b'F' ∷ [],
      int_arg 7 ∷ [],
    )
unfolding fmt_str convert_arg int_conversion print_number string_convert convert_from printed_before
    then_format strdup
pieces_printed = refl
