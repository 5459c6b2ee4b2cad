-- ===== src/Print/Format.antt =====
-- `fmt_str` on formats that are put together from plain bytes and conversions.
use best_os.Common.{
  ℕ, ◌^◌, ◌<◌, ◌≡◌, ◌≢◌, refl, ap, ◌∙◌, arith, false, some, List, [], ◌∷◌, ◌++◌, ◌==◌, u8,
}
use best_os.Str.{Text, strdup}
use best_os.Str.Equality.{IsText}
use best_os.Str.Copy.{strdup_lem}
use best_os.Print.{
  Arg, int_arg, text_arg, string_convert, print_number, int_conversion, convert_arg, printed_before,
  then_format, fmt_str,
}
use best_os.Print.Digits.{value_from, string_convert-value}

-- A part of a format, with the argument that it prints.
pub data Piece : Type 0 where
  byte : ℕ → Piece
  char : ℕ → Piece
  string : Text → Piece
  decimal hex : ℕ → Piece

abbrev pub format : List Piece → Text
format [] = []
format (byte c ∷ ps) = c ∷ format ps
format (char n ∷ ps) = b'%' ∷ b'c' ∷ format ps
format (string s ∷ ps) = b'%' ∷ b's' ∷ format ps
format (decimal n ∷ ps) = b'%' ∷ b'd' ∷ format ps
format (hex n ∷ ps) = b'%' ∷ b'x' ∷ format ps

-- The arguments behind the format, before others.
abbrev pub arguments : List Piece → List Arg → List Arg
arguments [] rest = rest
arguments (byte c ∷ ps) rest = arguments ps rest
arguments (char n ∷ ps) rest = int_arg n ∷ arguments ps rest
arguments (string s ∷ ps) rest = text_arg s ∷ arguments ps rest
arguments (decimal n ∷ ps) rest = int_arg n ∷ arguments ps rest
arguments (hex n ∷ ps) rest = int_arg n ∷ arguments ps rest

-- A byte that begins no conversion, a character that is not the terminator, a text, an `int`.
abbrev pub IsPrintable : Piece → Type 0
IsPrintable (byte c) = c ≢ b'%'
IsPrintable (char n) = u8 n ≢ 0
IsPrintable (string s) = IsText s
IsPrintable (decimal n) = n < 2 ^ 32
IsPrintable (hex n) = n < 2 ^ 32

abbrev pub ArePrintable : List Piece → Type 0
ArePrintable [] = Unit {0}
ArePrintable (p ∷ ps) = IsPrintable p × ArePrintable ps

-- What a piece prints: numbers by the digits of the conversion, which stand for the number.
abbrev pub Shows : Piece → Text → Type 0
Shows (byte c) t = t ≡ c ∷ []
Shows (char n) t = t ≡ u8 n ∷ []
Shows (string s) t = t ≡ s
Shows (decimal n) t = (string_convert n 10 ≡ some t) × (value_from 10 0 t ≡ n)
Shows (hex n) t = (string_convert n 16 ≡ some t) × (value_from 16 0 t ≡ n)

-- What the pieces print, one after the other.
abbrev pub Printed : List Piece → Text → Type 0
Printed [] t = t ≡ []
Printed (p ∷ ps) t = (a : Text) × (b : Text) × (t ≡ a ++ b) × Shows p a × Printed ps b

fmt_str-plain :
    (p : ℕ) (g : Text) (args : List Arg)
    → p ≢ b'%'
    → fmt_str (p ∷ g) args ≡ printed_before (p ∷ []) (fmt_str g args)
unfolding fmt_str printed_before
fmt_str-plain p [] args ne = let e : (p == b'%') ≡ false = ground arith in rw e refl
fmt_str-plain p (c ∷ g) args ne = let e : (p == b'%') ≡ false = ground arith in rw e refl

fmt_str-byte :
    (c : ℕ) (f b : Text) (args rest : List Arg)
    → c ≢ b'%'
    → fmt_str f args ≡ some (b, rest)
    → fmt_str (c ∷ f) args ≡ some (c ∷ b, rest)
unfolding printed_before
fmt_str-byte c f b args rest ne run = fmt_str-plain c f args ne ∙ ap (printed_before (c ∷ [])) run

fmt_str-nil : (args : List Arg) → fmt_str [] args ≡ some ([], args)
unfolding fmt_str
fmt_str-nil args = refl

fmt_str-conversion :
    (c : ℕ) (f a b : Text) (args left rest : List Arg)
    → convert_arg c args ≡ some (a, left)
    → fmt_str f left ≡ some (b, rest)
    → fmt_str (b'%' ∷ c ∷ f) args ≡ some (a ++ b, rest)
unfolding fmt_str then_format printed_before
fmt_str-conversion c f a b args left rest converted printed = rw (converted, printed) refl

-- What a format of plain bytes and conversions prints from its arguments: the bytes, the characters,
-- the texts and the digits of the numbers, in their order; the arguments behind them are left. Plain
-- bytes are not `%`, characters not the terminator, and numbers have 32 bits.
pub fmt_str-Printed :
    (ps : List Piece) (rest : List Arg)
    → ArePrintable ps
    → (out : Text) × (fmt_str (format ps) (arguments ps rest) ≡ some (out, rest)) × Printed ps out
unfolding convert_arg int_conversion print_number
fmt_str-Printed [] rest ok = ([], fmt_str-nil rest, refl)
fmt_str-Printed (byte c ∷ ps) rest ok =
    let (b, run, shown) = fmt_str-Printed ps rest ok.1 in
    (
      c ∷ b,
      fmt_str-byte c (format ps) b (arguments ps rest) rest ok.0 run,
      (c ∷ [], b, refl, refl, shown),
    )
fmt_str-Printed (char n ∷ ps) rest ok =
    let (b, run, shown) = fmt_str-Printed ps rest ok.1 in
    let copy : strdup (u8 n ∷ []) ≡ u8 n ∷ [] = strdup_lem (u8 n ∷ []) (ok.0, tt) in
    (
      u8 n ∷ b,
      fmt_str-conversion b'c' (format ps) (u8 n ∷ []) b (int_arg n ∷ arguments ps rest)
          (arguments ps rest) rest (rw copy refl) run,
      (u8 n ∷ [], b, refl, refl, shown),
    )
fmt_str-Printed (string s ∷ ps) rest ok =
    let (b, run, shown) = fmt_str-Printed ps rest ok.1 in
    (
      s ++ b,
      fmt_str-conversion b's' (format ps) s b (text_arg s ∷ arguments ps rest) (arguments ps rest)
          rest (rw (strdup_lem s ok.0) refl) run,
      (s, b, refl, refl, shown),
    )
fmt_str-Printed (decimal n ∷ ps) rest ok =
    let (b, run, shown) = fmt_str-Printed ps rest ok.1 in
    let (t, digits, value) = (string_convert-value n ok.0).0 in
    (
      t ++ b,
      fmt_str-conversion b'd' (format ps) t b (int_arg n ∷ arguments ps rest) (arguments ps rest)
          rest (rw digits refl) run,
      (t, b, refl, (digits, value), shown),
    )
fmt_str-Printed (hex n ∷ ps) rest ok =
    let (b, run, shown) = fmt_str-Printed ps rest ok.1 in
    let (t, digits, value) = (string_convert-value n ok.0).1 in
    (
      t ++ b,
      fmt_str-conversion b'x' (format ps) t b (int_arg n ∷ arguments ps rest) (arguments ps rest)
          rest (rw digits refl) run,
      (t, b, refl, (digits, value), shown),
    )
