-- ===== src/Print.antt =====
-- lib/print.c. What is printed is the list of its bytes; `host_print` of the kernel sends them on.
pub mod Digits
pub mod Format
mod Tests
use best_os.Common.{
  ℕ, zero, suc, ◌+◌, ◌/◌, ◌%◌, Bool, ◌||◌, Option, none, some, List, [], ◌∷◌, ◌++◌, ◌==◌,
  if◌then◌else◌, get_or, u8, u32,
}
use best_os.Str.{Text, strdup}

-- The arguments behind the format: an `int` (32 bits) or a string.
pub data Arg : Type 0 where
  int_arg : ℕ → Arg
  text_arg : Text → Arg

abbrev pub representation : Text
representation =
    b'0' ∷ b'1' ∷ b'2' ∷ b'3' ∷ b'4' ∷ b'5' ∷ b'6' ∷ b'7' ∷ b'8' ∷ b'9' ∷ b'A' ∷ b'B' ∷ b'C' ∷ b'D'
    ∷ b'E' ∷ b'F' ∷ []

-- The loop: the bytes of the buffer that are left, the number, and the digits written so far.
-- `none` is a write before the buffer.
unfoldable pub convert_from : ℕ → ℕ → ℕ → Text → Option Text
convert_from zero num base digits = none
convert_from (suc room) num base digits =
    let written = get_or representation (num % base) 0 ∷ digits in
    let rest = convert_from room (num / base) base written in
    if num / base == 0 then some written else rest

-- The buffer has 50 bytes, the last one for the terminator.
unfoldable pub string_convert : ℕ → ℕ → Option Text
string_convert num base = convert_from 49 (u32 num) base []

-- The digits of a number, and the arguments behind it.
unfoldable pub print_number : Option Text → List Arg → Option (Text × List Arg)
print_number none args = none
print_number (some t) args = some (t, args)

-- The letters that take an `int`.
unfoldable pub int_conversion : ℕ → ℕ → List Arg → Option (Text × List Arg)
int_conversion c n args =
    if c == b'c'
    then some (strdup (u8 n ∷ []), args)
    else print_number (string_convert n (if c == b'd' then 10 else 16)) args

abbrev pub takes_int : ℕ → Bool
takes_int c = c == b'c' || c == b'd' || c == b'x'

-- What a conversion prints, and the arguments that are left. An argument that is missing or has the
-- other type is undefined; another letter prints nothing.
unfoldable pub convert_arg : ℕ → List Arg → Option (Text × List Arg)
convert_arg c [] = if takes_int c || c == b's' then none else some ([], [])
convert_arg c (int_arg n ∷ args) =
    if takes_int c
    then int_conversion c n args
    else (if c == b's' then none else some ([], int_arg n ∷ args))
convert_arg c (text_arg t ∷ args) =
    if c == b's'
    then some (strdup t, args)
    else (if takes_int c then none else some ([], text_arg t ∷ args))

-- The output of the first part before that of the rest.
unfoldable pub printed_before : Text → Option (Text × List Arg) → Option (Text × List Arg)
printed_before t none = none
printed_before t (some (rest, args)) = some (t ++ rest, args)

unfoldable pub then_format :
    Option (Text × List Arg) → (List Arg → Option (Text × List Arg)) → Option (Text × List Arg)
then_format none k = none
then_format (some (t, args)) k = printed_before t (k args)

-- `fmt_str`: the output and the arguments left. `none` is an undefined read: of an argument, or,
-- behind a `%` at the end of the format, past its terminator.
unfoldable pub fmt_str : Text → List Arg → Option (Text × List Arg)
fmt_str [] args = some ([], args)
fmt_str (p ∷ []) args = if p == b'%' then none else some (p ∷ [], args)
fmt_str (p ∷ c ∷ fmt) args =
    let plain = fmt_str (c ∷ fmt) args in
    if p == b'%'
    then then_format (convert_arg c args) (fmt_str fmt)
    else printed_before (p ∷ []) plain

abbrev output : Option (Text × List Arg) → Option Text
output none = none
output (some (t, args)) = some t

unfoldable pub printf : Text → List Arg → Option Text
printf fmt args = output (fmt_str fmt args)

-- "\033[1m%s:%d \033[1;35m%s \033[0m"
abbrev pub log_prefix : Text
log_prefix =
    27 ∷ b'[' ∷ b'1' ∷ b'm' ∷ b'%' ∷ b's' ∷ b':' ∷ b'%' ∷ b'd' ∷ b' ' ∷ 27 ∷ b'[' ∷ b'1' ∷ b';'
    ∷ b'3' ∷ b'5' ∷ b'm' ∷ b'%' ∷ b's' ∷ b' ' ∷ 27 ∷ b'[' ∷ b'0' ∷ b'm' ∷ []

unfoldable pub log : ℕ → Text → Text → Text → List Arg → Option (Text × List Arg)
log line file function fmt args =
    then_format (fmt_str log_prefix (text_arg file ∷ int_arg line ∷ text_arg function ∷ []))
      (λ left. then_format (fmt_str fmt args) (λ rest. some (10 ∷ [], rest)))
