-- ===== src/Lex/Numbers.antt =====
-- toolchain/lex/lex.cpp: number literals, from LexNumber to EmitFloatingLiteral.
pub mod Digits
pub mod Literals
use tinyswift.Prelude.{
  ℕ, zero, suc, ◌+◌, ◌-◌, ◌*◌, ltb, Bool, true, false, not, ◌&&◌, ◌||◌, List, [], ◌∷◌, ◌++◌, Option,
  none, some, if◌then◌else◌, ◌==◌, take, drop, length, is_empty,
}
use tinyswift.Lex.Characters.{in_range, is_decimal_digit, is_hex_digit}
use tinyswift.Lex.Tokens.{
  TokenKind, Payload, Real, int_payload, real_payload, integer_literal_token,
  floating_literal_token,
}
use tinyswift.Lex.State.{
  Lexer, Diagnostic, peek, holds, scan_while, advance, add_error, take_token, expected_hex_digit,
  expected_octal_digit, expected_binary_digit, invalid_octal_literal, invalid_binary_literal,
}

unfoldable pub is_octal_digit : ℕ → Bool
is_octal_digit c = in_range b'0' b'7' c

unfoldable pub is_binary_digit : ℕ → Bool
is_binary_digit c = c == b'0' || c == b'1'

-- A digit or the separator `_`.
unfoldable pub or_underscore : (ℕ → Bool) → ℕ → Bool
or_underscore p c = p c || c == b'_'

-- ScanDecimalDigits and ScanHexDigits: how many bytes they pass.
unfoldable pub decimal_length : List ℕ → ℕ
decimal_length rest = scan_while (or_underscore is_decimal_digit) rest

unfoldable pub hex_length : List ℕ → ℕ
hex_length rest = scan_while (or_underscore is_hex_digit) rest

abbrev pub is_byte : ℕ → Option ℕ → Bool
is_byte b o = holds (λ c. c == b) o

-- A byte that is one of two, such as a letter in both cases.
abbrev pub is_either : ℕ → ℕ → Option ℕ → Bool
is_either a b o = is_byte a o || is_byte b o

-- The point and the digits after it, if a digit follows the point.
unfoldable pub fraction_length : (ℕ → Bool) → List ℕ → ℕ
fraction_length digit rest =
    if is_byte b'.' (peek 0 rest) && holds digit (peek 1 rest)
    then suc (scan_while (or_underscore digit) (drop 1 rest))
    else 0

unfoldable pub sign_length : Option ℕ → ℕ
sign_length o = if is_either b'+' b'-' o then 1 else 0

-- The letter of the exponent, its sign and its digits.
unfoldable pub exponent_length : ℕ → ℕ → List ℕ → ℕ
exponent_length lower upper rest =
    if is_either lower upper (peek 0 rest)
    then (let sign = sign_length (peek 1 rest) in suc sign + decimal_length (drop (suc sign) rest))
    else 0

-- The text without its separators.
unfoldable pub strip_underscores : List ℕ → List ℕ
strip_underscores [] = []
strip_underscores (c ∷ rest) =
    let clean = strip_underscores rest in if c == b'_' then clean else c ∷ clean

unfoldable pub has_prefix : ℕ → ℕ → List ℕ → Bool
has_prefix lower upper digits =
    is_byte b'0' (peek 0 digits) && is_either lower upper (peek 1 digits)

-- The digits without the prefix, with the radix that the prefix names. No digits stand for zero.
unfoldable pub integer_payload : List ℕ → Payload
integer_payload clean =
    if has_prefix b'x' b'X' clean
    then int_payload 16 (drop 2 clean)
    else if has_prefix b'o' b'O' clean
    then int_payload 8 (drop 2 clean)
    else if has_prefix b'b' b'B' clean
    then int_payload 2 (drop 2 clean)
    else int_payload 10 clean

unfoldable pub emit_integer_literal : Bool → ℕ → Lexer → Lexer
emit_integer_literal leading_space width s =
    take_token integer_literal_token leading_space
      (integer_payload (strip_underscores (take width s.rest))) width s

-- StringRef::find of a byte, of which the upper-case form is tried too.
unfoldable pub find_byte : ℕ → ℕ → List ℕ → Option ℕ
find_byte lower upper [] = none
find_byte lower upper (c ∷ rest) = elim (c == lower || c == upper) [
  | true ↦ some 0
  | false ↦ elim (find_byte lower upper rest) [ none ↦ none | some n ↦ some (suc n) ]
]

-- The text up to a position, which may be missing.
unfoldable pub up_to : Option ℕ → List ℕ → List ℕ
up_to none text = text
up_to (some n) text = take n text

unfoldable pub integer_part : Option ℕ → Option ℕ → List ℕ → List ℕ
integer_part (some dot) mark text = take dot text
integer_part none mark text = up_to mark text

unfoldable pub fraction_part : Option ℕ → Option ℕ → List ℕ → List ℕ
fraction_part none mark text = []
fraction_part (some dot) (some end) text = take (end - suc dot) (drop (suc dot) text)
fraction_part (some dot) none text = drop (suc dot) text

-- The sign of the exponent and its digits.
unfoldable pub exponent_part : Option ℕ → List ℕ → Bool × List ℕ
exponent_part none text = (false, [])
exponent_part (some mark) text =
    let digits = drop (suc mark) text in
    if is_byte b'-' (peek 0 digits)
    then (true, drop 1 digits)
    else if is_byte b'+' (peek 0 digits)
    then (false, drop 1 digits)
    else (false, digits)

unfoldable pub hex_real : List ℕ → Real
hex_real text =
    let dot = find_byte b'.' b'.' text in
    let mark = find_byte b'p' b'P' text in
    let fraction = fraction_part dot mark text in
    let (negative, digits) = exponent_part mark text in
    record {
      mantissa = integer_part dot mark text ++ fraction;
      scale = length fraction * 4;
      exponent_is_negative = negative;
      exponent = digits;
      is_decimal = false;
    }

unfoldable pub or_zero : List ℕ → List ℕ
or_zero [] = b'0' ∷ []
or_zero (c ∷ rest) = c ∷ rest

unfoldable pub decimal_real : List ℕ → Real
decimal_real text =
    let dot = find_byte b'.' b'.' text in
    let mark = find_byte b'e' b'E' text in
    let fraction = fraction_part dot mark text in
    let (negative, digits) = exponent_part mark text in
    record {
      mantissa = or_zero (integer_part dot mark text ++ fraction);
      scale = length fraction;
      exponent_is_negative = negative;
      exponent = digits;
      is_decimal = true;
    }

unfoldable pub floating_payload : List ℕ → Payload
floating_payload clean =
    real_payload
      (if has_prefix b'x' b'X' clean then hex_real (drop 2 clean) else decimal_real clean)

unfoldable pub emit_floating_literal : Bool → ℕ → Lexer → Lexer
emit_floating_literal leading_space width s =
    take_token floating_literal_token leading_space
      (floating_payload (strip_underscores (take width s.rest))) width s

-- An integer of `whole` bytes, or a floating literal when a fraction or an exponent follows.
unfoldable pub emit_number : Bool → ℕ → ℕ → Lexer → Lexer
emit_number leading_space whole more s =
    if ltb 0 more
    then emit_floating_literal leading_space (whole + more) s
    else emit_integer_literal leading_space whole s

unfoldable pub lex_decimal_number : Bool → Lexer → Lexer
lex_decimal_number leading_space s =
    let whole = decimal_length s.rest in
    let fraction = fraction_length is_decimal_digit (drop whole s.rest) in
    let exponent = exponent_length b'e' b'E' (drop (whole + fraction) s.rest) in
    emit_number leading_space whole (fraction + exponent) s

-- The prefix stands before the cursor of the source: its two bytes are counted in.
unfoldable pub lex_hex_number : Bool → Lexer → Lexer
lex_hex_number leading_space s =
    let whole = suc (suc (hex_length (drop 2 s.rest))) in
    let fraction = fraction_length is_hex_digit (drop whole s.rest) in
    let exponent = exponent_length b'p' b'P' (drop (whole + fraction) s.rest) in
    if holds is_hex_digit (peek 2 s.rest)
    then emit_number leading_space whole (fraction + exponent) s
    else advance 2 (add_error expected_hex_digit leading_space 2 s.cursor s)

-- LexOctalNumber and LexBinaryNumber differ in the digits and in what they report.
unfoldable pub lex_radix_number : (ℕ → Bool) → Diagnostic → Diagnostic → Bool → Lexer → Lexer
lex_radix_number digit missing invalid leading_space s =
    let whole = suc (suc (scan_while (or_underscore digit) (drop 2 s.rest))) in
    let bad = whole + decimal_length (drop whole s.rest) in
    if not (holds digit (peek 2 s.rest))
    then advance 2 (add_error missing leading_space 2 s.cursor s)
    else if holds is_decimal_digit (peek whole s.rest)
    then advance bad (add_error invalid leading_space bad s.cursor s)
    else emit_integer_literal leading_space whole s

abbrev pub lex_octal_number : Bool → Lexer → Lexer
lex_octal_number leading_space s =
    lex_radix_number is_octal_digit expected_octal_digit invalid_octal_literal leading_space s

abbrev pub lex_binary_number : Bool → Lexer → Lexer
lex_binary_number leading_space s =
    lex_radix_number is_binary_digit expected_binary_digit invalid_binary_literal leading_space s

unfoldable pub lex_number : Bool → Lexer → Lexer
lex_number leading_space s =
    if has_prefix b'x' b'X' s.rest
    then lex_hex_number leading_space s
    else if has_prefix b'o' b'O' s.rest
    then lex_octal_number leading_space s
    else if has_prefix b'b' b'B' s.rest
    then lex_binary_number leading_space s
    else lex_decimal_number leading_space s
