-- ===== src/Lex/Numbers/Literals.antt =====
-- What LexNumber of toolchain/lex/lex.cpp gives to the parser of integers.
use tinyswift.Prelude.{
  ℕ, suc, ltb, Bool, true, false, List, [], ◌∷◌, ◌++◌, drop, take, ◌≡◌, refl, Bool-cases, inl, inr,
}
use tinyswift.Lex.Characters.{in_range, is_decimal_digit, is_hex_digit}
use tinyswift.Lex.Tokens.{Token}
use tinyswift.Lex.State.{
  Lexer, Diagnostic, peek, holds, scan_while, advance, emit, add_token, add_error, payload_token,
  take_token,
}
use tinyswift.Lex.Numbers.{
  is_octal_digit, is_binary_digit, or_underscore, decimal_length, hex_length, has_prefix,
  strip_underscores, integer_payload, emit_integer_literal, floating_payload, emit_floating_literal,
  emit_number, lex_decimal_number, lex_hex_number, lex_radix_number, lex_number,
}
use tinyswift.Lex.Numbers.Digits.{
  HasDigits, strip_underscores-digits, strip_underscores_nonempty, hex-payload, octal-payload,
  binary-payload, decimal-payload, prefixed-HasDigits,
}

underscore_apart : is_decimal_digit b'_' ≡ false
unfolding is_decimal_digit in_range
underscore_apart = refl

hex_apart : is_hex_digit b'_' ≡ false
unfolding is_hex_digit is_decimal_digit in_range
hex_apart = refl

octal_apart : is_octal_digit b'_' ≡ false
unfolding is_octal_digit in_range
octal_apart = refl

binary_apart : is_binary_digit b'_' ≡ false
unfolding is_binary_digit
binary_apart = refl

decimal-HasDigits :
    (rest : List ℕ)
    → holds is_decimal_digit (peek 0 rest) ≡ true
    → HasDigits (integer_payload (strip_underscores (take (decimal_length rest) rest)))
unfolding decimal_length
decimal-HasDigits rest h =
    let digits = strip_underscores-digits is_decimal_digit rest in
    rw (decimal-payload _ digits)
      (refl, strip_underscores_nonempty is_decimal_digit rest underscore_apart h, digits)

-- One token was added, and if it is an integer literal, it has digits of its radix.
pub record AddsLiteral (s t : Lexer) : Type 0 where
  pub token : Token
  pub appended : t.tokens ≡ s.tokens ++ token ∷ []
  pub digits : HasDigits token.payload

error-AddsLiteral :
    (d : Diagnostic) (leading_space : Bool) (error_length width : ℕ) (s : Lexer)
    → AddsLiteral s (advance width (add_error d leading_space error_length s.cursor s))
unfolding advance add_error add_token emit payload_token
error-AddsLiteral d leading_space error_length width s = record {
  token = _;
  appended = refl;
  digits = tt;
}

integer-AddsLiteral :
    (leading_space : Bool) (width : ℕ) (s : Lexer)
    → HasDigits (integer_payload (strip_underscores (take width s.rest)))
    → AddsLiteral s (emit_integer_literal leading_space width s)
unfolding emit_integer_literal take_token advance add_token payload_token
integer-AddsLiteral leading_space width s h = record { token = _; appended = refl; digits = h }

number-AddsLiteral :
    (leading_space : Bool) (whole more : ℕ) (s : Lexer)
    → HasDigits (integer_payload (strip_underscores (take whole s.rest)))
    → AddsLiteral s (emit_number leading_space whole more s)
unfolding emit_number emit_floating_literal floating_payload take_token advance add_token
    payload_token
number-AddsLiteral leading_space whole more s h = elim (Bool-cases (ltb 0 more)) [
  | inl e ↦ rw e (record { token = _; appended = refl; digits = tt })
  | inr e ↦ rw e (integer-AddsLiteral leading_space whole s h)
]

hex-AddsLiteral :
    (leading_space : Bool) (s : Lexer)
    → has_prefix b'x' b'X' s.rest ≡ true
    → AddsLiteral s (lex_hex_number leading_space s)
unfolding lex_hex_number hex_length
hex-AddsLiteral leading_space s p = elim (Bool-cases (holds is_hex_digit (peek 2 s.rest))) [
  | inl e ↦ rw e (
      number-AddsLiteral leading_space _ _ s
        (prefixed-HasDigits b'x' b'X' 16 hex-payload refl refl refl hex_apart s.rest p e))
  | inr e ↦ rw e (error-AddsLiteral _ leading_space 2 2 s)
]

radix-AddsLiteral :
    (digit : ℕ → Bool) (missing invalid : Diagnostic) (leading_space : Bool) (s : Lexer)
    → (holds digit (peek 2 s.rest) ≡ true
        → HasDigits (
            integer_payload (
              strip_underscores
                (take (suc (suc (scan_while (or_underscore digit) (drop 2 s.rest)))) s.rest))))
    → AddsLiteral s (lex_radix_number digit missing invalid leading_space s)
unfolding lex_radix_number
radix-AddsLiteral digit missing invalid leading_space s h =
    let whole = suc (suc (scan_while (or_underscore digit) (drop 2 s.rest))) in
    elim (Bool-cases (holds digit (peek 2 s.rest))) [
      | inl e ↦ elim (Bool-cases (holds is_decimal_digit (peek whole s.rest))) [
        | inl f ↦ rw (e, f) (error-AddsLiteral _ leading_space _ _ s)
        | inr f ↦ rw (e, f) (integer-AddsLiteral leading_space whole s (h e))
      ]
      | inr e ↦ rw e (error-AddsLiteral _ leading_space 2 2 s)
    ]

-- Every integer literal that the lexer makes of a number is parsed from at least one digit, and
-- from digits of its radix only, whatever separators and prefix stand in the source: the parser of
-- integers is never given another byte. A malformed number becomes an error token.
pub lex_number-AddsLiteral :
    (leading_space : Bool) (s : Lexer)
    → holds is_decimal_digit (peek 0 s.rest) ≡ true
    → AddsLiteral s (lex_number leading_space s)
unfolding lex_number lex_decimal_number
lex_number-AddsLiteral leading_space s h = elim (Bool-cases (has_prefix b'x' b'X' s.rest)) [
  | inl e ↦ rw e (hex-AddsLiteral leading_space s e)
  | inr e ↦ elim (Bool-cases (has_prefix b'o' b'O' s.rest)) [
    | inl f ↦
        rw (e, f)
          (radix-AddsLiteral is_octal_digit _ _ leading_space s
            (prefixed-HasDigits b'o' b'O' 8 octal-payload refl refl refl octal_apart s.rest f))
    | inr f ↦ elim (Bool-cases (has_prefix b'b' b'B' s.rest)) [
      | inl g ↦
          rw (e, f, g)
            (radix-AddsLiteral is_binary_digit _ _ leading_space s
              (prefixed-HasDigits b'b' b'B' 2 binary-payload refl refl refl binary_apart s.rest g))
      | inr g ↦ rw (e, f, g) (number-AddsLiteral leading_space _ _ s (decimal-HasDigits s.rest h))
    ]
  ]
]
