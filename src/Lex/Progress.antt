-- ===== src/Lex/Progress.antt =====
-- Every routine of toolchain/lex/lex.cpp that lexes a token adds one token and passes its bytes.
use tinyswift.Prelude.{
  ℕ, zero, suc, ◌+◌, ◌<◌, Bool, true, List, [], ◌∷◌, ◌++◌, ltb, drop, take, ◌≡◌, refl, sym, ◌∙◌, ap,
  arith, Bool-cases, inl, inr,
}
use tinyswift.Lex.Characters.{is_decimal_digit, is_hex_digit}
use tinyswift.Lex.Tokens.{TokenKind, Token, Payload, is_error, lookup_keyword}
use tinyswift.Lex.State.{
  Lexer, Diagnostic, peek, holds, scan_while, advance, emit, add_token, plain_token, payload_token,
  add_error, take_token, emit_one_char_symbol,
}
use tinyswift.Lex.Words.{
  word_length, lex_identifier_or_keyword, starts_dollar, lex_dollar_ident, in_backticks,
  is_backtick, lex_escaped_identifier,
}
use tinyswift.Lex.Numbers.{
  has_prefix, or_underscore, decimal_length, emit_integer_literal, emit_floating_literal,
  emit_number, lex_decimal_number, lex_hex_number, lex_radix_number, lex_number,
}

-- One token was added, at an offset, and the cursor passed at least one byte.
pub record LexesAt (offset : ℕ) (s t : Lexer) : Type 0 where
  pub token : Token
  pub width : ℕ
  pub starts : token.byte_offset ≡ offset
  pub appended : t.tokens ≡ s.tokens ++ token ∷ []
  pub positive : 0 < width
  pub moved : t.cursor ≡ s.cursor + width
  pub passed : t.rest ≡ drop width s.rest
  pub same_source : t.source ≡ s.source

abbrev pub Lexes : Lexer → Lexer → Type 0
Lexes s t = LexesAt s.cursor s t

drop-nil : (n : ℕ) → drop {A = ℕ} n [] ≡ []
drop-nil zero = refl
drop-nil (suc n) = refl

pub drop-drop : (n k m : ℕ) (xs : List ℕ) → m ≡ n + k → drop k (drop n xs) ≡ drop m xs
drop-drop zero k m xs e = ap (λ j. drop j xs) (omega arith)
drop-drop (suc n) k m [] e = drop-nil k ∙ sym (drop-nil m)
drop-drop (suc n) k zero (x ∷ xs) e = absurd (omega arith)
drop-drop (suc n) k (suc m) (x ∷ xs) e = drop-drop n k m xs (omega arith)

pub take_token-Lexes :
    (kind : TokenKind) (leading_space : Bool) (payload : Payload) (width : ℕ) (s : Lexer)
    → 0 < width
    → Lexes s (take_token kind leading_space payload width s)
unfolding take_token advance add_token payload_token
take_token-Lexes kind leading_space payload width s h = record {
  token = payload_token kind leading_space payload s.cursor;
  width = width;
  starts = refl;
  appended = refl;
  positive = h;
  moved = refl;
  passed = refl;
  same_source = refl;
}

pub add_error-Lexes :
    (d : Diagnostic) (leading_space : Bool) (error_length width : ℕ) (s : Lexer)
    → 0 < width
    → Lexes s (advance width (add_error d leading_space error_length s.cursor s))
unfolding advance add_error add_token emit payload_token
add_error-Lexes d leading_space error_length width s h = record {
  token = _;
  width = width;
  starts = refl;
  appended = refl;
  positive = h;
  moved = refl;
  passed = refl;
  same_source = refl;
}

pub emit_one_char_symbol-Lexes :
    (kind : TokenKind) (leading_space : Bool) (s : Lexer)
    → Lexes s (emit_one_char_symbol kind leading_space s)
unfolding emit_one_char_symbol advance add_token plain_token
emit_one_char_symbol-Lexes kind leading_space s = record {
  token = plain_token kind leading_space s.cursor;
  width = 1;
  starts = refl;
  appended = refl;
  positive = omega arith;
  moved = refl;
  passed = refl;
  same_source = refl;
}

pub lex_identifier_or_keyword-Lexes :
    (leading_space : Bool) (s : Lexer) → Lexes s (lex_identifier_or_keyword leading_space s)
unfolding lex_identifier_or_keyword word_length
lex_identifier_or_keyword-Lexes leading_space s =
    elim (Bool-cases (is_error (lookup_keyword (take (word_length s.rest) s.rest)))) [
      | inl e ↦ rw e (take_token-Lexes _ leading_space _ _ s (omega arith))
      | inr e ↦ rw e (take_token-Lexes _ leading_space _ _ s (omega arith))
    ]

pub lex_dollar_ident-Lexes :
    (leading_space : Bool) (s : Lexer) → Lexes s (lex_dollar_ident leading_space s)
unfolding lex_dollar_ident word_length
lex_dollar_ident-Lexes leading_space s = elim (Bool-cases (holds starts_dollar (peek 1 s.rest))) [
  | inl e ↦ rw e (take_token-Lexes _ leading_space _ _ s (omega arith))
  | inr e ↦ rw e (add_error-Lexes _ leading_space 1 1 s (omega arith))
]

pub lex_escaped_identifier-Lexes :
    (leading_space : Bool) (s : Lexer) → Lexes s (lex_escaped_identifier leading_space s)
unfolding lex_escaped_identifier
lex_escaped_identifier-Lexes leading_space s =
    elim (Bool-cases
      (holds is_backtick (peek (suc (scan_while in_backticks (drop 1 s.rest))) s.rest))) [
        | inl e ↦ rw e (take_token-Lexes _ leading_space _ _ s (omega arith))
        | inr e ↦ rw e (add_error-Lexes _ leading_space _ _ s (omega arith))
      ]

emit_integer_literal-Lexes :
    (leading_space : Bool) (width : ℕ) (s : Lexer)
    → 0 < width
    → Lexes s (emit_integer_literal leading_space width s)
unfolding emit_integer_literal
emit_integer_literal-Lexes leading_space width s h = take_token-Lexes _ leading_space _ width s h

emit_number-Lexes :
    (leading_space : Bool) (whole more : ℕ) (s : Lexer)
    → 0 < whole
    → Lexes s (emit_number leading_space whole more s)
unfolding emit_number emit_floating_literal
emit_number-Lexes leading_space whole more s h = elim (Bool-cases (ltb 0 more)) [
  | inl e ↦ rw e (take_token-Lexes _ leading_space _ _ s (omega arith))
  | inr e ↦ rw e (emit_integer_literal-Lexes leading_space whole s h)
]

decimal_length-positive :
    (rest : List ℕ) → holds is_decimal_digit (peek 0 rest) ≡ true → 0 < decimal_length rest
unfolding holds decimal_length scan_while or_underscore
decimal_length-positive [] h = cc h
decimal_length-positive (c ∷ rest) h = rw h (omega arith)

lex_hex_number-Lexes : (leading_space : Bool) (s : Lexer) → Lexes s (lex_hex_number leading_space s)
unfolding lex_hex_number
lex_hex_number-Lexes leading_space s = elim (Bool-cases (holds is_hex_digit (peek 2 s.rest))) [
  | inl e ↦ rw e (emit_number-Lexes leading_space _ _ s (omega arith))
  | inr e ↦ rw e (add_error-Lexes _ leading_space 2 2 s (omega arith))
]

lex_radix_number-Lexes :
    (digit : ℕ → Bool) (missing invalid : Diagnostic) (leading_space : Bool) (s : Lexer)
    → Lexes s (lex_radix_number digit missing invalid leading_space s)
unfolding lex_radix_number
lex_radix_number-Lexes digit missing invalid leading_space s =
    let whole = suc (suc (scan_while (or_underscore digit) (drop 2 s.rest))) in
    elim (Bool-cases (holds digit (peek 2 s.rest))) [
      | inl e ↦ elim (Bool-cases (holds is_decimal_digit (peek whole s.rest))) [
        | inl f ↦ rw (e, f) (add_error-Lexes _ leading_space _ _ s (omega arith))
        | inr f ↦ rw (e, f) (emit_integer_literal-Lexes leading_space whole s (omega arith))
      ]
      | inr e ↦ rw e (add_error-Lexes _ leading_space 2 2 s (omega arith))
    ]

-- A number starts with a digit: then one token is added, a literal or an error, and at least one
-- byte is passed.
pub lex_number-Lexes :
    (leading_space : Bool) (s : Lexer)
    → holds is_decimal_digit (peek 0 s.rest) ≡ true
    → Lexes s (lex_number leading_space s)
unfolding lex_number lex_decimal_number
lex_number-Lexes leading_space s h = elim (Bool-cases (has_prefix b'x' b'X' s.rest)) [
  | inl e ↦ rw e (lex_hex_number-Lexes leading_space s)
  | inr e ↦ elim (Bool-cases (has_prefix b'o' b'O' s.rest)) [
    | inl f ↦ rw (e, f) (lex_radix_number-Lexes _ _ _ leading_space s)
    | inr f ↦ elim (Bool-cases (has_prefix b'b' b'B' s.rest)) [
      | inl g ↦ rw (e, f, g) (lex_radix_number-Lexes _ _ _ leading_space s)
      | inr g ↦
          rw (e, f, g) (emit_number-Lexes leading_space _ _ s (decimal_length-positive s.rest h))
    ]
  ]
]
