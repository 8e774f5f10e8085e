-- ===== src/Lex/Operators/Width.antt =====
-- LexOperatorOrPunctuator of toolchain/lex/lex.cpp adds one token and passes at least one byte.
use tinyswift.Prelude.{
  ℕ, ◌<◌, Bool, true, false, ◌||◌, List, ◌∷◌, Option, none, some, ◌==◌, ◌≡◌, refl, arith,
}
use tinyswift.Lex.Characters.{is_operator_continuation_char}
use tinyswift.Lex.Tokens.{TokenKind}
use tinyswift.Lex.State.{Lexer, peek, holds}
use tinyswift.Lex.Operators.{
  fixed_symbol, operator_length, starts_comment, lex_operator, operator_token, symbol_token,
  lex_operator_or_punctuator,
}
use tinyswift.Lex.Progress.{Lexes, take_token-Lexes}

fixed_symbol-positive :
    (c next third : Option ℕ) (kind : TokenKind) (width : ℕ)
    → fixed_symbol c next third ≡ some (kind, width)
    → 0 < width
unfolding fixed_symbol
fixed_symbol-positive c next third kind width h = ground arith

operator_token-Lexes :
    (kind : Option TokenKind) (leading_space : Bool) (width : ℕ) (s : Lexer)
    → 0 < width
    → Lexes s (operator_token kind leading_space width s)
unfolding operator_token
operator_token-Lexes none leading_space width s h = take_token-Lexes _ leading_space _ width s h
operator_token-Lexes (some kind) leading_space width s h =
    take_token-Lexes _ leading_space _ width s h

symbol_token-Lexes :
    (symbol : Option (TokenKind × ℕ)) (leading_space : Bool) (s : Lexer)
    → ((kind : TokenKind) (width : ℕ) → symbol ≡ some (kind, width) → 0 < width)
    → (symbol ≡ none → 0 < operator_length false s.rest)
    → Lexes s (symbol_token symbol leading_space s)
unfolding symbol_token lex_operator
symbol_token-Lexes none leading_space s fixed scanned =
    operator_token-Lexes _ leading_space _ s (scanned refl)
symbol_token-Lexes (some (kind, width)) leading_space s fixed scanned =
    take_token-Lexes _ leading_space _ width s (fixed kind width refl)

-- A colon is a symbol of its own, every other operator byte is passed by the scan.
operator_length-positive :
    (c : ℕ) (rest : List ℕ)
    → (is_operator_continuation_char c || c == b':') ≡ true
    → starts_comment c (peek 0 rest) ≡ false
    → fixed_symbol (some c) (peek 0 rest) (peek 1 rest) ≡ none
    → 0 < operator_length false (c ∷ rest)
unfolding operator_length fixed_symbol holds
operator_length-positive c rest op no_comment none_fixed = ground arith

-- At an operator byte or a colon that starts no comment, one token is added and at least one byte
-- is passed.
pub lex_operator_or_punctuator-Lexes :
    (leading_space : Bool) (s : Lexer) (c : ℕ) (rest : List ℕ)
    → s.rest ≡ c ∷ rest
    → (is_operator_continuation_char c || c == b':') ≡ true
    → starts_comment c (peek 0 rest) ≡ false
    → Lexes s (lex_operator_or_punctuator leading_space s)
unfolding lex_operator_or_punctuator
lex_operator_or_punctuator-Lexes leading_space s c rest e op no_comment =
    symbol_token-Lexes _ leading_space s (fixed_symbol-positive _ _ _)
      (rw e (operator_length-positive c rest op no_comment))
