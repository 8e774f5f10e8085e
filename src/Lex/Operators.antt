-- ===== src/Lex/Operators.antt =====
-- toolchain/lex/lex.cpp: LexOperatorOrPunctuator, IsLeftBound and IsRightBound.
pub mod Width
use tinyswift.Prelude.{
  ℕ, zero, suc, ◌+◌, Bool, true, false, not, ◌&&◌, ◌||◌, List, [], ◌∷◌, Option, none, some,
  if◌then◌else◌, ◌==◌, take,
}
use tinyswift.Lex.Characters.{
  is_identifier_continuation, is_identifier_start, is_decimal_digit, is_operator_continuation_char,
}
use tinyswift.Lex.Tokens.{
  TokenKind, no_payload, text_payload, bytes_eq, codes, colon_colon_token, colon_token,
  minus_greater_token, ellipsis_token, equal_equal_token, equal_token, exclaim_equal_token,
  greater_equal_token, less_equal_token, period_token, amp_token, exclaim_token,
  operator_binary_spaced_token, operator_binary_unspaced_token, operator_prefix_token,
  operator_postfix_token,
}
use tinyswift.Lex.State.{Lexer, peek, holds, advance, take_token}
use tinyswift.Lex.Numbers.{is_byte}

-- The byte before a position of the source.
unfoldable pub before : ℕ → List ℕ → Option ℕ
before zero source = none
before (suc n) source = peek n source

unfoldable pub closes_operand : ℕ → Bool
closes_operand c =
    is_identifier_continuation c
    || c == b')'
    || c == b']'
    || c == b'}'
    || c == b'!'
    || c == b'?'
    || c == b'.'
    || c == b'"'
    || c == 39

unfoldable pub is_left_bound : ℕ → List ℕ → Bool
is_left_bound at source = holds closes_operand (before at source)

unfoldable pub opens_operand : ℕ → Bool
opens_operand c =
    is_identifier_start c
    || is_decimal_digit c
    || c == b'('
    || c == b'['
    || c == b'{'
    || c == b'.'
    || c == b'"'
    || c == 39
    || c == b'$'

unfoldable pub is_right_bound : Option ℕ → Bool
is_right_bound next = holds opens_operand next

-- The symbols that are tried before the scan, with their lengths.
unfoldable pub fixed_symbol : Option ℕ → Option ℕ → Option ℕ → Option (TokenKind × ℕ)
fixed_symbol c next third =
    if is_byte b':' c
    then (if is_byte b':' next then some (colon_colon_token, 2) else some (colon_token, 1))
    else if is_byte b'-' c && is_byte b'>' next
    then some (minus_greater_token, 2)
    else if is_byte b'.' c && (is_byte b'.' next && is_byte b'.' third)
    then some (ellipsis_token, 3)
    else if is_byte b'=' c && is_byte b'=' next
    then (if holds is_operator_continuation_char third then none else some (equal_equal_token, 2))
    else if is_byte b'=' c && not (holds is_operator_continuation_char next)
    then some (equal_token, 1)
    else none

unfoldable pub starts_comment : ℕ → Option ℕ → Bool
starts_comment c next = c == b'/' && (is_byte b'/' next || is_byte b'*' next)

-- How far the scan goes; `after` is that the byte before, in the operator, is `>`.
unfoldable pub operator_length : Bool → List ℕ → ℕ
operator_length after [] = 0
operator_length after (c ∷ rest) =
    let more = operator_length (c == b'>') rest in
    if is_operator_continuation_char c
      && (not (starts_comment c (peek 0 rest)) && not (c == b'.' && after))
    then suc more
    else 0

-- The symbols with a kind of their own that the scan may have found.
abbrev pub scanned_symbols : List (List ℕ × TokenKind)
scanned_symbols =
    (codes "==", equal_equal_token)
    ∷ (codes "!=", exclaim_equal_token)
    ∷ (codes ">=", greater_equal_token)
    ∷ (codes "<=", less_equal_token)
    ∷ (codes "->", minus_greater_token)
    ∷ (codes "...", ellipsis_token)
    ∷ (codes ".", period_token)
    ∷ (codes "=", equal_token)
    ∷ (codes "&", amp_token)
    ∷ (codes "!", exclaim_token)
    ∷ []

unfoldable pub scanned_symbol : List (List ℕ × TokenKind) → List ℕ → Option TokenKind
scanned_symbol [] text = none
scanned_symbol ((spelling, kind) ∷ rest) text =
    let other = scanned_symbol rest text in if bytes_eq text spelling then some kind else other

unfoldable pub operator_kind : Bool → Bool → TokenKind
operator_kind false false = operator_binary_spaced_token
operator_kind true true = operator_binary_unspaced_token
operator_kind false true = operator_prefix_token
operator_kind true false = operator_postfix_token

-- The token of a scanned text, whose kind is known if it is a symbol.
unfoldable pub operator_token : Option TokenKind → Bool → ℕ → Lexer → Lexer
operator_token (some kind) leading_space width s = take_token kind leading_space no_payload width s
operator_token none leading_space width s =
    take_token
      (operator_kind (is_left_bound s.cursor s.source) (is_right_bound (peek width s.rest)))
      leading_space (text_payload (take width s.rest)) width s

unfoldable pub lex_operator : Bool → ℕ → Lexer → Lexer
lex_operator leading_space width s =
    operator_token (scanned_symbol scanned_symbols (take width s.rest)) leading_space width s

unfoldable pub symbol_token : Option (TokenKind × ℕ) → Bool → Lexer → Lexer
symbol_token (some (kind, width)) leading_space s = take_token kind leading_space no_payload width s
symbol_token none leading_space s = lex_operator leading_space (operator_length false s.rest) s

unfoldable pub lex_operator_or_punctuator : Bool → Lexer → Lexer
lex_operator_or_punctuator leading_space s =
    symbol_token (fixed_symbol (peek 0 s.rest) (peek 1 s.rest) (peek 2 s.rest)) leading_space s
