-- ===== src/Lex/Words.antt =====
-- toolchain/lex/lex.cpp: identifiers and keywords, dollar identifiers, escaped identifiers.
pub mod Munch
pub mod Yield
use tinyswift.Prelude.{
  ℕ, zero, suc, ◌+◌, Bool, true, false, not, ◌&&◌, ◌||◌, List, [], ◌∷◌, Option, none, some,
  if◌then◌else◌, ◌==◌, take, drop,
}
use tinyswift.Lex.Characters.{is_identifier_continuation, is_identifier_start, is_decimal_digit}
use tinyswift.Lex.Tokens.{
  TokenKind, Payload, no_payload, text_payload, lookup_keyword, is_error, identifier_token,
  dollar_ident_token, escaped_identifier_token,
}
use tinyswift.Lex.State.{
  Lexer, peek, holds, scan_while, advance, add_error, take_token, invalid_dollar_identifier,
  unterminated_escaped_identifier,
}

-- The bytes of the word at the cursor, whose first byte is taken as it is.
unfoldable pub word_length : List ℕ → ℕ
word_length rest = suc (scan_while is_identifier_continuation (drop 1 rest))

unfoldable pub lex_identifier_or_keyword : Bool → Lexer → Lexer
lex_identifier_or_keyword leading_space s =
    let width = word_length s.rest in
    let text = take width s.rest in
    let kind = lookup_keyword text in
    if is_error kind
    then take_token identifier_token leading_space (text_payload text) width s
    else take_token kind leading_space no_payload width s

unfoldable pub starts_dollar : ℕ → Bool
starts_dollar c = is_decimal_digit c || is_identifier_start c

unfoldable pub lex_dollar_ident : Bool → Lexer → Lexer
lex_dollar_ident leading_space s =
    let width = word_length s.rest in
    if holds starts_dollar (peek 1 s.rest)
    then take_token dollar_ident_token leading_space (text_payload (take width s.rest)) width s
    else advance 1 (add_error invalid_dollar_identifier leading_space 1 s.cursor s)

unfoldable pub in_backticks : ℕ → Bool
in_backticks c = not (c == b'`') && (not (c == 10) && not (c == 13))

unfoldable pub is_backtick : ℕ → Bool
is_backtick c = c == b'`'

unfoldable pub lex_escaped_identifier : Bool → Lexer → Lexer
lex_escaped_identifier leading_space s =
    let inner = scan_while in_backticks (drop 1 s.rest) in
    if holds is_backtick (peek (suc inner) s.rest)
    then take_token escaped_identifier_token leading_space
        (text_payload (take inner (drop 1 s.rest))) (2 + inner) s
    else advance (suc inner)
        (add_error unterminated_escaped_identifier leading_space (suc inner) s.cursor s)
