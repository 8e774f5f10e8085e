-- ===== src/Lex/Run.antt =====
-- toolchain/lex/lex.cpp: Lexer::Run, the main loop and what follows it.
pub mod Ends
use tinyswift.Prelude.{
  ℕ, zero, suc, Bool, true, false, ◌||◌, List, [], ◌∷◌, ◌++◌, Option, none, some, if◌then◌else◌,
  ◌==◌, ltb, ◌^◌, ◌-◌, length, drop,
}
use tinyswift.Lex.Characters.{is_identifier_start, is_decimal_digit, is_operator_continuation_char}
use tinyswift.Lex.Tokens.{
  TokenKind, Token, no_payload, file_start_token, file_end_token, open_paren_token,
  close_paren_token, open_curly_brace_token, close_curly_brace_token, open_square_bracket_token,
  close_square_bracket_token, comma_token, semi_token, at_token, backslash_token, question_token,
  question_question_token,
}
use tinyswift.Lex.State.{
  Lexer, Diagnostic, peek, advance, emit, add_error, plain_token, take_token, emit_one_char_symbol,
  nul_character_in_source, unrecognized_characters, too_many_tokens,
}
use tinyswift.Lex.Words.{lex_identifier_or_keyword, lex_dollar_ident, lex_escaped_identifier}
use tinyswift.Lex.Numbers.{is_byte, lex_number}
use tinyswift.Lex.Strings.{lex_string_literal}
use tinyswift.Lex.Pound.{lex_pound}
use tinyswift.Lex.Operators.{lex_operator_or_punctuator}
use tinyswift.Lex.Trivia.{skip_whitespace_and_comments}
use tinyswift.Lex.Brackets.{Matching, match_open_close_tokens}

-- The symbols of one character that is part of no other symbol.
unfoldable pub one_char_symbol : ℕ → Option TokenKind
one_char_symbol c =
    if c == b'('
    then some open_paren_token
    else if c == b')'
    then some close_paren_token
    else if c == b'{'
    then some open_curly_brace_token
    else if c == b'}'
    then some close_curly_brace_token
    else if c == b'['
    then some open_square_bracket_token
    else if c == b']'
    then some close_square_bracket_token
    else if c == b','
    then some comma_token
    else if c == b';'
    then some semi_token
    else if c == b'@'
    then some at_token
    else if c == b'\\'
    then some backslash_token
    else none

unfoldable pub lex_question : Bool → Lexer → Lexer
lex_question leading_space s =
    if is_byte b'?' (peek 1 s.rest)
    then take_token question_question_token leading_space no_payload 2 s
    else emit_one_char_symbol question_token leading_space s

-- The bytes that the source's `switch` tells apart.
pub data Start : Type 0 where
  nul word number quote pound dollar backtick question operator unknown : Start
  symbol : TokenKind → Start

unfoldable pub symbol_start : Option TokenKind → Start
symbol_start none = unknown
symbol_start (some kind) = symbol kind

unfoldable pub start_of : ℕ → Start
start_of c =
    if c == 0
    then nul
    else if is_identifier_start c
    then word
    else if is_decimal_digit c
    then number
    else if c == b'"'
    then quote
    else if c == b'#'
    then pound
    else if c == b'$'
    then dollar
    else if c == b'`'
    then backtick
    else if c == b'?'
    then question
    else if is_operator_continuation_char c || c == b':'
    then operator
    else symbol_start (one_char_symbol c)

unfoldable pub lex_start : Start → Bool → Lexer → Lexer
lex_start nul leading_space s = advance 1 (emit s.cursor nul_character_in_source s)
lex_start word leading_space s = lex_identifier_or_keyword leading_space s
lex_start number leading_space s = lex_number leading_space s
lex_start quote leading_space s = lex_string_literal leading_space 0 s
lex_start pound leading_space s = lex_pound leading_space s
lex_start dollar leading_space s = lex_dollar_ident leading_space s
lex_start backtick leading_space s = lex_escaped_identifier leading_space s
lex_start question leading_space s = lex_question leading_space s
lex_start operator leading_space s = lex_operator_or_punctuator leading_space s
lex_start unknown leading_space s =
    advance 1 (add_error unrecognized_characters leading_space 1 s.cursor s)
lex_start (symbol kind) leading_space s = emit_one_char_symbol kind leading_space s

-- What the loop does at the byte that follows white space and comments.
unfoldable pub lex_at : List ℕ → Lexer → Lexer
lex_at [] s = s
lex_at (c ∷ _) s =
    lex_start (start_of c) s.has_leading_space (record s { has_leading_space = false })

-- Every turn passes a byte, so the number of bytes is enough fuel.
unfoldable pub lex_turns : ℕ → Lexer → Lexer
lex_turns zero s = s
lex_turns (suc fuel) s =
    let t = skip_whitespace_and_comments s in
    elim t.rest [ [] ↦ t | c ∷ rest ↦ lex_turns fuel (lex_at (c ∷ rest) t) ]

unfoldable pub initial : List ℕ → Lexer
initial source = record {
  source = source;
  cursor = 0;
  rest = source;
  tokens = plain_token file_start_token false 0 ∷ [];
  lines = record { start = 0; indent = 0 } ∷ [];
  comments = [];
  diagnostics = [];
  has_errors = false;
  has_leading_space = false;
  at_start_of_line = true;
}

abbrev pub max_tokens : ℕ
max_tokens = 2 ^ 23

-- The count of tokens is tested before the last token is added.
unfoldable pub finish : ℕ → Matching → Matching
finish source_size m =
    let t = record m { tokens = m.tokens ++ plain_token file_end_token true source_size ∷ [] } in
    if ltb (length m.tokens) max_tokens then t else record t {
      diagnostics = m.diagnostics ++ (source_size - 1, too_many_tokens) ∷ [];
      has_errors = true;
    }

unfoldable pub run : List ℕ → Matching
run source =
    finish (length source) (match_open_close_tokens (lex_turns (length source) (initial source)))
