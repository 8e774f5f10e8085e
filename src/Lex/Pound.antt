-- ===== src/Lex/Pound.antt =====
-- toolchain/lex/lex.cpp: LexPound.
pub mod Width
use tinyswift.Prelude.{ℕ, zero, suc, Bool, true, false, List, if◌then◌else◌, ltb, drop, take}
use tinyswift.Lex.Characters.{is_identifier_start}
use tinyswift.Lex.Tokens.{TokenKind, no_payload, lookup_pound_keyword, is_error, pound_token}
use tinyswift.Lex.State.{Lexer, peek, holds, scan_while, advance, take_token}
use tinyswift.Lex.Words.{word_length}
use tinyswift.Lex.Numbers.{is_byte}
use tinyswift.Lex.Strings.{is_hash, lex_string_literal}

-- A pound keyword, or a lone pound when the word after it is none.
unfoldable pub lex_pound_word : Bool → Lexer → Lexer
lex_pound_word leading_space s =
    let width = word_length s.rest in
    let kind = lookup_pound_keyword (take width s.rest) in
    if is_error kind
    then take_token pound_token leading_space no_payload 1 s
    else take_token kind leading_space no_payload width s

-- `more` is the number of hashes after the first.
unfoldable pub lex_pound : Bool → Lexer → Lexer
lex_pound leading_space s =
    let more = scan_while is_hash (drop 1 s.rest) in
    if is_byte b'"' (peek (suc more) s.rest)
    then lex_string_literal leading_space (suc more) (advance (suc more) s)
    else if ltb 0 more
    then take_token pound_token leading_space no_payload 1 s
    else if holds is_identifier_start (peek 1 s.rest)
    then lex_pound_word leading_space s
    else take_token pound_token leading_space no_payload 1 s
