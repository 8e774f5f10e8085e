-- ===== src/Lex/State.antt =====
-- The state of the lexer of toolchain/lex/lex.cpp: the cursor, and the buffer that it fills.
pub mod Scan
use tinyswift.Prelude.{
  ℕ, zero, suc, ◌+◌, Bool, true, false, List, [], ◌∷◌, ◌++◌, Option, none, some, if◌then◌else◌,
  drop, take,
}
use tinyswift.Lex.Tokens.{TokenKind, Token, Payload, no_payload, length_payload, error_token}

pub data Diagnostic : Type 0 where
  unrecognized_characters unterminated_block_comment unterminated_string : Diagnostic
  unterminated_escaped_identifier invalid_octal_literal invalid_binary_literal : Diagnostic
  expected_hex_digit expected_octal_digit expected_binary_digit : Diagnostic
  invalid_dollar_identifier nul_character_in_source too_many_tokens : Diagnostic
  unmatched_opening unmatched_closing : TokenKind → Diagnostic

pub record LineInfo : Type 0 where
  pub start : ℕ
  pub indent : ℕ

pub record Comment : Type 0 where
  pub start : ℕ
  pub length : ℕ

-- `cursor` is the byte offset of `cursor_`, `rest` the bytes from it to `end_`; `comments` and
-- `lines` have the newest entry first, since only that entry is read or changed.
pub record Lexer : Type 0 where
  pub source : List ℕ
  pub cursor : ℕ
  pub rest : List ℕ
  pub tokens : List Token
  pub lines : List LineInfo
  pub comments : List Comment
  pub diagnostics : List (ℕ × Diagnostic)
  pub has_errors : Bool
  pub has_leading_space : Bool
  pub at_start_of_line : Bool

-- The byte `n` places after the cursor, if the source goes that far.
abbrev pub peek : ℕ → List ℕ → Option ℕ
peek n [] = none
peek zero (c ∷ _) = some c
peek (suc n) (_ ∷ rest) = peek n rest

-- `cursor_ < end_ && p(*cursor_)`, at a byte that may not exist.
unfoldable pub holds : (ℕ → Bool) → Option ℕ → Bool
holds p none = false
holds p (some c) = p c

-- How far `while (cursor_ < end_ && p(*cursor_)) ++cursor_;` goes.
unfoldable pub scan_while : (ℕ → Bool) → List ℕ → ℕ
scan_while p [] = 0
scan_while p (c ∷ rest) = let n = scan_while p rest in if p c then suc n else 0

unfoldable pub advance : ℕ → Lexer → Lexer
advance n s = record s { cursor = s.cursor + n; rest = drop n s.rest }

unfoldable pub emit : ℕ → Diagnostic → Lexer → Lexer
emit at d s = record s { diagnostics = s.diagnostics ++ (at, d) ∷ [] }

unfoldable pub add_token : Token → Lexer → Lexer
add_token t s = record s { tokens = s.tokens ++ t ∷ [] }

unfoldable pub plain_token : TokenKind → Bool → ℕ → Token
plain_token kind leading_space offset = record {
  kind = kind;
  has_leading_space = leading_space;
  payload = no_payload;
  byte_offset = offset;
}

unfoldable pub payload_token : TokenKind → Bool → Payload → ℕ → Token
payload_token kind leading_space payload offset = record {
  kind = kind;
  has_leading_space = leading_space;
  payload = payload;
  byte_offset = offset;
}

-- A diagnostic at the start of a token, and the `Error` token of a length in its place.
unfoldable pub add_error : Diagnostic → Bool → ℕ → ℕ → Lexer → Lexer
add_error d leading_space error_length offset s =
    record (add_token (payload_token error_token leading_space (length_payload error_length) offset)
      (emit offset d s)) { has_errors = true }

-- A token that spans the next `width` bytes.
unfoldable pub take_token : TokenKind → Bool → Payload → ℕ → Lexer → Lexer
take_token kind leading_space payload width s =
    advance width (add_token (payload_token kind leading_space payload s.cursor) s)

-- EmitOneCharSymbol
unfoldable pub emit_one_char_symbol : TokenKind → Bool → Lexer → Lexer
emit_one_char_symbol kind leading_space s =
    advance 1 (add_token (plain_token kind leading_space s.cursor) s)
