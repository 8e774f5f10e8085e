-- ===== src/Lex/Brackets.antt =====
-- toolchain/lex/lex.cpp: MatchOpenCloseTokens. An opening or closing token holds the index of its
-- partner. The bit vector of recovery tokens is its size and the bits that were set, with a flag that
-- one was set past the size, where the source writes out of bounds.
pub mod Overrun
pub mod Balanced
pub mod Links
use tinyswift.Prelude.{
  ℕ, zero, suc, Bool, true, false, List, [], ◌∷◌, ◌++◌, Option, none, some, if◌then◌else◌, ltb, not,
  ◌||◌, set, get_elem?, length,
}
use tinyswift.Lex.Tokens.{
  TokenKind, Token, Payload, match_payload, is_opening_symbol, is_closing_symbol, opening_symbol,
  closing_symbol, open_paren_token, open_curly_brace_token, open_square_bracket_token,
}
use tinyswift.Lex.State.{payload_token, Lexer, Diagnostic, unmatched_opening, unmatched_closing}

pub record OpenEntry : Type 0 where
  pub index : ℕ
  pub kind : TokenKind
  pub offset : ℕ

pub record Matching : Type 0 where
  pub tokens : List Token
  pub open_stack : List OpenEntry
  pub recovery_size : ℕ
  pub recovery_tokens : List ℕ
  pub has_overrun : Bool
  pub diagnostics : List (ℕ × Diagnostic)
  pub has_errors : Bool

-- `==` on the kinds of opening symbols.
unfoldable pub same_opening : TokenKind → TokenKind → Bool
same_opening open_paren_token open_paren_token = true
same_opening open_curly_brace_token open_curly_brace_token = true
same_opening open_square_bracket_token open_square_bracket_token = true
same_opening _ _ = false

-- set_closing_token_index and set_opening_token_index
unfoldable pub set_match : ℕ → ℕ → List Token → List Token
set_match index partner tokens = elim (get_elem? tokens index) [
  | none ↦ tokens
  | some t ↦ set tokens index (record t { payload = match_payload partner })
]

-- An empty vector is resized to the count of tokens, another one keeps its size.
unfoldable pub size_for : ℕ → ℕ → ℕ
size_for zero count = count
size_for (suc size) count = suc size

unfoldable pub mark_recovery : ℕ → Matching → Matching
mark_recovery index m =
    let size = size_for m.recovery_size (length m.tokens) in
    record m {
      recovery_size = size;
      recovery_tokens = index ∷ m.recovery_tokens;
      has_overrun = m.has_overrun || not (ltb index size);
    }

unfoldable pub unmatched : ℕ → Token → Matching → Matching
unmatched index token m = record (mark_recovery index m) {
  tokens = set_match index index m.tokens;
  diagnostics = m.diagnostics ++ (token.byte_offset, unmatched_closing token.kind) ∷ [];
  has_errors = true;
}

-- A closing token against the top of the stack.
unfoldable pub close_token : List OpenEntry → ℕ → Token → Matching → Matching
close_token [] index token m = unmatched index token m
close_token (top ∷ below) index token m =
    if same_opening top.kind (opening_symbol token.kind)
    then record m {
      tokens = set_match index top.index (set_match top.index index m.tokens);
      open_stack = below;
    }
    else unmatched index token m

unfoldable pub match_token : ℕ → Token → Matching → Matching
match_token index token m =
    if is_opening_symbol token.kind
    then record m {
      open_stack =
          record { index = index; kind = token.kind; offset = token.byte_offset } ∷ m.open_stack;
    }
    else if is_closing_symbol token.kind
    then close_token m.open_stack index token m
    else m

unfoldable pub match_tokens : ℕ → List Token → Matching → Matching
match_tokens index [] m = m
match_tokens index (token ∷ rest) m = match_tokens (suc index) rest (match_token index token m)

-- A closing token at the end of the source for an opening token that has none.
unfoldable pub recover_opening : ℕ → OpenEntry → Matching → Matching
recover_opening source_size entry m =
    let closing_index = length m.tokens in
    let closing =
      payload_token (closing_symbol entry.kind) false (match_payload entry.index) source_size in
    let t = record m { tokens = set_match entry.index closing_index m.tokens ++ closing ∷ [] } in
    record (mark_recovery closing_index t) {
      diagnostics = m.diagnostics ++ (entry.offset, unmatched_opening entry.kind) ∷ [];
      has_errors = true;
    }

-- The entries of the stack, the one pushed first standing last.
unfoldable pub recover_openings : ℕ → List OpenEntry → Matching → Matching
recover_openings source_size [] m = m
recover_openings source_size (entry ∷ below) m =
    recover_opening source_size entry (recover_openings source_size below m)

abbrev pub before_matching : Lexer → Matching
before_matching s = record {
  tokens = s.tokens;
  open_stack = [];
  recovery_size = 0;
  recovery_tokens = [];
  has_overrun = false;
  diagnostics = s.diagnostics;
  has_errors = s.has_errors;
}

unfoldable pub match_open_close_tokens : Lexer → Matching
match_open_close_tokens s =
    let m = match_tokens 0 s.tokens (before_matching s) in
    recover_openings (length s.source) m.open_stack m
