-- ===== src/Lex/Tests.antt =====
-- Short sources: runs of the lexer's routines and the theorems at them.
use tinyswift.Prelude.{ℕ, true, false, List, [], ◌∷◌, none, ◌≡◌, refl}
use tinyswift.Lex.Characters.{
  is_decimal_digit, in_range, is_operator_continuation_char, is_operator_start_char,
}
use tinyswift.Lex.Tokens.{codes}
use tinyswift.Lex.State.{Lexer, holds}
use tinyswift.Lex.Words.{lex_identifier_or_keyword}
use tinyswift.Lex.Words.Munch.{IsWord, lex_identifier_or_keyword-IsWord}
use tinyswift.Lex.Tokens.{lookup_keyword}
use tinyswift.Lex.Words.Yield.{is_yield, lookup_keyword-is_yield}
use tinyswift.Lex.Tokens.{open_paren_token}
use tinyswift.Lex.Numbers.{lex_number}
use tinyswift.Lex.Numbers.Literals.{AddsLiteral, lex_number-AddsLiteral}
use tinyswift.Lex.Operators.{starts_comment, lex_operator_or_punctuator}
use tinyswift.Lex.Operators.Width.{lex_operator_or_punctuator-Lexes}
use tinyswift.Lex.Progress.{Lexes}
use tinyswift.Lex.Trivia.{skip_step, skip_whitespace_and_comments}
use tinyswift.Lex.Trivia.Done.{skip_whitespace_and_comments-skip_step}
use tinyswift.Prelude.{length, suc, ◌<◌, arith}
use tinyswift.Lex.State.{plain_token}
use tinyswift.Lex.Tokens.{file_start_token}
use tinyswift.Lex.Run.{initial, lex_turns}
use tinyswift.Lex.Run.Ends.{lex_turns-initial}
use tinyswift.Lex.Brackets.{Matching, OpenEntry, recover_openings}
use tinyswift.Lex.Brackets.Overrun.{recover_openings-has_overrun}
use tinyswift.Lex.Tokens.{
  Token, close_paren_token, comma_token, is_opening_symbol, is_closing_symbol, opening_symbol,
}
use tinyswift.Lex.Brackets.{before_matching, match_open_close_tokens, same_opening}
use tinyswift.Lex.Brackets.Balanced.{Balanced, nothing, beside, group, IsQuiet}
use tinyswift.Lex.Brackets.Links.{linked, match_open_close_tokens-Balanced}
use tinyswift.Lex.Strings.{string_step, multiline_step, string_scan}
use tinyswift.Lex.Strings.Stops.{StopsBy, string_scan-ends}

abbrev at_text : List ℕ → Lexer
at_text text = record {
  source = text;
  cursor = 0;
  rest = text;
  tokens = [];
  lines = record { start = 0; indent = 0 } ∷ [];
  comments = [];
  diagnostics = [];
  has_errors = false;
  has_leading_space = false;
  at_start_of_line = true;
}

lex_identifier_or_keyword-IsWord_example :
    IsWord true
      (at_text (codes "while_x ("))
      (lex_identifier_or_keyword true (at_text (codes "while_x (")))
lex_identifier_or_keyword-IsWord_example =
    lex_identifier_or_keyword-IsWord true (at_text (codes "while_x ("))

lex_number-AddsLiteral_example :
    AddsLiteral (at_text (codes "0x_1F_a + 2")) (lex_number false (at_text (codes "0x_1F_a + 2")))
unfolding holds is_decimal_digit in_range
lex_number-AddsLiteral_example = lex_number-AddsLiteral false (at_text (codes "0x_1F_a + 2")) refl

lex_operator_or_punctuator-Lexes_example :
    Lexes (at_text (codes ">.x")) (lex_operator_or_punctuator false (at_text (codes ">.x")))
unfolding is_operator_continuation_char is_operator_start_char starts_comment holds
lex_operator_or_punctuator-Lexes_example =
    lex_operator_or_punctuator-Lexes false (at_text (codes ">.x")) _ _ refl refl refl

skip_whitespace_and_comments-skip_step_example :
    skip_step (skip_whitespace_and_comments (at_text (codes " /* a /* b */ */ // c"))) ≡ none
skip_whitespace_and_comments-skip_step_example =
    skip_whitespace_and_comments-skip_step (at_text (codes " /* a /* b */ */ // c"))

lookup_keyword-is_yield_example : is_yield (lookup_keyword (codes "yield")) ≡ false
lookup_keyword-is_yield_example = lookup_keyword-is_yield (codes "yield")

lex_turns-initial_example :
    (lex_turns
      (length (codes "if x { #\"a\"# } // $"))
      (initial (codes "if x { #\"a\"# } // $"))).rest
    ≡ []
lex_turns-initial_example = lex_turns-initial (codes "if x { #\"a\"# } // $")

-- The source `((`: two parentheses that nothing closes.
abbrev open_at : ℕ → OpenEntry
open_at offset = record { index = suc offset; kind = open_paren_token; offset = offset }

abbrev two_open : Matching
two_open = record {
  tokens =
      plain_token file_start_token false 0
      ∷ plain_token open_paren_token false 0
      ∷ plain_token open_paren_token false 1
      ∷ [];
  open_stack = open_at 1 ∷ open_at 0 ∷ [];
  recovery_size = 0;
  recovery_tokens = [];
  has_overrun = false;
  diagnostics = [];
  has_errors = false;
}

recover_openings-has_overrun_example :
    ((recover_openings 2 (open_at 1 ∷ open_at 0 ∷ []) two_open).has_overrun ≡ true)
    × (0 < 0 → (recover_openings 2 (open_at 1 ∷ []) two_open).has_overrun ≡ true)
recover_openings-has_overrun_example =
    recover_openings-has_overrun 2 (open_at 1) (open_at 0) [] two_open (omega arith)

-- The tokens of `(,)`.
abbrev comma_in_parens : List Token
comma_in_parens =
    plain_token file_start_token false 0
    ∷ plain_token open_paren_token false 0
    ∷ plain_token comma_token false 1
    ∷ plain_token close_paren_token false 2
    ∷ []

abbrev with_tokens : List Token → Lexer
with_tokens tokens = record (at_text []) { tokens = tokens }

comma_in_parens-Balanced : Balanced comma_in_parens
unfolding is_opening_symbol is_closing_symbol opening_symbol same_opening plain_token
comma_in_parens-Balanced = beside _ _ refl refl (
    group (plain_token open_paren_token false 0) (plain_token close_paren_token false 2)
      (plain_token comma_token false 1 ∷ []) [] refl refl refl (beside _ _ refl refl nothing)
      nothing)

match_open_close_tokens-Balanced_example :
    ((match_open_close_tokens (with_tokens comma_in_parens)).tokens
      ≡ linked comma_in_parens comma_in_parens-Balanced 0)
    × IsQuiet
        (before_matching (with_tokens comma_in_parens))
        (match_open_close_tokens (with_tokens comma_in_parens))
match_open_close_tokens-Balanced_example =
    match_open_close_tokens-Balanced (with_tokens comma_in_parens) comma_in_parens-Balanced

string_scan-ends_example :
    StopsBy
      (string_step 1)
      (codes "a\"b\"# c")
      (string_scan (string_step 1) 9 2 (codes "a\"b\"# c") [])
    × StopsBy
        (multiline_step 1)
        (codes "a\"b\"# c")
        (string_scan (multiline_step 1) 9 2 (codes "a\"b\"# c") [])
string_scan-ends_example = string_scan-ends 1 9 2 (codes "a\"b\"# c") [] (omega arith)
