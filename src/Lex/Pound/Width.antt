-- ===== src/Lex/Pound/Width.antt =====
-- LexPound of toolchain/lex/lex.cpp adds one token and passes at least one byte.
use tinyswift.Prelude.{
  ℕ, suc, ◌+◌, ◌-◌, ltb, Bool, drop, take, refl, ◌∙◌, arith, Bool-cases, inl, inr,
}
use tinyswift.Lex.Characters.{is_identifier_start}
use tinyswift.Lex.Tokens.{is_error, lookup_pound_keyword}
use tinyswift.Lex.State.{Lexer, peek, holds, scan_while, advance}
use tinyswift.Lex.Words.{word_length}
use tinyswift.Lex.Numbers.{is_byte}
use tinyswift.Lex.Strings.{is_hash}
use tinyswift.Lex.Strings.Width.{lex_string_literal-LexesAt}
use tinyswift.Lex.Pound.{lex_pound_word, lex_pound}
use tinyswift.Lex.Progress.{LexesAt, Lexes, drop-drop, take_token-Lexes}

-- What is lexed after some bytes were passed is lexed from before them.
advance-Lexes :
    (n : ℕ) (s t : Lexer) → LexesAt ((advance n s).cursor - n) (advance n s) t → Lexes s t
unfolding advance
advance-Lexes n s t h = record {
  token = h.token;
  width = n + h.width;
  starts = h.starts ∙ omega arith;
  appended = h.appended;
  positive = let p = h.positive in omega arith;
  moved = let m = h.moved in omega (arith, m);
  passed = h.passed ∙ drop-drop n h.width (n + h.width) s.rest refl;
  same_source = h.same_source;
}

lex_pound_word-Lexes : (leading_space : Bool) (s : Lexer) → Lexes s (lex_pound_word leading_space s)
unfolding lex_pound_word word_length
lex_pound_word-Lexes leading_space s =
    elim (Bool-cases (is_error (lookup_pound_keyword (take (word_length s.rest) s.rest)))) [
      | inl e ↦ rw e (take_token-Lexes _ leading_space _ 1 s (omega arith))
      | inr e ↦ rw e (take_token-Lexes _ leading_space _ _ s (omega arith))
    ]

-- At a pound, one token is added there, a string literal with its hashes included.
pub lex_pound-Lexes : (leading_space : Bool) (s : Lexer) → Lexes s (lex_pound leading_space s)
unfolding lex_pound
lex_pound-Lexes leading_space s =
    let more = scan_while is_hash (drop 1 s.rest) in
    elim (Bool-cases (is_byte b'"' (peek (suc more) s.rest))) [
      | inl e ↦ rw e (
          advance-Lexes (suc more) s _
            (lex_string_literal-LexesAt leading_space (suc more) (advance (suc more) s)))
      | inr e ↦ elim (Bool-cases (ltb 0 more)) [
        | inl f ↦ rw (e, f) (take_token-Lexes _ leading_space _ 1 s (omega arith))
        | inr f ↦ elim (Bool-cases (holds is_identifier_start (peek 1 s.rest))) [
          | inl g ↦ rw (e, f, g) (lex_pound_word-Lexes leading_space s)
          | inr g ↦ rw (e, f, g) (take_token-Lexes _ leading_space _ 1 s (omega arith))
        ]
      ]
    ]
