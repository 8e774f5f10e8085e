-- ===== src/Lex/Strings/Width.antt =====
-- LexStringLiteral of toolchain/lex/lex.cpp adds one token and passes at least one byte.
use tinyswift.Prelude.{ℕ, ◌+◌, ◌-◌, ◌<◌, Bool, ◌&&◌, drop, refl, arith, Bool-cases, inl, inr}
use tinyswift.Lex.State.{Lexer, peek, advance, emit, add_token, payload_token}
use tinyswift.Lex.Numbers.{is_byte}
use tinyswift.Lex.Strings.{StringEnd, end_string, lex_string_literal}
use tinyswift.Lex.Progress.{LexesAt}

end_string-LexesAt :
    (end : StringEnd) (leading_space : Bool) (at hash_count opening : ℕ) (s : Lexer)
    → 0 < opening
    → LexesAt (s.cursor - hash_count) s (end_string end leading_space at hash_count opening s)
unfolding end_string advance add_token emit payload_token
end_string-LexesAt end leading_space at hash_count opening s h = elim (Bool-cases end.is_closed) [
  | inl e ↦ rw e (record {
    token = _;
    width = opening + end.width;
    starts = refl;
    appended = refl;
    positive = omega arith;
    moved = refl;
    passed = refl;
    same_source = refl;
  })
  | inr e ↦ rw e (record {
    token = _;
    width = opening + end.width;
    starts = refl;
    appended = refl;
    positive = omega arith;
    moved = refl;
    passed = refl;
    same_source = refl;
  })
]

-- At an opening quote after some hashes, one token is added, at the first hash.
pub lex_string_literal-LexesAt :
    (leading_space : Bool) (hash_count : ℕ) (s : Lexer)
    → LexesAt (s.cursor - hash_count) s (lex_string_literal leading_space hash_count s)
unfolding lex_string_literal
lex_string_literal-LexesAt leading_space hash_count s =
    elim (Bool-cases
      (is_byte b'"' (peek 0 (drop 1 s.rest)) && is_byte b'"' (peek 1 (drop 1 s.rest)))) [
        | inl e ↦ rw e (end_string-LexesAt _ leading_space _ hash_count 3 s (omega arith))
        | inr e ↦ rw e (end_string-LexesAt _ leading_space _ hash_count 1 s (omega arith))
      ]
