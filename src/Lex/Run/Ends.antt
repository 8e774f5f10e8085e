-- ===== src/Lex/Run/Ends.antt =====
-- The main loop of toolchain/lex/lex.cpp reaches the end of every source.
use tinyswift.Prelude.{
  ℕ, zero, suc, ◌≤◌, ◌<◌, Bool, true, false, ◌||◌, List, [], ◌∷◌, Option, none, some, if◌then◌else◌,
  ◌==◌, length, drop, ◌≡◌, ◌⊎◌, refl, ◌∙◌, ap, arith, Bool-cases, inl, inr,
}
use tinyswift.Lex.Characters.{
  is_identifier_start, is_decimal_digit, is_operator_continuation_char, is_horizontal_whitespace,
}
use tinyswift.Lex.Tokens.{TokenKind}
use tinyswift.Lex.State.{Lexer, peek, holds, advance, emit}
use tinyswift.Lex.Numbers.{is_byte}
use tinyswift.Lex.Operators.{starts_comment}
use tinyswift.Lex.Operators.Width.{lex_operator_or_punctuator-Lexes}
use tinyswift.Lex.Strings.Width.{lex_string_literal-LexesAt}
use tinyswift.Lex.Pound.Width.{lex_pound-Lexes}
use tinyswift.Lex.Progress.{
  LexesAt, Lexes, take_token-Lexes, add_error-Lexes, emit_one_char_symbol-Lexes,
  lex_identifier_or_keyword-Lexes, lex_dollar_ident-Lexes, lex_escaped_identifier-Lexes,
  lex_number-Lexes,
}
use tinyswift.Lex.Trivia.{skip_step, skip_whitespace_and_comments}
use tinyswift.Lex.Trivia.Done.{
  skip_whitespace_and_comments-skip_step, skip_whitespace_and_comments-length, drop-length,
}
use tinyswift.Lex.Run.{
  Start, nul, word, number, quote, pound, dollar, backtick, question, operator, unknown, symbol,
  one_char_symbol, symbol_start, start_of, lex_question, lex_start, lex_at, lex_turns, initial,
}

-- What a start says of the byte.
abbrev Suits : ℕ → Start → Type 0
Suits c number = is_decimal_digit c ≡ true
Suits c operator = (is_operator_continuation_char c || c == b':') ≡ true
Suits c _ = Unit

symbol_start-Suits : (c : ℕ) (kind : Option TokenKind) → Suits c (symbol_start kind)
unfolding symbol_start
symbol_start-Suits c none = tt
symbol_start-Suits c (some kind) = tt

module _ (c : ℕ) where
  later-Suits : Suits c (
      if c == b'`'
      then backtick
      else if c == b'?'
      then question
      else if is_operator_continuation_char c || c == b':'
      then operator
      else symbol_start (one_char_symbol c))
  later-Suits = elim (Bool-cases (c == b'`')) [
    | inl e ↦ rw e tt
    | inr e ↦ elim (Bool-cases (c == b'?')) [
      | inl f ↦ rw (e, f) tt
      | inr f ↦ elim (Bool-cases (is_operator_continuation_char c || c == b':')) [
        | inl g ↦ rw (e, f, g) g
        | inr g ↦ rw (e, f, g) (symbol_start-Suits c (one_char_symbol c))
      ]
    ]
  ]

  start_of-Suits : Suits c (start_of c)
  unfolding start_of
  start_of-Suits = elim (Bool-cases (c == 0)) [
    | inl e ↦ rw e tt
    | inr e ↦ elim (Bool-cases (is_identifier_start c)) [
      | inl f ↦ rw (e, f) tt
      | inr f ↦ elim (Bool-cases (is_decimal_digit c)) [
        | inl g ↦ rw (e, f, g) g
        | inr g ↦ elim (Bool-cases (c == b'"')) [
          | inl k ↦ rw (e, f, g, k) tt
          | inr k ↦ elim (Bool-cases (c == b'#')) [
            | inl m ↦ rw (e, f, g, k, m) tt
            | inr m ↦ elim (Bool-cases (c == b'$')) [
              | inl n ↦ rw (e, f, g, k, m, n) tt
              | inr n ↦ rw (e, f, g, k, m, n) later-Suits
            ]
          ]
        ]
      ]
    ]
  ]

drop_cons-length :
    (n c : ℕ) (rest : List ℕ) → 0 < n → length (drop n (c ∷ rest)) < suc (length rest)
drop_cons-length zero c rest h = absurd (omega arith)
drop_cons-length (suc n) c rest h = omega (arith, drop-length n rest)

-- A step that adds a token leaves fewer bytes, when there was one.
Lexes-length :
    (offset c : ℕ) (rest : List ℕ) (s t : Lexer)
    → s.rest ≡ c ∷ rest
    → LexesAt offset s t
    → length t.rest < suc (length rest)
Lexes-length offset c rest s t e h = rw (h.passed, e) (drop_cons-length h.width c rest h.positive)

lex_question-Lexes : (leading_space : Bool) (s : Lexer) → Lexes s (lex_question leading_space s)
unfolding lex_question
lex_question-Lexes leading_space s = elim (Bool-cases (is_byte b'?' (peek 1 s.rest))) [
  | inl e ↦ rw e (take_token-Lexes _ leading_space _ 2 s (omega arith))
  | inr e ↦ rw e (emit_one_char_symbol-Lexes _ leading_space s)
]

nul-length :
    (c : ℕ) (rest : List ℕ) (leading_space : Bool) (s : Lexer)
    → s.rest ≡ c ∷ rest
    → length (lex_start nul leading_space s).rest < suc (length rest)
unfolding lex_start advance emit
nul-length c rest leading_space s e = rw e (omega arith)

lex_start-length :
    (start : Start) (c : ℕ) (rest : List ℕ) (leading_space : Bool) (s : Lexer)
    → s.rest ≡ c ∷ rest
    → Suits c start
    → starts_comment c (peek 0 rest) ≡ false
    → length (lex_start start leading_space s).rest < suc (length rest)
unfolding lex_start holds
lex_start-length nul c rest l s e suits apart = nul-length c rest l s e
lex_start-length word c rest l s e suits apart =
    Lexes-length _ c rest s _ e (lex_identifier_or_keyword-Lexes l s)
lex_start-length number c rest l s e suits apart =
    Lexes-length _ c rest s _ e (lex_number-Lexes l s (rw e suits))
lex_start-length quote c rest l s e suits apart =
    Lexes-length _ c rest s _ e (lex_string_literal-LexesAt l 0 s)
lex_start-length pound c rest l s e suits apart = Lexes-length _ c rest s _ e (lex_pound-Lexes l s)
lex_start-length dollar c rest l s e suits apart =
    Lexes-length _ c rest s _ e (lex_dollar_ident-Lexes l s)
lex_start-length backtick c rest l s e suits apart =
    Lexes-length _ c rest s _ e (lex_escaped_identifier-Lexes l s)
lex_start-length question c rest l s e suits apart =
    Lexes-length _ c rest s _ e (lex_question-Lexes l s)
lex_start-length operator c rest l s e suits apart =
    Lexes-length _ c rest s _ e (lex_operator_or_punctuator-Lexes l s c rest e suits apart)
lex_start-length unknown c rest l s e suits apart =
    Lexes-length _ c rest s _ e (add_error-Lexes _ l 1 1 s (omega arith))
lex_start-length (symbol kind) c rest l s e suits apart =
    Lexes-length _ c rest s _ e (emit_one_char_symbol-Lexes kind l s)

slash_none :
    (rest : List ℕ) (s : Lexer)
    → s.rest ≡ b'/' ∷ rest
    → skip_step s ≡ none
    → (is_byte b'/' (peek 0 rest) || is_byte b'*' (peek 0 rest)) ≡ false
unfolding skip_step holds is_horizontal_whitespace
slash_none rest s e h = elim (Bool-cases (is_byte b'/' (peek 0 rest))) [
  | inl f ↦ absurd (cc (rw (e, f) at h))
  | inr f ↦ elim (Bool-cases (is_byte b'*' (peek 0 rest))) [
    | inl g ↦ absurd (cc (rw (e, f, g) at h))
    | inr g ↦ rw (f, g) refl
  ]
]

no_comment :
    (c : ℕ) (rest : List ℕ) (s : Lexer)
    → s.rest ≡ c ∷ rest
    → skip_step s ≡ none
    → starts_comment c (peek 0 rest) ≡ false
unfolding starts_comment
no_comment c rest s e h = elim (Bool-cases (c == b'/')) [
  | inl f ↦
      (let slash : c ≡ b'/' = ground arith in
        rw f (slash_none rest s (e ∙ ap (λ x. x ∷ rest) slash) h))
  | inr f ↦ rw f refl
]

lex_at-length :
    (c : ℕ) (rest : List ℕ) (s : Lexer)
    → s.rest ≡ c ∷ rest
    → skip_step s ≡ none
    → length (lex_at (c ∷ rest) s).rest < suc (length rest)
unfolding lex_at
lex_at-length c rest s e h =
    lex_start-length (start_of c) c rest s.has_leading_space _ e (start_of-Suits c)
      (no_comment c rest s e h)

List-cases : (xs : List ℕ) → (xs ≡ []) ⊎ ((c : ℕ) × ((rest : List ℕ) × (xs ≡ c ∷ rest)))
List-cases [] = inl refl
List-cases (c ∷ rest) = inr (c, (rest, refl))

lex_turns-rest : (fuel : ℕ) (s : Lexer) → length s.rest ≤ fuel → (lex_turns fuel s).rest ≡ []
unfolding lex_turns
lex_turns-rest zero s h = elim (List-cases s.rest) [
  | inl e ↦ e
  | inr e ↦ absurd (omega (arith, ap length e.1.1))
]
lex_turns-rest (suc fuel) s h =
    let t = skip_whitespace_and_comments s in
    let shorter = skip_whitespace_and_comments-length s in
    elim (List-cases t.rest) [
      | inl e ↦ rw (e, lex_turns) e
      | inr e ↦
          rw (e.1.1, lex_turns)
            (lex_turns-rest fuel _ (
              let less =
                lex_at-length e.0 e.1.0 t e.1.1 (skip_whitespace_and_comments-skip_step s) in
              let same = ap length e.1.1 in omega arith))
    ]

-- The main loop takes no more turns than the source has bytes: with that many it has passed every
-- byte, whatever the bytes are.
pub lex_turns-initial : (source : List ℕ) → (lex_turns (length source) (initial source)).rest ≡ []
unfolding initial
lex_turns-initial source = lex_turns-rest (length source) (initial source) (omega arith)
