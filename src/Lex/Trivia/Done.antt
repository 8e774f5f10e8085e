-- ===== src/Lex/Trivia/Done.antt =====
-- The loop of SkipWhitespaceAndComments of toolchain/lex/lex.cpp ends, at a byte of a token.
use tinyswift.Prelude.{
  ℕ, zero, suc, ◌≤◌, ◌<◌, Bool, true, false, ◌&&◌, List, [], ◌∷◌, Option, none, some, if◌then◌else◌,
  ◌==◌, length, drop, ◌≡◌, refl, arith, &&_split, Bool-cases, Option-cases, inl, inr,
}
use mathlib.Core.Path.{subst}
use tinyswift.Lex.State.{Lexer, peek, holds, scan_while, advance, emit}
use tinyswift.Lex.Characters.{is_horizontal_whitespace, is_vertical_whitespace}
use tinyswift.Lex.Numbers.{is_byte}
use tinyswift.Lex.Trivia.{
  space, new_line, line_comment, in_line_comment, block_comment, report_open, skip_step, skip_turns,
  skip_whitespace_and_comments,
}

pub drop-length : (n : ℕ) (xs : List ℕ) → length (drop n xs) ≤ length xs
drop-length zero xs = omega arith
drop-length (suc n) [] = omega arith
drop-length (suc n) (x ∷ xs) = omega (arith, drop-length n xs)

drop-shorter :
    (p : ℕ → Bool) (n : ℕ) (xs : List ℕ)
    → holds p (peek 0 xs) ≡ true
    → length (drop (suc n) xs) < length xs
unfolding holds
drop-shorter p n [] h = cc h
drop-shorter p n (x ∷ xs) h = omega (arith, drop-length n xs)

-- The loop of a turn passed a byte.
abbrev Shortens : Lexer → Lexer → Type 0
Shortens s t = length t.rest < length s.rest

new_line-Shortens :
    (p : ℕ → Bool) (width : ℕ) (s : Lexer)
    → holds p (peek 0 s.rest) ≡ true
    → Shortens s (new_line (suc width) s)
unfolding new_line advance
new_line-Shortens p width s h =
    omega (arith, drop-shorter p width s.rest h, drop-length _ (drop (suc width) s.rest))

slash-in_line_comment :
    (xs : List ℕ)
    → holds (λ c. c == b'/') (peek 0 xs) ≡ true
    → length (drop (scan_while in_line_comment xs) xs) < length xs
unfolding holds scan_while in_line_comment is_vertical_whitespace
slash-in_line_comment [] h = cc h
slash-in_line_comment (x ∷ xs) h =
    let slash : x ≡ b'/' = ground arith in
    rw slash (omega (arith, drop-length (scan_while in_line_comment xs) xs))

line_comment-Shortens :
    (s : Lexer) → holds (λ c. c == b'/') (peek 0 s.rest) ≡ true → Shortens s (line_comment s)
unfolding line_comment space advance
line_comment-Shortens s h = slash-in_line_comment s.rest h

report_open-rest : (depth start : ℕ) (s : Lexer) → (report_open depth start s).rest ≡ s.rest
unfolding report_open emit
report_open-rest zero start s = refl
report_open-rest (suc depth) start s = refl

block_comment-Shortens :
    (s : Lexer) → holds (λ c. c == b'/') (peek 0 s.rest) ≡ true → Shortens s (block_comment s)
unfolding block_comment space advance
block_comment-Shortens s h =
    rw report_open-rest (omega (arith, drop-shorter _ 1 s.rest h, drop-length _ (drop 2 s.rest)))

-- An outcome of a turn that goes on passed a byte.
abbrev GoesOn : Lexer → Option Lexer → Type 0
GoesOn s none = Unit
GoesOn s (some t) = Shortens s t

line_break-Shortens :
    (p : ℕ → Bool) (b : Bool) (s : Lexer)
    → holds p (peek 0 s.rest) ≡ true
    → Shortens s (new_line (if b then 2 else 1) s)
line_break-Shortens p true s h = new_line-Shortens p 1 s h
line_break-Shortens p false s h = new_line-Shortens p 0 s h

skip_step-GoesOn : (s : Lexer) → GoesOn s (skip_step s)
unfolding skip_step advance space
skip_step-GoesOn s =
    let c = peek 0 s.rest in
    let next = peek 1 s.rest in
    elim (Bool-cases (holds is_horizontal_whitespace c)) [
      | inl e ↦ rw e (drop-shorter is_horizontal_whitespace 0 s.rest e)
      | inr e ↦ elim (Bool-cases (is_byte 10 c)) [
        | inl f ↦ rw (e, f) (new_line-Shortens _ 0 s f)
        | inr f ↦ elim (Bool-cases (is_byte 13 c)) [
          | inl g ↦ rw (e, f, g) (line_break-Shortens _ (is_byte 10 next) s g)
          | inr g ↦ elim (Bool-cases (is_byte b'/' c && is_byte b'/' next)) [
            | inl k ↦ rw (e, f, g, k) (line_comment-Shortens s (&&_split _ _ k).0)
            | inr k ↦ elim (Bool-cases (is_byte b'/' c && is_byte b'*' next)) [
              | inl m ↦ rw (e, f, g, k, m) (block_comment-Shortens s (&&_split _ _ m).0)
              | inr m ↦ rw (e, f, g, k, m) tt
            ]
          ]
        ]
      ]
    ]

step-Shortens : (s t : Lexer) → skip_step s ≡ some t → Shortens s t
step-Shortens s t e = subst (GoesOn s) e (skip_step-GoesOn s)

turns-done : (fuel : ℕ) (s : Lexer) → length s.rest ≤ fuel → skip_step (skip_turns fuel s) ≡ none
unfolding skip_turns
turns-done zero s h = elim (Option-cases (skip_step s)) [
  | inl e ↦ e
  | inr e ↦ absurd (omega (arith, step-Shortens s e.0 e.1))
]
turns-done (suc fuel) s h = elim (Option-cases (skip_step s)) [
  | inl e ↦ rw (e, skip_turns) e
  | inr e ↦ rw (e.1, skip_turns) (turns-done fuel e.0 (omega (arith, step-Shortens s e.0 e.1)))
]

turns-length : (fuel : ℕ) (s : Lexer) → length (skip_turns fuel s).rest ≤ length s.rest
unfolding skip_turns
turns-length zero s = omega arith
turns-length (suc fuel) s = elim (Option-cases (skip_step s)) [
  | inl e ↦ rw (e, skip_turns) (omega arith)
  | inr e ↦ rw (e.1, skip_turns) (omega (arith, step-Shortens s e.0 e.1, turns-length fuel e.0))
]

pub skip_whitespace_and_comments-length :
    (s : Lexer) → length (skip_whitespace_and_comments s).rest ≤ length s.rest
unfolding skip_whitespace_and_comments
skip_whitespace_and_comments-length s = turns-length (length s.rest) s

-- As many turns as there are bytes left are enough to skip all white space and comments: the loop
-- has left by then, at the end of the source or at a byte that starts neither.
pub skip_whitespace_and_comments-skip_step :
    (s : Lexer) → skip_step (skip_whitespace_and_comments s) ≡ none
unfolding skip_whitespace_and_comments
skip_whitespace_and_comments-skip_step s = turns-done (length s.rest) s (omega arith)
