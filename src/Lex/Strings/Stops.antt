-- ===== src/Lex/Strings/Stops.antt =====
-- The loop over a string literal of toolchain/lex/lex.cpp has fuel enough.
use tinyswift.Prelude.{
  ℕ, zero, suc, ◌+◌, ◌<◌, Bool, true, false, ◌&&◌, List, [], ◌∷◌, if◌then◌else◌, ◌==◌, length, drop,
  ◌≡◌, ◌⊎◌, refl, sym, ◌∙◌, ap, arith, Bool-cases, inl, inr,
}
use mathlib.Core.Path.{subst}
use tinyswift.Lex.State.{LineInfo, peek}
use tinyswift.Lex.Numbers.{is_byte}
use tinyswift.Lex.Progress.{drop-drop}
use tinyswift.Lex.Trivia.Done.{drop-length}
use tinyswift.Lex.Strings.{
  StringStep, takes, closes, breaks, hashes_match, escape_step, backslash_step, string_step,
  multiline_step, three_quotes, StringEnd, begin_line, string_scan,
}

-- A step that goes on passes a byte.
abbrev Moves : StringStep → Type 0
Moves (takes _ w _) = 0 < w
Moves _ = Unit

escape_step-Moves : (b : Bool) (n : ℕ) (rest : List ℕ) → Moves (escape_step b n rest)
unfolding escape_step
escape_step-Moves b n [] = omega arith
escape_step-Moves b n (c ∷ rest) = elim (Bool-cases (b && c == b'(')) [
  | inl e ↦ rw e (omega arith)
  | inr e ↦ rw e (omega arith)
]

backslash_step-Moves : (b : Bool) (n : ℕ) (rest : List ℕ) → Moves (backslash_step b n rest)
unfolding backslash_step
backslash_step-Moves b n rest = elim (Bool-cases (hashes_match n rest)) [
  | inl e ↦ rw e (escape_step-Moves b n (drop n rest))
  | inr e ↦ rw e (omega arith)
]

quote-Moves :
    (b : Bool) (w k : ℕ) (bytes : List ℕ)
    → Moves (if b then closes w else takes bytes (suc k) false)
quote-Moves true w k bytes = tt
quote-Moves false w k bytes = omega arith

string_step-Moves : (n : ℕ) (rest : List ℕ) → Moves (string_step n rest)
unfolding string_step
string_step-Moves n [] = tt
string_step-Moves n (c ∷ rest) = elim (Bool-cases (c == b'"')) [
  | inl e ↦ rw e (quote-Moves (hashes_match n rest) (suc n) 0 (c ∷ []))
  | inr e ↦ elim (Bool-cases (c == b'\\')) [
    | inl f ↦ rw (e, f) (backslash_step-Moves true n rest)
    | inr f ↦ elim (Bool-cases (c == 10)) [
      | inl g ↦ rw (e, f, g) tt
      | inr g ↦ elim (Bool-cases (c == 13)) [
        | inl k ↦ rw (e, f, g, k) tt
        | inr k ↦ rw (e, f, g, k) (omega arith)
      ]
    ]
  ]
]

break-Moves : (b : Bool) (bytes : List ℕ) → Moves (takes bytes (if b then 2 else 1) true)
break-Moves true bytes = omega arith
break-Moves false bytes = omega arith

multiline_step-Moves : (n : ℕ) (rest : List ℕ) → Moves (multiline_step n rest)
unfolding multiline_step
multiline_step-Moves n [] = tt
multiline_step-Moves n (c ∷ rest) =
    elim (Bool-cases (c == b'"' && (is_byte b'"' (peek 0 rest) && is_byte b'"' (peek 1 rest)))) [
      | inl e ↦ rw e (quote-Moves (hashes_match n (drop 2 rest)) (3 + n) 2 three_quotes)
      | inr e ↦ elim (Bool-cases (c == 10)) [
        | inl f ↦ rw (e, f) (omega arith)
        | inr f ↦ elim (Bool-cases (c == 13)) [
          | inl g ↦ rw (e, f, g) (break-Moves (is_byte 10 (peek 0 rest)) (10 ∷ []))
          | inr g ↦ elim (Bool-cases (c == b'\\')) [
            | inl k ↦ rw (e, f, g, k) (backslash_step-Moves false n rest)
            | inr k ↦ rw (e, f, g, k) (omega arith)
          ]
        ]
      ]
    ]

-- The kinds of step, with the equation.
Step-cases :
    (s : StringStep)
    → (s ≡ breaks)
      ⊎ (((w : ℕ) × (s ≡ closes w))
          ⊎ ((bytes : List ℕ) × ((w : ℕ) × ((b : Bool) × (s ≡ takes bytes w b)))))
Step-cases breaks = inl refl
Step-cases (closes w) = inr (inl (w, refl))
Step-cases (takes bytes w b) = inr (inr (bytes, (w, (b, refl))))

drop-shrinks :
    (w : ℕ) (rest : List ℕ) → 0 < w → 0 < length rest → length (drop w rest) < length rest
drop-shrinks zero rest h k = absurd (omega arith)
drop-shrinks (suc w) [] h k = absurd (omega arith)
drop-shrinks (suc w) (c ∷ rest) h k = omega (arith, drop-length w rest)

-- The scan ended by itself: with a delimiter, or where no step is possible.
abbrev pub StopsBy : (List ℕ → StringStep) → List ℕ → StringEnd → Type 0
StopsBy step rest end = (end.is_closed ≡ true) ⊎ (step (drop end.width rest) ≡ breaks)

module _ (step : List ℕ → StringStep) (moves : (rest : List ℕ) → Moves (step rest))
    (ends : step [] ≡ breaks) where
  nonempty :
      (rest bytes : List ℕ) (w : ℕ) (b : Bool) → step rest ≡ takes bytes w b → 0 < length rest
  nonempty [] bytes w b e = absurd (cc (e, ends))
  nonempty (c ∷ rest) bytes w b e = omega arith

  string_scan-StopsBy :
      (fuel at : ℕ) (rest : List ℕ) (lines : List LineInfo)
      → length rest < fuel
      → StopsBy step rest (string_scan step fuel at rest lines)
  unfolding string_scan
  string_scan-StopsBy zero at rest lines h = absurd (omega arith)
  string_scan-StopsBy (suc fuel) at rest lines h = elim (Step-cases (step rest)) [
    | inl e ↦ rw (e, string_scan) (inr e)
    | inr (inl e) ↦ rw (e.1, string_scan) (inl refl)
    | inr (inr e) ↦
        (let w = e.1.0 in
          let b = e.1.1.0 in
          let eq = e.1.1.1 in
          let shorter =
            drop-shrinks w rest (subst Moves eq (moves rest)) (nonempty rest e.0 w b eq) in
          let later = begin_line b (at + w) lines in
          let ih = string_scan-StopsBy fuel (at + w) (drop w rest) later (omega arith) in
          let width = (string_scan step fuel (at + w) (drop w rest) later).width in
          rw (eq, string_scan)
            (elim ih [
              | inl p ↦ inl p
              | inr p ↦ inr (ap step (sym (drop-drop w width (w + width) rest refl)) ∙ p)
            ]))
  ]

string_ends : (n : ℕ) → string_step n [] ≡ breaks
unfolding string_step
string_ends n = refl

multiline_ends : (n : ℕ) → multiline_step n [] ≡ breaks
unfolding multiline_step
multiline_ends n = refl

-- With more fuel than there are bytes, the loop over a literal, on one line or on several, is not
-- cut short: it ends at its closing delimiter, or at a byte at which the literal is unterminated.
pub string_scan-ends :
    (hash_count fuel at : ℕ) (rest : List ℕ) (lines : List LineInfo)
    → length rest < fuel
    → StopsBy
        (string_step hash_count)
        rest
        (string_scan (string_step hash_count) fuel at rest lines)
      × StopsBy
          (multiline_step hash_count)
          rest
          (string_scan (multiline_step hash_count) fuel at rest lines)
string_scan-ends n fuel at rest lines h = (
  string_scan-StopsBy (string_step n) (string_step-Moves n) (string_ends n) fuel at rest lines h,
  string_scan-StopsBy (multiline_step n) (multiline_step-Moves n) (multiline_ends n) fuel at rest
      lines h,
)
