-- ===== src/Lex/Brackets/Overrun.antt =====
-- The bit vector of recovery tokens in MatchOpenCloseTokens of toolchain/lex/lex.cpp.
use tinyswift.Prelude.{
  ℕ, zero, suc, ◌≤◌, ◌<◌, true, List, [], ◌∷◌, ◌++◌, set, get_elem?, length, length-append, ◌≡◌,
  refl, arith, Option-cases, inl, inr,
}
use tinyswift.Lex.Tokens.{Token}
use tinyswift.Lex.Brackets.{
  Matching, OpenEntry, set_match, size_for, mark_recovery, recover_opening, recover_openings,
}

length-set :
    (tokens : List Token) (index : ℕ) (t : Token) → length (set tokens index t) ≡ length tokens
length-set [] index t = refl
length-set (x ∷ xs) zero t = refl
length-set (x ∷ xs) (suc index) t = omega (arith, length-set xs index t)

length-set_match :
    (index partner : ℕ) (tokens : List Token)
    → length (set_match index partner tokens) ≡ length tokens
unfolding set_match
length-set_match index partner tokens = elim (Option-cases (get_elem? tokens index)) [
  | inl e ↦ rw (e, set_match) refl
  | inr e ↦ rw (e.1, set_match) (length-set tokens index _)
]

-- The vector is no longer than the list of tokens.
abbrev pub IsSized : Matching → Type 0
IsSized m = m.recovery_size ≤ length m.tokens

size-positive : (size count : ℕ) → 0 < count → 0 < size_for size count
unfolding size_for
size-positive zero count h = h
size-positive (suc size) count h = omega arith

size-bounded : (size count : ℕ) → size ≤ count → size_for size count ≤ count
unfolding size_for
size-bounded zero count h = omega arith
size-bounded (suc size) count h = h

size-kept : (size count : ℕ) → 0 < size → size_for size count ≡ size
unfolding size_for
size-kept zero count h = absurd (omega arith)
size-kept (suc size) count h = refl

length-grown :
    (index partner : ℕ) (tokens : List Token) (t : Token)
    → length (set_match index partner tokens ++ t ∷ []) ≡ suc (length tokens)
length-grown index partner tokens t = omega (
  arith,
  length-append (set_match index partner tokens) (t ∷ []),
  length-set_match index partner tokens,
)

opening-IsSized :
    (source_size : ℕ) (entry : OpenEntry) (m : Matching)
    → IsSized m
    → IsSized (recover_opening source_size entry m)
      × (0 < (recover_opening source_size entry m).recovery_size)
unfolding recover_opening mark_recovery
opening-IsSized source_size entry m h = rw length-grown (
  size-bounded m.recovery_size (suc (length m.tokens)) (omega arith),
  size-positive m.recovery_size (suc (length m.tokens)) (omega arith),
)

openings-IsSized :
    (source_size : ℕ) (entries : List OpenEntry) (m : Matching)
    → IsSized m
    → IsSized (recover_openings source_size entries m)
unfolding recover_openings
openings-IsSized source_size [] m h = h
openings-IsSized source_size (entry ∷ below) m h =
    (opening-IsSized source_size entry _ (openings-IsSized source_size below m h)).0

opening-has_overrun :
    (source_size : ℕ) (entry : OpenEntry) (m : Matching)
    → IsSized m
    → 0 < m.recovery_size
    → (recover_opening source_size entry m).has_overrun ≡ true
unfolding recover_opening mark_recovery
opening-has_overrun source_size entry m h positive =
    rw (length-grown, size-kept _ _ positive) (ground arith)

-- Recovering a second opening symbol that has no partner sets a bit past the end of the vector of
-- recovery tokens: the vector was sized for the first one, and is not resized when the second
-- closing token is added. The same happens to a first one after a closing symbol that has no
-- partner, since the vector has a size by then.
pub recover_openings-has_overrun :
    (source_size : ℕ) (first second : OpenEntry) (below : List OpenEntry) (m : Matching)
    → IsSized m
    → ((recover_openings source_size (first ∷ second ∷ below) m).has_overrun ≡ true)
      × (0 < m.recovery_size → (recover_openings source_size (first ∷ []) m).has_overrun ≡ true)
unfolding recover_openings
recover_openings-has_overrun source_size first second below m h =
    let sized = opening-IsSized source_size second _ (openings-IsSized source_size below m h) in
    (
      opening-has_overrun source_size first _ sized.0 sized.1,
      λ positive. opening-has_overrun source_size first m h positive,
    )
