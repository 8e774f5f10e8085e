-- ===== src/Lex/State/Scan.antt =====
-- What the scans of toolchain/lex/lex.cpp pass, and where they stop.
use tinyswift.Prelude.{
  ℕ, zero, suc, Bool, true, false, List, [], ◌∷◌, ◌++◌, drop, take, all, ◌≡◌, refl, ap, Bool-cases,
  inl, inr,
}
use tinyswift.Lex.State.{peek, holds, scan_while}

pub take-drop : (n : ℕ) (xs : List ℕ) → take n xs ++ drop n xs ≡ xs
take-drop zero xs = refl
take-drop (suc n) [] = refl
take-drop (suc n) (x ∷ xs) = ap (λ ys. x ∷ ys) (take-drop n xs)

module _ (p : ℕ → Bool) where
  pub scan_while-passes : (xs : List ℕ) → all p (take (scan_while p xs) xs) ≡ true
  unfolding scan_while
  scan_while-passes [] = refl
  scan_while-passes (x ∷ xs) = elim (Bool-cases (p x)) [
    | inl e ↦ rw e (rw e (scan_while-passes xs))
    | inr e ↦ rw e refl
  ]

  pub scan_while-stops : (xs : List ℕ) → holds p (peek 0 (drop (scan_while p xs) xs)) ≡ false
  unfolding scan_while holds
  scan_while-stops [] = refl
  scan_while-stops (x ∷ xs) = elim (Bool-cases (p x)) [
    | inl e ↦ rw e (scan_while-stops xs)
    | inr e ↦ rw e e
  ]
