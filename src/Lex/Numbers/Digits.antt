-- ===== src/Lex/Numbers/Digits.antt =====
-- The digits from which toolchain/lex/lex.cpp parses an integer literal.
use tinyswift.Prelude.{
  ℕ, suc, Bool, true, false, ◌||◌, List, [], ◌∷◌, none, if◌then◌else◌, ◌==◌, drop, take, all,
  is_empty, ◌≡◌, refl, arith, Bool-cases, inl, inr,
}
use tinyswift.Lex.Characters.{in_range, is_decimal_digit, is_hex_digit}
use tinyswift.Lex.Tokens.{Payload, int_payload}
use tinyswift.Lex.State.{peek, holds, scan_while}
use tinyswift.Lex.Numbers.{
  is_octal_digit, is_binary_digit, or_underscore, has_prefix, strip_underscores, integer_payload,
}

-- What a digit of a radix is.
abbrev pub digit_of : ℕ → ℕ → Bool
digit_of radix c =
    if radix == 16
    then is_hex_digit c
    else if radix == 8
    then is_octal_digit c
    else if radix == 2
    then is_binary_digit c
    else is_decimal_digit c

-- An integer literal has digits, and all are digits of its radix, which is one of four.
abbrev pub HasDigits : Payload → Type 0
HasDigits (int_payload radix digits) =
    ((radix == 2 || radix == 8 || radix == 10 || radix == 16) ≡ true)
    × (is_empty digits ≡ false)
    × (all (digit_of radix) digits ≡ true)
HasDigits _ = Unit

module _ (digit : ℕ → Bool) where
  pub strip_underscores-digits :
      (xs : List ℕ)
      → all digit (strip_underscores (take (scan_while (or_underscore digit) xs) xs)) ≡ true
  unfolding strip_underscores scan_while or_underscore
  strip_underscores-digits [] = refl
  strip_underscores-digits (x ∷ xs) = ground (arith, strip_underscores-digits xs)

  pub strip_underscores_nonempty :
      (xs : List ℕ)
      → digit b'_' ≡ false
      → holds digit (peek 0 xs) ≡ true
      → is_empty (strip_underscores (take (scan_while (or_underscore digit) xs) xs)) ≡ false
  unfolding strip_underscores scan_while or_underscore holds
  strip_underscores_nonempty [] apart h = cc h
  strip_underscores_nonempty (x ∷ xs) apart h = elim (Bool-cases (x == b'_')) [
    | inl e ↦ (let same : x ≡ b'_' = ground arith in absurd (cc (apart, h, same)))
    | inr e ↦ rw (h, e) refl
  ]

strip_underscores-prefix :
    (a b n : ℕ) (rest : List ℕ)
    → (a == b'_') ≡ false
    → (b == b'_') ≡ false
    → strip_underscores (take (suc (suc n)) (a ∷ b ∷ rest))
      ≡ a ∷ b ∷ strip_underscores (take n rest)
unfolding strip_underscores
strip_underscores-prefix a b n rest ha hb = rw ha (rw hb refl)

pub hex-payload :
    (a b : ℕ) (digits : List ℕ)
    → has_prefix b'x' b'X' (a ∷ b ∷ []) ≡ true
    → integer_payload (a ∷ b ∷ digits) ≡ int_payload 16 digits
unfolding integer_payload has_prefix holds
hex-payload a b digits p = ground arith

pub octal-payload :
    (a b : ℕ) (digits : List ℕ)
    → has_prefix b'o' b'O' (a ∷ b ∷ []) ≡ true
    → integer_payload (a ∷ b ∷ digits) ≡ int_payload 8 digits
unfolding integer_payload has_prefix holds
octal-payload a b digits p = ground arith

pub binary-payload :
    (a b : ℕ) (digits : List ℕ)
    → has_prefix b'b' b'B' (a ∷ b ∷ []) ≡ true
    → integer_payload (a ∷ b ∷ digits) ≡ int_payload 2 digits
unfolding integer_payload has_prefix holds
binary-payload a b digits p = ground arith

pub decimal-payload :
    (digits : List ℕ)
    → all is_decimal_digit digits ≡ true
    → integer_payload digits ≡ int_payload 10 digits
unfolding integer_payload has_prefix holds is_decimal_digit in_range
decimal-payload [] h = refl
decimal-payload (a ∷ []) h = ground arith
decimal-payload (a ∷ b ∷ digits) h = ground arith

prefix-bytes :
    (lower upper a b : ℕ)
    → (lower == b'_') ≡ false
    → (upper == b'_') ≡ false
    → has_prefix lower upper (a ∷ b ∷ []) ≡ true
    → ((a == b'_') ≡ false) × ((b == b'_') ≡ false)
unfolding has_prefix holds
prefix-bytes lower upper a b hl hu p = (ground arith, ground arith)

no_digit : (digit : ℕ → Bool) → holds digit none ≡ true → ⊥
unfolding holds
no_digit digit h = cc h

prefix-shape :
    (lower upper a b : ℕ) (rest : List ℕ)
    → has_prefix lower upper (a ∷ b ∷ rest) ≡ true
    → has_prefix lower upper (a ∷ b ∷ []) ≡ true
unfolding has_prefix
prefix-shape lower upper a b rest h = h

module _ (lower upper radix : ℕ)
    (payload : (a b : ℕ) (digits : List ℕ)
      → has_prefix lower upper (a ∷ b ∷ []) ≡ true
      → integer_payload (a ∷ b ∷ digits) ≡ int_payload radix digits)
    (known : (radix == 2 || radix == 8 || radix == 10 || radix == 16) ≡ true)
    (lower_apart : (lower == b'_') ≡ false) (upper_apart : (upper == b'_') ≡ false)
    (apart : digit_of radix b'_' ≡ false) where
  pub prefixed-HasDigits :
      (rest : List ℕ)
      → has_prefix lower upper rest ≡ true
      → holds (digit_of radix) (peek 2 rest) ≡ true
      → HasDigits (
          integer_payload (
            strip_underscores
              (take (suc (suc (scan_while (or_underscore (digit_of radix)) (drop 2 rest)))) rest)))
  prefixed-HasDigits [] p h = absurd (no_digit (digit_of radix) h)
  prefixed-HasDigits (a ∷ []) p h = absurd (no_digit (digit_of radix) h)
  prefixed-HasDigits (a ∷ b ∷ rest) p h =
      let bytes =
        prefix-bytes lower upper a b lower_apart upper_apart
          (prefix-shape lower upper a b rest p) in
      rw
        (
          strip_underscores-prefix a b _ rest bytes.0 bytes.1,
          payload a b _ (prefix-shape lower upper a b rest p),
        )
        (
          known,
          strip_underscores_nonempty (digit_of radix) rest apart h,
          strip_underscores-digits (digit_of radix) rest,
        )
