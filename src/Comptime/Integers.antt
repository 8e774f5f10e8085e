-- ===== src/Comptime/Integers.antt =====
-- The integer operators of `EvalExpr` in toolchain/check/comptime_eval.cpp against the numbers that
-- they stand for.
use native.Mathlib.Nat.{mod-lt}
use tinyswift.Prelude.{
  ℕ, suc, ◌+◌, ◌*◌, ◌%◌, ◌^◌, ◌<◌, true, ℤ, pos, negsuc, ◌+ℤ◌, ◌-ℤ◌, ◌*ℤ◌, pos_part, neg_part,
  id_eq, id_eq_iff, ltb, if◌then◌else◌, ◌⊎◌, inl, inr, ◌≡◌, ◌≢◌, refl, arith, Bool-cases,
}
use tinyswift.Comptime.Value.{int, Host, is_numeric, is_float, to_int64}
use tinyswift.Comptime.State.{division_by_zero}
use tinyswift.Comptime.Int64.{
  in_int64, checked, add64, sub64, mul64, neg64, div64, rem64, quotient, remainder,
  defined_remainder, shl64, not64, of_bits, to_bits,
}
use tinyswift.Comptime.Operators.{
  Computed, value, fault, undefined_result, of_int, apply_infix, apply_prefix, negate, complement,
  string_operator, numeric_operator, integer_operator, on_integers, on_order, on_bits,
}
use tinyswift.Comptime.Arith.{quotient-remainder, size_of, of_bits-to_bits}

-- A number as a result: undefined where it is no int64_t.
abbrev pub exact : ℤ → Computed
exact c = if in_int64 c then value (int c) else undefined_result

-- The two results of a division: both are faults where the divisor is 0; otherwise they are a
-- quotient and a remainder that make up the dividend, the remainder nearer to 0 than the divisor and
-- not of the other sign than the dividend, and both undefined where the quotient is no int64_t.
abbrev pub Divides : ℤ → ℤ → Computed → Computed → Type 0
Divides a b x y =
    ((b ≡ pos 0) × (x ≡ fault division_by_zero) × (y ≡ fault division_by_zero))
    ⊎ ((b ≢ pos 0)
        × (q : ℤ) × (r : ℤ) × (q *ℤ b +ℤ r ≡ a)
        × (size_of r < size_of b)
        × (pos_part r * neg_part a + neg_part r * pos_part a ≡ 0)
        × (x ≡ exact q)
        × (y ≡ (if in_int64 q then value (int r) else undefined_result)))

-- A shift to the left by a distance: the bits moved, those beyond the 64th lost.
abbrev pub Shifted : ℤ → ℕ → Computed → Type 0
Shifted a k x =
    ((64 < suc k) × (x ≡ undefined_result))
    ⊎ ((k < 64)
        × (c : ℤ) × (to_bits c ≡ to_bits a * 2 ^ k % 2 ^ 64)
        × (in_int64 c ≡ true)
        × (x ≡ value (int c)))

checked-exact : (c : ℤ) → of_int (checked c) ≡ exact c
unfolding of_int checked
checked-exact c = elim (Bool-cases (in_int64 c)) [ inl b ↦ rw b | inr b ↦ rw b ]

remainder_exact :
    (a b : ℤ)
    → of_int (rem64 a b)
      ≡ (if in_int64 (quotient a b) then value (int (remainder a b)) else undefined_result)
unfolding of_int rem64 div64 checked defined_remainder
remainder_exact a b = elim (Bool-cases (in_int64 (quotient a b))) [ inl e ↦ rw e | inr e ↦ rw e ]

same_sign :
    (a r : ℤ)
    → (neg_part a ≡ 0 → neg_part r ≡ 0)
    → (pos_part a ≡ 0 → pos_part r ≡ 0)
    → pos_part r * neg_part a + neg_part r * pos_part a ≡ 0
same_sign (pos n) r f g = rw (f refl) (grind arith)
same_sign (negsuc n) r f g = rw (g refl) (grind arith)

of_bits_fits : (w : ℕ) → in_int64 (of_bits w) ≡ true
unfolding of_bits in_int64
of_bits_fits w = ground arith

not64_sum : (a : ℤ) → not64 a +ℤ a ≡ negsuc 0
unfolding not64 ◌+ℤ◌
not64_sum (pos n) = ground arith
not64_sum (negsuc n) = ground arith

module _ (h : Host) (a b : ℤ) where
  divide-Divides :
      Divides a b (apply_infix h "/" (int a) (int b)) (apply_infix h "%" (int a) (int b))
  unfolding apply_infix string_operator numeric_operator integer_operator on_integers is_numeric
      is_float to_int64 div64
  divide-Divides = elim (Bool-cases (id_eq b (pos 0))) [
    | inl e ↦ rw e (inl ((id_eq_iff b (pos 0)).0 e, refl, refl))
    | inr e ↦
        let (sum, near, nonneg, nonpos) = quotient-remainder a b in
        let nonzero : b ≢ pos 0 = λ z. let t = (id_eq_iff b (pos 0)).1 z in ground (arith, t, e) in
        rw e (
          inr (
            nonzero,
            quotient a b,
            remainder a b,
            sum,
            near nonzero,
            same_sign a (remainder a b) nonneg nonpos,
            checked-exact (quotient a b),
            remainder_exact a b,
          ))
  ]

  shift-Shifted : (k : ℕ) → Shifted a k (apply_infix h "<<" (int a) (int (pos k)))
  unfolding apply_infix string_operator numeric_operator integer_operator on_integers on_order
      on_bits is_numeric is_float to_int64 shl64 of_int
  shift-Shifted k = elim (Bool-cases (ltb k 64)) [
    | inl e ↦
        let w = to_bits a * 2 ^ k % 2 ^ 64 in
        let less : w < 2 ^ 64 = mod-lt (to_bits a * 2 ^ k) (omega arith) in
        rw e (inr (ground arith, of_bits w, (of_bits-to_bits a w).1 less, of_bits_fits w, refl))
    | inr e ↦ rw e (inl (ground arith, refl))
  ]

  complement-minus_one :
      (c : ℤ) × (apply_prefix h "~" (int a) ≡ value (int c)) × (c +ℤ a ≡ negsuc 0)
  unfolding apply_prefix complement
  complement-minus_one = (not64 a, refl, not64_sum a)

-- The integer operators give the numbers that they mean, or nothing defined where those are no
-- int64_t. A sum, a difference, a product and a negation are those of the numbers. A division by 0
-- is a fault for both `/` and `%`; any other gives a quotient and a remainder that make up the
-- dividend, the remainder nearer to 0 than the divisor and not of the other sign than the dividend.
-- A shift to the left moves the 64 bits, and is undefined from a distance of 64 on; and a number
-- and its complement add up to -1.
pub apply_infix-Integers :
    (h : Host) (a b : ℤ) (k : ℕ)
    → (apply_infix h "+" (int a) (int b) ≡ exact (a +ℤ b))
      × (apply_infix h "-" (int a) (int b) ≡ exact (a -ℤ b))
      × (apply_infix h "*" (int a) (int b) ≡ exact (a *ℤ b))
      × Divides a b (apply_infix h "/" (int a) (int b)) (apply_infix h "%" (int a) (int b))
      × Shifted a k (apply_infix h "<<" (int a) (int (pos k)))
      × (apply_prefix h "-" (int a) ≡ exact (pos 0 -ℤ a))
      × ((c : ℤ) × (apply_prefix h "~" (int a) ≡ value (int c)) × (c +ℤ a ≡ negsuc 0))
unfolding apply_infix string_operator numeric_operator integer_operator on_integers is_numeric
    is_float to_int64 add64 sub64 mul64 apply_prefix negate neg64
apply_infix-Integers h a b k = (
  checked-exact (a +ℤ b),
  checked-exact (a -ℤ b),
  checked-exact (a *ℤ b),
  divide-Divides h a b,
  shift-Shifted h a b k,
  checked-exact (pos 0 -ℤ a),
  complement-minus_one h a b,
)
