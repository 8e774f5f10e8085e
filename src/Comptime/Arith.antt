-- ===== src/Comptime/Arith.antt =====
-- The laws of the `int64_t` operators of toolchain/check/comptime_eval.cpp.
use native.Mathlib.Nat.{div-add-mod, mod-lt, zero-mod}
use tinyswift.Prelude.{
  ℕ, zero, suc, ◌+◌, ◌*◌, ◌%◌, ◌^◌, pos_part, neg_part, sub_ℕ, ◌<◌, true, ℤ, pos, negsuc, ◌+ℤ◌,
  ◌*ℤ◌, ◌≡◌, ◌≢◌, refl, arith,
}
use tinyswift.Comptime.Int64.{in_int64, quotient, remainder, to_bits, of_bits, negated}

-- A number of 64 bits and its two's complement pattern determine one another.
pub of_bits-to_bits :
    (a : ℤ) (w : ℕ)
    → (in_int64 a ≡ true → of_bits (to_bits a) ≡ a) × (w < 2 ^ 64 → to_bits (of_bits w) ≡ w)
unfolding of_bits to_bits in_int64
of_bits-to_bits a w = (λ h. ground arith, λ h. ground arith)

-- The magnitude of a number.
abbrev pub size_of : ℤ → ℕ
size_of a = pos_part a + neg_part a

times_pos : (q b r : ℕ) → pos q *ℤ pos b +ℤ pos r ≡ pos (b * q + r)
unfolding ◌*ℤ◌ ◌+ℤ◌
times_pos q b r = ground arith

times_negsuc : (q b r : ℕ) → negated q *ℤ negsuc b +ℤ pos r ≡ pos (suc b * q + r)
unfolding ◌*ℤ◌ ◌+ℤ◌
times_negsuc zero b r = ground arith
times_negsuc (suc q) b r = ground arith

pos_part-negated : (n : ℕ) → pos_part (negated n) ≡ 0
pos_part-negated zero = refl
pos_part-negated (suc n) = refl

neg_part-negated : (n : ℕ) → neg_part (negated n) ≡ n
neg_part-negated zero = refl
neg_part-negated (suc n) = refl

sub_negated : (m n k : ℕ) → m ≡ 0 → n ≡ k → sub_ℕ m n ≡ negated k
sub_negated m n zero e f = ground arith
sub_negated m n (suc k) e f = ground arith

negated_add : (m n k : ℕ) → m + n ≡ k → negated m +ℤ negated n ≡ negated k
unfolding ◌+ℤ◌
negated_add m n k e =
    sub_negated _ _ k (omega (arith, pos_part-negated m, pos_part-negated n))
      (omega (arith, neg_part-negated m, neg_part-negated n))

neg_times : (q b : ℕ) → negated q *ℤ pos b ≡ negated (b * q)
unfolding ◌*ℤ◌
neg_times zero b = sub_negated _ _ (b * 0) (grind arith) (grind arith)
neg_times (suc q) b = sub_negated _ _ (b * suc q) (grind arith) (grind arith)

pos_times : (q b : ℕ) → pos q *ℤ negsuc b ≡ negated (suc b * q)
unfolding ◌*ℤ◌
pos_times q b = sub_negated _ _ (suc b * q) (grind arith) (grind arith)

neg_times_pos : (q b r : ℕ) → negated q *ℤ pos b +ℤ negated r ≡ negated (b * q + r)
neg_times_pos q b r = rw neg_times (negated_add (b * q) r (b * q + r) refl)

pos_times_negsuc : (q b r : ℕ) → pos q *ℤ negsuc b +ℤ negated r ≡ negated (suc b * q + r)
pos_times_negsuc q b r = rw pos_times (negated_add (suc b * q) r (suc b * q + r) refl)

quotient_times : (a b : ℤ) → quotient a b *ℤ b +ℤ remainder a b ≡ a
unfolding quotient remainder
quotient_times (pos a) (pos b) = rw times_pos (rw (div-add-mod a b))
quotient_times (pos a) (negsuc b) = rw times_negsuc (rw (div-add-mod a (suc b)))
quotient_times (negsuc a) (pos b) = rw neg_times_pos (rw (div-add-mod (suc a) b))
quotient_times (negsuc a) (negsuc b) = rw pos_times_negsuc (rw (div-add-mod (suc a) (suc b)))

size-negated : (n : ℕ) → size_of (negated n) ≡ n
size-negated n = omega (arith, pos_part-negated n, neg_part-negated n)

size-remainder : (a b : ℤ) → b ≢ pos 0 → size_of (remainder a b) < size_of b
unfolding remainder
size-remainder (pos a) (pos zero) h = absurd (h refl)
size-remainder (pos a) (pos (suc b)) h = omega arith
size-remainder (pos a) (negsuc b) h = omega (arith, mod-lt a {m = suc b} (omega arith))
size-remainder (negsuc a) (pos zero) h = absurd (h refl)
size-remainder (negsuc a) (pos (suc b)) h =
    omega (arith, size-negated (suc a % suc b), mod-lt (suc a) {m = suc b} (omega arith))
size-remainder (negsuc a) (negsuc b) h =
    omega (arith, size-negated (suc a % suc b), mod-lt (suc a) {m = suc b} (omega arith))

remainder-nonneg : (a b : ℤ) → neg_part a ≡ 0 → neg_part (remainder a b) ≡ 0
unfolding remainder
remainder-nonneg (pos a) (pos b) h = refl
remainder-nonneg (pos a) (negsuc b) h = refl
remainder-nonneg (negsuc a) b h = absurd (omega arith)

remainder-nonpos : (a b : ℤ) → pos_part a ≡ 0 → pos_part (remainder a b) ≡ 0
unfolding remainder
remainder-nonpos (pos a) (pos b) h = rw h (zero-mod b)
remainder-nonpos (pos a) (negsuc b) h = rw h (zero-mod (suc b))
remainder-nonpos (negsuc a) (pos b) h = pos_part-negated (suc a % b)
remainder-nonpos (negsuc a) (negsuc b) h = pos_part-negated (suc a % suc b)

-- C++ division: the dividend is the quotient times the divisor and the remainder; where the divisor
-- is not 0 the remainder is nearer to 0 than it; and the remainder
-- has no sign but that of the dividend.
pub quotient-remainder :
    (a b : ℤ)
    → (quotient a b *ℤ b +ℤ remainder a b ≡ a)
      × (b ≢ pos 0 → size_of (remainder a b) < size_of b)
      × (neg_part a ≡ 0 → neg_part (remainder a b) ≡ 0)
      × (pos_part a ≡ 0 → pos_part (remainder a b) ≡ 0)
quotient-remainder a b =
    (quotient_times a b, size-remainder a b, remainder-nonneg a b, remainder-nonpos a b)
