-- ===== src/Runtime/Hashes.antt =====
-- The hashes and the equality callbacks that the generated code gives to the hash map of
-- runtime/tinyswift_runtime.c for integer keys.
use Prim.Native.Nat.{bit_xor}
use tinyswift.Prelude.{
  ℕ, ◌+◌, ◌*◌, ◌/◌, ◌%◌, ◌^◌, Bool, true, false, ◌&&◌, List, [], ◌∷◌, ◌==◌, ◌≡◌, refl, arith,
}
use tinyswift.Runtime.HashMap.{Key}

-- `h ^= h >> 33`
abbrev fold_high : ℕ → ℕ
fold_high h = bit_xor h (h / 2 ^ 33)

unfoldable pub int_hash : ℕ → ℕ
int_hash x =
    let h₁ = fold_high x * 18397679294719823053 % 2 ^ 64 in
    let h₂ = fold_high h₁ * 14181476777654086739 % 2 ^ 64 in fold_high h₂

-- djb2 from a hash on, over the bytes before the terminator.
unfoldable pub string_hash_from : ℕ → List ℕ → ℕ
string_hash_from h [] = h
string_hash_from h (c ∷ cs) = string_hash_from ((h * 32 % 2 ^ 64 + h + c) % 2 ^ 64) cs

unfoldable pub string_hash : List ℕ → ℕ
unfolding string_hash_from
string_hash cs = string_hash_from 5381 cs

-- `memcmp(a, b, 8) == 0` on the bytes of the slots.
unfoldable pub eq_int : Key → Key → Bool
eq_int [] [] = true
eq_int (a ∷ as₁) (b ∷ bs) = a == b && eq_int as₁ bs
eq_int _ _ = false

-- An `int64_t` is stored with its lowest byte first.
unfoldable pub of_bytes : Key → ℕ
of_bytes [] = 0
of_bytes (b ∷ bs) = b + 256 * of_bytes bs

abbrev pub hash_of_key : Key → ℕ
hash_of_key k = int_hash (of_bytes k)

pub eq_int_refl : (a : Key) → eq_int a a ≡ true
unfolding eq_int
eq_int_refl [] = refl
eq_int_refl (a ∷ as₁) = ground (arith, eq_int_refl as₁)

pub eq_int-same : (a b : Key) → eq_int a b ≡ true → a ≡ b
unfolding eq_int
eq_int-same [] [] e = refl
eq_int-same [] (b ∷ bs) e = ground arith
eq_int-same (a ∷ as₁) [] e = ground arith
eq_int-same (a ∷ as₁) (b ∷ bs) e = ground (arith, eq_int-same as₁ bs)
