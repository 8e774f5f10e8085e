-- ===== src/Prelude/Ids.antt =====
-- Signed identifiers (`int32_t`, where a negative number is no identifier), and sets and maps
-- keyed by them, as lists in which the newest entry stands first.
use Prim.Native.Nat.{ℕ}
use mathlib.Core.Path.{◌≡◌, refl}
use mathlib.Core.Logic.{◌↔◌}
use mathlib.Core.Bool.{Bool, true, false, ◌||◌}
use mathlib.Core.List.{List, [], ◌∷◌, ◌++◌}
use mathlib.Core.Option.{Option, none, some}
use native.Mathlib.Omega.{arith}
use tinyswift.Prelude.Tests.{◌==◌, if◌then◌else◌}

-- `negsuc n` is -(n + 1).
pub data ℤ : Type 0 where
  pos : ℕ → ℤ
  negsuc : ℕ → ℤ

unfoldable pub id_eq : ℤ → ℤ → Bool
id_eq (pos a) (pos b) = a == b
id_eq (negsuc a) (negsuc b) = a == b
id_eq (pos a) (negsuc b) = false
id_eq (negsuc a) (pos b) = false

pub id_eq_iff : (a b : ℤ) → (id_eq a b ≡ true) ↔ (a ≡ b)
unfolding id_eq
id_eq_iff a b = ground arith

pub id_eq_refl : (a : ℤ) → id_eq a a ≡ true
id_eq_refl a = (id_eq_iff a a).1 refl

-- `id >= 0`
abbrev pub is_nonneg : ℤ → Bool
is_nonneg (pos _) = true
is_nonneg (negsuc _) = false

-- DenseSet::count
abbrev pub mem_id : ℤ → List ℤ → Bool
mem_id a [] = false
mem_id a (b ∷ bs) = id_eq a b || mem_id a bs

pub mem_id-append : (a : ℤ) (xs ys : List ℤ) → mem_id a (xs ++ ys) ≡ (mem_id a xs || mem_id a ys)
mem_id-append a [] ys = refl
mem_id-append a (x ∷ xs) ys = ground (arith, mem_id-append a xs ys)

-- No identifier occurs twice, and none occurs in `seen`.
abbrev pub Fresh : List ℤ → List ℤ → Type 0
Fresh seen [] = Unit
Fresh seen (a ∷ rest) = (mem_id a seen ≡ false) × Fresh (a ∷ seen) rest

module _ {ℓ} {V : Type ℓ} where
  -- DenseMap::find
  abbrev pub lookup_id : ℤ → List (ℤ × V) → Option V
  lookup_id a [] = none
  lookup_id a ((b, v) ∷ m) = if id_eq a b then some v else lookup_id a m

  abbrev pub has_id : ℤ → List (ℤ × V) → Bool
  has_id a [] = false
  has_id a ((b, v) ∷ m) = id_eq a b || has_id a m

-- The set after the insertion of each identifier of a list, in order.
abbrev pub push_ids : List ℤ → List ℤ → List ℤ
push_ids [] seen = seen
push_ids (a ∷ rest) seen = push_ids rest (a ∷ seen)

pub Fresh-append :
    (xs ys seen : List ℤ) → Fresh seen (xs ++ ys) ↔ (Fresh seen xs × Fresh (push_ids xs seen) ys)
Fresh-append [] ys seen = (λ h. (tt, h), λ h. h.1)
Fresh-append (x ∷ xs) ys seen =
    let ih = Fresh-append xs ys (x ∷ seen) in
    (λ h. let r = ih.0 h.1 in ((h.0, r.0), r.1), λ h. (h.0.0, ih.1 (h.0.1, h.1)))

pub push_ids-append :
    (xs ys seen : List ℤ) → push_ids (xs ++ ys) seen ≡ push_ids ys (push_ids xs seen)
push_ids-append [] ys seen = refl
push_ids-append (x ∷ xs) ys seen = push_ids-append xs ys (x ∷ seen)

-- The second list is the first with some entries left out.
pub data Subseq : List ℤ → List ℤ → Type 0 where
  done : Subseq [] []
  keep : {xs ys : List ℤ} (a : ℤ) → Subseq xs ys → Subseq (a ∷ xs) (a ∷ ys)
  skip : {xs ys : List ℤ} (a : ℤ) → Subseq xs ys → Subseq (a ∷ xs) ys

pub Subseq-refl : (xs : List ℤ) → Subseq xs xs
Subseq-refl [] = done
Subseq-refl (a ∷ xs) = keep a (Subseq-refl xs)

pub Subseq-append :
    {xs ys zs ws : List ℤ} → Subseq xs ys → Subseq zs ws → Subseq (xs ++ zs) (ys ++ ws)
Subseq-append done t = t
Subseq-append (keep a s) t = keep a (Subseq-append s t)
Subseq-append (skip a s) t = skip a (Subseq-append s t)

-- Every member of the first set is one of the second.
abbrev pub SubsetIds : List ℤ → List ℤ → Type 0
SubsetIds xs ys = (a : ℤ) → mem_id a xs ≡ true → mem_id a ys ≡ true

pub Fresh-subset : (seen less xs : List ℤ) → SubsetIds less seen → Fresh seen xs → Fresh less xs
Fresh-subset seen less [] sub h = tt
Fresh-subset seen less (x ∷ xs) sub h = (
  ground (arith, sub x),
  Fresh-subset (x ∷ seen) (x ∷ less) xs (λ b e. ground (arith, sub b)) h.1,
)

pub Fresh-Subseq : {xs ys : List ℤ} (seen : List ℤ) → Subseq xs ys → Fresh seen xs → Fresh seen ys
Fresh-Subseq seen done h = tt
Fresh-Subseq seen (keep a s) h = (h.0, Fresh-Subseq (a ∷ seen) s h.1)
Fresh-Subseq {ys} seen (skip a s) h =
    Fresh-subset (a ∷ seen) seen ys (λ b e. ground arith) (Fresh-Subseq (a ∷ seen) s h.1)

-- An identifier in front, where it is one.
abbrev pub cons_id : ℤ → List ℤ → List ℤ
cons_id (pos n) rest = pos n ∷ rest
cons_id (negsuc n) rest = rest

pub Subseq-cons_id : {xs ys : List ℤ} (a : ℤ) → Subseq xs ys → Subseq (cons_id a xs) (cons_id a ys)
Subseq-cons_id (pos n) s = keep (pos n) s
Subseq-cons_id (negsuc n) s = s

pub Subseq-skip_id : {xs ys : List ℤ} (a : ℤ) → Subseq xs ys → Subseq (cons_id a xs) ys
Subseq-skip_id (pos n) s = skip (pos n) s
Subseq-skip_id (negsuc n) s = s
