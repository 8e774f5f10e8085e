-- ===== src/Runtime/DynArray/Elements.antt =====
-- The elements of a dynamic array of runtime/tinyswift_runtime.c as a list, and its buffer under the
-- stores and moves of the operations.
use tinyswift.Prelude.{
  ℕ, zero, suc, ◌+◌, ◌<◌, ◌≤◌, Bool, true, Option, none, some, List, [], ◌∷◌, ◌++◌, ◌≡◌, ◌≢◌, refl,
  ◌∙◌, ap, arith, get_elem?, if◌then◌else◌, Bool-cases, inl, inr, leb,
}
use tinyswift.Runtime.DynArray.{DynArray, store, shift_up, new_capacity, grow, put_last, put_at}

module _ {V : Type 0} where
  -- The `n` elements from a position on.
  abbrev pub elements_from : (ℕ → V) → ℕ → ℕ → List V
  elements_from d b zero = []
  elements_from d b (suc n) = d b ∷ elements_from d (suc b) n

  abbrev pub elements : DynArray V → List V
  elements a = elements_from a.data_at 0 a.count

  -- The operations on lists; out of range they change nothing, or give none.
  abbrev pub insert_at : ℕ → V → List V → List V
  insert_at zero x xs = x ∷ xs
  insert_at (suc i) x [] = []
  insert_at (suc i) x (y ∷ ys) = y ∷ insert_at i x ys

  abbrev pub remove_nth : ℕ → List V → List V
  remove_nth i [] = []
  remove_nth zero (y ∷ ys) = ys
  remove_nth (suc i) (y ∷ ys) = y ∷ remove_nth i ys

  abbrev pub set_nth : ℕ → V → List V → List V
  set_nth i x [] = []
  set_nth zero x (y ∷ ys) = x ∷ ys
  set_nth (suc i) x (y ∷ ys) = y ∷ set_nth i x ys

  abbrev pub drop_last : List V → List V
  drop_last [] = []
  drop_last (y ∷ []) = []
  drop_last (y ∷ z ∷ zs) = y ∷ drop_last (z ∷ zs)

  -- Two buffers, the second read `s` places higher, that agree on the elements.
  pub elements_agree :
      (d e : ℕ → V) (b c n : ℕ)
      → ((j : ℕ) → j < n → d (b + j) ≡ e (c + j))
      → elements_from d b n ≡ elements_from e c n
  elements_agree d e b c zero h = refl
  elements_agree d e b c (suc n) h =
      let q : d b ≡ e c = ap d (omega arith) ∙ h 0 (omega arith) ∙ ap e (omega arith) in
      let r =
        elements_agree d e (suc b) (suc c) n
          λ j p. ap d (omega arith) ∙ h (suc j) (omega arith) ∙ ap e (omega arith) in
      rw q (rw r)

  pub elements_insert :
      (d e : ℕ → V) (b i n : ℕ) (x : V)
      → i ≤ n
      → ((j : ℕ) → j < i → e (b + j) ≡ d (b + j))
      → e (b + i) ≡ x
      → ((j : ℕ) → i ≤ j → j < n → e (suc (b + j)) ≡ d (b + j))
      → elements_from e b (suc n) ≡ insert_at i x (elements_from d b n)
  elements_insert d e b zero n x p low here high =
      let q : e b ≡ x = ap e (omega arith) ∙ here in
      let r =
        elements_agree e d (suc b) b n (λ j less. ap e (omega arith) ∙ high j (omega arith) less) in
      rw q (rw r)
  elements_insert d e b (suc i) zero x p low here high = absurd (omega arith)
  elements_insert d e b (suc i) (suc n) x p low here high =
      let q : e b ≡ d b = ap e (omega arith) ∙ low 0 (omega arith) ∙ ap d (omega arith) in
      let r =
        elements_insert d e (suc b) i n x (omega arith)
          (λ j less. ap e (omega arith) ∙ low (suc j) (omega arith) ∙ ap d (omega arith))
          (ap e (omega arith) ∙ here)
          (λ j le less.
            ap e (omega arith) ∙ high (suc j) (omega arith) (omega arith) ∙ ap d (omega arith)) in
      rw q (rw r)

  pub elements_remove :
      (d e : ℕ → V) (b i n : ℕ)
      → i ≤ n
      → ((j : ℕ) → j < i → e (b + j) ≡ d (b + j))
      → ((j : ℕ) → i ≤ j → j < n → e (b + j) ≡ d (suc (b + j)))
      → elements_from e b n ≡ remove_nth i (elements_from d b (suc n))
  elements_remove d e b zero n p low high =
      elements_agree e d b (suc b) n (λ j less. high j (omega arith) less ∙ ap d (omega arith))
  elements_remove d e b (suc i) zero p low high = absurd (omega arith)
  elements_remove d e b (suc i) (suc n) p low high =
      let q : e b ≡ d b = ap e (omega arith) ∙ low 0 (omega arith) ∙ ap d (omega arith) in
      let r =
        elements_remove d e (suc b) i n (omega arith)
          (λ j less. ap e (omega arith) ∙ low (suc j) (omega arith) ∙ ap d (omega arith))
          (λ j le less.
            ap e (omega arith) ∙ high (suc j) (omega arith) (omega arith) ∙ ap d (omega arith)) in
      rw q (rw r)

  -- Beyond the end nothing changes.
  pub insert_beyond :
      (d : ℕ → V) (b i n : ℕ) (x : V)
      → n < i
      → insert_at i x (elements_from d b n) ≡ elements_from d b n
  insert_beyond d b zero n x p = absurd (omega arith)
  insert_beyond d b (suc i) zero x p = refl
  insert_beyond d b (suc i) (suc n) x p = rw (insert_beyond d (suc b) i n x (omega arith))

  pub remove_beyond :
      (d : ℕ → V) (b i n : ℕ) → n ≤ i → remove_nth i (elements_from d b n) ≡ elements_from d b n
  remove_beyond d b i zero p = refl
  remove_beyond d b zero (suc n) p = absurd (omega arith)
  remove_beyond d b (suc i) (suc n) p = rw (remove_beyond d (suc b) i n (omega arith))

  insert_end :
      (d : ℕ → V) (b n : ℕ) (x : V)
      → insert_at n x (elements_from d b n) ≡ elements_from d b n ++ x ∷ []
  insert_end d b zero x = refl
  insert_end d b (suc n) x = rw (insert_end d (suc b) n x)

  pub elements_last :
      (d : ℕ → V) (b n : ℕ) → elements_from d b n ≡ drop_last (elements_from d b (suc n))
  elements_last d b zero = refl
  elements_last d b (suc n) = ap (λ l. d b ∷ l) (elements_last d (suc b) n)

  pub elements_get :
      (d : ℕ → V) (b i n : ℕ)
      → (if leb n i then none else some (d (b + i))) ≡ get_elem? (elements_from d b n) i
  elements_get d b i zero = ground arith
  elements_get d b zero (suc n) = let q : b + 0 ≡ b = omega arith in rw q (ground arith)
  elements_get d b (suc i) (suc n) =
      let q : b + suc i ≡ suc b + i = omega arith in
      let r : leb (suc n) (suc i) ≡ leb n i = ground arith in
      rw q (rw r (elements_get d (suc b) i n))

  pub elements_set :
      (d e : ℕ → V) (b i n : ℕ) (x : V)
      → ((j : ℕ) → j ≢ i → e (b + j) ≡ d (b + j))
      → e (b + i) ≡ x
      → elements_from e b n ≡ set_nth i x (elements_from d b n)
  elements_set d e b i zero x other here = refl
  elements_set d e b zero (suc n) x other here =
      let q : e b ≡ x = ap e (omega arith) ∙ here in
      let r =
        elements_agree e d (suc b) (suc b) n
          λ j less. ap e (omega arith) ∙ other (suc j) (omega arith) ∙ ap d (omega arith) in
      rw q (rw r)
  elements_set d e b (suc i) (suc n) x other here =
      let q : e b ≡ d b = ap e (omega arith) ∙ other 0 (omega arith) ∙ ap d (omega arith) in
      let r =
        elements_set d e (suc b) i n x
          (λ j ne. ap e (omega arith) ∙ other (suc j) (λ s. ne (omega arith)) ∙ ap d (omega arith))
          (ap e (omega arith) ∙ here) in
      rw q (rw r)

  pub put_last-elements : (x : V) (a : DynArray V) → elements (put_last x a) ≡ elements a ++ x ∷ []
  unfolding put_last store
  put_last-elements x a =
      let n = a.count in
      let e = store n x a.data_at in
      let q : n + 1 ≡ suc n = omega arith in
      ap (elements_from e 0) q
      ∙ elements_insert a.data_at e 0 n n x (omega arith) (λ j less. ground arith) (ground arith)
          (λ j le less. absurd (omega arith))
      ∙ insert_end a.data_at 0 n x

  pub put_at-elements :
      (i : ℕ) (x : V) (a : DynArray V)
      → i ≤ a.count
      → elements (put_at i x a) ≡ insert_at i x (elements a)
  unfolding put_at store shift_up
  put_at-elements i x a p =
      let n = a.count in
      let e = (put_at i x a).data_at in
      let q : n + 1 ≡ suc n = omega arith in
      ap (elements_from e 0) q
      ∙ elements_insert a.data_at e 0 i n x p (λ j less. ground arith) (ground arith)
          (λ j le less. ground arith)

  -- The array with room for one element more.
  pub grow_cases :
      (realloc : ℕ → Bool) (a : DynArray V)
      → ((c : ℕ) → realloc c ≡ true)
      → a.count ≤ a.capacity
      → (c : ℕ) × (grow realloc a ≡ some (record a { capacity = c })) × (a.count < c)
  unfolding grow new_capacity
  grow_cases realloc a ok p = elim (Bool-cases (leb a.capacity a.count)) [
    | inl b ↦ (new_capacity a.capacity, rw b (rw (ok (new_capacity a.capacity))), ground arith)
    | inr b ↦ (a.capacity, rw b, ground arith)
  ]

  -- The elements where the operation returns an array.
  abbrev pub elements? : Option (DynArray V) → Option (List V)
  elements? none = none
  elements? (some a) = some (elements a)
