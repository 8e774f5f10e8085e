-- ===== src/Runtime/DynArray/Refines.antt =====
-- The operations of the dynamic array of runtime/tinyswift_runtime.c as those of a list.
use tinyswift.Prelude.{
  ℕ, zero, suc, ◌+◌, ◌-◌, ◌≤◌, Bool, true, none, some, List, [], ◌∷◌, ◌++◌, ◌≡◌, refl, sym, ◌∙◌, ap,
  arith, pos, negsuc, get_elem?, if◌then◌else◌, Bool-cases, inl, inr, ltb, leb,
}
use tinyswift.Runtime.DynArray.{
  DynArray, store, shift_down, put_last, put_at, if_grown, dynarray_append, dynarray_insert,
  dynarray_get, dynarray_set, dynarray_remove_last, dynarray_remove_at,
}
use tinyswift.Runtime.DynArray.Elements.{
  elements, elements?, insert_at, remove_nth, set_nth, drop_last, put_last-elements,
  put_at-elements, grow_cases, elements_remove, elements_last, elements_get, elements_set,
  insert_beyond, remove_beyond,
}

module _ {V : Type 0} where
  -- The count stays within the buffer.
  abbrev pub Fits : DynArray V → Type 0
  Fits a = a.count ≤ a.capacity

  -- An array that fits, with the given elements.
  abbrev pub Has : List V → DynArray V → Type 0
  Has xs a = Fits a × (elements a ≡ xs)

  module _ (realloc : ℕ → Bool) (ok : (c : ℕ) → realloc c ≡ true) (a : DynArray V)
      (fits : Fits a) where
    append-Has : (x : V) → Has (elements a ++ x ∷ []) (dynarray_append realloc x a)
    unfolding dynarray_append if_grown put_last
    append-Has x =
        let (c, e, less) = grow_cases realloc a ok fits in
        rw e (omega arith, put_last-elements x (record a { capacity = c }))

    insert-Has :
        (i : ℕ) (x : V) → Has (insert_at i x (elements a)) (dynarray_insert realloc (pos i) x a)
    unfolding dynarray_insert if_grown put_at
    insert-Has i x =
        let (c, e, less) = grow_cases realloc a ok fits in
        elim (Bool-cases (ltb a.count i)) [
          | inl b ↦ rw b (fits, sym (insert_beyond a.data_at 0 i a.count x (ground arith)))
          | inr b ↦
              rw b
                (rw e (omega arith, put_at-elements i x (record a { capacity = c }) (ground arith)))
        ]

  -- The array of a buffer, a count and a capacity.
  abbrev of : (ℕ → V) → ℕ → ℕ → DynArray V
  of d n c = record { data_at = d; count = n; capacity = c }

  remove_at-Has :
      (d : ℕ → V) (n c i : ℕ)
      → n ≤ c
      → Has (remove_nth i (elements (of d n c))) (dynarray_remove_at (pos i) (of d n c))
  unfolding dynarray_remove_at shift_down
  remove_at-Has d zero c i p = let b : leb 0 i ≡ true = ground arith in rw b (p, refl)
  remove_at-Has d (suc n) c i p = elim (Bool-cases (leb (suc n) i)) [
    | inl b ↦ rw b (p, sym (remove_beyond d 0 i (suc n) (ground arith)))
    | inr b ↦
        let s : suc n - 1 ≡ n = omega arith in
        elim (Bool-cases (ltb i n)) [
          | inl q ↦ rw b (
              rw s (
                rw q (
                  omega arith,
                  elements_remove d (shift_down i (suc n) d) 0 i n (ground arith)
                      (λ j less. ground arith) (λ j le less. ground arith),
                )))
          | inr q ↦ rw b (
              rw s (
                rw q (
                  omega arith,
                  elements_remove d d 0 i n (ground arith) (λ j less. refl)
                      (λ j le less. absurd (ground arith)),
                )))
        ]
  ]

  remove_last-Has :
      (d : ℕ → V) (n c : ℕ)
      → n ≤ c
      → Has (drop_last (elements (of d n c))) (dynarray_remove_last (of d n c))
  unfolding dynarray_remove_last
  remove_last-Has d zero c p = (p, refl)
  remove_last-Has d (suc n) c p =
      let b : ltb 0 (suc n) ≡ true = ground arith in
      let s : suc n - 1 ≡ n = omega arith in rw b (rw s (omega arith, elements_last d 0 n))

  set-elements :
      (a : DynArray V) (i : ℕ) (x : V)
      → elements? (dynarray_set (pos i) x a)
        ≡ (if leb a.count i then none else some (set_nth i x (elements a)))
  unfolding dynarray_set store
  set-elements a i x = elim (Bool-cases (leb a.count i)) [
    | inl b ↦ rw b
    | inr b ↦ rw b (
        ap some (
          elements_set a.data_at (store i x a.data_at) 0 i a.count x (λ j ne. ground (arith, ne))
            (ground arith)))
  ]

  get-elements : (a : DynArray V) (i : ℕ) → dynarray_get (pos i) a ≡ get_elem? (elements a) i
  unfolding dynarray_get
  get-elements a i =
      let z : 0 + i ≡ i = omega arith in
      ap (λ j. if leb a.count i then none else some (a.data_at j)) (sym z)
      ∙ elements_get a.data_at 0 i a.count

  -- Where `realloc` succeeds, the operations on an array that fits its buffer are those on the list of
  -- its elements, and leave an array that fits. An insertion or a removal out of range, a negative
  -- index included, changes nothing; `get` and `set` abort out of range.
  pub dynarray_refines :
      (realloc : ℕ → Bool) (a : DynArray V) (i : ℕ) (x : V)
      → ((c : ℕ) → realloc c ≡ true)
      → Fits a
      → Has (elements a ++ x ∷ []) (dynarray_append realloc x a)
        × Has (insert_at i x (elements a)) (dynarray_insert realloc (pos i) x a)
        × Has (remove_nth i (elements a)) (dynarray_remove_at (pos i) a)
        × Has (drop_last (elements a)) (dynarray_remove_last a)
        × (elements? (dynarray_set (pos i) x a)
            ≡ (if leb a.count i then none else some (set_nth i x (elements a))))
        × (dynarray_get (pos i) a ≡ get_elem? (elements a) i)
        × (dynarray_insert realloc (negsuc i) x a ≡ a)
        × (dynarray_remove_at (negsuc i) a ≡ a)
        × (dynarray_set (negsuc i) x a ≡ none)
        × (dynarray_get (negsuc i) a ≡ none)
  unfolding dynarray_insert dynarray_remove_at dynarray_set dynarray_get
  dynarray_refines realloc a i x ok fits = (
    append-Has realloc ok a fits x,
    insert-Has realloc ok a fits i x,
    remove_at-Has a.data_at a.count a.capacity i fits,
    remove_last-Has a.data_at a.count a.capacity fits,
    set-elements a i x,
    get-elements a i,
    refl,
    refl,
    refl,
    refl,
  )
