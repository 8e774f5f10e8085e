-- ===== src/Runtime/HashMap/Write.antt =====
-- A store into one slot of a hash map of runtime/tinyswift_runtime.c that is in order.
use mathlib.Core.Path.{subst}
use tinyswift.Prelude.{
  ℕ, zero, suc, ◌+◌, ◌%◌, ◌<◌, ◌≤◌, Bool, true, false, ◌≡◌, ◌≢◌, refl, sym, ◌∙◌, arith, ◌==◌,
  if◌then◌else◌, Bool-cases, inl, inr, ◌⊎◌,
}
use tinyswift.Runtime.HashMap.{Key, Slot, empty, tombstone, occupied, HashMap, is_occupied, write}
use tinyswift.Runtime.HashMap.Table.{Reach, IsTable, Holds, occupied_below}

abbrev pub bit : Bool → ℕ
bit b = if b then 1 else 0

module _ {V : Type 0} where
  clash : (k : Key) (v : V) → occupied k v ≢ tombstone
  clash k v e = ground (arith, e)

  pub write_same : (j : ℕ) (x : Slot V) (slots : ℕ → Slot V) → write j x slots j ≡ x
  write_same j x slots = let e : (j == j) ≡ true = ground arith in rw e

  pub write_other :
      (j : ℕ) (x : Slot V) (slots : ℕ → Slot V) (i : ℕ) → i ≢ j → write j x slots i ≡ slots i
  write_other j x slots i n = let e : (i == j) ≡ false = ground (arith, n) in rw e

  -- A store of what is not empty empties no slot.
  write-empty :
      (j : ℕ) (x : Slot V) (slots : ℕ → Slot V) (i : ℕ)
      → x ≢ empty
      → write j x slots i ≡ empty
      → slots i ≡ empty
  write-empty j x slots i n e = elim (Bool-cases (i == j)) [
    | inl q ↦ absurd (n (sym (rw q) ∙ e))
    | inr q ↦ sym (rw q) ∙ e
  ]

  pub write-clean :
      (j : ℕ) (k : Key) (v : V) (slots : ℕ → Slot V) (l : ℕ)
      → slots l ≢ tombstone
      → write j (occupied k v) slots l ≢ tombstone
  write-clean j k v slots l n e = elim (Bool-cases (l == j)) [
    | inl b ↦ clash k v (sym (rw b) ∙ e)
    | inr b ↦ n (sym (rw b) ∙ e)
  ]

  Reach-write :
      (j : ℕ) (x : Slot V) (slots : ℕ → Slot V) (c idx i : ℕ)
      → x ≢ empty
      → Reach slots c idx i
      → Reach (write j x slots) c idx i
  Reach-write j x slots c idx i n (d, less, at_d, path) =
      (d, less, at_d, λ e le q. path e le (write-empty j x slots _ n q))

  occupied_below-beyond :
      (j : ℕ) (x : Slot V) (slots : ℕ → Slot V) (c : ℕ)
      → c ≤ j
      → occupied_below (write j x slots) c ≡ occupied_below slots c
  occupied_below-beyond j x slots zero h = refl
  occupied_below-beyond j x slots (suc c) h =
      let e = write_other j x slots c (λ q. ground arith) in
      rw e (rw (occupied_below-beyond j x slots c (omega arith)))

  pub occupied_below-write :
      (j : ℕ) (x : Slot V) (slots : ℕ → Slot V) (c : ℕ)
      → j < c
      → occupied_below (write j x slots) c + bit (is_occupied (slots j))
        ≡ occupied_below slots c + bit (is_occupied x)
  occupied_below-write j x slots zero h = absurd (omega arith)
  occupied_below-write j x slots (suc c) h = elim (Bool-cases (c == j)) [
    | inl q ↦
        let e : c ≡ j = ground arith in
        let b = occupied_below-beyond j x slots c (omega (arith, e)) in
        rw q (rw b (rw e (omega arith)))
    | inr q ↦ let b = occupied_below-write j x slots c (ground arith) in rw q (omega (arith, b))
  ]

  -- A table stays in order under a store of what is not empty, if a key that is stored can be
  -- reached in its slot, and no other slot holds a key equal to it.
  pub IsTable-write :
      (hash : Key → ℕ) (m : HashMap V) (j : ℕ) (x : Slot V) (n : ℕ)
      → ((a b : Key) → m.eq_fn a b ≡ true → m.eq_fn b a ≡ true)
      → IsTable hash m
      → j < m.capacity
      → x ≢ empty
      → ((k : Key) (v : V) → x ≡ occupied k v → Reach m.slots m.capacity (hash k % m.capacity) j)
      → ((k : Key) (v : V)
          → x ≡ occupied k v
          → (i : ℕ) (k' : Key) (v' : V) → i < m.capacity
          → m.slots i ≡ occupied k' v'
          → m.eq_fn k' k ≡ true
          → i ≡ j)
      → n ≡ occupied_below (write j x m.slots) m.capacity
      → IsTable hash (record m { slots = write j x m.slots; count = n })
  IsTable-write hash m j x n symmetric t p ne new apart counted = record {
    positive = t.positive;
    reached = λ i k v q e. Reach-write j x m.slots m.capacity _ i ne (elim (Bool-cases (i == j)) [
      | inl b ↦
          let r : i ≡ j = ground arith in
          subst (λ l. Reach m.slots m.capacity (hash k % m.capacity) l) (sym r)
            (new k v (sym (rw b) ∙ e))
      | inr b ↦ t.reached i k v q (sym (rw b) ∙ e)
    ]);
    distinct = λ i l k k' v v' q q' e e' same. elim (Bool-cases (i == j)) [
      | inl b ↦ elim (Bool-cases (l == j)) [
        | inl b' ↦ ground (arith, b, b')
        | inr b' ↦
            let r =
              apart k v (sym (rw b) ∙ e) l k' v' q' (sym (rw b') ∙ e') (symmetric k k' same) in
            ground (arith, b, b', r)
      ]
      | inr b ↦ elim (Bool-cases (l == j)) [
        | inl b' ↦
            let r = apart k' v' (sym (rw b') ∙ e') i k v q (sym (rw b) ∙ e) same in
            ground (arith, b, b', r)
        | inr b' ↦ t.distinct i l k k' v v' q q' (sym (rw b) ∙ e) (sym (rw b') ∙ e') same
      ]
    ];
    counted = counted;
  }

  pub Holds-written :
      (m : HashMap V) (j : ℕ) (x : Slot V) (n : ℕ) (k k' : Key) (v : V)
      → j < m.capacity
      → x ≡ occupied k' v
      → m.eq_fn k' k ≡ true
      → Holds (record m { slots = write j x m.slots; count = n }) k v
  Holds-written m j x n k k' v q e same = (j, k', q, write_same j x m.slots ∙ e, same)

  pub Holds-other :
      (m : HashMap V) (j : ℕ) (x : Slot V) (n : ℕ) (k k' : Key) (v : V) (i : ℕ)
      → i ≢ j
      → i < m.capacity
      → m.slots i ≡ occupied k' v
      → m.eq_fn k' k ≡ true
      → Holds (record m { slots = write j x m.slots; count = n }) k v
  Holds-other m j x n k k' v i ne q e same = (i, k', q, write_other j x m.slots i ne ∙ e, same)

  -- What is held after a store is in the slot of the store or in another one.
  pub Holds-cases :
      (m : HashMap V) (j : ℕ) (x : Slot V) (n : ℕ) (k : Key) (v : V)
      → Holds (record m { slots = write j x m.slots; count = n }) k v
      → ((k' : Key) × (x ≡ occupied k' v) × (m.eq_fn k' k ≡ true))
        ⊎ ((i : ℕ) × (k' : Key) × (i ≢ j)
            × (i < m.capacity)
            × (m.slots i ≡ occupied k' v)
            × (m.eq_fn k' k ≡ true))
  Holds-cases m j x n k v (i, k', q, e, same) = elim (Bool-cases (i == j)) [
    | inl b ↦ inl (k', sym (rw b) ∙ e, same)
    | inr b ↦ inr (i, k', (λ r. ground (arith, b, r)), q, sym (rw b) ∙ e, same)
  ]
