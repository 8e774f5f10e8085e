-- ===== src/Runtime/HashMap/Remove.antt =====
-- `hashmap_remove` of runtime/tinyswift_runtime.c on a table that is in order.
use native.Mathlib.Nat.{mod-lt}
use tinyswift.Prelude.{
  ℕ, zero, suc, ◌+◌, ◌-◌, ◌%◌, ◌<◌, true, false, Option, none, ◌≡◌, refl, sym, ◌∙◌, ap, arith,
  if◌then◌else◌, Bool-cases, Option-cases, inl, inr, ◌↔◌, ◌⊎◌,
}
use tinyswift.Runtime.HashMap.{
  Key, Slot, empty, tombstone, occupied, HashMap, is_occupied, write, get_at, get_loop, hashmap_get,
  remove_at, remove_loop, hashmap_remove,
}
use tinyswift.Runtime.HashMap.Table.{KeyLaws, IsTable, Holds}
use tinyswift.Runtime.HashMap.Lookup.{hashmap_get-Holds, same_get, Holds-equal, occupied_key}
use tinyswift.Runtime.HashMap.Write.{
  bit, occupied_below-write, IsTable-write, Holds-other, Holds-cases,
}

module _ {V : Type 0} where
  -- The map without the entry of a slot.
  abbrev without : HashMap V → ℕ → HashMap V
  without m j = record m { slots = write j tombstone m.slots; count = m.count - 1 }

  -- A slot that holds the key.
  abbrev Match : Key → HashMap V → ℕ → Type 0
  Match k m j =
      (k' : Key) × (v : V) × (j < m.capacity) × (m.slots j ≡ occupied k' v) × (m.eq_fn k' k ≡ true)

  abbrev Removal : Key → HashMap V → HashMap V → Option V → Type 0
  Removal k m m' found = ((j : ℕ) × Match k m j × (m' ≡ without m j)) ⊎ ((m' ≡ m) × (found ≡ none))

  remove_at-Removal :
      (k : Key) (m : HashMap V) (j : ℕ) (x : Slot V) (rest : HashMap V) (found : Option V)
      → j < m.capacity
      → m.slots j ≡ x
      → Removal k m rest found
      → Removal k m (remove_at k m j x rest) (get_at k m x found)
  unfolding remove_at get_at
  remove_at-Removal k m j empty rest found p e h = inr (refl, refl)
  remove_at-Removal k m j tombstone rest found p e h = h
  remove_at-Removal k m j (occupied k' v) rest found p e h = elim (Bool-cases (m.eq_fn k' k)) [
    | inl q ↦ inl (j, (k', v, p, e, q), rw q)
    | inr q ↦ rw q h
  ]

  remove_loop-Removal :
      (k : Key) (m : HashMap V) (idx i left : ℕ)
      → 0 < m.capacity
      → Removal k m (remove_loop k m idx i left) (get_loop k m idx i left)
  unfolding remove_loop get_loop
  remove_loop-Removal k m idx i zero p = inr (refl, refl)
  remove_loop-Removal k m idx i (suc left) p =
      remove_at-Removal k m ((idx + i) % m.capacity) _ _ _ (mod-lt (idx + i) p) refl
        (remove_loop-Removal k m idx (suc i) left p)

  module _ (hash : Key → ℕ) (m : HashMap V) (laws : KeyLaws m.eq_fn hash) (t : IsTable hash m) where
    without-IsTable : (k : Key) (j : ℕ) → Match k m j → IsTable hash (without m j)
    without-IsTable k j (k', v, p, e, q) =
        let b = occupied_below-write j tombstone m.slots m.capacity p in
        let o = ap is_occupied e in
        let one = ap bit o in
        IsTable-write hash m j tombstone (m.count - 1) laws.symmetric t p (λ n. ground arith)
          (λ k₁ v₁ n. ground arith) (λ k₁ v₁ n. ground arith) (omega (arith, t.counted, b, one))

    -- What the map without the entry holds for another key.
    Holds-without :
        (k k₁ : Key) (j : ℕ) (v : V)
        → Match k m j
        → m.eq_fn k k₁ ≡ false
        → Holds (without m j) k₁ v ↔ Holds m k₁ v
    Holds-without k k₁ j v (k', v', p, e, q) n = (
      λ h. elim (Holds-cases m j tombstone (m.count - 1) k₁ v h) [
        | inl (k₂, s, _) ↦ ground arith
        | inr (i, k₂, _, p₂, s₂, q₂) ↦ (i, k₂, p₂, s₂, q₂)
      ],
      λ h.
          let (i, k₂, p₂, s₂, q₂) = h in
          Holds-other m j tombstone (m.count - 1) k₁ k₂ v i
            (λ r.
              let same = t.distinct i j k₂ k' v v' p₂ p s₂ e in
              let keys : k₂ ≡ k' = occupied_key k₂ k' v v' (sym s₂ ∙ ap m.slots r ∙ e) in
              let a =
                laws.transitive k k' k₁ (laws.symmetric k' k q)
                  (sym (ap (λ l. m.eq_fn l k₁) keys) ∙ q₂) in
              ground (arith, a, n))
            p₂ s₂ q₂,
    )

    -- And for the key itself, or an equal one: nothing.
    not-Holds-without :
        (k k₁ : Key) (j : ℕ) (v : V)
        → Match k m j
        → m.eq_fn k k₁ ≡ true
        → ¬ Holds (without m j) k₁ v
    not-Holds-without k k₁ j v (k', v', p, e, q) n h =
        elim (Holds-cases m j tombstone (m.count - 1) k₁ v h) [
          | inl (k₂, s, _) ↦ ground arith
          | inr (i, k₂, ne, p₂, s₂, q₂) ↦
              let a = laws.transitive k' k k₁ q n in
              ne (
                t.distinct i j k₂ k' v v' p₂ p s₂ e
                  (laws.transitive k₂ k₁ k' q₂ (laws.symmetric k' k₁ a)))
        ]

    -- What the search for a key gives after the removal of an entry, and where there was none.
    without-gets :
        (k k' : Key) (j : ℕ)
        → Match k m j
        → IsTable hash (without m j)
        → hashmap_get k' (hash k') (without m j)
          ≡ (if m.eq_fn k k' then none else hashmap_get k' (hash k') m)
    without-gets k k' j match w = elim (Bool-cases (m.eq_fn k k')) [
      | inl b ↦ rw b (elim (Option-cases (hashmap_get k' (hash k') (without m j))) [
        | inl n ↦ n
        | inr (v, s) ↦
            absurd (not-Holds-without k k' j v match b ((hashmap_get-Holds hash _ laws w k' v).0 s))
      ])
      | inr b ↦ rw b (
          same_get hash hash (without m j) m k' k' laws w laws t
            λ v. Holds-without k k' j v match b)
    ]

    absent-gets :
        (k k' : Key)
        → hashmap_get k (hash k) m ≡ none
        → hashmap_get k' (hash k') m ≡ (if m.eq_fn k k' then none else hashmap_get k' (hash k') m)
    absent-gets k k' n = elim (Bool-cases (m.eq_fn k k')) [
      | inl b ↦ rw b (
          sym (
            same_get hash hash m m k k' laws t laws t λ v. (
              Holds-equal hash m k k' v laws b,
              Holds-equal hash m k' k v laws (laws.symmetric k k' b),
            ))
          ∙ n)
      | inr b ↦ rw b
    ]

    -- A removal keeps the table in order, and takes away the entry of the key and no other.
    pub hashmap_remove-gets :
        (k k' : Key)
        → IsTable hash (hashmap_remove k (hash k) m)
          × (hashmap_get k' (hash k') (hashmap_remove k (hash k) m)
              ≡ (if m.eq_fn k k' then none else hashmap_get k' (hash k') m))
    unfolding hashmap_remove hashmap_get
    hashmap_remove-gets k k' =
        elim (remove_loop-Removal k m (hash k % m.capacity) 0 m.capacity t.positive) [
          | inl (j, match, e) ↦
              let w = without-IsTable k j match in rw e (w, without-gets k k' j match w)
          | inr (e, n) ↦ rw e (t, absent-gets k k' n)
        ]
