-- ===== src/Runtime/HashMap/Set.antt =====
-- `hashmap_set` of runtime/tinyswift_runtime.c on a table in order that has a free slot, up to the
-- rehash.
use native.Mathlib.Nat.{mod-lt}
use tinyswift.Prelude.{
  ℕ, ◌+◌, ◌%◌, ◌<◌, true, some, ◌≡◌, ◌≢◌, refl, sym, ◌∙◌, ap, arith, ◌==◌, if◌then◌else◌,
  Bool-cases, inl, inr, ltb,
}
use mathlib.Core.Path.{subst}
use tinyswift.Runtime.HashMap.{
  Key, occupied, HashMap, is_occupied, write, add_entry, hashmap_get, set_entry,
}
use tinyswift.Runtime.HashMap.Table.{KeyLaws, Reach, IsTable, step_to, some_free}
use tinyswift.Runtime.HashMap.Lookup.{hashmap_get-Holds, same_get, occupied_key}
use tinyswift.Runtime.HashMap.Write.{
  bit, occupied_below-write, IsTable-write, Holds-written, Holds-other, Holds-cases,
}
use tinyswift.Runtime.HashMap.Place.{Vacant, set_entry-Outcome}

module _ {V : Type 0} (hash : Key → ℕ) (m : HashMap V) (laws : KeyLaws m.eq_fn hash)
    (t : IsTable hash m) where
  abbrev put : ℕ → Key → V → ℕ → HashMap V
  put j k₀ v n = record m { slots = write j (occupied k₀ v) m.slots; count = n }

  -- What the table gives after an entry is stored in a slot that held no other key.
  written-gets :
      (j : ℕ) (k₀ k : Key) (v : V) (n : ℕ)
      → IsTable hash (put j k₀ v n)
      → j < m.capacity
      → ((k' : Key) → m.eq_fn k₀ k' ≡ m.eq_fn k k')
      → ((k₂ : Key) (w : V) → m.slots j ≡ occupied k₂ w → k₂ ≡ k₀)
      → (k' : Key)
      → hashmap_get k' (hash k') (put j k₀ v n)
        ≡ (if m.eq_fn k k' then some v else hashmap_get k' (hash k') m)
  written-gets j k₀ k v n w p same only k' = elim (Bool-cases (m.eq_fn k k')) [
    | inl b ↦ rw b (
        (hashmap_get-Holds hash _ laws w k' v).1
          (Holds-written m j (occupied k₀ v) n k' k₀ v p refl (same k' ∙ b)))
    | inr b ↦ rw b (
        same_get hash hash (put j k₀ v n) m k' k' laws w laws t λ u. (
          λ h. elim (Holds-cases m j (occupied k₀ v) n k' u h) [
            | inl (k₂, s, q) ↦
                let e = occupied_key k₀ k₂ v u s in
                let r = sym (same k') ∙ ap (λ l. m.eq_fn l k') e ∙ q in ground (arith, r, b)
            | inr (i, k₂, _, p₂, s₂, q₂) ↦ (i, k₂, p₂, s₂, q₂)
          ],
          λ h.
              let (i, k₂, p₂, s₂, q₂) = h in
              Holds-other m j (occupied k₀ v) n k' k₂ u i
                (λ r.
                  let e = only k₂ u (sym (ap m.slots r) ∙ s₂) in
                  let a = sym (same k') ∙ ap (λ l. m.eq_fn l k') (sym e) ∙ q₂ in
                  ground (arith, a, b))
                p₂ s₂ q₂,
        ))
  ]

  -- Equal keys are equal to the same keys.
  equal_same : (k₀ k : Key) → m.eq_fn k₀ k ≡ true → (k' : Key) → m.eq_fn k₀ k' ≡ m.eq_fn k k'
  equal_same k₀ k e k' = elim (Bool-cases (m.eq_fn k k')) [
    | inl b ↦ laws.transitive k₀ k k' e b ∙ sym b
    | inr b ↦ elim (Bool-cases (m.eq_fn k₀ k')) [
      | inl b' ↦ let a = laws.transitive k k₀ k' (laws.symmetric k₀ k e) b' in ground (arith, a, b)
      | inr b' ↦ b' ∙ sym b
    ]
  ]

  -- The entry of a key that the table holds, with another value.
  updated-IsTable :
      (j : ℕ) (k₀ : Key) (v w : V)
      → j < m.capacity
      → m.slots j ≡ occupied k₀ w
      → IsTable hash (put j k₀ v m.count)
  updated-IsTable j k₀ v w p s =
      let b = occupied_below-write j (occupied k₀ v) m.slots m.capacity p in
      let one = ap bit (ap is_occupied s) in
      IsTable-write hash m j (occupied k₀ v) m.count laws.symmetric t p (λ e. ground arith)
        (λ k₁ v₁ e.
          let r = occupied_key k₀ k₁ v v₁ e in
          subst (λ l. Reach m.slots m.capacity (hash l % m.capacity) j) r (t.reached j k₀ w p s))
        (λ k₁ v₁ e i k₂ v₂ p₂ s₂ q.
          let r = occupied_key k₀ k₁ v v₁ e in
          t.distinct i j k₂ k₀ v₂ w p₂ p s₂ s (ap (λ l. m.eq_fn k₂ l) r ∙ q))
        (omega (arith, t.counted, b, one))

  -- No slot holds the key where the search ends at a vacant one.
  Vacant-absent :
      (k : Key) (j : ℕ)
      → Vacant k m (hash k % m.capacity) j
      → (i : ℕ) (k' : Key) (w : V) → i < m.capacity
      → m.slots i ≡ occupied k' w
      → m.eq_fn k' k ≢ true
  Vacant-absent k j (_, _, (i₀, passed, end)) i k' w p s q =
      let c = m.capacity in
      let same = laws.hashes k' k q in
      let (d, less, at_d, path) = t.reached i k' w p s in
      let at_k : (hash k % c + d) % c ≡ i = ap (λ n. (n % c + d) % c) (sym same) ∙ at_d in
      let s' = ap m.slots at_k ∙ s in
      elim (Bool-cases (ltb d i₀)) [
        | inl b ↦ let f = passed.foreign d k' w (ground arith) s' in ground (arith, f, q)
        | inr b ↦ elim end [
          | inl e ↦ absurd (ground arith)
          | inr (_, e) ↦ elim (Bool-cases (d == i₀)) [
            | inl b' ↦
                let r : d ≡ i₀ = ground arith in
                let e' = ap (λ n. m.slots ((hash k % c + n) % c)) r ∙ e in ground (arith, e', s')
            | inr b' ↦ path i₀ (ground arith) (ap (λ n. m.slots ((n % c + i₀) % c)) same ∙ e)
          ]
        ]
      ]

  inserted-IsTable :
      (k : Key) (v : V) (j : ℕ)
      → j < m.capacity
      → Vacant k m (hash k % m.capacity) j
      → IsTable hash (put j k v (m.count + 1))
  inserted-IsTable k v j p vacant =
      let (free, reach, _) = vacant in
      let b = occupied_below-write j (occupied k v) m.slots m.capacity p in
      let zero_bit = ap bit free in
      IsTable-write hash m j (occupied k v) (m.count + 1) laws.symmetric t p (λ e. ground arith)
        (λ k₁ v₁ e.
          subst (λ l. Reach m.slots m.capacity (hash l % m.capacity) j) (occupied_key k k₁ v v₁ e)
            reach)
        (λ k₁ v₁ e i k₂ v₂ p₂ s₂ q. absurd (
          Vacant-absent k j vacant i k₂ v₂ p₂ s₂
            (ap (λ l. m.eq_fn k₂ l) (occupied_key k k₁ v v₁ e) ∙ q)))
        (omega (arith, t.counted, b, zero_bit))

  -- Without a rehash, with a slot that is free.
  pub set_entry-gets :
      (k : Key) (v : V)
      → m.count < m.capacity
      → IsTable hash (set_entry k (hash k) v m)
        × ((k' : Key)
            → hashmap_get k' (hash k') (set_entry k (hash k) v m)
              ≡ (if m.eq_fn k k' then some v else hashmap_get k' (hash k') m))
  unfolding add_entry
  set_entry-gets k v less = elim (set_entry-Outcome k (hash k) v m t.positive) [
    | inl (j, k₀, w, p, s, q, e) ↦
        let u = updated-IsTable j k₀ v w p s in
        rw e (
          u,
          written-gets j k₀ k v m.count u p (equal_same k₀ k q)
              (λ k₂ w₂ s₂. occupied_key k₂ k₀ w₂ w (sym s₂ ∙ s)),
        )
    | inr (inl (j, p, vacant, e)) ↦
        let u = inserted-IsTable k v j p vacant in
        rw e (
          u,
          written-gets j k k v (m.count + 1) u p (λ _. refl)
              (λ k₂ w₂ s₂. let o = sym (ap is_occupied s₂) ∙ vacant.0 in ground (arith, o)),
        )
    | inr (inr full) ↦
        let (i, p, free) =
          some_free m.slots m.capacity (subst (λ n. n < m.capacity) t.counted less) in
        let (d, q, at_d) =
          step_to m.capacity (hash k % m.capacity) i (mod-lt (hash k) t.positive) p in
        let o = sym (ap (λ j. is_occupied (m.slots j)) at_d) ∙ full d q in
        absurd (ground (arith, o, free))
  ]
