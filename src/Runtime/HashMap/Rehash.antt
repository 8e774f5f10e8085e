-- ===== src/Runtime/HashMap/Rehash.antt =====
-- `hashmap_rehash` of runtime/tinyswift_runtime.c: how the new table fills up.
use mathlib.Core.Path.{subst}
use native.Mathlib.Nat.{mod-lt, mod-add-mod, mod-eq_of_lt}
use tinyswift.Prelude.{
  ℕ, zero, suc, ◌+◌, ◌*◌, ◌%◌, ◌<◌, true, false, Option, some, ◌≡◌, ◌≢◌, refl, sym, ◌∙◌, ap, arith,
  ◌==◌, Bool-cases, inl, inr, ◌↔◌,
}
use tinyswift.Runtime.HashMap.{
  Key, Slot, empty, tombstone, occupied, HashMap, is_occupied, write, fnv, free_slot, copy_to,
  copy_slot, copy_slots, hashmap_rehash, ended,
}
use tinyswift.Runtime.HashMap.Table.{
  KeyLaws, Reach, IsTable, Holds, occupied_below, occupied_below-le, step_to, some_free,
}
use tinyswift.Runtime.HashMap.Lookup.{occupied_key}
use tinyswift.Runtime.HashMap.Write.{
  bit, occupied_below-write, IsTable-write, write_same, write_other, write-clean,
}

module _ {V : Type 0} where
  -- What the `while` over occupied slots comes to.
  abbrev Found : (ℕ → Slot V) → ℕ → ℕ → Option ℕ → Type 0
  Found slots c idx o =
      (t : ℕ) × (o ≡ some t) × (t < c) × (is_occupied (slots t) ≡ false) × Reach slots c idx t

  free_slot-Found :
      (slots : ℕ → Slot V) (c idx d left : ℕ)
      → idx < c
      → occupied_below slots c < c
      → ((e : ℕ) → e < d → is_occupied (slots ((idx + e) % c)) ≡ true)
      → d + left ≡ c
      → Found slots c idx (free_slot slots c ((idx + d) % c) left)
  unfolding free_slot
  free_slot-Found slots c idx d zero p less all sum =
      let (i, q, free) = some_free slots c less in
      let (e, r, at_e) = step_to c idx i p q in
      let o = sym (ap (λ j. is_occupied (slots j)) at_e) ∙ all e (omega arith) in
      absurd (ground (arith, o, free))
  free_slot-Found slots c idx d (suc left) p less all sum =
      elim (Bool-cases (is_occupied (slots ((idx + d) % c)))) [
        | inl b ↦
            let next : suc ((idx + d) % c) % c ≡ (idx + suc d) % c =
              ap (λ n. n % c) (omega arith)
              ∙ mod-add-mod (idx + d) c 1
              ∙ ap (λ n. n % c) (omega arith) in
            rw b (
              subst (λ n. Found slots c idx (free_slot slots c n left)) (sym next)
                (free_slot-Found slots c idx (suc d) left p less
                  (λ e le. elim (Bool-cases (e == d)) [
                    | inl b' ↦
                        let r : e ≡ d = ground arith in
                        ap (λ n. is_occupied (slots ((idx + n) % c))) r ∙ b
                    | inr b' ↦ all e (ground arith)
                  ])
                  (omega arith)))
        | inr b ↦ rw b (
          (idx + d) % c,
          refl,
          mod-lt (idx + d) (omega arith),
          b,
          (
            d,
            omega arith,
            refl,
            λ e le s. let o = sym (ap is_occupied s) ∙ all e le in ground (arith, o),
          ),
        )
      ]

  module _ (hash : Key → ℕ) (m : HashMap V) (laws : KeyLaws m.eq_fn hash) (t : IsTable hash m) where
    abbrev new : ℕ
    new = m.capacity * 2

    abbrev table : (ℕ → Slot V) → ℕ → HashMap V
    table slots n = record { slots = slots; count = n; capacity = new; eq_fn = m.eq_fn }

    -- The new table after the slots below `i`.
    record Copied (i : ℕ) (slots : ℕ → Slot V) (n : ℕ) : Type 0 where
      pub ordered : IsTable fnv (table slots n)
      pub counts : n ≡ occupied_below m.slots i
      pub clean : (j : ℕ) → slots j ≢ tombstone
      pub from_old :
          (j : ℕ) (k : Key) (v : V)
          → j < new
          → slots j ≡ occupied k v
          → (l : ℕ) × (l < i) × (m.slots l ≡ occupied k v)
      pub to_new :
          (l : ℕ) (k : Key) (v : V)
          → l < i
          → m.slots l ≡ occupied k v
          → (j : ℕ) × (j < new) × (slots j ≡ occupied k v)

    none_below : (c : ℕ) → occupied_below {V = V} (λ _. empty) c ≡ 0
    none_below zero = refl
    none_below (suc c) = rw (none_below c)

    Copied-start : Copied 0 (λ _. empty) 0
    Copied-start = record {
      ordered = record {
        positive = omega (arith, t.positive);
        reached = λ i k v p e. ground arith;
        distinct = λ i j k k' v v' p q e e' same. ground arith;
        counted = sym (none_below new);
      };
      counts = refl;
      clean = λ j e. ground arith;
      from_old = λ j k v p e. ground arith;
      to_new = λ l k v p e. absurd (omega arith);
    }

    -- A slot that is not occupied is passed over.
    Copied-skip :
        (i : ℕ) (slots : ℕ → Slot V) (n : ℕ)
        → is_occupied (m.slots i) ≡ false
        → Copied i slots n
        → Copied (suc i) slots n
    Copied-skip i slots n free h = record {
      ordered = h.ordered;
      counts = ground (arith, h.counts, free);
      clean = h.clean;
      from_old = λ j k v p e. let (l, q, s) = h.from_old j k v p e in (l, omega arith, s);
      to_new = λ l k v p s. elim (Bool-cases (l == i)) [
        | inl b ↦
            let r : l ≡ i = ground arith in
            let o = sym (ap is_occupied s) ∙ ap (λ x. is_occupied (m.slots x)) r ∙ free in
            ground (arith, o)
        | inr b ↦ h.to_new l k v (ground arith) s
      ];
    }

    -- An entry is copied to the slot that was found.
    Copied-entry :
        (i : ℕ) (slots : ℕ → Slot V) (n : ℕ) (k : Key) (v : V) (j : ℕ)
        → i < m.capacity
        → m.slots i ≡ occupied k v
        → Copied i slots n
        → j < new
        → is_occupied (slots j) ≡ false
        → Reach slots new (fnv k % new) j
        → Copied (suc i) (write j (occupied k v) slots) (n + 1)
    Copied-entry i slots n k v j p s h q free reach =
        let b = occupied_below-write j (occupied k v) slots new q in
        let zero_bit = ap bit free in
        let one = ap bit (ap is_occupied s) in
        record {
          ordered =
              IsTable-write fnv (table slots n) j (occupied k v) (n + 1) laws.symmetric h.ordered q
                (λ e. ground arith)
                (λ k₁ v₁ e.
                  subst (λ x. Reach slots new (fnv x % new) j) (occupied_key k k₁ v v₁ e) reach)
                (λ k₁ v₁ e l k₂ v₂ p₂ s₂ same.
                  let (l', less, s') = h.from_old l k₂ v₂ p₂ s₂ in
                  let same' = ap (λ x. m.eq_fn k₂ x) (occupied_key k k₁ v v₁ e) ∙ same in
                  let r = t.distinct l' i k₂ k v₂ v (omega arith) p s' s same' in
                  absurd (omega (arith, r, less)))
                (omega (arith, h.ordered.counted, b, zero_bit));
          counts = omega (arith, h.counts, one);
          clean = λ l. write-clean j k v slots l (h.clean l);
          from_old = λ l k₁ v₁ p₁ e. elim (Bool-cases (l == j)) [
            | inl c ↦ (i, omega arith, s ∙ sym (rw c) ∙ e)
            | inr c ↦
                let (l', less, s') = h.from_old l k₁ v₁ p₁ (sym (rw c) ∙ e) in (l', omega arith, s')
          ];
          to_new = λ l k₁ v₁ p₁ s₁. elim (Bool-cases (l == i)) [
            | inl c ↦
                let r : l ≡ i = ground arith in
                (j, q, write_same j (occupied k v) slots ∙ sym s ∙ sym (ap m.slots r) ∙ s₁)
            | inr c ↦
                let (j', q', s') = h.to_new l k₁ v₁ (ground arith) s₁ in
                (
                  j',
                  q',
                  write_other j (occupied k v) slots j' (λ r.
                        let o =
                          sym (ap is_occupied s') ∙ ap (λ x. is_occupied (slots x)) r ∙ free in
                        ground (arith, o))
                      ∙ s',
                )
          ];
        }

    -- What the copy of one slot comes to.
    abbrev Copies : ℕ → Option (HashMap V) → Type 0
    Copies i o = (slots : ℕ → Slot V) × (n : ℕ) × (o ≡ some (table slots n)) × Copied i slots n

    copy_slot-Copies :
        (i : ℕ) (x : Slot V) (slots : ℕ → Slot V) (n : ℕ)
        → i < m.capacity
        → m.slots i ≡ x
        → Copied i slots n
        → Copies (suc i) (copy_slot x (table slots n))
    unfolding copy_slot copy_to
    copy_slot-Copies i empty slots n p s h =
        (slots, n, refl, Copied-skip i slots n (ap is_occupied s) h)
    copy_slot-Copies i tombstone slots n p s h =
        (slots, n, refl, Copied-skip i slots n (ap is_occupied s) h)
    copy_slot-Copies i (occupied k v) slots n p s h =
        let le = occupied_below-le m.slots i in
        let less : occupied_below slots new < new =
          omega (arith, h.counts, h.ordered.counted, le, t.positive) in
        let home = fnv k % new in
        let inside = mod-lt (fnv k) h.ordered.positive in
        let start : (home + 0) % new ≡ home =
          ap (λ x. x % new) (omega arith) ∙ mod-eq_of_lt inside in
        let (j, e, q, free, reach) =
          subst (λ x. Found slots new home (free_slot slots new x new)) start
            (free_slot-Found slots new home 0 new inside less (λ d le'. absurd (omega arith))
              (omega arith)) in
        rw e (
          write j (occupied k v) slots,
          n + 1,
          refl,
          Copied-entry i slots n k v j p s h q free reach,
        )

    copy_slots-Copies :
        (i left : ℕ) (slots : ℕ → Slot V) (n : ℕ)
        → i + left ≡ m.capacity
        → Copied i slots n
        → Copies m.capacity (copy_slots m.slots i left (table slots n))
    unfolding copy_slots ended
    copy_slots-Copies i zero slots n sum h =
        (slots, n, refl, subst (λ x. Copied x slots n) (omega arith) h)
    copy_slots-Copies i (suc left) slots n sum h =
        let (slots', n', e, h') = copy_slot-Copies i (m.slots i) slots n (omega arith) refl h in
        subst (λ o. Copies m.capacity (ended o (copy_slots m.slots (suc i) left))) (sym e)
          (copy_slots-Copies (suc i) left slots' n' (omega arith) h')

    abbrev pub Entries : HashMap V → Type 0
    Entries n =
        ((j : ℕ) (k : Key) (v : V)
          → j < n.capacity
          → n.slots j ≡ occupied k v
          → (l : ℕ) × (l < m.capacity) × (m.slots l ≡ occupied k v))
        × ((l : ℕ) (k : Key) (v : V)
            → l < m.capacity
            → m.slots l ≡ occupied k v
            → (j : ℕ) × (j < n.capacity) × (n.slots j ≡ occupied k v))

    -- The rehash ends, and the new table has twice the slots and no tombstone. It is in order for the
    -- hash of the key's bytes, and its entries are those of the old one.
    pub hashmap_rehash-IsTable :
        (m' : HashMap V) × (hashmap_rehash m ≡ some m')
        × (m'.capacity ≡ m.capacity * 2)
        × (m'.count ≡ m.count)
        × (m'.eq_fn ≡ m.eq_fn)
        × IsTable fnv m'
        × ((j : ℕ) → m'.slots j ≢ tombstone)
        × Entries m'
    unfolding hashmap_rehash
    hashmap_rehash-IsTable =
        let (slots, n, e, h) =
          copy_slots-Copies 0 m.capacity (λ _. empty) 0 (omega arith) Copied-start in
        (
          table slots n,
          e,
          refl,
          h.counts ∙ sym t.counted,
          refl,
          h.ordered,
          h.clean,
          (h.from_old, h.to_new),
        )

    pub Entries-Holds :
        (n : HashMap V)
        → n.eq_fn ≡ m.eq_fn
        → Entries n
        → (k : Key) (v : V) → Holds n k v ↔ Holds m k v
    Entries-Holds n same entries k v = (
      λ (j, k', p, s, q).
          let (l, less, s') = entries.0 j k' v p s in
          (l, k', less, s', sym (ap (λ f. f k' k) same) ∙ q),
      λ (l, k', p, s, q).
          let (j, less, s') = entries.1 l k' v p s in (j, k', less, s', ap (λ f. f k' k) same ∙ q),
    )
