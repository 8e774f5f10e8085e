-- ===== src/Runtime/HashMap/Place.antt =====
-- Where the search of `hashmap_set` in runtime/tinyswift_runtime.c ends, on a table in order.
use mathlib.Core.Path.{subst}
use native.Mathlib.Nat.{mod-lt}
use tinyswift.Prelude.{
  ℕ, zero, suc, ◌+◌, ◌%◌, ◌<◌, ◌≤◌, true, false, Option, none, some, ◌≡◌, ◌≢◌, refl, sym, ◌∙◌, ap,
  arith, ◌==◌, Bool-cases, inl, inr, ◌⊎◌,
}
use tinyswift.Runtime.HashMap.{
  Key, Slot, empty, tombstone, occupied, HashMap, is_occupied, write, add_entry, or_slot, set_at,
  set_end, set_loop, set_entry,
}
use tinyswift.Runtime.HashMap.Lookup.{occupied_key}

module _ {V : Type 0} where
  -- The step of a search that starts at `idx`, the steps before a number of them with no empty slot
  -- and no slot that holds the key, and a step to a slot.
  abbrev pub step : HashMap V → ℕ → ℕ → ℕ
  step m idx e = (idx + e) % m.capacity

  pub record Passed (k : Key) (m : HashMap V) (idx i : ℕ) : Type 0 where
    pub filled : (e : ℕ) → e < i → m.slots (step m idx e) ≢ empty
    pub foreign :
        (e : ℕ) (k' : Key) (v : V)
        → e < i
        → m.slots (step m idx e) ≡ occupied k' v
        → m.eq_fn k' k ≡ false

  -- The slot is that of a step that was passed.
  abbrev pub StepBefore : HashMap V → ℕ → ℕ → ℕ → Type 0
  StepBefore m idx i t = (d : ℕ) × (d < i) × (step m idx d ≡ t)

  abbrev pub FirstOf : HashMap V → ℕ → ℕ → Option ℕ → Type 0
  FirstOf m idx i none = (e : ℕ) → e < i → is_occupied (m.slots (step m idx e)) ≡ true
  FirstOf m idx i (some t) = StepBefore m idx i t × (m.slots t ≡ tombstone)

  -- A slot to be filled: not occupied, at a step up to which no slot is empty or holds the key; and
  -- where the search ended, at an empty slot or after all of them.
  abbrev pub Vacant : Key → HashMap V → ℕ → ℕ → Type 0
  Vacant k m idx t =
      (is_occupied (m.slots t) ≡ false)
      × ((d : ℕ) × (d < m.capacity)
          × (step m idx d ≡ t)
          × ((e : ℕ) → e < d → m.slots (step m idx e) ≢ empty))
      × ((i : ℕ) × Passed k m idx i
          × ((i ≡ m.capacity) ⊎ ((i < m.capacity) × (m.slots (step m idx i) ≡ empty))))

  abbrev pub SetOutcome : Key → V → HashMap V → ℕ → HashMap V → Type 0
  SetOutcome k v m idx m' =
      ((j : ℕ) × (k' : Key) × (w : V) × (j < m.capacity)
        × (m.slots j ≡ occupied k' w)
        × (m.eq_fn k' k ≡ true)
        × (m' ≡ record m { slots = write j (occupied k' v) m.slots }))
      ⊎ ((t : ℕ) × (t < m.capacity) × Vacant k m idx t × (m' ≡ add_entry k v t m))
      ⊎ ((e : ℕ) → e < m.capacity → is_occupied (m.slots (step m idx e)) ≡ true)

  Passed-start : (k : Key) (m : HashMap V) (idx : ℕ) → Passed k m idx 0
  Passed-start k m idx = record {
    filled = λ e le. absurd (omega arith);
    foreign = λ e k' v le. absurd (omega arith);
  }

  -- One step more.
  Passed-next :
      (k : Key) (m : HashMap V) (idx i : ℕ)
      → Passed k m idx i
      → m.slots (step m idx i) ≢ empty
      → ((k' : Key) (v : V) → m.slots (step m idx i) ≡ occupied k' v → m.eq_fn k' k ≡ false)
      → Passed k m idx (suc i)
  Passed-next k m idx i p ne other = record {
    filled = λ e le q. elim (Bool-cases (e == i)) [
      | inl b ↦ let r : e ≡ i = ground arith in ne (ap (λ j. m.slots (step m idx j)) (sym r) ∙ q)
      | inr b ↦ p.filled e (ground arith) q
    ];
    foreign = λ e k' v le q. elim (Bool-cases (e == i)) [
      | inl b ↦
          let r : e ≡ i = ground arith in other k' v (ap (λ j. m.slots (step m idx j)) (sym r) ∙ q)
      | inr b ↦ p.foreign e k' v (ground arith) q
    ];
  }

  FirstOf-occupied :
      (m : HashMap V) (idx i : ℕ) (first : Option ℕ)
      → FirstOf m idx i first
      → is_occupied (m.slots (step m idx i)) ≡ true
      → FirstOf m idx (suc i) first
  FirstOf-occupied m idx i none h o = λ e le. elim (Bool-cases (e == i)) [
    | inl b ↦ let r : e ≡ i = ground arith in ap (λ j. is_occupied (m.slots (step m idx j))) r ∙ o
    | inr b ↦ h e (ground arith)
  ]
  FirstOf-occupied m idx i (some t) ((d, less, at_d), s) o = ((d, omega arith, at_d), s)

  FirstOf-tombstone :
      (m : HashMap V) (idx i : ℕ) (first : Option ℕ)
      → FirstOf m idx i first
      → m.slots (step m idx i) ≡ tombstone
      → FirstOf m idx (suc i) (some (or_slot first (step m idx i)))
  FirstOf-tombstone m idx i none h s = ((i, omega arith, refl), s)
  FirstOf-tombstone m idx i (some t) ((d, less, at_d), s) _ = ((d, omega arith, at_d), s)

  -- The first tombstone is vacant where the search ends.
  first-Vacant :
      (k : Key) (m : HashMap V) (idx i t : ℕ)
      → i ≤ m.capacity
      → Passed k m idx i
      → StepBefore m idx i t
      → m.slots t ≡ tombstone
      → ((i ≡ m.capacity) ⊎ ((i < m.capacity) × (m.slots (step m idx i) ≡ empty)))
      → Vacant k m idx t
  first-Vacant k m idx i t le p (d, less, at_d) s end =
      (ap is_occupied s, (d, omega arith, at_d, λ e q. p.filled e (omega arith)), (i, p, end))

  set_end-Outcome :
      (k : Key) (v : V) (m : HashMap V) (idx : ℕ) (first : Option ℕ)
      → 0 < m.capacity
      → Passed k m idx m.capacity
      → FirstOf m idx m.capacity first
      → SetOutcome k v m idx (set_end k v m first)
  unfolding set_end
  set_end-Outcome k v m idx none pos p h = inr (inr h)
  set_end-Outcome k v m idx (some t) pos p ((d, less, at_d), s) =
      let b = subst (λ j. j < m.capacity) at_d (mod-lt (idx + d) pos) in
      inr (
        inl (
          t,
          b,
          first-Vacant k m idx m.capacity t (omega arith) p (d, less, at_d) s (inl refl),
          refl,
        ))

  set_empty-Outcome :
      (k : Key) (v : V) (m : HashMap V) (idx i : ℕ) (first : Option ℕ)
      → 0 < m.capacity
      → i < m.capacity
      → Passed k m idx i
      → FirstOf m idx i first
      → m.slots (step m idx i) ≡ empty
      → SetOutcome k v m idx (add_entry k v (or_slot first (step m idx i)) m)
  set_empty-Outcome k v m idx i none pos less p h s = inr (
      inl (
        step m idx i,
        mod-lt (idx + i) pos,
        (ap is_occupied s, (i, less, refl, p.filled), (i, p, inr (less, s))),
        refl,
      ))
  set_empty-Outcome k v m idx i (some t) pos less p ((d, less', at_d), s') s =
      let b = subst (λ j. j < m.capacity) at_d (mod-lt (idx + d) pos) in
      inr (
        inl (
          t,
          b,
          first-Vacant k m idx i t (omega arith) p (d, less', at_d) s' (inr (less, s)),
          refl,
        ))

  set_at-Outcome :
      (k : Key) (v : V) (m : HashMap V) (idx i : ℕ) (first : Option ℕ) (x : Slot V)
      (rest : Option ℕ → HashMap V)
      → 0 < m.capacity
      → i < m.capacity
      → Passed k m idx i
      → FirstOf m idx i first
      → m.slots (step m idx i) ≡ x
      → ((f : Option ℕ)
          → Passed k m idx (suc i)
          → FirstOf m idx (suc i) f
          → SetOutcome k v m idx (rest f))
      → SetOutcome k v m idx (set_at k v m (step m idx i) first x rest)
  unfolding set_at
  set_at-Outcome k v m idx i first empty rest pos less p h s go =
      set_empty-Outcome k v m idx i first pos less p h s
  set_at-Outcome k v m idx i first tombstone rest pos less p h s go =
      go _ (Passed-next k m idx i p (λ e. ground (arith, e, s)) (λ k' w e. ground (arith, e, s)))
        (FirstOf-tombstone m idx i first h s)
  set_at-Outcome k v m idx i first (occupied k' w) rest pos less p h s go =
      elim (Bool-cases (m.eq_fn k' k)) [
        | inl q ↦ rw q (inl (step m idx i, k', w, mod-lt (idx + i) pos, s, q, refl))
        | inr q ↦ rw q (
            go first
              (Passed-next k m idx i p (λ e. ground (arith, e, s))
                (λ k₁ w₁ e. ap (λ l. m.eq_fn l k) (occupied_key k₁ k' w₁ w (sym e ∙ s)) ∙ q))
              (FirstOf-occupied m idx i first h (ap is_occupied s)))
      ]

  set_loop-Outcome :
      (k : Key) (v : V) (m : HashMap V) (idx i left : ℕ) (first : Option ℕ)
      → 0 < m.capacity
      → i + left ≡ m.capacity
      → Passed k m idx i
      → FirstOf m idx i first
      → SetOutcome k v m idx (set_loop k v m idx i left first)
  unfolding set_loop
  set_loop-Outcome k v m idx i zero first pos sum p h =
      let e : i ≡ m.capacity = omega arith in
      set_end-Outcome k v m idx first pos (subst (Passed k m idx) e p)
        (subst (λ n. FirstOf m idx n first) e h)
  set_loop-Outcome k v m idx i (suc left) first pos sum p h =
      set_at-Outcome k v m idx i first (m.slots (step m idx i)) _ pos (omega arith) p h refl
        (λ f p' h'. set_loop-Outcome k v m idx (suc i) left f pos (omega arith) p' h')

  -- The search for a place ends at a slot that holds the key, or at a vacant one, unless all slots
  -- are occupied.
  pub set_entry-Outcome :
      (k : Key) (h : ℕ) (v : V) (m : HashMap V)
      → 0 < m.capacity
      → SetOutcome k v m (h % m.capacity) (set_entry k h v m)
  unfolding set_entry
  set_entry-Outcome k h v m pos =
      set_loop-Outcome k v m (h % m.capacity) 0 m.capacity none pos (omega arith)
        (Passed-start k m _) (λ e le. absurd (omega arith))
