-- ===== src/Runtime/HashMap/Table.antt =====
-- When the slots of a hash map of runtime/tinyswift_runtime.c are in order, for a hash of its keys.
use native.Mathlib.Nat.{mod-eq_of_lt, mod-eq-sub-mod}
use tinyswift.Prelude.{
  ℕ, zero, suc, ◌+◌, ◌-◌, ◌%◌, ◌<◌, ◌≤◌, Bool, true, false, ◌≡◌, ◌≢◌, ◌∙◌, ap, arith, if◌then◌else◌,
  Bool-cases, inl, inr, ltb, ltb→lt,
}
use tinyswift.Runtime.HashMap.{Key, Slot, empty, occupied, HashMap, is_occupied}

-- What a caller gives: `eq_fn` is symmetric and transitive, and equal keys have equal hashes.
pub record KeyLaws (eq : Key → Key → Bool) (hash : Key → ℕ) : Type 0 where
  pub symmetric : (a b : Key) → eq a b ≡ true → eq b a ≡ true
  pub transitive : (a b c : Key) → eq a b ≡ true → eq b c ≡ true → eq a c ≡ true
  pub hashes : (a b : Key) → eq a b ≡ true → hash a ≡ hash b

-- Every slot is a step of the search.
pub step_to : (c idx i : ℕ) → idx < c → i < c → (d : ℕ) × (d < c) × ((idx + d) % c ≡ i)
step_to c idx i p q = elim (Bool-cases (ltb i idx)) [
  | inl e ↦
      let d = c + i - idx in
      let b : c ≤ idx + d = omega (arith, ltb→lt i idx e) in
      let r : idx + d - c ≡ i = omega (arith, ltb→lt i idx e) in
      let s : i < c = q in
      (d, omega (arith, ltb→lt i idx e), mod-eq-sub-mod b ∙ ap (λ n. n % c) r ∙ mod-eq_of_lt s)
  | inr e ↦
      let d = i - idx in
      let r : idx + d ≡ i = ground arith in (d, omega arith, ap (λ n. n % c) r ∙ mod-eq_of_lt q)
]

module _ {V : Type 0} where
  -- The number of occupied slots below a position.
  abbrev pub occupied_below : (ℕ → Slot V) → ℕ → ℕ
  occupied_below slots zero = 0
  occupied_below slots (suc n) = occupied_below slots n + (if is_occupied (slots n) then 1 else 0)

  -- A search that starts at `idx` comes to slot `i` before it comes to an empty one.
  abbrev pub Reach : (ℕ → Slot V) → ℕ → ℕ → ℕ → Type 0
  Reach slots c idx i =
      (d : ℕ) × (d < c) × ((idx + d) % c ≡ i) × ((e : ℕ) → e < d → slots ((idx + e) % c) ≢ empty)

  pub record IsTable (hash : Key → ℕ) (m : HashMap V) : Type 0 where
    pub positive : 0 < m.capacity
    pub reached :
        (i : ℕ) (k : Key) (v : V)
        → i < m.capacity
        → m.slots i ≡ occupied k v
        → Reach m.slots m.capacity (hash k % m.capacity) i
    pub distinct :
        (i j : ℕ) (k k' : Key) (v v' : V)
        → i < m.capacity
        → j < m.capacity
        → m.slots i ≡ occupied k v
        → m.slots j ≡ occupied k' v'
        → m.eq_fn k k' ≡ true
        → i ≡ j
    pub counted : m.count ≡ occupied_below m.slots m.capacity

  -- The map holds a value for a key.
  abbrev pub Holds : HashMap V → Key → V → Type 0
  Holds m k v =
      (i : ℕ) × (k' : Key) × (i < m.capacity) × (m.slots i ≡ occupied k' v) × (m.eq_fn k' k ≡ true)

  -- A slot that is not occupied, where there are fewer occupied ones than slots.
  pub some_free :
      (slots : ℕ → Slot V) (c : ℕ)
      → occupied_below slots c < c
      → (i : ℕ) × (i < c) × (is_occupied (slots i) ≡ false)
  some_free slots zero h = absurd (omega arith)
  some_free slots (suc c) h = elim (Bool-cases (is_occupied (slots c))) [
    | inl e ↦ let (i, p, q) = some_free slots c (ground (arith, e)) in (i, omega arith, q)
    | inr e ↦ (c, omega arith, e)
  ]

  pub occupied_below-le : (slots : ℕ → Slot V) (c : ℕ) → occupied_below slots c ≤ c
  occupied_below-le slots zero = omega arith
  occupied_below-le slots (suc c) = ground (arith, occupied_below-le slots c)
