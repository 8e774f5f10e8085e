-- ===== src/Runtime/HashMap/Lookup.antt =====
-- `hashmap_get` and `hashmap_contains` of runtime/tinyswift_runtime.c on a table in order.
use native.Mathlib.Nat.{mod-lt}
use mathlib.Core.Path.{subst}
use tinyswift.Prelude.{
  ℕ, zero, suc, ◌+◌, ◌%◌, ◌<◌, ◌≤◌, Bool, true, false, Option, none, some, ◌≡◌, ◌≢◌, refl, sym, ◌∙◌,
  ap, arith, ◌==◌, Bool-cases, inl, inr, ◌↔◌,
}
use tinyswift.Runtime.HashMap.{
  Key, Slot, empty, tombstone, occupied, HashMap, get_at, get_loop, hashmap_get, contains_at,
  contains_loop, hashmap_contains,
}
use tinyswift.Runtime.HashMap.Table.{KeyLaws, IsTable, Holds}

module _ {V : Type 0} where
  pub occupied_key : (k k' : Key) (v w : V) → occupied k v ≡ occupied k' w → k ≡ k'
  occupied_key k k' v w e = ground arith

  pub occupied_value : (k k' : Key) (v w : V) → occupied k v ≡ occupied k' w → v ≡ w
  occupied_value k k' v w e = ground arith

  get_at-Holds :
      (k : Key) (m : HashMap V) (j : ℕ) (x : Slot V) (rest : Option V) (v : V)
      → j < m.capacity
      → m.slots j ≡ x
      → (rest ≡ some v → Holds m k v)
      → get_at k m x rest ≡ some v
      → Holds m k v
  unfolding get_at
  get_at-Holds k m j empty rest v p e h g = ground arith
  get_at-Holds k m j tombstone rest v p e h g = h g
  get_at-Holds k m j (occupied k' w) rest v p e h g = elim (Bool-cases (m.eq_fn k' k)) [
    | inl q ↦ let r : w ≡ v = ground (arith, q) in (j, k', p, e ∙ ap (λ u. occupied k' u) r, q)
    | inr q ↦ h (ground (arith, q))
  ]

  get_loop-Holds :
      (k : Key) (m : HashMap V) (idx i left : ℕ) (v : V)
      → 0 < m.capacity
      → get_loop k m idx i left ≡ some v
      → Holds m k v
  unfolding get_loop
  get_loop-Holds k m idx i zero v p g = ground arith
  get_loop-Holds k m idx i (suc left) v p g =
      get_at-Holds k m ((idx + i) % m.capacity) _ _ v (mod-lt (idx + i) p) refl
        (get_loop-Holds k m idx (suc i) left v p) g

  get_at-here :
      (k : Key) (m : HashMap V) (k' : Key) (v : V) (rest : Option V)
      → m.eq_fn k' k ≡ true
      → get_at k m (occupied k' v) rest ≡ some v
  unfolding get_at
  get_at-here k m k' v rest q = rw q

  -- The slot of a step before the one that is searched for, or that one.
  get_at_step :
      (k : Key) (m : HashMap V) (x : Slot V) (rest : Option V) (v : V)
      → x ≢ empty
      → ((k' : Key) (w : V) → x ≡ occupied k' w → m.eq_fn k' k ≡ true → w ≡ v)
      → rest ≡ some v
      → get_at k m x rest ≡ some v
  unfolding get_at
  get_at_step k m empty rest v n h r = absurd (n refl)
  get_at_step k m tombstone rest v n h r = r
  get_at_step k m (occupied k' w) rest v n h r = elim (Bool-cases (m.eq_fn k' k)) [
    | inl q ↦ ground (arith, q, h k' w refl q)
    | inr q ↦ ground (arith, q, r)
  ]

  get_loop-found :
      (k k' : Key) (m : HashMap V) (idx d i left : ℕ) (v : V)
      → m.slots ((idx + d) % m.capacity) ≡ occupied k' v
      → m.eq_fn k' k ≡ true
      → ((e : ℕ) → e < d → m.slots ((idx + e) % m.capacity) ≢ empty)
      → ((e : ℕ) (k₁ : Key) (w : V)
          → m.slots ((idx + e) % m.capacity) ≡ occupied k₁ w
          → m.eq_fn k₁ k ≡ true
          → w ≡ v)
      → i ≤ d
      → d < i + left
      → get_loop k m idx i left ≡ some v
  unfolding get_loop
  get_loop-found k k' m idx d i zero v s q n u p r = absurd (omega arith)
  get_loop-found k k' m idx d i (suc left) v s q n u p r = elim (Bool-cases (i == d)) [
    | inl e ↦
        let e' : i ≡ d = ground arith in
        ap (λ j. get_at k m (m.slots ((idx + j) % m.capacity)) (get_loop k m idx (suc i) left)) e'
        ∙ ap (λ x. get_at k m x (get_loop k m idx (suc i) left)) s
        ∙ get_at-here k m k' v (get_loop k m idx (suc i) left) q
    | inr e ↦
        get_at_step k m _ _ v (n i (ground arith)) (u i)
          (get_loop-found k k' m idx d (suc i) left v s q n u (ground arith) (omega arith))
  ]

  -- The search finds the value that the table holds, and only that.
  pub hashmap_get-Holds :
      (hash : Key → ℕ) (m : HashMap V)
      → KeyLaws m.eq_fn hash
      → IsTable hash m
      → (k : Key) (v : V) → (hashmap_get k (hash k) m ≡ some v) ↔ Holds m k v
  unfolding hashmap_get
  hashmap_get-Holds hash m laws t k v = (
    get_loop-Holds k m _ 0 m.capacity v t.positive,
    λ h.
        let (i, k', p, s, q) = h in
        let (d, less, at_d, path) = t.reached i k' v p s in
        let c = m.capacity in
        let same = laws.hashes k' k q in
        let at_k : (hash k % c + d) % c ≡ i = ap (λ n. (n % c + d) % c) (sym same) ∙ at_d in
        get_loop-found k k' m (hash k % c) d 0 c v (ap m.slots at_k ∙ s) q
          (λ e le. subst (λ n. m.slots ((n % c + e) % c) ≢ empty) same (path e le))
          (λ e k₁ w s₁ q₁.
            let j = (hash k % c + e) % c in
            let both = laws.transitive k₁ k k' q₁ (laws.symmetric k' k q) in
            let one = t.distinct j i k₁ k' w v (mod-lt _ t.positive) p s₁ s both in
            occupied_value k₁ k' w v (sym s₁ ∙ ap m.slots one ∙ s))
          (omega arith) (omega arith),
  )

  pub same_values : (a b : Option V) → ((v : V) → (a ≡ some v) ↔ (b ≡ some v)) → a ≡ b
  same_values none none h = refl
  same_values (some v) b h = sym ((h v).0 refl)
  same_values none (some v) h = ground (arith, (h v).1 refl)

  -- Two tables in order that hold the same values for a key, or for two keys.
  pub same_get :
      (hash hash' : Key → ℕ) (m m' : HashMap V) (k k' : Key)
      → KeyLaws m.eq_fn hash
      → IsTable hash m
      → KeyLaws m'.eq_fn hash'
      → IsTable hash' m'
      → ((v : V) → Holds m k v ↔ Holds m' k' v)
      → hashmap_get k (hash k) m ≡ hashmap_get k' (hash' k') m'
  same_get hash hash' m m' k k' laws t laws' t' h = same_values _ _ λ v.
      let a = hashmap_get-Holds hash m laws t k v in
      let b = hashmap_get-Holds hash' m' laws' t' k' v in
      (λ e. b.1 ((h v).0 (a.0 e)), λ e. a.1 ((h v).1 (b.0 e)))

  pub Holds-equal :
      (hash : Key → ℕ) (m : HashMap V) (k k' : Key) (v : V)
      → KeyLaws m.eq_fn hash
      → m.eq_fn k k' ≡ true
      → Holds m k v
      → Holds m k' v
  Holds-equal hash m k k' v laws e (i, k₁, p, s, q) = (i, k₁, p, s, laws.transitive k₁ k k' q e)

  abbrev pub found : Option V → Bool
  found none = false
  found (some _) = true

  contains_at-found :
      (k : Key) (m : HashMap V) (x : Slot V) (b : Bool) (o : Option V)
      → b ≡ found o
      → contains_at k m x b ≡ found (get_at k m x o)
  unfolding contains_at get_at
  contains_at-found k m empty b o e = refl
  contains_at-found k m tombstone b o e = e
  contains_at-found k m (occupied k' v) b o e = elim (Bool-cases (m.eq_fn k' k)) [
    | inl q ↦ rw q
    | inr q ↦ rw q e
  ]

  contains_loop-found :
      (k : Key) (m : HashMap V) (idx i left : ℕ)
      → contains_loop k m idx i left ≡ found (get_loop k m idx i left)
  unfolding contains_loop get_loop
  contains_loop-found k m idx i zero = refl
  contains_loop-found k m idx i (suc left) =
      contains_at-found k m _ _ _ (contains_loop-found k m idx (suc i) left)

  pub hashmap_contains-found :
      (k : Key) (h : ℕ) (m : HashMap V) → hashmap_contains k h m ≡ found (hashmap_get k h m)
  unfolding hashmap_contains hashmap_get
  hashmap_contains-found k h m = contains_loop-found k m (h % m.capacity) 0 m.capacity
