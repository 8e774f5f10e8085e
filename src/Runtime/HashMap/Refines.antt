-- ===== src/Runtime/HashMap/Refines.antt =====
-- The hash map of runtime/tinyswift_runtime.c as a finite map.
use mathlib.Core.Path.{subst, fun_ext}
use tinyswift.Prelude.{
  ℕ, ◌*◌, ◌<◌, ◌≤◌, true, false, Option, none, some, ◌≡◌, refl, sym, ◌∙◌, ap, arith, if◌then◌else◌,
  Bool-cases, inl, inr, ltb, leb, ◌⊎◌,
}
use tinyswift.Runtime.HashMap.{
  Key, HashMap, fnv, hashmap_set, hashmap_get, hashmap_remove, hashmap_contains, set_entry, ended,
}
use tinyswift.Runtime.HashMap.Table.{KeyLaws, IsTable, occupied_below-le}
use tinyswift.Runtime.HashMap.Lookup.{same_get, found, hashmap_contains-found}
use tinyswift.Runtime.HashMap.Set.{set_entry-gets}
use tinyswift.Runtime.HashMap.Remove.{hashmap_remove-gets}
use tinyswift.Runtime.HashMap.Rehash.{hashmap_rehash-IsTable, Entries-Holds}

module _ {V : Type 0} where
  -- A result that is a table in order, with one entry put in.
  abbrev pub PutIn : (Key → ℕ) → HashMap V → Key → V → Option (HashMap V) → Type 0
  PutIn hash m k v o =
      (m' : HashMap V) × (o ≡ some m')
      × IsTable hash m'
      × ((k' : Key)
          → hashmap_get k' (hash k') m'
            ≡ (if m.eq_fn k k' then some v else hashmap_get k' (hash k') m))

  -- A table that is not full to seven tenths is not rehashed.
  set_roomy :
      (hash : Key → ℕ) (m : HashMap V) (k : Key) (v : V)
      → KeyLaws m.eq_fn hash
      → IsTable hash m
      → m.count * 100 < m.capacity * 70
      → PutIn hash m k v (hashmap_set k (hash k) v m)
  unfolding hashmap_set
  set_roomy hash m k v laws t roomy =
      let b : leb (m.capacity * 70) (m.count * 100) ≡ false = ground arith in
      let (u, g) = set_entry-gets hash m laws t k v (omega arith) in
      rw b (set_entry k (hash k) v m, refl, u, g)

  -- A rehash keeps what the table gives, for the hash of the key's bytes.
  set_rehashed :
      (m : HashMap V) (k : Key) (v : V)
      → KeyLaws m.eq_fn fnv
      → IsTable fnv m
      → m.capacity * 70 ≤ m.count * 100
      → PutIn fnv m k v (hashmap_set k (fnv k) v m)
  unfolding hashmap_set ended
  set_rehashed m k v laws t full =
      let b : leb (m.capacity * 70) (m.count * 100) ≡ true = ground arith in
      let (m', e, cap, count, same, t', _, entries) = hashmap_rehash-IsTable fnv m laws t in
      let laws' = subst (λ f. KeyLaws f fnv) (sym same) laws in
      let le = occupied_below-le m.slots m.capacity in
      let (u, g) =
        set_entry-gets fnv m' laws' t' k v (omega (arith, cap, count, t.counted, t.positive, le)) in
      rw b (
        rw e (
          set_entry k (fnv k) v m',
          refl,
          u,
          λ k'.
              g k'
              ∙ ap (λ o. if m'.eq_fn k k' then some v else o)
                  (same_get fnv fnv m' m k' k' laws' t' laws t
                    (Entries-Holds fnv m laws t m' same entries k'))
              ∙ ap (λ f. if f k k' then some v else hashmap_get k' (fnv k') m) same,
        ))

  set_any :
      (m : HashMap V) (k : Key) (v : V)
      → KeyLaws m.eq_fn fnv
      → IsTable fnv m
      → PutIn fnv m k v (hashmap_set k (fnv k) v m)
  set_any m k v laws t = elim (Bool-cases (ltb (m.count * 100) (m.capacity * 70))) [
    | inl b ↦ set_roomy fnv m k v laws t (ground arith)
    | inr b ↦ set_rehashed m k v laws t (ground arith)
  ]

  -- On a table in order the three operations are those of a finite map: after `set` the key, and any
  -- key equal to it, has the value, and after `remove` none; all others have what they had;
  -- `contains` tells whether `get` finds a value. For `set` the table must have room below the load
  -- factor, or the caller's hash must be the one that a rehash computes; the rehash then ends.
  pub hashmap_refines :
      (hash : Key → ℕ) (m : HashMap V) (k : Key) (v : V)
      → KeyLaws m.eq_fn hash
      → IsTable hash m
      → ((m.count * 100 < m.capacity * 70) ⊎ ((k' : Key) → hash k' ≡ fnv k'))
      → PutIn hash m k v (hashmap_set k (hash k) v m)
        × ((k' : Key)
            → IsTable hash (hashmap_remove k (hash k) m)
              × (hashmap_get k' (hash k') (hashmap_remove k (hash k) m)
                  ≡ (if m.eq_fn k k' then none else hashmap_get k' (hash k') m)))
        × (hashmap_contains k (hash k) m ≡ found (hashmap_get k (hash k) m))
  hashmap_refines hash m k v laws t ok = (
    elim ok [
      | inl roomy ↦ set_roomy hash m k v laws t roomy
      | inr e ↦
          subst (λ f. KeyLaws m.eq_fn f → IsTable f m → PutIn f m k v (hashmap_set k (f k) v m))
            (sym (fun_ext e)) (set_any m k v) laws t
    ],
    λ k'. hashmap_remove-gets hash m laws t k k',
    hashmap_contains-found k (hash k) m,
  )
