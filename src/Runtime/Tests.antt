-- ===== src/Runtime/Tests.antt =====
-- Small tables and arrays of runtime/tinyswift_runtime.c, and the theorems about them there.
use mathlib.Core.Path.{subst}
use tinyswift.Prelude.{
  ℕ, zero, suc, ◌+◌, ◌%◌, true, Option, none, some, [], ◌∷◌, List, [], ◌++◌, ◌≡◌, ◌≢◌, refl, ap,
  arith, leb, get_elem?, if◌then◌else◌, inl, pos, negsuc,
}
use tinyswift.Runtime.HashMap.{
  Key, empty, tombstone, occupied, write, fnv, fnv_from, free_slot, HashMap, hashmap_create,
  hashmap_set, hashmap_get, hashmap_remove, hashmap_contains, hashmap_rehash, ended,
}
use tinyswift.Runtime.HashMap.Table.{KeyLaws, IsTable, Reach}
use tinyswift.Runtime.HashMap.Lookup.{found, occupied_key}
use tinyswift.Runtime.HashMap.Write.{IsTable-write}
use tinyswift.Runtime.HashMap.Rehash.{Entries, hashmap_rehash-IsTable}
use tinyswift.Runtime.HashMap.Refines.{PutIn, hashmap_refines}
use tinyswift.Runtime.DynArray.{
  DynArray, dynarray_append, dynarray_insert, dynarray_remove_at, dynarray_remove_last,
  dynarray_set, dynarray_get,
}
use tinyswift.Runtime.DynArray.Elements.{
  elements, elements?, insert_at, remove_nth, set_nth, drop_last,
}
use tinyswift.Runtime.DynArray.Refines.{Has, dynarray_refines}
use tinyswift.Runtime.Arc.{Heap, done, update, run_deinit}
use tinyswift.Runtime.Arc.Balance.{
  Count, retains, releases, run_counts, counted, counter, run_counts-counter,
}
use tinyswift.Runtime.Hashes.{eq_int, eq_int_refl, eq_int-same, hash_of_key, int_hash, of_bytes}

abbrev key : ℕ → Key
key n = n ∷ 0 ∷ 0 ∷ 0 ∷ 0 ∷ 0 ∷ 0 ∷ 0 ∷ []

-- The keys below a number set one after the other, with the hash of the generated code.
fill : ℕ → Option (HashMap ℕ)
unfolding hashmap_create ended
fill zero = some (hashmap_create eq_int)
fill (suc n) = ended (fill n) (hashmap_set (key n) (hash_of_key (key n)) n)

look : ℕ → ℕ → Option (Option ℕ)
look n k = elim (fill n) [
  | none ↦ none
  | some m ↦ some (hashmap_get (key k) (hash_of_key (key k)) m)
]

-- Twelve keys are found again. The thirteenth `set` rehashes, and then the key 1 is not found.
look_12 : look 12 1 ≡ some (some 1)
unfolding look fill hashmap_set int_hash of_bytes eq_int hashmap_get
look_12 = refl

look_13 : look 13 1 ≡ some none
unfolding look fill hashmap_set int_hash of_bytes eq_int free_slot fnv_from hashmap_get
look_13 = refl

eq_int-KeyLaws : KeyLaws eq_int hash_of_key
eq_int-KeyLaws = record {
  symmetric = λ a b e. subst (λ x. eq_int x a ≡ true) (eq_int-same a b e) (eq_int_refl a);
  transitive = λ a b c e f. subst (λ x. eq_int a x ≡ true) (eq_int-same b c f) e;
  hashes = λ a b e. ap hash_of_key (eq_int-same a b e);
}

abbrev fresh : HashMap ℕ
fresh = record { slots = λ _. empty; count = 0; capacity = 16; eq_fn = eq_int }

fresh-IsTable : (hash : Key → ℕ) → IsTable hash fresh
fresh-IsTable hash = record {
  positive = omega arith;
  reached = λ i k v p e. ground arith;
  distinct = λ i j k k' v v' p q e e' same. ground arith;
  counted = refl;
}

hashmap_refines_example :
    PutIn hash_of_key fresh (key 1) 5 (hashmap_set (key 1) (hash_of_key (key 1)) 5 fresh)
    × ((k' : Key)
        → IsTable hash_of_key (hashmap_remove (key 1) (hash_of_key (key 1)) fresh)
          × (hashmap_get k' (hash_of_key k') (hashmap_remove (key 1) (hash_of_key (key 1)) fresh)
              ≡ (if eq_int (key 1) k' then none else hashmap_get k' (hash_of_key k') fresh)))
    × (hashmap_contains (key 1) (hash_of_key (key 1)) fresh
        ≡ found (hashmap_get (key 1) (hash_of_key (key 1)) fresh))
hashmap_refines_example =
    hashmap_refines hash_of_key fresh (key 1) 5 eq_int-KeyLaws (fresh-IsTable hash_of_key)
      (inl (omega arith))

-- The key 1 in its slot.
abbrev single : HashMap ℕ
single = record {
  slots = write 12 (occupied (key 1) 5) (λ _. empty);
  count = 1;
  capacity = 16;
  eq_fn = eq_int;
}

single-IsTable : IsTable hash_of_key single
unfolding int_hash of_bytes
single-IsTable =
    IsTable-write hash_of_key fresh 12 (occupied (key 1) 5) 1 eq_int-KeyLaws.symmetric
      (fresh-IsTable hash_of_key) (omega arith) (λ e. ground arith)
      (λ k v e.
        subst (λ x. Reach fresh.slots 16 (hash_of_key x % 16) 12) (occupied_key (key 1) k 5 v e)
          (0, omega arith, refl, λ d le. absurd (omega arith)))
      (λ k v e i k' v' p s q. ground arith) refl

hashmap_rehash-IsTable_example :
    (m' : HashMap ℕ) × (hashmap_rehash single ≡ some m')
    × (m'.capacity ≡ 32)
    × (m'.count ≡ 1)
    × (m'.eq_fn ≡ eq_int)
    × IsTable fnv m'
    × ((j : ℕ) → m'.slots j ≢ tombstone)
    × Entries hash_of_key single eq_int-KeyLaws single-IsTable m'
hashmap_rehash-IsTable_example =
    hashmap_rehash-IsTable hash_of_key single eq_int-KeyLaws single-IsTable

-- The array `[7, 8]`.
abbrev array_78 : DynArray ℕ
array_78 = record { data_at = λ i. i + 7; count = 2; capacity = 2 }

dynarray_refines_example :
    Has (elements array_78 ++ 9 ∷ []) (dynarray_append (λ _. true) 9 array_78)
    × Has (insert_at 1 9 (elements array_78)) (dynarray_insert (λ _. true) (pos 1) 9 array_78)
    × Has (remove_nth 1 (elements array_78)) (dynarray_remove_at (pos 1) array_78)
    × Has (drop_last (elements array_78)) (dynarray_remove_last array_78)
    × (elements? (dynarray_set (pos 1) 9 array_78)
        ≡ (if leb 2 1 then none else some (set_nth 1 9 (elements array_78))))
    × (dynarray_get (pos 1) array_78 ≡ get_elem? (elements array_78) 1)
    × (dynarray_insert (λ _. true) (negsuc 1) 9 array_78 ≡ array_78)
    × (dynarray_remove_at (negsuc 1) array_78 ≡ array_78)
    × (dynarray_set (negsuc 1) 9 array_78 ≡ none)
    × (dynarray_get (negsuc 1) array_78 ≡ none)
dynarray_refines_example = dynarray_refines (λ _. true) array_78 1 9 (λ _. refl) (omega arith)

-- An object with two references is retained, released three times, and released again.
abbrev two_references : Heap
two_references = record {
  refcount = update 4 (some (pos 2)) (λ _. none);
  next_object = 5;
  candidates = [];
}

abbrev too_many : List Count
too_many = retains ∷ releases ∷ releases ∷ releases ∷ releases ∷ []

run_counts-counter_example :
    run_counts (λ _ _ h. done h) none 4 too_many two_references
    ≡ counted 4 two_references (counter 2 too_many)
unfolding run_deinit
run_counts-counter_example =
    run_counts-counter (λ _ _ h. done h) none 4 2 too_many two_references (λ _. refl) refl
      (omega arith)
