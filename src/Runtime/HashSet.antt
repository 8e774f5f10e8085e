-- ===== src/Runtime/HashSet.antt =====
-- The hash set of runtime/tinyswift_runtime.c. Its functions are those of the hash map line by line,
-- without the buffer of values: a set is a map to the unit type.
use tinyswift.Prelude.{ℕ, Bool, Option}
use tinyswift.Runtime.HashMap.{
  Key, HashMap, hashmap_create, hashmap_rehash, hashmap_set, hashmap_contains, hashmap_remove,
}

abbrev pub HashSet : Type 0
HashSet = HashMap Unit

unfoldable pub hashset_create : (Key → Key → Bool) → HashSet
unfolding hashmap_create
hashset_create eq = hashmap_create eq

unfoldable pub hashset_rehash : HashSet → Option HashSet
unfolding hashmap_rehash
hashset_rehash s = hashmap_rehash s

unfoldable pub hashset_insert : Key → ℕ → HashSet → Option HashSet
unfolding hashmap_set
hashset_insert x h s = hashmap_set x h tt s

unfoldable pub hashset_contains : Key → ℕ → HashSet → Bool
unfolding hashmap_contains
hashset_contains x h s = hashmap_contains x h s

unfoldable pub hashset_remove : Key → ℕ → HashSet → HashSet
unfolding hashmap_remove
hashset_remove x h s = hashmap_remove x h s
