-- ===== src/Runtime/HashMap.antt =====
-- The hash map and the hash set of runtime/tinyswift_runtime.c. A key is the bytes of its slot, and
-- so is a value's type left open; a buffer is a function from positions, read below the capacity
-- only. A hash is given by its 64-bit pattern.
pub mod Table
pub mod Lookup
pub mod Write
pub mod Remove
pub mod Place
pub mod Set
pub mod Rehash
pub mod Refines
use Prim.Native.Nat.{bit_xor}
use tinyswift.Prelude.{
  ℕ, zero, suc, ◌+◌, ◌-◌, ◌*◌, ◌%◌, ◌^◌, Bool, true, false, Option, none, some, List, [], ◌∷◌, ltb,
  leb, ◌==◌, if◌then◌else◌,
}

abbrev pub Key : Type 0
Key = List ℕ

-- A slot with its state: 0, 2, and 1 with what the buffers hold there.
pub data Slot (V : Type 0) : Type 0 where
  empty tombstone : Slot V
  occupied : Key → V → Slot V

pub record HashMap (V : Type 0) : Type 0 where
  pub slots : ℕ → Slot V
  pub count : ℕ
  pub capacity : ℕ
  pub eq_fn : Key → Key → Bool

-- The store into a slot.
abbrev pub write : {V : Type 0} → ℕ → Slot V → (ℕ → Slot V) → ℕ → Slot V
write j x slots i = if i == j then x else slots i

-- The hash of `hashmap_rehash`: FNV-1a over the bytes of the key.
unfoldable pub fnv_from : ℕ → Key → ℕ
fnv_from h [] = h
fnv_from h (b ∷ bs) = fnv_from (bit_xor h b * 1099511628211 % 2 ^ 64) bs

abbrev pub fnv : Key → ℕ
fnv k = fnv_from 14695981039346656037 k

-- `first_tombstone >= 0 ? first_tombstone : slot`
abbrev pub or_slot : Option ℕ → ℕ → ℕ
or_slot none slot = slot
or_slot (some t) slot = t

module _ {V : Type 0} where
  abbrev pub is_occupied : Slot V → Bool
  is_occupied (occupied _ _) = true
  is_occupied _ = false

  -- The `while` over occupied slots, with as many steps as there are slots; `none` where all of
  -- them were occupied and the loop goes on.
  unfoldable pub free_slot : (ℕ → Slot V) → ℕ → ℕ → ℕ → Option ℕ
  free_slot slots cap idx zero = none
  free_slot slots cap idx (suc left) =
      let rest = free_slot slots cap (suc idx % cap) left in
      if is_occupied (slots idx) then rest else some idx

  -- One entry copied to the new buffers.
  unfoldable pub copy_to : Key → V → HashMap V → Option ℕ → Option (HashMap V)
  copy_to k v m none = none
  copy_to k v m (some idx) =
      some (record m { slots = write idx (occupied k v) m.slots; count = m.count + 1 })

  unfoldable pub copy_slot : Slot V → HashMap V → Option (HashMap V)
  unfolding copy_to
  copy_slot (occupied k v) m =
      copy_to k v m (free_slot m.slots m.capacity (fnv k % m.capacity) m.capacity)
  copy_slot _ m = some m

  -- What follows a loop that ends.
  unfoldable pub ended : Option (HashMap V) → (HashMap V → Option (HashMap V)) → Option (HashMap V)
  ended none f = none
  ended (some m) f = f m

  -- The slots from `i` on, `left` of them, copied.
  unfoldable pub copy_slots : (ℕ → Slot V) → ℕ → ℕ → HashMap V → Option (HashMap V)
  unfolding copy_slot ended
  copy_slots old i zero m = some m
  copy_slots old i (suc left) m = ended (copy_slot (old i) m) (copy_slots old (suc i) left)

  unfoldable pub hashmap_rehash : HashMap V → Option (HashMap V)
  unfolding copy_slots
  hashmap_rehash m =
      copy_slots m.slots 0 m.capacity
        (record m { slots = λ _. empty; count = 0; capacity = m.capacity * 2 })

  unfoldable pub hashmap_create : (Key → Key → Bool) → HashMap V
  hashmap_create eq = record { slots = λ _. empty; count = 0; capacity = 16; eq_fn = eq }

  unfoldable pub add_entry : Key → V → ℕ → HashMap V → HashMap V
  add_entry k v target m = record m {
    slots = write target (occupied k v) m.slots;
    count = m.count + 1;
  }

  -- One slot of the search for a place, with the search from the next slot on, which is given the
  -- first tombstone so far.
  unfoldable pub set_at :
      Key → V → HashMap V → ℕ → Option ℕ → Slot V → (Option ℕ → HashMap V) → HashMap V
  unfolding add_entry
  set_at k v m slot first empty rest = add_entry k v (or_slot first slot) m
  set_at k v m slot first tombstone rest = rest (some (or_slot first slot))
  set_at k v m slot first (occupied k' v') rest =
      let next = rest first in
      if m.eq_fn k' k then record m { slots = write slot (occupied k' v) m.slots } else next

  -- After the last slot.
  unfoldable pub set_end : Key → V → HashMap V → Option ℕ → HashMap V
  unfolding add_entry
  set_end k v m none = m
  set_end k v m (some t) = add_entry k v t m

  unfoldable pub set_loop : Key → V → HashMap V → ℕ → ℕ → ℕ → Option ℕ → HashMap V
  unfolding set_at set_end
  set_loop k v m idx i zero first = set_end k v m first
  set_loop k v m idx i (suc left) first =
      let slot = (idx + i) % m.capacity in
      set_at k v m slot first (m.slots slot) (set_loop k v m idx (suc i) left)

  unfoldable pub set_entry : Key → ℕ → V → HashMap V → HashMap V
  unfolding set_loop
  set_entry k h v m = set_loop k v m (h % m.capacity) 0 m.capacity none

  -- `none` where the rehash does not end.
  unfoldable pub hashmap_set : Key → ℕ → V → HashMap V → Option (HashMap V)
  unfolding hashmap_rehash set_entry ended
  hashmap_set k h v m =
      let rehashed = hashmap_rehash m in
      if leb (m.capacity * 70) (m.count * 100)
      then ended rehashed (λ m'. some (set_entry k h v m'))
      else some (set_entry k h v m)

  unfoldable pub get_at : Key → HashMap V → Slot V → Option V → Option V
  get_at k m empty rest = none
  get_at k m tombstone rest = rest
  get_at k m (occupied k' v) rest = if m.eq_fn k' k then some v else rest

  unfoldable pub get_loop : Key → HashMap V → ℕ → ℕ → ℕ → Option V
  unfolding get_at
  get_loop k m idx i zero = none
  get_loop k m idx i (suc left) =
      get_at k m (m.slots ((idx + i) % m.capacity)) (get_loop k m idx (suc i) left)

  -- The value copied out, `none` where 0 is returned.
  unfoldable pub hashmap_get : Key → ℕ → HashMap V → Option V
  unfolding get_loop
  hashmap_get k h m = get_loop k m (h % m.capacity) 0 m.capacity

  unfoldable pub contains_at : Key → HashMap V → Slot V → Bool → Bool
  contains_at k m empty rest = false
  contains_at k m tombstone rest = rest
  contains_at k m (occupied k' _) rest = if m.eq_fn k' k then true else rest

  unfoldable pub contains_loop : Key → HashMap V → ℕ → ℕ → ℕ → Bool
  unfolding contains_at
  contains_loop k m idx i zero = false
  contains_loop k m idx i (suc left) =
      contains_at k m (m.slots ((idx + i) % m.capacity)) (contains_loop k m idx (suc i) left)

  unfoldable pub hashmap_contains : Key → ℕ → HashMap V → Bool
  unfolding contains_loop
  hashmap_contains k h m = contains_loop k m (h % m.capacity) 0 m.capacity

  unfoldable pub remove_at : Key → HashMap V → ℕ → Slot V → HashMap V → HashMap V
  remove_at k m slot empty rest = m
  remove_at k m slot tombstone rest = rest
  remove_at k m slot (occupied k' _) rest =
      if m.eq_fn k' k
      then record m { slots = write slot tombstone m.slots; count = m.count - 1 }
      else rest

  unfoldable pub remove_loop : Key → HashMap V → ℕ → ℕ → ℕ → HashMap V
  unfolding remove_at
  remove_loop k m idx i zero = m
  remove_loop k m idx i (suc left) =
      let slot = (idx + i) % m.capacity in
      remove_at k m slot (m.slots slot) (remove_loop k m idx (suc i) left)

  unfoldable pub hashmap_remove : Key → ℕ → HashMap V → HashMap V
  unfolding remove_loop
  hashmap_remove k h m = remove_loop k m (h % m.capacity) 0 m.capacity
