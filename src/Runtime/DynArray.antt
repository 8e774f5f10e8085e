-- ===== src/Runtime/DynArray.antt =====
-- The dynamic array of runtime/tinyswift_runtime.c. The buffer is a function from positions, read
-- below the count only. Whether `realloc` succeeds for a number of elements is a parameter, and an
-- index is an `int64_t`.
pub mod Elements
pub mod Refines
use tinyswift.Prelude.{
  ℕ, zero, suc, ◌+◌, ◌-◌, ◌*◌, Bool, true, false, Option, none, some, ℤ, pos, negsuc, ltb, leb,
  ◌==◌, if◌then◌else◌,
}

pub record DynArray (V : Type 0) : Type 0 where
  pub data_at : ℕ → V
  pub count : ℕ
  pub capacity : ℕ

unfoldable pub new_capacity : ℕ → ℕ
new_capacity c = if c == 0 then 8 else c * 2

module _ {V : Type 0} where
  -- The store of an element.
  unfoldable pub store : ℕ → V → (ℕ → V) → ℕ → V
  store i x d j = if j == i then x else d j

  -- `memmove` of the elements from `i` up to the count, one place up; and from `i + 1`, one down.
  unfoldable pub shift_up : ℕ → ℕ → (ℕ → V) → ℕ → V
  shift_up i n d j = if leb j i then d j else if leb j n then d (j - 1) else d j

  unfoldable pub shift_down : ℕ → ℕ → (ℕ → V) → ℕ → V
  shift_down i n d j = if ltb j i then d j else if ltb j (n - 1) then d (suc j) else d j

  -- Room for one element more; `none` where `realloc` fails.
  unfoldable pub grow : (ℕ → Bool) → DynArray V → Option (DynArray V)
  unfolding new_capacity
  grow realloc a =
      if leb a.capacity a.count
      then if realloc (new_capacity a.capacity)
        then some (record a { capacity = new_capacity a.capacity })
        else none
      else some a

  -- The new element goes to the end.
  unfoldable pub put_last : V → DynArray V → DynArray V
  unfolding store
  put_last x a = record a { data_at = store a.count x a.data_at; count = a.count + 1 }

  unfoldable pub put_at : ℕ → V → DynArray V → DynArray V
  unfolding store shift_up
  put_at i x a = record a {
    data_at = store i x (if ltb i a.count then shift_up i a.count a.data_at else a.data_at);
    count = a.count + 1;
  }

  -- `if (!new_data) return;`
  unfoldable pub if_grown :
      DynArray V → (DynArray V → DynArray V) → Option (DynArray V) → DynArray V
  if_grown a f none = a
  if_grown a f (some a') = f a'

  unfoldable pub dynarray_append : (ℕ → Bool) → V → DynArray V → DynArray V
  unfolding grow put_last if_grown
  dynarray_append realloc x a = if_grown a (put_last x) (grow realloc a)

  unfoldable pub dynarray_insert : (ℕ → Bool) → ℤ → V → DynArray V → DynArray V
  unfolding grow put_at if_grown
  dynarray_insert realloc (pos i) x a =
      if ltb a.count i then a else if_grown a (put_at i x) (grow realloc a)
  dynarray_insert realloc (negsuc _) x a = a

  -- `none` where the program is aborted.
  unfoldable pub dynarray_get : ℤ → DynArray V → Option V
  dynarray_get (pos i) a = if leb a.count i then none else some (a.data_at i)
  dynarray_get (negsuc _) a = none

  unfoldable pub dynarray_set : ℤ → V → DynArray V → Option (DynArray V)
  unfolding store
  dynarray_set (pos i) x a =
      if leb a.count i then none else some (record a { data_at = store i x a.data_at })
  dynarray_set (negsuc _) x a = none

  unfoldable pub dynarray_remove_last : DynArray V → DynArray V
  dynarray_remove_last a = if ltb 0 a.count then record a { count = a.count - 1 } else a

  unfoldable pub dynarray_remove_at : ℤ → DynArray V → DynArray V
  unfolding shift_down
  dynarray_remove_at (pos i) a = if leb a.count i then a else record a {
    data_at = if ltb i (a.count - 1) then shift_down i a.count a.data_at else a.data_at;
    count = a.count - 1;
  }
  dynarray_remove_at (negsuc _) a = a

  unfoldable pub dynarray_clear : DynArray V → DynArray V
  dynarray_clear a = record a { count = 0 }

  -- No buffer yet: what its positions will hold is left open.
  unfoldable pub dynarray_create : (ℕ → V) → DynArray V
  dynarray_create d = record { data_at = d; count = 0; capacity = 0 }
