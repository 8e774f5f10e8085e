-- ===== src/Comptime/Value.antt =====
-- `ComptimeValue` of toolchain/check/comptime_eval.h: the values of the evaluator and their
-- conversions. A `double` is the number of its 64-bit pattern, and its arithmetic is a parameter;
-- a text is a sequence of bytes.
use tinyswift.Prelude.{
  ℕ, zero, suc, Bool, true, false, not, Option, none, some, List, [], ◌∷◌, String, ℤ, pos, id_eq,
  if◌then◌else◌, str_eq,
}

mutual
  pub data Value : Type 0 where
    none_value : Value
    int : ℤ → Value
    bool : Bool → Value
    float : ℕ → Value
    string : String → Value
    array : Values → Value
    struct : String → Fields → Value

  pub data Values : Type 0 where
    empty : Values
    item : Value → Values → Values

  pub data Fields : Type 0 where
    no_fields : Fields
    field : String → Value → Fields → Fields

-- The arithmetic of the machine's `double`, the number parsers of llvm::StringRef, and the names
-- that the checker has declared.
pub data Entity : Type 0 where
  function_decl : ℤ → Entity
  struct_type : List (Option String × Bool) → Entity
  other_inst : Entity

pub record Host : Type 0 where
  pub parse_int : String → Option ℕ
  pub parse_double : String → ℕ
  pub double_of_int : ℤ → ℕ
  pub int_of_double : ℕ → Option ℤ
  pub add_double : ℕ → ℕ → ℕ
  pub sub_double : ℕ → ℕ → ℕ
  pub mul_double : ℕ → ℕ → ℕ
  pub div_double : ℕ → ℕ → ℕ
  pub neg_double : ℕ → ℕ
  pub eq_double : ℕ → ℕ → Bool
  pub lt_double : ℕ → ℕ → Bool
  pub le_double : ℕ → ℕ → Bool
  pub lookup_name : String → Option Entity

unfoldable pub is_numeric : Value → Bool
is_numeric (int _) = true
is_numeric (float _) = true
is_numeric _ = false

unfoldable pub is_float : Value → Bool
is_float (float _) = true
is_float _ = false

-- `none` where the conversion of a `double` is undefined.
unfoldable pub to_int64 : Host → Value → Option ℤ
to_int64 h (int a) = some a
to_int64 h (float d) = h.int_of_double d
to_int64 h (bool true) = some (pos 1)
to_int64 h (bool false) = some (pos 0)
to_int64 h _ = some (pos 0)

-- The pattern of 0.0 is 0.
unfoldable pub to_double : Host → Value → ℕ
to_double h (float d) = d
to_double h (int a) = h.double_of_int a
to_double h _ = 0

unfoldable pub to_bool : Value → Bool
unfolding id_eq
to_bool (bool b) = b
to_bool (int a) = not (id_eq a (pos 0))
to_bool _ = false

-- `array_vals.size()`
unfoldable pub count : Values → ℕ
count empty = 0
count (item _ vs) = suc (count vs)

-- `array_vals.push_back(v)`
unfoldable pub push_back : Values → Value → Values
push_back empty v = item v empty
push_back (item w ws) v = item w (push_back ws v)

-- `array_vals[i]`
unfoldable pub element : Values → ℕ → Option Value
element empty i = none
element (item v vs) zero = some v
element (item v vs) (suc i) = element vs i

-- `array_vals[i] = v`
unfoldable pub set_element : Values → ℕ → Value → Values
set_element empty i v = empty
set_element (item w ws) zero v = item v ws
set_element (item w ws) (suc i) v = item w (set_element ws i v)

-- The value of the first field of a name.
unfoldable pub find_field : String → Fields → Option Value
find_field f no_fields = none
find_field f (field g v fs) = if str_eq g f then some v else find_field f fs

-- The first field of a name overwritten, if there is one.
unfoldable pub set_field : String → Value → Fields → Option Fields
set_field f v no_fields = none
set_field f v (field g w fs) =
    let rest = set_field f v fs in
    if str_eq g f
    then some (field g v fs)
    else elim rest [ none ↦ none | some fs' ↦ some (field g w fs') ]

unfoldable pub to_items : List Value → Values
to_items [] = empty
to_items (v ∷ vs) = item v (to_items vs)
