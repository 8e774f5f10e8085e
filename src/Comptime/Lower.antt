-- ===== src/Comptime/Lower.antt =====
-- `ValueToSemIR` of toolchain/check/comptime_eval.cpp: a value as instructions of the semantic IR.
-- An instruction is known by its position; a literal holds its value where the source holds an
-- index into a store of values.
pub mod Represents
use tinyswift.Prelude.{
  ℕ, zero, suc, ◌+◌, ◌<◌, ◌≤◌, Bool, true, false, Option, none, some, List, [], ◌∷◌, ◌++◌, String,
  ℤ, pos, length, get_elem?, ◌≡◌, arith,
}
use tinyswift.Comptime.Value.{
  Value, none_value, int, bool, float, string, array, struct, Values, empty, item, Fields,
  no_fields, field, Entity, Host,
}

-- A type: a builtin by its name, a declared struct, or none.
pub data SemType : Type 0 where
  builtin : String → SemType
  declared : String → SemType
  no_type : SemType

pub data Inst : Type 0 where
  int_inst : SemType → ℤ → Inst
  bool_literal : SemType → Bool → Inst
  float_inst : SemType → ℕ → Inst
  string_literal : SemType → String → Inst
  array_literal_init : SemType → List ℕ → Inst
  struct_init : SemType → List ℕ → Inst

abbrev pub type_of : Inst → SemType
type_of (int_inst t _) = t
type_of (bool_literal t _) = t
type_of (float_inst t _) = t
type_of (string_literal t _) = t
type_of (array_literal_init t _) = t
type_of (struct_init t _) = t

-- `AddInst`: the new instruction's position and the block with it.
unfoldable pub add_inst : Inst → List Inst → ℕ × List Inst
add_inst i is = (length is, is ++ i ∷ [])

unfoldable pub inst_type : Option Inst → SemType
inst_type none = builtin "Int"
inst_type (some i) = type_of i

-- The type of an array's elements: that of the first, and Int where there is none.
unfoldable pub element_type : List ℕ → List Inst → SemType
unfolding inst_type
element_type [] is = builtin "Int"
element_type (e ∷ _) is = inst_type (get_elem? is e)

unfoldable pub struct_type_of : String → Option Entity → SemType
struct_type_of x none = no_type
struct_type_of x (some _) = declared x

unfoldable mutual
  unfolding add_inst

  pub value_to_semir : Host → Value → List Inst → ℕ × List Inst
  value_to_semir h (int a) is = add_inst (int_inst (builtin "Int") a) is
  value_to_semir h (bool b) is = add_inst (bool_literal (builtin "Bool") b) is
  value_to_semir h (float d) is = add_inst (float_inst (builtin "Double") d) is
  value_to_semir h (string t) is = add_inst (string_literal (builtin "String") t) is
  value_to_semir h (array vs) is =
      let (es, js) = values_to_semir h vs is in
      add_inst (array_literal_init (element_type es js) es) js
  value_to_semir h (struct x fs) is =
      let (es, js) = fields_to_semir h fs is in
      add_inst (struct_init (struct_type_of x (h.lookup_name x)) es) js
  value_to_semir h none_value is = add_inst (int_inst (builtin "Int") (pos 0)) is

  pub values_to_semir : Host → Values → List Inst → List ℕ × List Inst
  values_to_semir h empty is = ([], is)
  values_to_semir h (item v vs) is =
      let (e, js) = value_to_semir h v is in let (es, ks) = values_to_semir h vs js in (e ∷ es, ks)

  pub fields_to_semir : Host → Fields → List Inst → List ℕ × List Inst
  fields_to_semir h no_fields is = ([], is)
  fields_to_semir h (field x v fs) is =
      let (e, js) = value_to_semir h v is in let (es, ks) = fields_to_semir h fs js in (e ∷ es, ks)
