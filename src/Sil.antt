-- ===== src/Sil.antt =====
-- The intermediate language of toolchain/tiny_sil: sil_type.h, sil_value.h, instruction.h,
-- basic_block.h, function.h and module.h. A `double` is its bit pattern, a pointer to a new object
-- is the position at which the object was pushed.
pub mod Build
pub mod Verifier
use tinyswift.Prelude.{
  ℕ, Bool, true, false, List, [], ◌∷◌, ◌++◌, String, ℤ, pos, negsuc, is_nonneg, take, cons_id,
}

pub data Ownership : Type 0 where
  none_owned owned guaranteed unowned : Ownership

pub record SilType : Type 0 where
  pub type_index : ℤ
  pub is_address : Bool

abbrev pub no_type : SilType
no_type = record { type_index = negsuc 0; is_address = false }

pub record SilFunctionType : Type 0 where
  pub return_type : SilType
  pub param_types : List SilType
  pub param_conventions : List Ownership
  pub return_convention : Ownership
  pub is_void_return : Bool

pub record Value : Type 0 where
  pub type : SilType
  pub id : ℤ

abbrev pub is_valid : Value → Bool
is_valid v = is_nonneg v.id

abbrev pub no_value : Value
no_value = record { type = no_type; id = negsuc 0 }

pub data InstKind : Type 0 where
  alloc_stack dealloc_stack alloc_box load store : InstKind
  integer_literal float_literal string_literal struct_inst tuple_inst enum_inst : InstKind
  struct_extract struct_element_addr tuple_extract tuple_element_addr : InstKind
  function_ref apply partial_apply return_inst : InstKind
  branch cond_branch switch_enum unreachable : InstKind
  convert_function upcast unchecked_enum_data : InstKind
  copy_value destroy_value begin_borrow end_borrow debug_value builtin_inst : InstKind

pub record Instruction : Type 0 where
  pub kind : InstKind
  pub result : Value
  pub operand0 : Value
  pub operand1 : Value
  pub operand2 : Value
  pub num_operands : ℕ
  pub literal_value : ℤ
  pub float_literal_value : ℕ
  pub string_literal_value : String
  pub function_name : String
  pub builtin_name : String
  pub debug_name : String
  pub target_block : ℤ
  pub true_block : ℤ
  pub false_block : ℤ
  pub element_index : ℤ
  pub alloc_type : SilType
  pub operand_list : List Value
  pub branch_args : List Value
  pub ownership : Ownership
  pub loc_id : ℤ

pub record BasicBlock : Type 0 where
  pub id : ℤ
  pub args : List Value
  pub insts : List Instruction

pub record Function : Type 0 where
  pub name : String
  pub type : SilFunctionType
  pub convention : Ownership
  pub is_thunk : Bool
  pub is_declaration : Bool
  pub blocks : List BasicBlock
  pub next_value_id : ℤ
  pub sem_ir_function_id : ℤ

pub record GlobalVariable : Type 0 where
  pub name : String
  pub type : SilType
  pub is_let : Bool

pub record Module : Type 0 where
  pub name : String
  pub functions : List Function
  pub globals : List GlobalVariable

-- A fresh `SILInstruction` of a kind, with the initial values of its fields.
abbrev pub new_inst : InstKind → Instruction
new_inst k = record {
  kind = k;
  result = no_value;
  operand0 = no_value;
  operand1 = no_value;
  operand2 = no_value;
  num_operands = 0;
  literal_value = pos 0;
  float_literal_value = 0;
  string_literal_value = "";
  function_name = "";
  builtin_name = "";
  debug_name = "";
  target_block = negsuc 0;
  true_block = negsuc 0;
  false_block = negsuc 0;
  element_index = negsuc 0;
  alloc_type = no_type;
  operand_list = [];
  branch_args = [];
  ownership = none_owned;
  loc_id = negsuc 0;
}

-- `operands[0 .. num_operands)`; the array holds three.
abbrev pub direct_operands : Instruction → List Value
direct_operands i = take i.num_operands (i.operand0 ∷ i.operand1 ∷ i.operand2 ∷ [])

-- The three loops over the uses of an instruction, one after the other.
unfoldable pub all_operands : Instruction → List Value
all_operands i = direct_operands i ++ (i.operand_list ++ i.branch_args)

abbrev pub valid_ids : List Value → List ℤ
valid_ids [] = []
valid_ids (v ∷ vs) = cons_id v.id (valid_ids vs)

unfoldable pub is_terminator : InstKind → Bool
is_terminator branch = true
is_terminator cond_branch = true
is_terminator switch_enum = true
is_terminator return_inst = true
is_terminator unreachable = true
is_terminator _ = false

-- `kind == SILInstKind::X`, for the kinds that the passes test.
unfoldable pub is_alloc_stack : InstKind → Bool
is_alloc_stack alloc_stack = true
is_alloc_stack _ = false

unfoldable pub is_load : InstKind → Bool
is_load load = true
is_load _ = false

unfoldable pub is_store : InstKind → Bool
is_store store = true
is_store _ = false

unfoldable pub is_builtin : InstKind → Bool
is_builtin builtin_inst = true
is_builtin _ = false

unfoldable pub is_return : InstKind → Bool
is_return return_inst = true
is_return _ = false

unfoldable pub is_element_addr : InstKind → Bool
is_element_addr struct_element_addr = true
is_element_addr _ = false
