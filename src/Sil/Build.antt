-- ===== src/Sil/Build.antt =====
-- The operations that build a function and a module: setOperand of instruction.h, addInst and
-- getTerminator of basic_block.h, allocateValueId, createBasicBlock, getEntryBlock and hasBody of
-- function.h, createFunction and findFunction of module.h.
pub mod Found
pub mod Numbers
use tinyswift.Prelude.{
  ℕ, zero, suc, ◌+◌, ltb, Bool, true, false, not, Option, none, some, List, [], ◌∷◌, ◌++◌, String,
  ℤ, pos, negsuc, if◌then◌else◌, str_eq, length, is_empty, last?, get_elem?,
}
use tinyswift.Sil.{
  Value, Instruction, BasicBlock, Function, Module, SilFunctionType, no_type, none_owned, owned,
  is_terminator,
}

-- An index above two is out of bounds in the source and changes no operand here.
unfoldable pub set_operand : Instruction → ℕ → Value → Instruction
set_operand i zero v = record i {
  operand0 = v;
  num_operands = if ltb 0 i.num_operands then i.num_operands else 1;
}
set_operand i (suc zero) v = record i {
  operand1 = v;
  num_operands = if ltb 1 i.num_operands then i.num_operands else 2;
}
set_operand i (suc (suc zero)) v = record i {
  operand2 = v;
  num_operands = if ltb 2 i.num_operands then i.num_operands else 3;
}
set_operand i _ v = i

unfoldable pub add_inst : BasicBlock → Instruction → BasicBlock
add_inst bb i = record bb { insts = bb.insts ++ i ∷ [] }

abbrev terminator_of : Option Instruction → Option Instruction
terminator_of none = none
terminator_of (some i) = if is_terminator i.kind then some i else none

unfoldable pub get_terminator : BasicBlock → Option Instruction
get_terminator bb = terminator_of (last? bb.insts)

unfoldable pub is_terminated : BasicBlock → Bool
unfolding get_terminator
is_terminated bb = elim (get_terminator bb) [ none ↦ false | some _ ↦ true ]

-- `n++` on an `int32_t` below its maximum.
abbrev next_id : ℤ → ℤ
next_id (pos n) = pos (n + 1)
next_id (negsuc zero) = pos 0
next_id (negsuc (suc n)) = negsuc n

unfoldable pub allocate_value_id : Function → Function × ℤ
allocate_value_id fn = (record fn { next_value_id = next_id fn.next_value_id }, fn.next_value_id)

unfoldable pub create_basic_block : Function → Function
create_basic_block fn = record fn {
  blocks = fn.blocks ++ record { id = pos (length fn.blocks); args = []; insts = [] } ∷ [];
}

unfoldable pub get_entry_block : Function → Option BasicBlock
get_entry_block fn = get_elem? fn.blocks 0

unfoldable pub has_body : Function → Bool
has_body fn = not (is_empty fn.blocks)

abbrev pub default_function_type : SilFunctionType
default_function_type = record {
  return_type = no_type;
  param_types = [];
  param_conventions = [];
  return_convention = owned;
  is_void_return = false;
}

abbrev pub new_function : String → Function
new_function func_name = record {
  name = func_name;
  type = default_function_type;
  convention = none_owned;
  is_thunk = false;
  is_declaration = false;
  blocks = [];
  next_value_id = pos 0;
  sem_ir_function_id = negsuc 0;
}

unfoldable pub create_function : Module → String → Module
create_function m func_name = record m { functions = m.functions ++ new_function func_name ∷ [] }

unfoldable pub find_in : List Function → String → Option Function
find_in [] func_name = none
find_in (fn ∷ rest) func_name = if str_eq fn.name func_name then some fn else find_in rest func_name

unfoldable pub find_function : Module → String → Option Function
find_function m func_name = find_in m.functions func_name
