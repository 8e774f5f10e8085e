-- ===== src/Opt/Dce.antt =====
-- toolchain/tiny_sil_optimizer/dce.cpp: instructions whose result nobody uses are removed, unless
-- they have side effects.
pub mod Keeps
pub mod Closed
pub mod Unused
pub mod Meaning
pub mod Modified
use tinyswift.Prelude.{
  Bool, true, false, not, ◌&&◌, ◌||◌, List, [], ◌∷◌, ◌++◌, String, ℤ, if◌then◌else◌, str_eq,
  starts_with, mem_id,
}
use tinyswift.Sil.{
  is_valid, InstKind, Instruction, BasicBlock, Function, all_operands, valid_ids, store,
  alloc_stack, dealloc_stack, alloc_box, apply, partial_apply, branch, cond_branch, switch_enum,
  return_inst, unreachable, destroy_value, end_borrow, debug_value, builtin_inst,
}

-- The builtins that write, call the runtime or stop the program.
unfoldable pub has_effectful_name : String → Bool
has_effectful_name name =
    starts_with name "print_"
    || starts_with name "dynarray_"
    || starts_with name "dict_"
    || starts_with name "unsafe_ptr_"
    || starts_with name "file_"
    || starts_with name "process_"
    || starts_with name "env_"
    || starts_with name "fs_"
    || starts_with name "tcp_"
    || str_eq name "readline"
    || str_eq name "alloc_class"
    || str_eq name "retain"
    || str_eq name "release"
    || str_eq name "release_cycle"
    || str_eq name "string_concat"
    || str_eq name "string_uppercased"
    || str_eq name "string_lowercased"
    || str_eq name "string_trimmed"
    || str_eq name "array_literal_init"
    || str_eq name "array_element_addr"
    || starts_with name "error_"
    || str_eq name "trap"
    || str_eq name "fatalError"
    || starts_with name "assert_"
    || starts_with name "precondition_"
    || str_eq name "optional_unwrap_trap"

unfoldable pub kind_has_side_effects : InstKind → String → Bool
kind_has_side_effects store name = true
kind_has_side_effects alloc_stack name = true
kind_has_side_effects dealloc_stack name = true
kind_has_side_effects alloc_box name = true
kind_has_side_effects apply name = true
kind_has_side_effects partial_apply name = true
kind_has_side_effects branch name = true
kind_has_side_effects cond_branch name = true
kind_has_side_effects switch_enum name = true
kind_has_side_effects return_inst name = true
kind_has_side_effects unreachable name = true
kind_has_side_effects destroy_value name = true
kind_has_side_effects end_borrow name = true
kind_has_side_effects debug_value name = true
kind_has_side_effects builtin_inst name = has_effectful_name name
kind_has_side_effects _ name = false

unfoldable pub has_side_effects : Instruction → Bool
has_side_effects i = kind_has_side_effects i.kind i.builtin_name

unfoldable pub used_by : List Instruction → List ℤ
used_by [] = []
used_by (i ∷ rest) = valid_ids (all_operands i) ++ used_by rest

-- The identifiers that some operand of the function names.
unfoldable pub used_ids : List BasicBlock → List ℤ
used_ids [] = []
used_ids (bb ∷ rest) = used_by bb.insts ++ used_ids rest

unfoldable pub should_keep : List ℤ → Instruction → Bool
should_keep used i =
    if is_valid i.result && not (has_side_effects i) then mem_id i.result.id used else true

-- The instructions that are kept, and whether one was dropped.
unfoldable pub sweep : List ℤ → List Instruction → List Instruction × Bool
sweep used [] = ([], false)
sweep used (i ∷ rest) =
    let (kept, dropped) = sweep used rest in
    if should_keep used i then (i ∷ kept, dropped) else (kept, true)

unfoldable pub sweep_blocks : List ℤ → List BasicBlock → List BasicBlock × Bool
sweep_blocks used [] = ([], false)
sweep_blocks used (bb ∷ rest) =
    let (kept, dropped) = sweep used bb.insts in
    let (blocks, others) = sweep_blocks used rest in
    (record bb { insts = kept } ∷ blocks, dropped || others)

-- RunDeadCodeElimination
unfoldable pub run_dce : Function → Function × Bool
run_dce fn =
    let (blocks, modified) = sweep_blocks (used_ids fn.blocks) fn.blocks in
    (record fn { blocks = blocks }, modified)
