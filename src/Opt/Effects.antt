-- ===== src/Opt/Effects.antt =====
-- What a pass that removes instructions may take for granted, described apart from the tables in the
-- passes: which instructions act, by toolchain/tiny_sil/instruction.h and the builtins that
-- toolchain/lower/lower.cpp knows, and which values the operands of a function name.
use tinyswift.Prelude.{
  ℕ, Bool, true, false, ◌||◌, List, [], ◌∷◌, ℤ, String, str_eq, some, get_elem?, ◌≡◌, ◌⊎◌,
}
use tinyswift.Sil.{
  Value, is_valid, InstKind, Instruction, BasicBlock, direct_operands, store, alloc_stack,
  dealloc_stack, alloc_box, apply, partial_apply, branch, cond_branch, switch_enum, return_inst,
  unreachable, destroy_value, end_borrow, debug_value, builtin_inst,
}

-- The builtins that print, that read or write outside the program or end it, that change memory or a
-- reference count, or that set the error slot. The builtins of hash maps and hash sets that change
-- their table are not here: the generator gives them no result.
abbrev pub acting_builtins : List String
acting_builtins =
    "print_int" ∷ "print_string" ∷ "print_bool" ∷ "readline" ∷ "file_read_all" ∷ "file_write_all"
    ∷ "file_append_all" ∷ "file_remove" ∷ "process_exit" ∷ "env_set" ∷ "fs_copy" ∷ "fs_mkdir"
    ∷ "tcp_accept" ∷ "tcp_close" ∷ "tcp_connect" ∷ "tcp_listen" ∷ "tcp_read" ∷ "tcp_write"
    ∷ "alloc_class" ∷ "retain" ∷ "release" ∷ "release_cycle" ∷ "dynarray_create" ∷ "dynarray_append"
    ∷ "dict_init" ∷ "unsafe_ptr_allocate" ∷ "unsafe_ptr_deallocate" ∷ "array_literal_init"
    ∷ "string_concat" ∷ "string_uppercased" ∷ "string_lowercased" ∷ "string_trimmed" ∷ "error_set"
    ∷ "error_clear" ∷ "trap" ∷ "fatalError" ∷ "optional_unwrap_trap" ∷ []

abbrev pub is_listed : String → List String → Bool
is_listed name [] = false
is_listed name (n ∷ ns) = str_eq name n || is_listed name ns

-- Memory of the stack and of boxes, calls, the end of a block, the end of a value, and builtins.
abbrev pub kind_acts : InstKind → String → Bool
kind_acts alloc_stack name = true
kind_acts store name = true
kind_acts dealloc_stack name = true
kind_acts alloc_box name = true
kind_acts apply name = true
kind_acts partial_apply name = true
kind_acts destroy_value name = true
kind_acts end_borrow name = true
kind_acts debug_value name = true
kind_acts branch name = true
kind_acts cond_branch name = true
kind_acts switch_enum name = true
kind_acts return_inst name = true
kind_acts unreachable name = true
kind_acts builtin_inst name = is_listed name acting_builtins
kind_acts _ name = false

abbrev pub acts : Instruction → Bool
acts i = kind_acts i.kind i.builtin_name

-- A value stands among the operands of an instruction: the counted ones, the list, or the arguments
-- of a branch.
abbrev pub IsOperand : Value → Instruction → Type 0
IsOperand v i =
    (k : ℕ) × ((get_elem? (direct_operands i) k ≡ some v)
      ⊎ ((get_elem? i.operand_list k ≡ some v) ⊎ (get_elem? i.branch_args k ≡ some v)))

-- An operand of an instruction of some block names the identifier.
abbrev pub Names : List BasicBlock → ℤ → Type 0
Names blocks a =
    (bi : ℕ) × (ii : ℕ) × (bb : BasicBlock) × (i : Instruction) × (v : Value) × (get_elem? blocks bi
      ≡ some bb)
    × (get_elem? bb.insts ii ≡ some i)
    × IsOperand v i
    × (is_valid v ≡ true)
    × (v.id ≡ a)
