-- ===== src/Sil/Verifier.antt =====
-- toolchain/tiny_sil/verifier.cpp: the structural checks of a module. The errors are returned in
-- the order in which the source prints them; `has_errors_` is that one was emitted.
pub mod WellFormed
pub mod SoundBlock
pub mod Sound
use tinyswift.Prelude.{
  ℕ, zero, suc, ◌+◌, ltb, Bool, true, false, not, ◌&&◌, ◌||◌, List, [], ◌∷◌, ◌++◌, String, ℤ, pos,
  negsuc, if◌then◌else◌, str_eq, length, is_empty, id_eq, mem_id, map,
}
use tinyswift.Sil.{
  Value, is_valid, InstKind, Instruction, BasicBlock, Function, Module, is_terminator, branch,
  cond_branch, return_inst, apply, store, load, alloc_stack, integer_literal, float_literal,
  string_literal, function_ref, builtin_inst,
}

pub data VerifyError : Type 0 where
  function_empty_name declaration_with_blocks no_basic_blocks : VerifyError
  block_id_mismatch : ℕ → ℤ → VerifyError
  duplicate_value : ℤ → VerifyError
  block_empty no_final_terminator early_terminator : VerifyError
  target_out_of_range : ℤ → VerifyError
  cond_br_missing_condition return_missing_operand apply_missing_callee : VerifyError
  store_missing_operand load_missing_address alloc_stack_without_result : VerifyError
  literal_without_result function_ref_empty_name function_ref_without_result : VerifyError
  builtin_empty_name : VerifyError

-- `if (test) emitError(e)`
abbrev pub error_if : Bool → VerifyError → List VerifyError
error_if true e = e ∷ []
error_if false e = []

unfoldable pub verify_branch_target : ℕ → ℤ → List VerifyError
verify_branch_target count (pos t) = error_if (not (ltb t count)) (target_out_of_range (pos t))
verify_branch_target count (negsuc t) = target_out_of_range (negsuc t) ∷ []

unfoldable pub verify_kind : InstKind → ℕ → Instruction → List VerifyError
verify_kind branch count i = verify_branch_target count i.target_block
verify_kind cond_branch count i =
    error_if (not (is_valid i.operand0)) cond_br_missing_condition
    ++ (verify_branch_target count i.true_block ++ verify_branch_target count i.false_block)
verify_kind return_inst count i = error_if (not (is_valid i.operand0)) return_missing_operand
verify_kind apply count i = error_if (not (is_valid i.operand0)) apply_missing_callee
verify_kind store count i =
    error_if (not (is_valid i.operand0) || not (is_valid i.operand1)) store_missing_operand
verify_kind load count i = error_if (not (is_valid i.operand0)) load_missing_address
verify_kind alloc_stack count i = error_if (not (is_valid i.result)) alloc_stack_without_result
verify_kind integer_literal count i = error_if (not (is_valid i.result)) literal_without_result
verify_kind float_literal count i = error_if (not (is_valid i.result)) literal_without_result
verify_kind string_literal count i = error_if (not (is_valid i.result)) literal_without_result
verify_kind function_ref count i =
    error_if (str_eq i.function_name "") function_ref_empty_name
    ++ error_if (not (is_valid i.result)) function_ref_without_result
verify_kind builtin_inst count i = error_if (str_eq i.builtin_name "") builtin_empty_name
verify_kind _ count i = []

unfoldable pub verify_instruction : ℕ → Instruction → List VerifyError
verify_instruction count i = verify_kind i.kind count i

-- `defined_values.insert(id).second` over a list of values, with the set that results.
unfoldable pub define_values : List Value → List ℤ → List ℤ × List VerifyError
define_values [] defined = (defined, [])
define_values (v ∷ vs) defined = elim (is_valid v) [
  | true ↦
      (let (d, es) = define_values vs (v.id ∷ defined) in
        (d, error_if (mem_id v.id defined) (duplicate_value v.id) ++ es))
  | false ↦ define_values vs defined
]

unfoldable pub verify_final : List Instruction → List VerifyError
verify_final [] = []
verify_final (i ∷ []) = error_if (not (is_terminator i.kind)) no_final_terminator
verify_final (_ ∷ j ∷ rest) = verify_final (j ∷ rest)

unfoldable pub verify_early : List Instruction → List VerifyError
verify_early [] = []
verify_early (_ ∷ []) = []
verify_early (i ∷ j ∷ rest) =
    error_if (is_terminator i.kind) early_terminator ++ verify_early (j ∷ rest)

unfoldable pub verify_each : ℕ → List Instruction → List VerifyError
verify_each count [] = []
verify_each count (i ∷ rest) = verify_instruction count i ++ verify_each count rest

-- A block with no instruction is reported, and nothing else of it is checked.
unfoldable pub verify_basic_block : ℕ → List Instruction → List ℤ → List ℤ × List VerifyError
verify_basic_block count [] defined = (defined, block_empty ∷ [])
verify_basic_block count (i ∷ rest) defined =
    let insts = i ∷ rest in
    let (d, es) = define_values (map (λ (j : Instruction). j.result) insts) defined in
    (d, es ++ (verify_final insts ++ (verify_early insts ++ verify_each count insts)))

unfoldable pub verify_blocks : ℕ → List BasicBlock → List ℤ → List VerifyError
verify_blocks count [] defined = []
verify_blocks count (bb ∷ rest) defined =
    let (d, es) = verify_basic_block count bb.insts defined in es ++ verify_blocks count rest d

unfoldable pub verify_block_ids : ℕ → List BasicBlock → List VerifyError
verify_block_ids n [] = []
verify_block_ids n (bb ∷ rest) =
    error_if (not (id_eq bb.id (pos n))) (block_id_mismatch n bb.id)
    ++ verify_block_ids (suc n) rest

unfoldable pub block_args : List BasicBlock → List Value
block_args [] = []
block_args (bb ∷ rest) = bb.args ++ block_args rest

unfoldable pub verify_body : List BasicBlock → List VerifyError
verify_body [] = no_basic_blocks ∷ []
verify_body (bb ∷ rest) =
    let blocks = bb ∷ rest in
    let (d, es) = define_values (block_args blocks) [] in
    verify_block_ids 0 blocks ++ (es ++ verify_blocks (length blocks) blocks d)

unfoldable pub verify_function : Function → List VerifyError
verify_function fn =
    error_if (str_eq fn.name "") function_empty_name
    ++ (if fn.is_declaration
        then error_if (not (is_empty fn.blocks)) declaration_with_blocks
        else verify_body fn.blocks)

unfoldable pub verify_functions : List Function → List VerifyError
verify_functions [] = []
verify_functions (fn ∷ rest) = verify_function fn ++ verify_functions rest

-- VerifySILModule: true when no error was emitted.
unfoldable pub verify_module : Module → Bool
verify_module m = is_empty (verify_functions m.functions)
