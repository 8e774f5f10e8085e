-- ===== src/Opt/ArcElim/Classify.antt =====
-- toolchain/tiny_sil_optimizer/arc_elim.cpp: how an instruction uses a reference-counted value.
use tinyswift.Prelude.{
  Bool, true, false, ◌&&◌, ◌||◌, List, String, ℤ, if◌then◌else◌, str_eq, starts_with, id_eq, any,
}
use tinyswift.Sil.{
  Value, is_valid, InstKind, Instruction, BasicBlock, is_builtin, all_operands, builtin_inst, store,
  apply, partial_apply, return_inst, branch, cond_branch, switch_enum,
}

-- The builtins that neither store nor pass on the pointer.
unfoldable pub is_borrow_builtin : String → Bool
is_borrow_builtin name =
    starts_with name "print_"
    || str_eq name "string_eq"
    || str_eq name "string_len"
    || str_eq name "string_compare"
    || str_eq name "string_hash"
    || starts_with name "string_has_"
    || str_eq name "string_contains"
    || str_eq name "int_to_string"
    || str_eq name "is_unique"

pub data UseKind : Type 0 where
  borrow escape arc_pair : UseKind

unfoldable pub is_arc_name : String → Bool
is_arc_name name = str_eq name "retain" || str_eq name "release" || str_eq name "release_cycle"

unfoldable pub classify_builtin : String → UseKind
classify_builtin name =
    if is_arc_name name
    then arc_pair
    else if is_borrow_builtin name
    then borrow
    else if str_eq name "alloc_class"
    then borrow
    else escape

unfoldable pub names_value : ℤ → Value → Bool
names_value value_id v = is_valid v && id_eq v.id value_id

unfoldable pub classify_kind : InstKind → Instruction → ℤ → UseKind
classify_kind builtin_inst user value_id = classify_builtin user.builtin_name
classify_kind store user value_id = if names_value value_id user.operand0 then escape else borrow
classify_kind apply user value_id = escape
classify_kind partial_apply user value_id = escape
classify_kind return_inst user value_id = escape
classify_kind branch user value_id =
    if any (names_value value_id) user.branch_args then escape else borrow
classify_kind cond_branch user value_id =
    if any (names_value value_id) user.branch_args then escape else borrow
classify_kind switch_enum user value_id =
    if any (names_value value_id) user.branch_args then escape else borrow
classify_kind _ user value_id = borrow

unfoldable pub classify_use : Instruction → ℤ → UseKind
classify_use user value_id = classify_kind user.kind user value_id

abbrev pub is_escape : UseKind → Bool
is_escape escape = true
is_escape _ = false

abbrev pub is_real : UseKind → Bool
is_real arc_pair = false
is_real _ = true

-- Some operand is the value, and the instruction may store it or pass it on.
unfoldable pub escapes_in : ℤ → Instruction → Bool
escapes_in value_id i =
    any (λ v. names_value value_id v && is_escape (classify_use i value_id)) (all_operands i)

-- Some operand is the value, in an instruction that is no retain and no release.
unfoldable pub really_uses : ℤ → Instruction → Bool
really_uses value_id i =
    any (λ v. names_value value_id v && is_real (classify_use i value_id)) (all_operands i)

-- The loops over the blocks, left at the first escape.
unfoldable pub value_escapes : List BasicBlock → ℤ → Bool
value_escapes blocks value_id = any (λ bb. any (escapes_in value_id) bb.insts) blocks

unfoldable pub produces_class : ℤ → Instruction → Bool
produces_class value_id i =
    names_value value_id i.result && is_builtin i.kind && str_eq i.builtin_name "alloc_class"

unfoldable pub is_alloc_class_producer : List BasicBlock → ℤ → Bool
is_alloc_class_producer blocks value_id = any (λ bb. any (produces_class value_id) bb.insts) blocks
