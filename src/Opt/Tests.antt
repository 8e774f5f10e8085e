-- ===== src/Opt/Tests.antt =====
-- Small functions of the intermediate language: runs of the passes and the theorems at them.
use tinyswift.Prelude.{
  inl, ℕ, suc, true, false, List, [], ◌∷◌, ℤ, pos, negsuc, ◌≡◌, ◌⊎◌, ◌↔◌, refl, All, String, id_eq,
  mem_id, any, ◌<◌, ◌||◌,
}
use tinyswift.Sil.{
  Value, no_type, Instruction, BasicBlock, Function, Module, new_inst, none_owned, alloc_stack,
  integer_literal, store, load, builtin_inst, return_inst, all_operands, is_alloc_stack, is_load,
  is_store, is_terminator,
}
use tinyswift.Sil.Build.{default_function_type}
use tinyswift.Sil.Verifier.{
  verify_module, verify_functions, verify_function, verify_body, verify_block_ids, verify_blocks,
  verify_basic_block, define_values, verify_final, verify_early, verify_each, verify_instruction,
  verify_kind, verify_branch_target, block_args,
}
use tinyswift.Sil.Verifier.WellFormed.{IsWellFormed, block_results}
use tinyswift.Sil.Verifier.Sound.{verify_module_iff}
use tinyswift.Opt.Thin.{ThinsFunction}
use tinyswift.Sil.Build.{create_function, new_function, find_function, create_basic_block}
use tinyswift.Sil.Build.Found.{or_else, find_function-create_function}
use tinyswift.Sil.Build.Numbers.{create_basic_block-Numbered}
use tinyswift.Sil.Verifier.WellFormed.{Numbered}
use tinyswift.Prelude.{some, none, if◌then◌else◌, str_eq}
use tinyswift.Opt.Dce.{
  run_dce, used_ids, used_by, sweep, sweep_blocks, should_keep, has_side_effects,
  kind_has_side_effects, has_effectful_name,
}
use tinyswift.Opt.Effects.{acts, Names}
use tinyswift.Opt.Dce.Closed.{run_dce_closed}
use tinyswift.Opt.Dce.Modified.{run_dce_modified, inst_count}
use tinyswift.Opt.Dce.Meaning as DceMeaning
use tinyswift.Opt.ArcElim.{ArcStats, run_arc_elimination}
use tinyswift.Opt.ArcElim.Positions.{IsArc}
use tinyswift.Opt.ArcElim.Removes.{run_arc_elimination-Thins}
use tinyswift.Opt.MemToReg.{alloc_ids, promote_block}
use tinyswift.Opt.MemToReg.Meaning as Meaning
use tinyswift.Opt.MemToReg.Preserved.{promote_block-meaning}
use tinyswift.Opt.DefiniteInit.{check_definite_init, insts_of}
use tinyswift.Opt.DefiniteInit.Accepts.{check_definite_init-accepts}
use tinyswift.Opt.DefiniteInit.Rejects.{check_definite_init-rejects}
use tinyswift.Opt.ReturnAnalysis.{check_return_paths, ends_with_return}
use tinyswift.Opt.ReturnAnalysis.Verdict.{
  AllTerminated, check_return_paths_iff, check_return_paths-IsWellFormed,
}
use tinyswift.Opt.Passes.{run_performance_passes, no_stats, round, rounds}
use tinyswift.Opt.Passes.Verified.{run_performance_passes-verify, rounds_end, AllReported}

abbrev val : ℕ → Value
val n = record { type = no_type; id = pos n }

abbrev alloc : ℕ → Instruction
alloc n = record (new_inst alloc_stack) { result = val n }

abbrev literal : ℕ → Instruction
literal n = record (new_inst integer_literal) { result = val n; literal_value = pos 5 }

abbrev store_to : ℕ → ℕ → Instruction
store_to src dst = record (new_inst store) {
  operand0 = val src;
  operand1 = val dst;
  num_operands = 2;
}

abbrev load_from : ℕ → ℕ → Instruction
load_from n addr = record (new_inst load) { result = val n; operand0 = val addr; num_operands = 1 }

abbrev builtin : String → ℕ → Instruction
builtin name n = record (new_inst builtin_inst) {
  builtin_name = name;
  operand0 = val n;
  num_operands = 1;
}

abbrev ret : ℕ → Instruction
ret n = record (new_inst return_inst) { operand0 = val n; num_operands = 1 }

-- %0 = alloc_stack; %1 = 5; store %1 to %0; %2 = load %0; print %2; %3 = 5; return %1
abbrev body : List Instruction
body =
    alloc 0
    ∷ literal 1
    ∷ store_to 1 0
    ∷ load_from 2 0
    ∷ builtin "print_int" 2
    ∷ literal 3
    ∷ ret 1
    ∷ []

abbrev in_block : List Instruction → BasicBlock
in_block insts = record { id = pos 0; args = []; insts = insts }

abbrev in_function : List Instruction → Function
in_function insts = record {
  name = "main";
  type = default_function_type;
  convention = none_owned;
  is_thunk = false;
  is_declaration = false;
  blocks = in_block insts ∷ [];
  next_value_id = pos 9;
  sem_ir_function_id = negsuc 0;
}

abbrev main_function : Function
main_function = in_function body

abbrev main_module : Module
main_module = record { name = "m"; functions = main_function ∷ []; globals = [] }

-- %0 = 5; retain %0; print %0; release %0; return %1, where %0 is no new object.
abbrev counted : Function
counted = in_function (
    literal 0
    ∷ literal 1
    ∷ builtin "retain" 0
    ∷ builtin "print_x" 0
    ∷ builtin "release" 0
    ∷ ret 1
    ∷ [])

main-accepted : verify_module main_module ≡ true
unfolding verify_module verify_functions verify_function verify_body verify_block_ids verify_blocks
    verify_basic_block define_values verify_final verify_early verify_each verify_instruction
    verify_kind verify_branch_target block_args is_terminator id_eq
main-accepted = refl

verify_module_iff_example :
    (verify_module main_module ≡ true) ↔ All IsWellFormed (main_function ∷ [])
verify_module_iff_example = verify_module_iff main_module

run_performance_passes-verify_example : verify_module (run_performance_passes main_module).0 ≡ true
run_performance_passes-verify_example = run_performance_passes-verify main_module main-accepted

rounds_end_example :
    ((s : ArcStats) × ((round (rounds 4 main_function no_stats).0 s).changed ≡ false)
      × ((round (rounds 4 main_function no_stats).0 s).function
          ≡ (rounds 4 main_function no_stats).0))
    ⊎ AllReported 4 main_function no_stats
rounds_end_example = rounds_end 4 main_function no_stats

named_2 : Names (run_dce main_function).0.blocks (pos 2)
unfolding run_dce sweep_blocks sweep should_keep has_side_effects kind_has_side_effects
    has_effectful_name used_ids used_by all_operands id_eq
named_2 = (0, 4, _, builtin "print_int" 2, val 2, refl, refl, (0, inl refl), refl, refl)

run_dce_closed_example : mem_id (pos 2) (block_results (run_dce main_function).0.blocks) ≡ true
unfolding run_dce sweep_blocks sweep should_keep has_side_effects kind_has_side_effects
    has_effectful_name used_ids used_by all_operands id_eq
run_dce_closed_example = run_dce_closed main_function (pos 2) named_2 refl

run_dce_modified_example :
    (((run_dce main_function).1 ≡ false) × ((run_dce main_function).0 ≡ main_function))
    ⊎ (((run_dce main_function).1 ≡ true)
        × (inst_count (run_dce main_function).0.blocks < inst_count main_function.blocks))
run_dce_modified_example = run_dce_modified main_function

run_arc_elimination-Thins_example :
    ThinsFunction IsArc counted (run_arc_elimination counted no_stats).function
run_arc_elimination-Thins_example = run_arc_elimination-Thins counted no_stats

-- An instruction that acts is counted, any other gives its literal.
abbrev counting : DceMeaning.Semantics
counting = record {
  Val = ℤ;
  State = ℕ;
  effect = λ i vs n. if acts i then (pos n, suc n) else (i.literal_value, n);
  quiet = λ i vs n valid q. rw q;
}

-- Nothing but a direct store changes a slot.
abbrev quiet : Meaning.Semantics
quiet = record { Val = ℕ; World = Unit {0}; other = λ i vs slots w. (7, slots, w) }

abbrev slot_block : List Instruction
slot_block = alloc 0 ∷ store_to 1 0 ∷ load_from 2 0 ∷ ret 2 ∷ []

slot_block-ready : Meaning.AllReady quiet (alloc_ids slot_block) [] slot_block
unfolding alloc_ids is_alloc_stack is_load is_store all_operands id_eq
slot_block-ready = (
  record {
    scoped = (λ _. refl, (λ _. refl, tt));
    defined_once = λ _. refl;
    source = λ p. cc;
    source_value = λ _. refl;
    loaded = λ p. cc;
    confined = λ env slots world a m n. refl;
  },
  (
    record {
      scoped = (λ _. refl, (λ _. refl, (λ _. refl, (λ _. refl, tt))));
      defined_once = λ _. refl;
      source = λ _. refl;
      source_value = λ _. refl;
      loaded = λ _. refl;
      confined = λ env slots world a m n. refl;
    },
    (
      record {
        scoped = (λ _. refl, (λ _. refl, (λ _. refl, tt)));
        defined_once = λ _. refl;
        source = λ p. cc;
        source_value = λ p. cc;
        loaded = λ _. refl;
        confined = λ env slots world a m n. refl;
      },
      (
        record {
          scoped = (λ _. refl, (λ _. refl, (λ _. refl, tt)));
          defined_once = λ _. refl;
          source = λ p. cc;
          source_value = λ _. refl;
          loaded = λ _. refl;
          confined = λ env slots world a m n. refl;
        },
        tt,
      ),
    ),
  ),
)

abbrev start : Meaning.Machine quiet (alloc_ids slot_block)
start = record { env = λ _. 3; slots = λ _. 0; world = tt }

promote_block-meaning_example :
    Meaning.run quiet (alloc_ids slot_block) (promote_block slot_block).0 start
    ≡ Meaning.run quiet (alloc_ids slot_block) slot_block start
promote_block-meaning_example = promote_block-meaning quiet slot_block start slot_block-ready

check_definite_init-accepts_example : check_definite_init main_function ≡ true
unfolding insts_of is_load is_store id_eq
check_definite_init-accepts_example =
    check_definite_init-accepts main_function (
      λ p q. cc,
      (λ p q. cc, (λ p q. cc, (λ p q. refl, (λ p q. cc, (λ p q. cc, (λ p q. cc, tt)))))),
    )

-- %0 = alloc_stack; %2 = load %0; return %2
abbrev unset : Function
unset = in_function (alloc 0 ∷ load_from 2 0 ∷ ret 2 ∷ [])

check_definite_init-rejects_example : check_definite_init unset ≡ false
unfolding insts_of is_load is_store is_alloc_stack id_eq
check_definite_init-rejects_example = check_definite_init-rejects unset (pos 0) refl refl refl

check_return_paths_iff_example : (check_return_paths main_function ≡ true) ↔ (
    AllTerminated main_function.blocks
    × ((main_function.type.is_void_return ≡ true)
        ⊎ (any ends_with_return main_function.blocks ≡ true)))
check_return_paths_iff_example = check_return_paths_iff main_function refl refl

check_return_paths-IsWellFormed_example :
    check_return_paths main_function ≡ (false || any ends_with_return main_function.blocks)
check_return_paths-IsWellFormed_example =
    check_return_paths-IsWellFormed main_function refl
      ((verify_module_iff main_module).0 main-accepted).0

find_function-create_function_example :
    find_function (create_function main_module "g") "main"
    ≡ or_else
        (find_function main_module "main")
        (if str_eq "g" "main" then some (new_function "g") else none)
find_function-create_function_example = find_function-create_function main_module "g" "main"

create_basic_block-Numbered_example : Numbered 0 (create_basic_block main_function).blocks
create_basic_block-Numbered_example = create_basic_block-Numbered main_function (refl, tt)
