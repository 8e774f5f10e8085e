-- ===== src/Opt/DefiniteInit.antt =====
-- toolchain/tiny_sil_optimizer/definite_init.cpp: a stack slot that is loaded must have a store.
-- The verdict comes with the slots that the source reports, in order.
pub mod Stored
pub mod Accepts
pub mod Rejects
use tinyswift.Prelude.{
  Bool, true, false, not, ◌&&◌, ◌||◌, List, [], ◌∷◌, ◌++◌, ℤ, Option, none, some, if◌then◌else◌,
  lookup_id, has_id, is_empty,
}
use tinyswift.Sil.{
  Value, is_valid, InstKind, Instruction, BasicBlock, Function, Module, is_alloc_stack, is_load,
  struct_element_addr, store,
}
use tinyswift.Sil.Build.{has_body}

pub data InitState : Type 0 where
  uninitialized maybe_initialized initialized : InitState

abbrev pub States : Type 0
States = List (ℤ × InitState)

-- The instructions in the order in which the passes meet them.
unfoldable pub insts_of : List BasicBlock → List Instruction
insts_of [] = []
insts_of (bb ∷ rest) = bb.insts ++ insts_of rest

unfoldable pub alloc_states : List Instruction → States → States
alloc_states [] s = s
alloc_states (i ∷ rest) s =
    alloc_states rest
      (if is_alloc_stack i.kind && is_valid i.result then (i.result.id, uninitialized) ∷ s else s)

pub record InitScan : Type 0 where
  pub states : States
  pub field_addrs : List (ℤ × ℤ)

-- A store to the slot itself.
unfoldable pub store_direct : ℤ → States → States
store_direct dst s = if has_id dst s then (dst, initialized) ∷ s else s

unfoldable pub mark_maybe : ℤ → Option InitState → States → States
mark_maybe slot (some uninitialized) s = (slot, maybe_initialized) ∷ s
mark_maybe slot _ s = s

-- A store to a field of the slot.
unfoldable pub store_field : Option ℤ → States → States
store_field none s = s
store_field (some slot) s = mark_maybe slot (lookup_id slot s) s

unfoldable pub init_kind : InstKind → Instruction → InitScan → InitScan
init_kind struct_element_addr i s =
    if is_valid i.result && is_valid i.operand0 && has_id i.operand0.id s.states
    then record s { field_addrs = (i.result.id, i.operand0.id) ∷ s.field_addrs }
    else s
init_kind store i s =
    if is_valid i.operand1
    then record s {
      states =
          store_field (lookup_id i.operand1.id s.field_addrs) (store_direct i.operand1.id s.states);
    }
    else s
init_kind _ i s = s

unfoldable pub init_scan : List Instruction → InitScan → InitScan
init_scan [] s = s
init_scan (i ∷ rest) s = init_scan rest (init_kind i.kind i s)

abbrev pub is_uninitialized : Option InitState → Bool
is_uninitialized (some uninitialized) = true
is_uninitialized _ = false

unfoldable pub load_errors : States → List Instruction → List ℤ
load_errors s [] = []
load_errors s (i ∷ rest) =
    let more = load_errors s rest in
    if is_load i.kind && is_valid i.operand0 && is_uninitialized (lookup_id i.operand0.id s)
    then i.operand0.id ∷ more
    else more

abbrev pub final_states : List Instruction → States
final_states insts =
    (init_scan insts (record { states = alloc_states insts []; field_addrs = [] })).states

-- CheckDefiniteInit: without a slot there is nothing to check.
unfoldable pub init_errors : Function → List ℤ
init_errors fn =
    let insts = insts_of fn.blocks in
    if is_empty (alloc_states insts []) then [] else load_errors (final_states insts) insts

unfoldable pub check_definite_init : Function → Bool
check_definite_init fn = is_empty (init_errors fn)

unfoldable pub check_inits : List Function → Bool
check_inits [] = true
check_inits (fn ∷ rest) =
    (if not fn.is_declaration && has_body fn then check_definite_init fn else true)
    && check_inits rest

-- RunDefiniteInitialization
unfoldable pub run_definite_initialization : Module → Bool
run_definite_initialization m = check_inits m.functions
