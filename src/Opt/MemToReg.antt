-- ===== src/Opt/MemToReg.antt =====
-- toolchain/tiny_sil_optimizer/mem2reg.cpp: within a block, a load from a stack slot becomes the
-- value stored most recently before it.
pub mod Unchanged
pub mod Scan
pub mod Verified
pub mod Meaning
pub mod Invariant
pub mod Steps
pub mod Replace
pub mod Preserved
use tinyswift.Prelude.{
  ℕ, ltb, Bool, true, false, not, ◌&&◌, ◌||◌, List, [], ◌∷◌, ◌++◌, ℤ, Option, none, some,
  if◌then◌else◌, mem_id, lookup_id, is_empty, map,
}
use tinyswift.Sil.{
  Value, is_valid, InstKind, Instruction, BasicBlock, Function, is_alloc_stack, apply, store, load,
}

-- The result identifiers of the `alloc_stack` instructions of a block.
unfoldable pub alloc_ids : List Instruction → List ℤ
alloc_ids [] = []
alloc_ids (i ∷ rest) =
    let others = alloc_ids rest in
    if is_alloc_stack i.kind && is_valid i.result then i.result.id ∷ others else others

-- The maps and the set of the forward scan.
pub record ScanState : Type 0 where
  pub current_value : List (ℤ × Value)
  pub escaped : List ℤ
  pub promoted_values : List (ℤ × Value)

abbrev pub scan_start : ScanState
scan_start = record { current_value = []; escaped = []; promoted_values = [] }

-- An address that is an argument of a call escapes.
unfoldable pub escape_args : List ℤ → List Value → List ℤ → List ℤ
escape_args allocs [] escaped = escaped
escape_args allocs (arg ∷ rest) escaped =
    escape_args allocs rest
      (if is_valid arg && mem_id arg.id allocs then arg.id ∷ escaped else escaped)

unfoldable pub scan_store : List ℤ → Value → Value → ScanState → ScanState
scan_store allocs src dst s =
    if is_valid dst && is_valid src && mem_id dst.id allocs && not (mem_id dst.id s.escaped)
    then record s { current_value = (dst.id, src) ∷ s.current_value }
    else s

-- `found` is what the map holds for the address.
unfoldable pub scan_found : Option Value → Value → Value → ScanState → ScanState
scan_found none addr result s = s
scan_found (some v) addr result s =
    if not (mem_id addr.id s.escaped) && is_valid result
    then record s { promoted_values = (result.id, v) ∷ s.promoted_values }
    else s

unfoldable pub scan_load : Value → Value → ScanState → ScanState
scan_load addr result s =
    if is_valid addr then scan_found (lookup_id addr.id s.current_value) addr result s else s

unfoldable pub scan_kind : List ℤ → InstKind → Instruction → ScanState → ScanState
scan_kind allocs apply i s = record s { escaped = escape_args allocs i.operand_list s.escaped }
scan_kind allocs store i s = scan_store allocs i.operand0 i.operand1 s
scan_kind allocs load i s = scan_load i.operand0 i.result s
scan_kind allocs _ i s = s

unfoldable pub scan : List ℤ → List Instruction → ScanState → ScanState
scan allocs [] s = s
scan allocs (i ∷ rest) s = scan allocs rest (scan_kind allocs i.kind i s)

-- A use of a promoted load becomes the stored value.
unfoldable pub replace_value : List (ℤ × Value) → Value → Value
replace_value promoted v =
    if is_valid v then elim (lookup_id v.id promoted) [ none ↦ v | some w ↦ w ] else v

unfoldable pub replace_operands : List (ℤ × Value) → Instruction → Instruction
replace_operands promoted i =
    let r = replace_value promoted in
    record i {
      operand0 = if ltb 0 i.num_operands then r i.operand0 else i.operand0;
      operand1 = if ltb 1 i.num_operands then r i.operand1 else i.operand1;
      operand2 = if ltb 2 i.num_operands then r i.operand2 else i.operand2;
      operand_list = map r i.operand_list;
      branch_args = map r i.branch_args;
    }

abbrev pub promoted_in : List Instruction → List (ℤ × Value)
promoted_in insts = (scan (alloc_ids insts) insts scan_start).promoted_values

-- A block with no stack slot is passed over; one with no promoted load is left as it is.
unfoldable pub promote_block : List Instruction → List Instruction × Bool
promote_block insts =
    if is_empty (alloc_ids insts)
    then (insts, false)
    else if is_empty (promoted_in insts)
    then (insts, false)
    else (map (replace_operands (promoted_in insts)) insts, true)

unfoldable pub promote_blocks : List BasicBlock → List BasicBlock × Bool
promote_blocks [] = ([], false)
promote_blocks (bb ∷ rest) =
    let (insts, changed) = promote_block bb.insts in
    let (blocks, others) = promote_blocks rest in
    (record bb { insts = insts } ∷ blocks, changed || others)

-- RunMem2Reg
unfoldable pub run_mem2reg : Function → Function × Bool
run_mem2reg fn =
    let (blocks, modified) = promote_blocks fn.blocks in (record fn { blocks = blocks }, modified)
