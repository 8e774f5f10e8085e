-- ===== src/Opt/MemToReg/Preserved.antt =====
-- The promotion of loads keeps what a block does: toolchain/tiny_sil_optimizer/mem2reg.cpp.
use tinyswift.Prelude.{
  true, false, List, [], ◌∷◌, ℤ, mem_id, lookup_id, cons_id, ◌≡◌, refl, sym, ◌∙◌, ap, arith, map,
  Bool-cases, inl, inr, All,
}
use tinyswift.Sil.{
  Value, is_valid, InstKind, Instruction, apply, load, store, valid_ids, all_operands,
}
use tinyswift.Sil.Verifier.WellFormed.{results}
use tinyswift.Opt.MemToReg.{
  ScanState, scan, scan_start, scan_store, scan_found, scan_load, scan_kind, alloc_ids,
  replace_operands, promoted_in, promote_block,
}
use tinyswift.Opt.MemToReg.Verified.{promote_block-cases}
use tinyswift.Opt.MemToReg.Meaning.{
  Semantics, is_slot_load, is_slot_store, Machine, step_other, step, run, Ready, AllReady,
}
use tinyswift.Opt.MemToReg.Invariant.{Inv, shrink, bind-Inv, shrink-Inv, store-Inv}
use tinyswift.Opt.MemToReg.Steps.{
  escaped_after-grows, kind-load, kind-store, scan_kind-escaped, load-Inv, kind-other,
}
use tinyswift.Opt.MemToReg.Replace.{IsReplacement, Settled, step-replace}

-- What later instructions do not define is promoted already.
kind_lookup :
    (allocs : List ℤ) (k : InstKind) (i : Instruction) (later : List ℤ) (s : ScanState) (a : ℤ)
    → mem_id a (cons_id i.result.id later) ≡ false
    → lookup_id a (scan_kind allocs k i s).promoted_values ≡ lookup_id a s.promoted_values
unfolding scan_kind scan_store scan_load scan_found
kind_lookup allocs apply i later s a h = refl
kind_lookup allocs store i later s a h = ground arith
kind_lookup allocs load i later s a h = ground arith
kind_lookup allocs _ i later s a h = refl

scan_lookup :
    (allocs : List ℤ) (insts : List Instruction) (s : ScanState) (a : ℤ)
    → mem_id a (valid_ids (results insts)) ≡ false
    → lookup_id a (scan allocs insts s).promoted_values ≡ lookup_id a s.promoted_values
unfolding scan
scan_lookup allocs [] s a h = refl
scan_lookup allocs (i ∷ rest) s a h =
    scan_lookup allocs rest (scan_kind allocs i.kind i s) a
      (shrink i.result.id a (valid_ids (results rest)) h)
    ∙ kind_lookup allocs i.kind i (valid_ids (results rest)) s a h

module _ (sem : Semantics) (allocs : List ℤ) where
  step-Inv :
      (i : Instruction) (later : List ℤ) (s : ScanState) (m : Machine sem allocs)
      → Ready sem allocs s.escaped later i
      → Inv allocs (cons_id i.result.id later) s m.env m.slots
      → Inv allocs later
          (scan_kind allocs i.kind i s)
          (step sem allocs i m).env
          (step sem allocs i m).slots
  unfolding step is_slot_load is_slot_store step_other
  step-Inv i later s m ready inv = elim (Bool-cases (is_slot_load allocs i)) [
    | inl e ↦
        rw (e, kind-load allocs i.kind i s (ground arith))
          (load-Inv allocs later i.operand0 i.result s m.env m.slots (ready.loaded (ground arith))
            ready.defined_once inv)
    | inr e ↦ elim (Bool-cases (is_slot_store allocs i)) [
      | inl t ↦
          (let source = ready.source (ground arith) in
            rw (e, t, kind-store allocs i.kind i s (ground arith))
              (store-Inv allocs later i.operand0 i.operand1 s m.env m.slots (ground arith)
                (ground arith) source (ready.source_value (ground arith))
                (shrink i.result.id i.operand0.id later (ready.scoped.0 source))
                (shrink-Inv allocs i.result.id later s m.env m.slots inv)))
      | inr t ↦
          rw (e, t, kind-other allocs i.kind i s _ m.env m.slots e t inv)
            (bind-Inv allocs i.result _ later _ s m.env m.slots _
              (escaped_after-grows allocs i.kind i s.escaped) (ready.confined m.env m.slots m.world)
              inv)
    ]
  ]

  -- The scan reaches its end with the invariant.
  run-Inv :
      (insts : List Instruction) (s : ScanState) (m : Machine sem allocs)
      → AllReady sem allocs s.escaped insts
      → Inv allocs (valid_ids (results insts)) s m.env m.slots
      → Inv allocs []
          (scan allocs insts s)
          (run sem allocs insts m).env
          (run sem allocs insts m).slots
  unfolding scan run
  run-Inv [] s m ready inv = inv
  run-Inv (i ∷ rest) s m ready inv =
      run-Inv rest (scan_kind allocs i.kind i s) (step sem allocs i m)
        (rw scan_kind-escaped ready.1) (step-Inv i (valid_ids (results rest)) s m ready.0 inv)

module _ (sem : Semantics) (allocs : List ℤ) (p : List (ℤ × Value))
    (ok : IsReplacement allocs p) where
  -- What the invariant and the scoping of the operands give at an instruction.
  Settled-from :
      (r : ℤ) (later : List ℤ) (s : ScanState) (m : Machine sem allocs) (vs : List Value)
      → ((a : ℤ)
          → mem_id a (cons_id r later) ≡ false
          → lookup_id a p ≡ lookup_id a s.promoted_values)
      → Inv allocs (cons_id r later) s m.env m.slots
      → All (λ v. is_valid v ≡ true → mem_id v.id (cons_id r later) ≡ false) vs
      → Settled sem allocs p ok m vs
  Settled-from r later s m [] eq inv h = tt
  Settled-from r later s m (v ∷ vs) eq inv h = (
    λ valid w e. (inv.promoted v.id w (sym (eq v.id (h.0 valid)) ∙ e)).same,
    Settled-from r later s m vs eq inv h.1,
  )

  run-replace :
      (insts : List Instruction) (s : ScanState) (m : Machine sem allocs)
      → p ≡ (scan allocs insts s).promoted_values
      → AllReady sem allocs s.escaped insts
      → Inv allocs (valid_ids (results insts)) s m.env m.slots
      → run sem allocs (map (replace_operands p) insts) m ≡ run sem allocs insts m
  unfolding run scan
  run-replace [] s m eq ready inv = refl
  run-replace (i ∷ rest) s m eq ready inv =
      let later = valid_ids (results rest) in
      let lookups = λ (a : ℤ) (n : mem_id a (cons_id i.result.id later) ≡ false).
        ap (lookup_id a) eq ∙ scan_lookup allocs (i ∷ rest) s a n in
      let operands =
        Settled-from i.result.id later s m (i.operand0 ∷ i.operand1 ∷ all_operands i) lookups inv
          ready.0.scoped in
      ap (run sem allocs (map (replace_operands p) rest))
        (step-replace sem allocs p ok i m (operands.0, operands.1.1))
      ∙ run-replace rest (scan_kind allocs i.kind i s) (step sem allocs i m) eq
          (rw scan_kind-escaped ready.1) (step-Inv sem allocs i later s m ready.0 inv)

start-Inv :
    {Val : Type 0} (allocs later : List ℤ) (env slots : ℤ → Val)
    → Inv allocs later scan_start env slots
start-Inv allocs later env slots = record {
  current = λ a v e. absurd (cc e);
  promoted = λ r v e. absurd (cc e);
}

IsReplacement-of :
    {Val : Type 0} (allocs : List ℤ) (s : ScanState) (env slots : ℤ → Val)
    → Inv allocs [] s env slots
    → IsReplacement allocs s.promoted_values
IsReplacement-of allocs s env slots inv = record {
  from_load = λ k w e. (inv.promoted k w e).is_load_result;
  valid = λ k w e. (inv.promoted k w e).valid;
  to_value = λ k w e. (inv.promoted k w e).is_value;
}

-- The promotion of loads keeps what a block does: run from any values, slots and world, the block
-- before and after ends with the same values, slots and world, whatever the other instructions
-- mean. It is taken for granted of each instruction that its operands are defined before it and
-- its result once in the block; that a store has a source, which is not the address of a slot;
-- that a load defines no slot; and that an instruction other than a direct store changes a slot
-- only if the slot's address was an argument of a call by then.
pub promote_block-meaning :
    (sem : Semantics) (insts : List Instruction) (m : Machine sem (alloc_ids insts))
    → AllReady sem (alloc_ids insts) [] insts
    → run sem (alloc_ids insts) (promote_block insts).0 m ≡ run sem (alloc_ids insts) insts m
promote_block-meaning sem insts m ready =
    let allocs = alloc_ids insts in
    let start = start-Inv allocs (valid_ids (results insts)) m.env m.slots in
    let end = run-Inv sem allocs insts scan_start m ready start in
    let ok = IsReplacement-of allocs (scan allocs insts scan_start) _ _ end in
    promote_block-cases (λ out. run sem allocs out m ≡ run sem allocs insts m) insts refl
      (run-replace sem allocs (promoted_in insts) ok insts scan_start m refl ready start)
