-- ===== src/Opt/MemToReg/Meaning.antt =====
-- What a block does, with its stack slots apart from the rest of the world, and what the forward
-- scan of toolchain/tiny_sil_optimizer/mem2reg.cpp takes for granted of the block.
use tinyswift.Prelude.{
  Bool, true, false, ◌&&◌, List, [], ◌∷◌, ℤ, Option, if◌then◌else◌, mem_id, cons_id, ◌≡◌, All,
}
use tinyswift.Sil.{
  is_valid, InstKind, Instruction, all_operands, valid_ids, is_load, is_store, apply,
}
use tinyswift.Sil.Verifier.WellFormed.{results}
use tinyswift.Opt.Interp.{shape, update, args, bind_result}
use tinyswift.Opt.MemToReg.{escape_args}

-- `other` is the meaning of every instruction but a load from a slot and a store to a slot.
pub record Semantics : Type 1 where
  pub Val : Type 0
  pub World : Type 0
  pub other : Instruction → List (Option Val) → (ℤ → Val) → World → Val × (ℤ → Val) × World

unfoldable pub is_slot_load : List ℤ → Instruction → Bool
is_slot_load allocs i = is_load i.kind && (is_valid i.operand0 && mem_id i.operand0.id allocs)

unfoldable pub is_slot_store : List ℤ → Instruction → Bool
is_slot_store allocs i = is_store i.kind && (is_valid i.operand1 && mem_id i.operand1.id allocs)

-- The addresses that have escaped after the instruction.
unfoldable pub escaped_after : List ℤ → InstKind → Instruction → List ℤ → List ℤ
escaped_after allocs apply i escaped = escape_args allocs i.operand_list escaped
escaped_after allocs _ i escaped = escaped

module _ (sem : Semantics) (allocs : List ℤ) where
  open sem use {Val, World, other}

  -- The values, the slots and the world.
  pub record Machine : Type 0 where
    pub env : ℤ → Val
    pub slots : ℤ → Val
    pub world : World

  unfoldable pub step_other : Instruction → Machine → Machine
  step_other i m =
      let (v, slots', world') = other (shape i) (args m.env i) m.slots m.world in
      record { env = bind_result i.result v m.env; slots = slots'; world = world' }

  unfoldable pub step : Instruction → Machine → Machine
  step i m =
      if is_slot_load allocs i
      then record m { env = bind_result i.result (m.slots i.operand0.id) m.env }
      else if is_slot_store allocs i
      then record m { slots = update m.slots i.operand1.id (m.env i.operand0.id) }
      else step_other i m

  unfoldable pub run : List Instruction → Machine → Machine
  run [] m = m
  run (i ∷ rest) m = run rest (step i m)

  -- What is taken for granted of an instruction, before which the addresses in `escaped` have
  -- escaped and after which `later` are defined.
  pub record Ready (escaped later : List ℤ) (i : Instruction) : Type 0 where
    -- its operands are defined before it, its result nowhere else
    pub scoped :
        All
          (λ v. is_valid v ≡ true → mem_id v.id (cons_id i.result.id later) ≡ false)
          (i.operand0 ∷ i.operand1 ∷ all_operands i)
    pub defined_once : is_valid i.result ≡ true → mem_id i.result.id later ≡ false
    -- a store has a source, which is no address of a slot
    pub source : is_store i.kind ≡ true → is_valid i.operand0 ≡ true
    pub source_value : is_store i.kind ≡ true → mem_id i.operand0.id allocs ≡ false
    -- what a load defines is no slot
    pub loaded : is_load i.kind ≡ true → mem_id i.result.id allocs ≡ false
    -- a slot changes by a direct store, or after its address has escaped
    pub confined :
        (env slots : ℤ → Val) (world : World) (a : ℤ)
        → mem_id a allocs ≡ true
        → mem_id a (escaped_after allocs i.kind i escaped) ≡ false
        → (other (shape i) (args env i) slots world).1 a ≡ slots a

  abbrev pub AllReady : List ℤ → List Instruction → Type 0
  AllReady escaped [] = Unit
  AllReady escaped (i ∷ rest) =
      Ready escaped (valid_ids (results rest)) i
      × AllReady (escaped_after allocs i.kind i escaped) rest
