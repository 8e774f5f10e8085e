-- ===== src/Opt/Interp.antt =====
-- What the instructions of a block do to values, stack slots and the world, for the theorems that
-- a pass keeps the meaning of a block. The meaning of each instruction is a parameter; it sees the
-- values of its operands, never their identifiers.
use tinyswift.Prelude.{List, [], ℤ, Option, none, some, if◌then◌else◌, id_eq, map}
use tinyswift.Sil.{Value, is_valid, Instruction, no_value, all_operands}

-- The instruction without its operands.
unfoldable pub shape : Instruction → Instruction
shape i = record i {
  operand0 = no_value;
  operand1 = no_value;
  operand2 = no_value;
  operand_list = [];
  branch_args = [];
}

abbrev pub update {ℓ} : {A : Type ℓ} → (ℤ → A) → ℤ → A → ℤ → A
update f a v b = if id_eq b a then v else f b

module _ {Val : Type 0} where
  abbrev pub arg : (ℤ → Val) → Value → Option Val
  arg env v = if is_valid v then some (env v.id) else none

  -- The values of the operands; an operand that is no value has none.
  unfoldable pub args : (ℤ → Val) → Instruction → List (Option Val)
  args env i = map (arg env) (all_operands i)

  -- The result enters the environment, where the instruction has one.
  unfoldable pub bind_result : Value → Val → (ℤ → Val) → ℤ → Val
  bind_result result v env = if is_valid result then update env result.id v else env
