-- ===== src/Opt/Dce/Meaning.antt =====
-- The meaning of a block for dead code elimination (toolchain/tiny_sil_optimizer/dce.cpp).
use tinyswift.Prelude.{true, false, List, [], ◌∷◌, ℤ, Option, mem_id, ◌≡◌}
use tinyswift.Sil.{Instruction}
use tinyswift.Opt.Interp.{shape, args, bind_result}
use tinyswift.Sil.{is_valid}
use tinyswift.Opt.Effects.{acts}

-- A meaning for the instructions: a value, and a new state. One that has a result and does not act
-- leaves the state as it is.
pub record Semantics : Type 1 where
  pub Val : Type 0
  pub State : Type 0
  pub effect : Instruction → List (Option Val) → State → Val × State
  pub quiet :
      (i : Instruction) (vs : List (Option Val)) (st : State)
      → is_valid i.result ≡ true
      → acts i ≡ false
      → (effect i vs st).1 ≡ st

module _ (sem : Semantics) where
  open sem use {Val, State, effect, quiet}

  -- One instruction: the new environment and the new state.
  pub step : Instruction → (ℤ → Val) → State → (ℤ → Val) × State
  step i env st = (
    bind_result i.result (effect (shape i) (args env i) st).0 env,
    (effect (shape i) (args env i) st).1,
  )

  pub run : List Instruction → (ℤ → Val) → State → (ℤ → Val) × State
  run [] env st = (env, st)
  run (i ∷ rest) env st = let (env', st') = step i env st in run rest env' st'

  -- The environments agree on the used identifiers.
  abbrev pub Agree : List ℤ → (ℤ → Val) → (ℤ → Val) → Type 0
  Agree used f g = (a : ℤ) → mem_id a used ≡ true → f a ≡ g a
