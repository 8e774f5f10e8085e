-- ===== src/Opt/Dce/Modified.antt =====
-- The flag that dead code elimination returns.
use tinyswift.Prelude.{
  ℕ, ◌+◌, ◌≤◌, ◌<◌, true, false, List, [], ◌∷◌, ℤ, ◌≡◌, refl, ap, length, arith, ◌⊎◌, inl, inr,
  Bool-cases,
}
use tinyswift.Sil.{Instruction, BasicBlock, Function}
use tinyswift.Opt.Dce.{sweep, sweep_blocks, run_dce, used_ids}

-- The number of instructions.
unfoldable pub inst_count : List BasicBlock → ℕ
inst_count [] = 0
inst_count (bb ∷ rest) = length bb.insts + inst_count rest

module _ (used : List ℤ) where
  sweep-le : (insts : List Instruction) → length (sweep used insts).0 ≤ length insts
  unfolding sweep
  sweep-le [] = omega arith
  sweep-le (i ∷ rest) = ground (arith, sweep-le rest)

  sweep_modified :
      (insts : List Instruction)
      → (sweep used insts).1 ≡ true
      → length (sweep used insts).0 < length insts
  unfolding sweep
  sweep_modified [] h = cc
  sweep_modified (i ∷ rest) h = ground (arith, sweep_modified rest, sweep-le rest)

  sweep_unmodified :
      (insts : List Instruction) → (sweep used insts).1 ≡ false → (sweep used insts).0 ≡ insts
  unfolding sweep
  sweep_unmodified [] h = refl
  sweep_unmodified (i ∷ rest) h = ground (arith, sweep_unmodified rest)

  sweep_blocks-le :
      (blocks : List BasicBlock) → inst_count (sweep_blocks used blocks).0 ≤ inst_count blocks
  unfolding sweep_blocks inst_count
  sweep_blocks-le [] = omega arith
  sweep_blocks-le (bb ∷ rest) = omega (arith, sweep_blocks-le rest, sweep-le bb.insts)

  sweep_blocks_modified :
      (blocks : List BasicBlock)
      → (sweep_blocks used blocks).1 ≡ true
      → inst_count (sweep_blocks used blocks).0 < inst_count blocks
  unfolding sweep_blocks inst_count
  sweep_blocks_modified [] h = cc
  sweep_blocks_modified (bb ∷ rest) h = ground (
    arith,
    sweep_modified bb.insts,
    sweep-le bb.insts,
    sweep_blocks_modified rest,
    sweep_blocks-le rest,
  )

  sweep_blocks_unmodified :
      (blocks : List BasicBlock)
      → (sweep_blocks used blocks).1 ≡ false
      → (sweep_blocks used blocks).0 ≡ blocks
  unfolding sweep_blocks
  sweep_blocks_unmodified [] h = refl
  sweep_blocks_unmodified (bb ∷ rest) h =
      ground (arith, sweep_unmodified bb.insts, sweep_blocks_unmodified rest)

-- The flag is exact: when it is false the function is unchanged, and when it is true the function
-- has fewer instructions than before.
pub run_dce_modified :
    (fn : Function)
    → (((run_dce fn).1 ≡ false) × ((run_dce fn).0 ≡ fn))
      ⊎ (((run_dce fn).1 ≡ true) × (inst_count (run_dce fn).0.blocks < inst_count fn.blocks))
unfolding run_dce
run_dce_modified fn =
    let used = used_ids fn.blocks in
    elim (Bool-cases (sweep_blocks used fn.blocks).1) [
      | inl h ↦ inr (h, sweep_blocks_modified used fn.blocks h)
      | inr h ↦
          inl (h, ap (λ bs. record fn { blocks = bs }) (sweep_blocks_unmodified used fn.blocks h))
    ]
