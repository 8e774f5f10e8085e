-- ===== src/Opt/MemToReg/Unchanged.antt =====
-- The flag that the promotion of loads returns.
use tinyswift.Prelude.{false, List, [], ◌∷◌, ◌≡◌, refl, ap, arith}
use tinyswift.Sil.{Instruction, BasicBlock, Function}
use tinyswift.Opt.MemToReg.{promote_block, promote_blocks, run_mem2reg}

promote_block_unmodified :
    (insts : List Instruction) → (promote_block insts).1 ≡ false → (promote_block insts).0 ≡ insts
unfolding promote_block
promote_block_unmodified insts h = ground arith

promote_blocks_unmodified :
    (blocks : List BasicBlock)
    → (promote_blocks blocks).1 ≡ false
    → (promote_blocks blocks).0 ≡ blocks
unfolding promote_blocks
promote_blocks_unmodified [] h = refl
promote_blocks_unmodified (bb ∷ rest) h =
    ground (arith, promote_block_unmodified bb.insts, promote_blocks_unmodified rest)

-- When the promotion of loads reports no change, the function is unchanged.
pub run_mem2reg_unmodified : (fn : Function) → (run_mem2reg fn).1 ≡ false → (run_mem2reg fn).0 ≡ fn
unfolding run_mem2reg
run_mem2reg_unmodified fn h =
    ap (λ bs. record fn { blocks = bs }) (promote_blocks_unmodified fn.blocks h)
