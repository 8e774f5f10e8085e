-- ===== src/Sil/Build/Numbers.antt =====
-- Blocks are numbered as they are created: toolchain/tiny_sil/function.h.
use tinyswift.Prelude.{ℕ, suc, ◌+◌, List, [], ◌∷◌, ◌++◌, pos, length, ◌≡◌, ap, arith}
use tinyswift.Sil.{BasicBlock, Function}
use tinyswift.Sil.Build.{create_basic_block}
use tinyswift.Sil.Verifier.WellFormed.{Numbered}

Numbered-append :
    (n k : ℕ) (blocks : List BasicBlock)
    → k ≡ n + length blocks
    → Numbered n blocks
    → Numbered n (blocks ++ record { id = pos k; args = []; insts = [] } ∷ [])
Numbered-append n k [] e h = (ap pos (omega arith), tt)
Numbered-append n k (bb ∷ rest) e h = (h.0, Numbered-append (suc n) k rest (omega arith) h.1)

-- A created block takes the next number: the blocks stay numbered in order, as the verifier wants.
pub create_basic_block-Numbered :
    (fn : Function) → Numbered 0 fn.blocks → Numbered 0 (create_basic_block fn).blocks
unfolding create_basic_block
create_basic_block-Numbered fn h = Numbered-append 0 (length fn.blocks) fn.blocks (omega arith) h
