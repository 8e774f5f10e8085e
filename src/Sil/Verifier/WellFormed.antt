-- ===== src/Sil/Verifier/WellFormed.antt =====
-- What toolchain/tiny_sil/verifier.cpp asks of a function, said with no reference to its loops.
use tinyswift.Prelude.{
  ℕ, suc, ◌<◌, Bool, true, false, List, [], ◌∷◌, ◌++◌, ℤ, pos, negsuc, str_eq, length, is_empty,
  map, ◌≡◌, All, Fresh,
}
use tinyswift.Sil.{
  Value, is_valid, InstKind, Instruction, BasicBlock, Function, is_terminator, valid_ids, branch,
  cond_branch, return_inst, apply, store, load, alloc_stack, integer_literal, float_literal,
  string_literal, function_ref, builtin_inst,
}
use tinyswift.Sil.Verifier.{block_args}

-- The target is the number of a block.
abbrev pub IsTarget : ℕ → ℤ → Type 0
IsTarget count (pos t) = t < count
IsTarget count (negsuc t) = ⊥

abbrev pub Requires : InstKind → ℕ → Instruction → Type 0
Requires branch count i = IsTarget count i.target_block
Requires cond_branch count i =
    (is_valid i.operand0 ≡ true) × IsTarget count i.true_block × IsTarget count i.false_block
Requires return_inst count i = is_valid i.operand0 ≡ true
Requires apply count i = is_valid i.operand0 ≡ true
Requires store count i = (is_valid i.operand0 ≡ true) × (is_valid i.operand1 ≡ true)
Requires load count i = is_valid i.operand0 ≡ true
Requires alloc_stack count i = is_valid i.result ≡ true
Requires integer_literal count i = is_valid i.result ≡ true
Requires float_literal count i = is_valid i.result ≡ true
Requires string_literal count i = is_valid i.result ≡ true
Requires function_ref count i = (str_eq i.function_name "" ≡ false) × (is_valid i.result ≡ true)
Requires builtin_inst count i = str_eq i.builtin_name "" ≡ false
Requires _ count i = Unit

-- One terminator, and it stands last.
abbrev pub EndsWithTerminator : List Instruction → Type 0
EndsWithTerminator [] = ⊥
EndsWithTerminator (i ∷ []) = is_terminator i.kind ≡ true
EndsWithTerminator (i ∷ j ∷ rest) = (is_terminator i.kind ≡ false) × EndsWithTerminator (j ∷ rest)

abbrev pub results : List Instruction → List Value
results insts = map (λ (i : Instruction). i.result) insts

abbrev pub block_results : List BasicBlock → List ℤ
block_results [] = []
block_results (bb ∷ rest) = valid_ids (results bb.insts) ++ block_results rest

-- The blocks are numbered in order.
abbrev pub Numbered : ℕ → List BasicBlock → Type 0
Numbered n [] = Unit
Numbered n (bb ∷ rest) = (bb.id ≡ pos n) × Numbered (suc n) rest

pub record IsWellFormedBlock (count : ℕ) (bb : BasicBlock) : Type 0 where
  pub ends : EndsWithTerminator bb.insts
  pub each : All (λ i. Requires i.kind count i) bb.insts

pub record IsWellFormedBody (blocks : List BasicBlock) : Type 0 where
  pub has_block : is_empty blocks ≡ false
  pub numbered : Numbered 0 blocks
  pub single : Fresh [] (valid_ids (block_args blocks) ++ block_results blocks)
  pub bodies : All (IsWellFormedBlock (length blocks)) blocks

-- A declaration has no block, a definition has a well-formed body.
abbrev pub HasShape : Bool → List BasicBlock → Type 0
HasShape true blocks = is_empty blocks ≡ true
HasShape false blocks = IsWellFormedBody blocks

pub record IsWellFormed (fn : Function) : Type 0 where
  pub named : str_eq fn.name "" ≡ false
  pub shape : HasShape fn.is_declaration fn.blocks
