-- ===== src/Opt/ReturnAnalysis/Verdict.antt =====
-- Which functions toolchain/tiny_sil_optimizer/return_analysis.cpp accepts.
use tinyswift.Prelude.{
  true, false, ◌||◌, List, [], ◌∷◌, none, some, is_empty, last?, any, All, ◌≡◌, refl, ◌↔◌, ◌⊎◌, inl,
  inr, arith, Bool-cases, Option-cases, ℕ, ◌∙◌, sym,
}
use mathlib.Core.Path.{subst}
use tinyswift.Sil.{Instruction, BasicBlock, Function, is_terminator}
use tinyswift.Sil.Build.{is_terminated}
use tinyswift.Sil.Verifier.WellFormed.{
  EndsWithTerminator, IsWellFormedBlock, IsWellFormedBody, HasShape, IsWellFormed,
}
use tinyswift.Opt.ReturnAnalysis.{
  last_error, block_errors, ends_with_return, return_error, check_return_paths,
}

last_iff :
    (bb : BasicBlock) → (last_error bb.id (last? bb.insts) ≡ none) ↔ (is_terminated bb ≡ true)
unfolding last_error is_terminated
last_iff bb = (λ h. ground arith, λ h. ground arith)

abbrev pub AllTerminated : List BasicBlock → Type 0
AllTerminated blocks = All (λ bb. is_terminated bb ≡ true) blocks

blocks_iff : (blocks : List BasicBlock) → (block_errors blocks ≡ none) ↔ AllTerminated blocks
unfolding block_errors
blocks_iff [] = (λ h. tt, λ h. refl)
blocks_iff (bb ∷ rest) =
    let one = last_iff bb in
    let ih = blocks_iff rest in
    elim (Option-cases (last_error bb.id (last? bb.insts))) [
      | inl e ↦ (λ h. (one.0 e, ih.0 (ground arith)), λ h. ground (arith, ih.1 h.1))
      | inr e ↦ (λ h. absurd (ground arith), λ h. absurd (ground (arith, one.1 h.0)))
    ]

-- A function with a body passes the check exactly when each of its blocks ends with a terminator
-- and, unless it returns nothing, some block ends with a return.
pub check_return_paths_iff :
    (fn : Function)
    → fn.is_declaration ≡ false
    → is_empty fn.blocks ≡ false
    → (check_return_paths fn ≡ true) ↔ (
        AllTerminated fn.blocks
        × ((fn.type.is_void_return ≡ true) ⊎ (any ends_with_return fn.blocks ≡ true)))
unfolding check_return_paths return_error
check_return_paths_iff fn d b =
    let all_blocks = blocks_iff fn.blocks in
    elim (Option-cases (block_errors fn.blocks)) [
      | inl e ↦ (λ h. (all_blocks.0 e, ground arith), λ h. ground arith)
      | inr e ↦ (λ h. absurd (ground arith), λ h. absurd (ground (arith, all_blocks.1 h.0)))
    ]

ends-last :
    (insts : List Instruction)
    → EndsWithTerminator insts
    → (t : Instruction) × (last? insts ≡ some t) × (is_terminator t.kind ≡ true)
ends-last [] h = absurd h
ends-last (i ∷ []) h = (i, refl, h)
ends-last (i ∷ j ∷ rest) h = ends-last (j ∷ rest) h.1

ends-terminated : (bb : BasicBlock) → EndsWithTerminator bb.insts → is_terminated bb ≡ true
unfolding is_terminated
ends-terminated bb h = let (t, e, f) = ends-last bb.insts h in ground arith

bodies-terminated :
    (count : ℕ) (blocks : List BasicBlock)
    → All (IsWellFormedBlock count) blocks
    → AllTerminated blocks
bodies-terminated count [] h = tt
bodies-terminated count (bb ∷ rest) h =
    (ends-terminated bb h.0.ends, bodies-terminated count rest h.1)

body-verdict :
    (fn : Function)
    → fn.is_declaration ≡ false
    → IsWellFormedBody fn.blocks
    → check_return_paths fn ≡ (fn.type.is_void_return || any ends_with_return fn.blocks)
body-verdict fn d h =
    let each = check_return_paths_iff fn d h.has_block in
    let ends = bodies-terminated _ fn.blocks h.bodies in
    elim (Bool-cases (fn.type.is_void_return || any ends_with_return fn.blocks)) [
      | inl e ↦ each.1 (ends, ground arith) ∙ sym e
      | inr e ↦ ground (arith, each.0)
    ]

-- On a definition that the verifier finds well formed, the check fails for one reason only: the
-- function returns a value and no block ends with a return.
pub check_return_paths-IsWellFormed :
    (fn : Function)
    → fn.is_declaration ≡ false
    → IsWellFormed fn
    → check_return_paths fn ≡ (fn.type.is_void_return || any ends_with_return fn.blocks)
check_return_paths-IsWellFormed fn d h =
    body-verdict fn d (subst (λ b. HasShape b fn.blocks) d h.shape)
