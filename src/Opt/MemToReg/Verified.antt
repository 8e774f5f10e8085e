-- ===== src/Opt/MemToReg/Verified.antt =====
-- The promotion of loads keeps a function well formed.
use tinyswift.Prelude.{
  ℕ, suc, Bool, true, false, List, [], ◌∷◌, ◌++◌, ℤ, ◌≡◌, refl, ap, ◌∙◌, arith, All, lookup_id, map,
  length, is_empty, Bool-cases, Option-cases, inl, inr,
}
use tinyswift.Sil.{
  Value, is_valid, Instruction, InstKind, BasicBlock, Function, branch, cond_branch, return_inst,
  apply, store, load, alloc_stack, integer_literal, float_literal, string_literal, function_ref,
  builtin_inst,
}
use tinyswift.Sil.Verifier.{block_args}
use tinyswift.Sil.Verifier.WellFormed.{
  Requires, EndsWithTerminator, results, block_results, Numbered, IsWellFormedBlock, HasShape,
  IsWellFormed,
}
use tinyswift.Opt.MemToReg.{
  alloc_ids, scan_start, replace_value, replace_operands, promoted_in, promote_block,
  promote_blocks, run_mem2reg,
}
use tinyswift.Opt.MemToReg.Scan.{AllValid, lookup_id-AllValid, scan-StoresValid}

promoted_in-AllValid : (insts : List Instruction) → AllValid (promoted_in insts)
promoted_in-AllValid insts =
    (scan-StoresValid (alloc_ids insts) insts scan_start
      (record { current = tt; promoted = tt })).promoted

module _ (p : List (ℤ × Value)) (valid : AllValid p) where
  replace_value-valid : (v : Value) → is_valid v ≡ true → is_valid (replace_value p v) ≡ true
  unfolding replace_value
  replace_value-valid v h = elim (Option-cases (lookup_id v.id p)) [
    | inl e ↦ ground arith
    | inr e ↦ ground (arith, lookup_id-AllValid v.id p e.0 valid e.1)
  ]

  replace_operands-Requires :
      (k : InstKind) (count : ℕ) (i : Instruction)
      → Requires k count i
      → Requires k count (replace_operands p i)
  unfolding replace_operands
  replace_operands-Requires branch count i h = h
  replace_operands-Requires cond_branch count i h =
      (ground (arith, replace_value-valid i.operand0), h.1, h.2)
  replace_operands-Requires return_inst count i h = ground (arith, replace_value-valid i.operand0)
  replace_operands-Requires apply count i h = ground (arith, replace_value-valid i.operand0)
  replace_operands-Requires store count i h = (
    ground (arith, replace_value-valid i.operand0),
    ground (arith, replace_value-valid i.operand1),
  )
  replace_operands-Requires load count i h = ground (arith, replace_value-valid i.operand0)
  replace_operands-Requires alloc_stack count i h = h
  replace_operands-Requires integer_literal count i h = h
  replace_operands-Requires float_literal count i h = h
  replace_operands-Requires string_literal count i h = h
  replace_operands-Requires function_ref count i h = h
  replace_operands-Requires builtin_inst count i h = h
  replace_operands-Requires _ count i h = tt

  map-Requires :
      (count : ℕ) (insts : List Instruction)
      → All (λ i. Requires i.kind count i) insts
      → All (λ i. Requires i.kind count i) (map (replace_operands p) insts)
  unfolding replace_operands
  map-Requires count [] h = tt
  map-Requires count (i ∷ rest) h =
      (replace_operands-Requires i.kind count i h.0, map-Requires count rest h.1)

module _ (p : List (ℤ × Value)) where
  map-results :
      (insts : List Instruction) → results (map (replace_operands p) insts) ≡ results insts
  unfolding replace_operands
  map-results [] = refl
  map-results (i ∷ rest) = ap (λ vs. i.result ∷ vs) (map-results rest)

  map-ends :
      (insts : List Instruction)
      → EndsWithTerminator insts
      → EndsWithTerminator (map (replace_operands p) insts)
  unfolding replace_operands
  map-ends [] h = h
  map-ends (i ∷ []) h = h
  map-ends (i ∷ j ∷ rest) h = (h.0, map-ends (j ∷ rest) h.1)

-- The shape of a block after the promotion: untouched, or with operands replaced throughout.
pub promote_block-cases {ℓ} :
    (P : List Instruction → Type ℓ) (insts : List Instruction)
    → P insts
    → P (map (replace_operands (promoted_in insts)) insts)
    → P (promote_block insts).0
unfolding promote_block
promote_block-cases P insts same mapped = elim (Bool-cases (is_empty (alloc_ids insts))) [
  | inl e ↦ rw e same
  | inr e ↦ elim (Bool-cases (is_empty (promoted_in insts))) [
    | inl f ↦ rw (e, f) same
    | inr f ↦ rw (e, f) mapped
  ]
]

promote_blocks-results :
    (blocks : List BasicBlock) → block_results (promote_blocks blocks).0 ≡ block_results blocks
unfolding promote_blocks
promote_blocks-results [] = refl
promote_blocks-results (bb ∷ rest) =
    let one =
      promote_block-cases (λ insts. results insts ≡ results bb.insts) bb.insts refl
        (map-results (promoted_in bb.insts) bb.insts) in
    simp (one, promote_blocks-results rest)

promote_blocks-args :
    (blocks : List BasicBlock) → block_args (promote_blocks blocks).0 ≡ block_args blocks
unfolding promote_blocks block_args
promote_blocks-args [] = refl
promote_blocks-args (bb ∷ rest) = ap (λ vs. bb.args ++ vs) (promote_blocks-args rest)

promote_blocks-length :
    (blocks : List BasicBlock) → length (promote_blocks blocks).0 ≡ length blocks
unfolding promote_blocks
promote_blocks-length [] = refl
promote_blocks-length (bb ∷ rest) = ap suc (promote_blocks-length rest)

promote_blocks-empty :
    (blocks : List BasicBlock) → is_empty (promote_blocks blocks).0 ≡ is_empty blocks
unfolding promote_blocks
promote_blocks-empty [] = refl
promote_blocks-empty (bb ∷ rest) = refl

promote_blocks-Numbered :
    (n : ℕ) (blocks : List BasicBlock) → Numbered n blocks → Numbered n (promote_blocks blocks).0
unfolding promote_blocks
promote_blocks-Numbered n [] h = tt
promote_blocks-Numbered n (bb ∷ rest) h = (h.0, promote_blocks-Numbered (suc n) rest h.1)

promote_blocks-well_formed :
    (count : ℕ) (blocks : List BasicBlock)
    → All (IsWellFormedBlock count) blocks
    → All (IsWellFormedBlock count) (promote_blocks blocks).0
unfolding promote_blocks
promote_blocks-well_formed count [] h = tt
promote_blocks-well_formed count (bb ∷ rest) h =
    let p = promoted_in bb.insts in
    (
      record {
        ends =
            promote_block-cases EndsWithTerminator bb.insts h.0.ends (map-ends p bb.insts h.0.ends);
        each =
            promote_block-cases (λ insts. All (λ i. Requires i.kind count i) insts) bb.insts
              h.0.each (map-Requires p (promoted_in-AllValid bb.insts) count bb.insts h.0.each);
      },
      promote_blocks-well_formed count rest h.1,
    )

promote_blocks-HasShape :
    (decl : Bool) (blocks : List BasicBlock)
    → HasShape decl blocks
    → HasShape decl (promote_blocks blocks).0
promote_blocks-HasShape true blocks h = promote_blocks-empty blocks ∙ h
promote_blocks-HasShape false blocks h = record {
  has_block = promote_blocks-empty blocks ∙ h.has_block;
  numbered = promote_blocks-Numbered 0 blocks h.numbered;
  single = rw (promote_blocks-args, promote_blocks-results) h.single;
  bodies = rw promote_blocks-length (promote_blocks-well_formed (length blocks) blocks h.bodies);
}

-- A well-formed function is well formed after the promotion of loads.
pub run_mem2reg-IsWellFormed : (fn : Function) → IsWellFormed fn → IsWellFormed (run_mem2reg fn).0
unfolding run_mem2reg
run_mem2reg-IsWellFormed fn h = record {
  named = h.named;
  shape = promote_blocks-HasShape fn.is_declaration fn.blocks h.shape;
}
