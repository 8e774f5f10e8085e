-- ===== src/Sil/Verifier/SoundBlock.antt =====
-- The verifier of toolchain/tiny_sil/verifier.cpp at one block, against its description.
use tinyswift.Prelude.{
  ℕ, not, List, [], ◌∷◌, ℤ, pos, negsuc, ◌≡◌, refl, ◌↔◌, append_nil, All, Fresh, push_ids, arith,
}
use tinyswift.Sil.{
  Value, is_valid, InstKind, Instruction, is_terminator, valid_ids, branch, cond_branch,
  return_inst, apply, store, load, alloc_stack, integer_literal, float_literal, string_literal,
  function_ref, builtin_inst,
}
use tinyswift.Sil.Verifier.WellFormed.{IsTarget, Requires, EndsWithTerminator, results}
use tinyswift.Sil.Verifier.{
  error_if, verify_branch_target, verify_kind, verify_instruction, define_values, verify_final,
  verify_early, verify_each, verify_basic_block, cond_br_missing_condition, early_terminator,
}

verify_branch_target_iff :
    (count : ℕ) (t : ℤ) → (verify_branch_target count t ≡ []) ↔ IsTarget count t
unfolding verify_branch_target
verify_branch_target_iff count (pos t) = (λ h. ground arith, λ h. ground arith)
verify_branch_target_iff count (negsuc t) = (λ h. cc, λ h. absurd h)

instruction_iff :
    (k : InstKind) (count : ℕ) (i : Instruction) → (verify_kind k count i ≡ []) ↔ Requires k count i
unfolding verify_kind
instruction_iff branch count i = verify_branch_target_iff count i.target_block
instruction_iff cond_branch count i =
    let t = verify_branch_target_iff count i.true_block in
    let f = verify_branch_target_iff count i.false_block in
    (
      λ h.
          let r =
            (append_nil (error_if (not (is_valid i.operand0)) cond_br_missing_condition) _).0 h in
          let q = (append_nil (verify_branch_target count i.true_block) _).0 r.1 in
          (ground (arith, r.0), t.0 q.0, f.0 q.1),
      λ h. rw (h.0, t.1 h.1, f.1 h.2),
    )
instruction_iff return_inst count i = (λ h. ground arith, λ h. ground arith)
instruction_iff apply count i = (λ h. ground arith, λ h. ground arith)
instruction_iff store count i = (λ h. (ground arith, ground arith), λ h. ground arith)
instruction_iff load count i = (λ h. ground arith, λ h. ground arith)
instruction_iff alloc_stack count i = (λ h. ground arith, λ h. ground arith)
instruction_iff integer_literal count i = (λ h. ground arith, λ h. ground arith)
instruction_iff float_literal count i = (λ h. ground arith, λ h. ground arith)
instruction_iff string_literal count i = (λ h. ground arith, λ h. ground arith)
instruction_iff function_ref count i = (λ h. ground arith, λ h. ground arith)
instruction_iff builtin_inst count i = (λ h. ground arith, λ h. ground arith)
instruction_iff _ count i = (λ h. tt, λ h. refl)

pub define_iff :
    (vs : List Value) (d : List ℤ) → ((define_values vs d).1 ≡ []) ↔ Fresh d (valid_ids vs)
unfolding define_values
define_iff [] d = (λ h. tt, λ h. refl)
define_iff (v ∷ vs) d =
    let ih = define_iff vs (v.id ∷ d) in
    let ih' = define_iff vs d in
    (λ h. ground (arith, ih.0, ih'.0), λ h. ground (arith, ih.1, ih'.1))

pub define_set : (vs : List Value) (d : List ℤ) → (define_values vs d).0 ≡ push_ids (valid_ids vs) d
unfolding define_values
define_set [] d = refl
define_set (v ∷ vs) d = ground (arith, define_set vs (v.id ∷ d), define_set vs d)

final_early_iff :
    (i : Instruction) (rest : List Instruction)
    → ((verify_final (i ∷ rest) ≡ []) × (verify_early (i ∷ rest) ≡ []))
      ↔ EndsWithTerminator (i ∷ rest)
unfolding verify_final verify_early
final_early_iff i [] = (λ h. ground arith, λ h. (ground arith, refl))
final_early_iff i (j ∷ rest) =
    let ih = final_early_iff j rest in
    (
      λ h.
          let r = (append_nil (error_if (is_terminator i.kind) early_terminator) _).0 h.1 in
          (ground (arith, r.0), ih.0 (h.0, r.1)),
      λ h. ((ih.1 h.1).0, rw h.0 (ih.1 h.1).1),
    )

each_iff :
    (count : ℕ) (insts : List Instruction)
    → (verify_each count insts ≡ []) ↔ All (λ i. Requires i.kind count i) insts
unfolding verify_each verify_instruction
each_iff count [] = (λ h. tt, λ h. refl)
each_iff count (i ∷ rest) =
    let ih = each_iff count rest in
    let one = instruction_iff i.kind count i in
    (
      λ h. let r = (append_nil (verify_kind i.kind count i) _).0 h in (one.0 r.0, ih.0 r.1),
      λ h. rw (one.1 h.0, ih.1 h.1),
    )

pub block_iff :
    (count : ℕ) (insts : List Instruction) (d : List ℤ)
    → ((verify_basic_block count insts d).1 ≡ []) ↔ (
        Fresh d (valid_ids (results insts))
        × EndsWithTerminator insts
        × All (λ i. Requires i.kind count i) insts)
unfolding verify_basic_block
block_iff count [] d = (λ h. cc, λ h. absurd h.1)
block_iff count (i ∷ rest) d =
    let insts = i ∷ rest in
    let def = define_iff (results insts) d in
    let ends = final_early_iff i rest in
    let each = each_iff count insts in
    (
      λ h.
          let r = (append_nil (define_values (results insts) d).1 _).0 h in
          let q = (append_nil (verify_final insts) _).0 r.1 in
          let p = (append_nil (verify_early insts) _).0 q.1 in
          (def.0 r.0, ends.0 (q.0, p.0), each.0 p.1),
      λ h. (append_nil (define_values (results insts) d).1 _).1 (
        def.1 h.0,
        (append_nil (verify_final insts) _).1
            ((ends.1 h.1).0, (append_nil (verify_early insts) _).1 ((ends.1 h.1).1, each.1 h.2)),
      ),
    )

pub block_set :
    (count : ℕ) (insts : List Instruction) (d : List ℤ)
    → (verify_basic_block count insts d).0 ≡ push_ids (valid_ids (results insts)) d
unfolding verify_basic_block
block_set count [] d = refl
block_set count (i ∷ rest) d = define_set (results (i ∷ rest)) d
