-- ===== src/Sil/Verifier/Sound.antt =====
-- The verifier of toolchain/tiny_sil/verifier.cpp against a description of a well-formed function.
use tinyswift.Prelude.{
  ℕ, suc, Bool, true, false, not, List, [], ◌∷◌, ℤ, pos, if◌then◌else◌, str_eq, length, is_empty,
  id_eq, id_eq_iff, ◌≡◌, refl, ◌↔◌, append_nil, is_empty_iff, All, Fresh, Fresh-append, push_ids,
  arith,
}
use tinyswift.Sil.{BasicBlock, Function, Module, valid_ids}
use tinyswift.Sil.Verifier.WellFormed.{
  results, block_results, Numbered, IsWellFormedBlock, IsWellFormedBody, HasShape, IsWellFormed,
}
use tinyswift.Sil.Verifier.{
  error_if, define_values, verify_basic_block, verify_blocks, verify_block_ids, block_args,
  verify_body, verify_function, verify_functions, verify_module, declaration_with_blocks,
  function_empty_name,
}
use tinyswift.Sil.Verifier.SoundBlock.{define_iff, define_set, block_iff, block_set}

blocks_iff :
    (count : ℕ) (blocks : List BasicBlock) (d : List ℤ)
    → (verify_blocks count blocks d ≡ [])
      ↔ (Fresh d (block_results blocks) × All (IsWellFormedBlock count) blocks)
unfolding verify_blocks
blocks_iff count [] d = (λ h. (tt, tt), λ h. refl)
blocks_iff count (bb ∷ rest) d =
    let ids = valid_ids (results bb.insts) in
    let one = block_iff count bb.insts d in
    let ih = blocks_iff count rest (push_ids ids d) in
    let join = Fresh-append ids (block_results rest) d in
    (
      λ h.
          let r = (append_nil (verify_basic_block count bb.insts d).1 _).0 h in
          let q = one.0 r.0 in
          let p = ih.0 (rw block_set at r.1) in
          (join.1 (q.0, p.0), (record { ends = q.1; each = q.2 }, p.1)),
      λ h.
          let r = join.0 h.0 in
          (append_nil (verify_basic_block count bb.insts d).1 _).1
            (one.1 (r.0, h.1.0.ends, h.1.0.each), rw block_set (ih.1 (r.1, h.1.1))),
    )

block_ids_iff :
    (n : ℕ) (blocks : List BasicBlock) → (verify_block_ids n blocks ≡ []) ↔ Numbered n blocks
unfolding verify_block_ids
block_ids_iff n [] = (λ h. tt, λ h. refl)
block_ids_iff n (bb ∷ rest) =
    let ih = block_ids_iff (suc n) rest in
    let same = id_eq_iff bb.id (pos n) in
    (
      λ h.
          let r = (append_nil (error_if (not (id_eq bb.id (pos n))) _) _).0 h in
          (same.0 (ground (arith, r.0)), ih.0 r.1),
      λ h. rw (same.1 h.0, ih.1 h.1),
    )

body_iff : (blocks : List BasicBlock) → (verify_body blocks ≡ []) ↔ IsWellFormedBody blocks
unfolding verify_body
body_iff [] = (λ h. cc, λ h. cc (h.has_block))
body_iff (bb ∷ rest) =
    let blocks = bb ∷ rest in
    let ids = valid_ids (block_args blocks) in
    let num = block_ids_iff 0 blocks in
    let def = define_iff (block_args blocks) [] in
    let all_blocks = blocks_iff (length blocks) blocks (push_ids ids []) in
    let join = Fresh-append ids (block_results blocks) [] in
    (
      λ h.
          let r = (append_nil (verify_block_ids 0 blocks) _).0 h in
          let q = (append_nil (define_values (block_args blocks) []).1 _).0 r.1 in
          let p = all_blocks.0 (rw define_set at q.1) in
          record {
            has_block = refl;
            numbered = num.0 r.0;
            single = join.1 (def.0 q.0, p.0);
            bodies = p.1;
          },
      λ h.
          let r = join.0 h.single in
          (append_nil (verify_block_ids 0 blocks) _).1 (
            num.1 h.numbered,
            (append_nil (define_values (block_args blocks) []).1 _).1
                (def.1 r.0, rw define_set (all_blocks.1 (r.1, h.bodies))),
          ),
    )

shape_iff :
    (decl : Bool) (blocks : List BasicBlock)
    → ((if decl
          then error_if (not (is_empty blocks)) declaration_with_blocks
          else verify_body blocks)
        ≡ [])
      ↔ HasShape decl blocks
shape_iff true blocks = (λ h. ground arith, λ h. rw h)
shape_iff false blocks = body_iff blocks

function_iff : (fn : Function) → (verify_function fn ≡ []) ↔ IsWellFormed fn
unfolding verify_function
function_iff fn =
    let shape = shape_iff fn.is_declaration fn.blocks in
    (
      λ h.
          let r = (append_nil (error_if (str_eq fn.name "") function_empty_name) _).0 h in
          record { named = ground (arith, r.0); shape = shape.0 r.1 },
      λ h.
          (append_nil (error_if (str_eq fn.name "") function_empty_name) _).1
            (rw h.named, shape.1 h.shape),
    )

functions_iff : (fns : List Function) → (verify_functions fns ≡ []) ↔ All IsWellFormed fns
unfolding verify_functions
functions_iff [] = (λ h. tt, λ h. refl)
functions_iff (fn ∷ rest) =
    let one = function_iff fn in
    let ih = functions_iff rest in
    (
      λ h. let r = (append_nil (verify_function fn) _).0 h in (one.0 r.0, ih.0 r.1),
      λ h. (append_nil (verify_function fn) _).1 (one.1 h.0, ih.1 h.1),
    )

-- The verifier accepts a module exactly when every function of it is well formed: it has a name,
-- a declaration has no block, and a definition has blocks that are numbered in order, define each
-- value identifier once (block arguments and instruction results together), end with their only
-- terminator, branch to existing blocks and give every instruction the operands, result and names
-- that its kind requires.
pub verify_module_iff : (m : Module) → (verify_module m ≡ true) ↔ All IsWellFormed m.functions
unfolding verify_module
verify_module_iff m =
    let empty = is_empty_iff (verify_functions m.functions) in
    let each = functions_iff m.functions in (λ h. each.0 (empty.0 h), λ h. empty.1 (each.1 h))
