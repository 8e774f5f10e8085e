-- ===== src/Opt/Dce/Keeps.antt =====
-- What dead code elimination removes, what it leaves, and what its result says.
use tinyswift.Prelude.{
  true, false, List, [], ◌∷◌, ℤ, ◌≡◌, refl, arith, Bool-cases, inl, inr, mem_id, mem_id-append,
}
use tinyswift.Sil.{
  Instruction, InstKind, BasicBlock, Function, is_terminator, valid_ids, is_valid, all_operands,
  branch, cond_branch, switch_enum, return_inst, unreachable,
}
use tinyswift.Sil.Verifier.WellFormed.{IsWellFormed}
use tinyswift.Opt.Thin.{
  Thins, done, keep, skip, ThinsBlocks, no_blocks, block, ThinsFunction, ThinsFunction-weaken,
}
use tinyswift.Opt.Thin.Verified.{IsInner, ThinsFunction-IsWellFormed}
use tinyswift.Opt.Dce.{
  kind_has_side_effects, has_side_effects, used_by, used_ids, should_keep, sweep, sweep_blocks,
  run_dce,
}

-- What the test of the pass says of a dropped instruction.
pub record Dropped (used : List ℤ) (i : Instruction) : Type 0 where
  pub defines : is_valid i.result ≡ true
  pub pure : has_side_effects i ≡ false
  pub unused : mem_id i.result.id used ≡ false

pub should_keep-false :
    (used : List ℤ) (i : Instruction) → should_keep used i ≡ false → Dropped used i
unfolding should_keep
should_keep-false used i h = record {
  defines = ground arith;
  pure = ground arith;
  unused = ground arith;
}

pub sweep-Thins :
    (used : List ℤ) (insts : List Instruction) → Thins (Dropped used) insts (sweep used insts).0
unfolding sweep
sweep-Thins used [] = done
sweep-Thins used (i ∷ rest) = elim (Bool-cases (should_keep used i)) [
  | inl h ↦ rw h (keep i (sweep-Thins used rest))
  | inr h ↦ rw h (skip i (should_keep-false used i h) (sweep-Thins used rest))
]

pub sweep_blocks-Thins :
    (used : List ℤ) (blocks : List BasicBlock)
    → ThinsBlocks (Dropped used) blocks (sweep_blocks used blocks).0
unfolding sweep_blocks
sweep_blocks-Thins used [] = no_blocks
sweep_blocks-Thins used (bb ∷ rest) =
    block bb (sweep used bb.insts).0 (sweep-Thins used bb.insts) (sweep_blocks-Thins used rest)

terminator_has_side_effects :
    (k : InstKind) (i : Instruction)
    → kind_has_side_effects k i.builtin_name ≡ false
    → is_terminator k ≡ false
unfolding kind_has_side_effects is_terminator
terminator_has_side_effects branch i h = cc
terminator_has_side_effects cond_branch i h = cc
terminator_has_side_effects switch_enum i h = cc
terminator_has_side_effects return_inst i h = cc
terminator_has_side_effects unreachable i h = cc
terminator_has_side_effects _ i h = refl

Dropped-IsInner : (used : List ℤ) (i : Instruction) → Dropped used i → IsInner i
unfolding has_side_effects
Dropped-IsInner used i h = terminator_has_side_effects i.kind i h.pure

-- A function without some dropped instructions.
pub run_dce-Dropped :
    (fn : Function) → ThinsFunction (Dropped (used_ids fn.blocks)) fn (run_dce fn).0
unfolding run_dce
run_dce-Dropped fn = record {
  blocks = (sweep_blocks (used_ids fn.blocks) fn.blocks).0;
  thins = sweep_blocks-Thins (used_ids fn.blocks) fn.blocks;
  same = refl;
}

-- A well-formed function is well formed after dead code elimination.
pub run_dce-IsWellFormed : (fn : Function) → IsWellFormed fn → IsWellFormed (run_dce fn).0
run_dce-IsWellFormed fn h =
    ThinsFunction-IsWellFormed
      (ThinsFunction-weaken (Dropped-IsInner (used_ids fn.blocks)) (run_dce-Dropped fn)) h

used_by-Thins :
    {P : Instruction → Type 0} {xs ys : List Instruction} (a : ℤ)
    → Thins P xs ys
    → mem_id a (used_by ys) ≡ true
    → mem_id a (used_by xs) ≡ true
unfolding used_by
used_by-Thins a done h = h
used_by-Thins a (keep {xs} {ys} i t) h = ground (
  arith,
  used_by-Thins a t,
  mem_id-append a (valid_ids (all_operands i)) (used_by xs),
  mem_id-append a (valid_ids (all_operands i)) (used_by ys),
)
used_by-Thins a (skip {xs} i p t) h =
    ground (arith, used_by-Thins a t, mem_id-append a (valid_ids (all_operands i)) (used_by xs))

pub used_ids-Thins :
    {P : Instruction → Type 0} {xs ys : List BasicBlock} (a : ℤ)
    → ThinsBlocks P xs ys
    → mem_id a (used_ids ys) ≡ true
    → mem_id a (used_ids xs) ≡ true
unfolding used_ids
used_ids-Thins a no_blocks h = h
used_ids-Thins a (block {xs} {ys} bb kept t ts) h = ground (
  arith,
  used_by-Thins a t,
  used_ids-Thins a ts,
  mem_id-append a (used_by bb.insts) (used_ids xs),
  mem_id-append a (used_by kept) (used_ids ys),
)
