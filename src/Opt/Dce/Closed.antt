-- ===== src/Opt/Dce/Closed.antt =====
-- After dead code elimination every used value is still defined.
use tinyswift.Prelude.{
  true, false, List, ℤ, pos, negsuc, ◌≡◌, arith, mem_id, mem_id-append, id_eq_iff, cons_id,
}
use tinyswift.Sil.{Instruction, BasicBlock, Function, valid_ids}
use tinyswift.Sil.Verifier.WellFormed.{results, block_results}
use tinyswift.Opt.Thin.{Thins, done, keep, skip, ThinsBlocks, no_blocks, block}
use tinyswift.Opt.Dce.{used_ids, run_dce}
use tinyswift.Opt.Effects.{Names}
use tinyswift.Opt.Dce.Unused.{Names-used_ids}
use tinyswift.Opt.Dce.Keeps.{Dropped, sweep_blocks-Thins, used_ids-Thins}

module _ (a : ℤ) (used : List ℤ) (is_used : mem_id a used ≡ true) where
  cons_defined :
      (b : ℤ) (xs ys : List ℤ)
      → (mem_id a xs ≡ true → mem_id a ys ≡ true)
      → mem_id a (cons_id b xs) ≡ true
      → mem_id a (cons_id b ys) ≡ true
  cons_defined (pos n) xs ys f h = ground (arith, f)
  cons_defined (negsuc n) xs ys f h = f h

  skip_defined :
      (b : ℤ) (xs ys : List ℤ)
      → mem_id b used ≡ false
      → (mem_id a xs ≡ true → mem_id a ys ≡ true)
      → mem_id a (cons_id b xs) ≡ true
      → mem_id a ys ≡ true
  skip_defined (pos n) xs ys u f h = ground (arith, f, id_eq_iff a (pos n))
  skip_defined (negsuc n) xs ys u f h = f h

  Thins-defined :
      {xs ys : List Instruction}
      → Thins (Dropped used) xs ys
      → mem_id a (valid_ids (results xs)) ≡ true
      → mem_id a (valid_ids (results ys)) ≡ true
  Thins-defined done h = h
  Thins-defined (keep i t) h = cons_defined i.result.id _ _ (Thins-defined t) h
  Thins-defined (skip i dead t) h = skip_defined i.result.id _ _ dead.unused (Thins-defined t) h

  ThinsBlocks-defined :
      {xs ys : List BasicBlock}
      → ThinsBlocks (Dropped used) xs ys
      → mem_id a (block_results xs) ≡ true
      → mem_id a (block_results ys) ≡ true
  ThinsBlocks-defined no_blocks h = h
  ThinsBlocks-defined (block {xs} {ys} bb kept t ts) h = ground (
    arith,
    Thins-defined t,
    ThinsBlocks-defined ts,
    mem_id-append a (valid_ids (results bb.insts)) (block_results xs),
    mem_id-append a (valid_ids (results kept)) (block_results ys),
  )

-- Dead code elimination leaves no dangling use: a value that an operand of some block names
-- afterwards, and that an instruction defined before, is defined by an instruction afterwards.
pub run_dce_closed :
    (fn : Function) (a : ℤ)
    → Names (run_dce fn).0.blocks a
    → mem_id a (block_results fn.blocks) ≡ true
    → mem_id a (block_results (run_dce fn).0.blocks) ≡ true
unfolding run_dce
run_dce_closed fn a named d =
    let u = Names-used_ids _ a named in
    let used = used_ids fn.blocks in
    let t = sweep_blocks-Thins used fn.blocks in
    ThinsBlocks-defined a used (used_ids-Thins a t u) t d
