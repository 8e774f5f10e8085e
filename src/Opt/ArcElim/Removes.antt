-- ===== src/Opt/ArcElim/Removes.antt =====
-- What the elimination of reference counting removes: retains and releases, and nothing else.
use tinyswift.Prelude.{
  ℕ, suc, ◌+◌, ◌==◌, true, false, ◌&&◌, List, [], ◌∷◌, some, is_empty, get_elem?, All, ◌≡◌, refl,
  ap, arith, Bool-cases, inl, inr,
}
use mathlib.Core.Path.{subst}
use tinyswift.Sil.{
  Instruction, InstKind, BasicBlock, Function, is_builtin, is_terminator, builtin_inst,
}
use tinyswift.Sil.Verifier.WellFormed.{IsWellFormed}
use tinyswift.Opt.Thin.{
  Thins, done, keep, skip, ThinsBlocks, no_blocks, block, ThinsFunction, ThinsFunction-weaken,
  ThinsFunction-refl,
}
use tinyswift.Opt.Thin.Verified.{IsInner, ThinsFunction-IsWellFormed}
use tinyswift.Opt.ArcElim.Positions.{IsArc, IsArcAt}
use tinyswift.Opt.ArcElim.Collect.{Position, is_marked, is_retain, is_release, arcs_of}
use tinyswift.Opt.ArcElim.{ArcStats, remove_insts, remove_blocks, mark_all, run_arc_elimination}
use tinyswift.Opt.ArcElim.Marking.{mark_all-Known}

marked-known :
    (P : Position → Type 0) (p : Position) (marks : List Position)
    → All P marks
    → is_marked p marks ≡ true
    → P p
unfolding is_marked
marked-known P p [] h e = cc
marked-known P p (q ∷ rest) h e = elim (Bool-cases (p.0 == q.0 && p.1 == q.1)) [
  | inl t ↦ (let same : q ≡ p = ground arith in subst P same h.0)
  | inr f ↦ marked-known P p rest h.1 (ground arith)
]

module _ (blocks : List BasicBlock) (marks : List Position)
    (known : All (IsArcAt blocks) marks) where
  marked-IsArc :
      (bi ii : ℕ) (bb : BasicBlock) (i : Instruction)
      → get_elem? blocks bi ≡ some bb
      → get_elem? bb.insts ii ≡ some i
      → is_marked (bi, ii) marks ≡ true
      → IsArc i
  marked-IsArc bi ii bb i e f m =
      let (bb', i', e', f', arc) = marked-known (IsArcAt blocks) (bi, ii) marks known m in
      let sb : bb' ≡ bb = ground arith in
      let fi : get_elem? bb.insts ii ≡ some i' = rw (← sb) f' in
      let si : i' ≡ i = cc (f, fi) in subst IsArc si arc

  remove_insts-Thins :
      (bi ii : ℕ) (bb : BasicBlock) (insts : List Instruction)
      → get_elem? blocks bi ≡ some bb
      → ((k j : ℕ) → j ≡ ii + k → get_elem? bb.insts j ≡ get_elem? insts k)
      → Thins IsArc insts (remove_insts marks bi ii insts)
  unfolding remove_insts
  remove_insts-Thins bi ii bb [] e sub = done
  remove_insts-Thins bi ii bb (i ∷ rest) e sub =
      let more = remove_insts-Thins bi (suc ii) bb rest e (λ k j p. sub (suc k) j (omega arith)) in
      elim (Bool-cases (is_marked (bi, ii) marks)) [
        | inl m ↦ rw m (skip i (marked-IsArc bi ii bb i e (sub 0 ii (omega arith)) m) more)
        | inr m ↦ rw m (keep i more)
      ]

  remove_blocks-Thins :
      (bi : ℕ) (suffix : List BasicBlock)
      → ((k j : ℕ) → j ≡ bi + k → get_elem? blocks j ≡ get_elem? suffix k)
      → ThinsBlocks IsArc suffix (remove_blocks marks bi suffix)
  unfolding remove_blocks
  remove_blocks-Thins bi [] sub = no_blocks
  remove_blocks-Thins bi (bb ∷ rest) sub =
      block bb (remove_insts marks bi 0 bb.insts)
        (remove_insts-Thins bi 0 bb bb.insts (sub 0 bi (omega arith))
          (λ k j p. ap (get_elem? bb.insts) (omega arith)))
        (remove_blocks-Thins (suc bi) rest (λ k j p. sub (suc k) j (omega arith)))

-- The elimination of reference counting removes retains and releases only, keeps every other
-- instruction in order, and changes nothing else of the function.
pub run_arc_elimination-Thins :
    (fn : Function) (stats : ArcStats)
    → ThinsFunction IsArc fn (run_arc_elimination fn stats).function
unfolding run_arc_elimination
run_arc_elimination-Thins fn stats =
    let marks = mark_all fn.blocks stats in
    elim (Bool-cases (is_empty (arcs_of fn.blocks).retains)) [
      | inl e ↦ rw e (ThinsFunction-refl IsArc fn)
      | inr e ↦ elim (Bool-cases (is_empty marks.to_remove)) [
        | inl f ↦ rw (e, f) (ThinsFunction-refl IsArc fn)
        | inr f ↦
            rw (e, f)
              (record {
                blocks = remove_blocks marks.to_remove 0 fn.blocks;
                thins =
                    remove_blocks-Thins fn.blocks marks.to_remove (mark_all-Known fn.blocks stats) 0
                      fn.blocks (λ k j p. ap (get_elem? fn.blocks) (omega arith));
                same = refl;
              })
      ]
    ]

builtin-IsInner : (k : InstKind) → is_builtin k ≡ true → is_terminator k ≡ false
unfolding is_builtin is_terminator
builtin-IsInner builtin_inst h = refl
builtin-IsInner _ h = cc

IsArc-IsInner : (i : Instruction) → IsArc i → IsInner i
unfolding is_retain is_release
IsArc-IsInner i h = builtin-IsInner i.kind (ground arith)

-- A well-formed function is well formed after the elimination of reference counting.
pub run_arc_elimination-IsWellFormed :
    (fn : Function) (stats : ArcStats)
    → IsWellFormed fn
    → IsWellFormed (run_arc_elimination fn stats).function
run_arc_elimination-IsWellFormed fn stats h =
    ThinsFunction-IsWellFormed
      (ThinsFunction-weaken IsArc-IsInner (run_arc_elimination-Thins fn stats)) h

-- When the elimination of reference counting reports no change, the function is unchanged.
pub run_arc_elimination_unmodified :
    (fn : Function) (stats : ArcStats)
    → (run_arc_elimination fn stats).changed ≡ false
    → (run_arc_elimination fn stats).function ≡ fn
unfolding run_arc_elimination
run_arc_elimination_unmodified fn stats h = ground arith
