-- ===== src/Opt/Passes/Verified.antt =====
-- What the passes together keep: toolchain/tiny_sil_optimizer/pass_manager.cpp.
use tinyswift.Prelude.{
  ℕ, zero, suc, true, false, not, ◌&&◌, List, [], ◌∷◌, ◌≡◌, arith, All, Bool-cases, inl, inr, ◌⊎◌,
  ◌∙◌,
}
use tinyswift.Sil.{Function, Module}
use tinyswift.Sil.Build.{has_body}
use tinyswift.Sil.Verifier.{verify_module}
use tinyswift.Sil.Verifier.WellFormed.{IsWellFormed}
use tinyswift.Sil.Verifier.Sound.{verify_module_iff}
use tinyswift.Opt.MemToReg.{run_mem2reg}
use tinyswift.Opt.MemToReg.Verified.{run_mem2reg-IsWellFormed}
use tinyswift.Opt.MemToReg.Unchanged.{run_mem2reg_unmodified}
use tinyswift.Opt.ArcElim.{ArcStats, run_arc_elimination}
use tinyswift.Opt.ArcElim.Removes.{run_arc_elimination-IsWellFormed, run_arc_elimination_unmodified}
use tinyswift.Opt.Dce.Keeps.{run_dce-IsWellFormed}
use tinyswift.Opt.Dce.Modified.{run_dce_modified}
use tinyswift.Opt.Passes.{
  round, rounds, max_iterations, optimize_functions, run_performance_passes, no_stats,
}

round-IsWellFormed :
    (fn : Function) (stats : ArcStats) → IsWellFormed fn → IsWellFormed (round fn stats).function
unfolding round
round-IsWellFormed fn stats h =
    run_dce-IsWellFormed _
      (run_arc_elimination-IsWellFormed _ stats (run_mem2reg-IsWellFormed fn h))

rounds-IsWellFormed :
    (n : ℕ) (fn : Function) (stats : ArcStats)
    → IsWellFormed fn
    → IsWellFormed (rounds n fn stats).0
unfolding rounds
rounds-IsWellFormed zero fn stats h = h
rounds-IsWellFormed (suc n) fn stats h =
    let r = round fn stats in
    let kept = round-IsWellFormed fn stats h in
    elim (Bool-cases r.changed) [
      | inl e ↦ rw (e, rounds) (rounds-IsWellFormed n r.function r.stats kept)
      | inr e ↦ rw (e, rounds) kept
    ]

optimize_functions-IsWellFormed :
    (fns : List Function) (stats : ArcStats)
    → All IsWellFormed fns
    → All IsWellFormed (optimize_functions fns stats).0
unfolding optimize_functions
optimize_functions-IsWellFormed [] stats h = tt
optimize_functions-IsWellFormed (fn ∷ rest) stats h =
    elim (Bool-cases (not fn.is_declaration && has_body fn)) [
      | inl e ↦ rw e (
        rounds-IsWellFormed max_iterations fn stats h.0,
        optimize_functions-IsWellFormed rest _ h.1,
      )
      | inr e ↦ rw e (h.0, optimize_functions-IsWellFormed rest _ h.1)
    ]

-- A module that the verifier accepts is accepted after the performance passes, whatever the
-- functions in it.
pub run_performance_passes-verify :
    (m : Module) → verify_module m ≡ true → verify_module (run_performance_passes m).0 ≡ true
unfolding run_performance_passes
run_performance_passes-verify m h =
    (verify_module_iff _).1
      (optimize_functions-IsWellFormed m.functions no_stats ((verify_module_iff m).0 h))

-- A round that reports no change leaves the function as it was.
pub round_unchanged :
    (fn : Function) (stats : ArcStats)
    → (round fn stats).changed ≡ false
    → (round fn stats).function ≡ fn
unfolding round
round_unchanged fn stats h =
    let promoted = (run_mem2reg fn).0 in
    let arc = run_arc_elimination promoted stats in
    let same : promoted ≡ fn = run_mem2reg_unmodified fn (ground arith) in
    let counted : arc.function ≡ promoted =
      run_arc_elimination_unmodified promoted stats (ground arith) in
    elim (run_dce_modified arc.function) [
      | inl kept ↦ kept.1 ∙ (counted ∙ same)
      | inr less ↦ absurd (ground arith)
    ]

-- Each of the next rounds reported a change. A round may report one and leave the function as it is.
abbrev pub AllReported : ℕ → Function → ArcStats → Type 0
AllReported zero fn stats = Unit
AllReported (suc n) fn stats =
    ((round fn stats).changed ≡ true)
    × AllReported n (round fn stats).function (round fn stats).stats

-- The loop of rounds ends in one of two ways: with a function that a further round reports
-- unchanged and leaves as it is, or after all its rounds, each of which reported a change.
pub rounds_end :
    (n : ℕ) (fn : Function) (stats : ArcStats)
    → ((s : ArcStats) × ((round (rounds n fn stats).0 s).changed ≡ false)
        × ((round (rounds n fn stats).0 s).function ≡ (rounds n fn stats).0))
      ⊎ AllReported n fn stats
unfolding rounds
rounds_end zero fn stats = inr tt
rounds_end (suc n) fn stats = elim (Bool-cases (round fn stats).changed) [
  | inl e ↦ elim (rounds_end n (round fn stats).function (round fn stats).stats) [
    | inl fixed ↦ rw (e, rounds) (inl fixed)
    | inr more ↦ inr (e, more)
  ]
  | inr e ↦
      (let same = round_unchanged fn stats e in
        rw (e, rounds) (inl (stats, rw same e, rw same same)))
]
