-- ===== src/Opt/Passes.antt =====
-- toolchain/tiny_sil_optimizer/pass_manager.cpp: the mandatory checks, and the performance passes
-- in rounds until nothing changes, four rounds at most.
pub mod Verified
use tinyswift.Prelude.{
  ℕ, zero, suc, ◌+◌, Bool, true, false, not, ◌&&◌, ◌||◌, List, [], ◌∷◌, if◌then◌else◌,
}
use tinyswift.Sil.{Function, Module}
use tinyswift.Sil.Build.{has_body}
use tinyswift.Opt.MemToReg.{run_mem2reg}
use tinyswift.Opt.ArcElim.{ArcStats, ArcResult, run_arc_elimination}
use tinyswift.Opt.Dce.{run_dce}
use tinyswift.Opt.DefiniteInit.{run_definite_initialization}
use tinyswift.Opt.ReturnAnalysis.{run_return_analysis}

-- Both checks run, whatever the first one says.
unfoldable pub run_mandatory_passes : Module → Bool
run_mandatory_passes m = run_definite_initialization m && run_return_analysis m

-- One round: promotion of loads, reference counting, dead code.
unfoldable pub round : Function → ArcStats → ArcResult
round fn stats =
    let (promoted, changed) = run_mem2reg fn in
    let arc = run_arc_elimination promoted stats in
    let (swept, removed) = run_dce arc.function in
    record { function = swept; changed = changed || arc.changed || removed; stats = arc.stats }

unfoldable pub rounds : ℕ → Function → ArcStats → Function × ArcStats
rounds zero fn stats = (fn, stats)
rounds (suc n) fn stats =
    let r = round fn stats in
    elim r.changed [ true ↦ rounds n r.function r.stats | false ↦ (r.function, r.stats) ]

abbrev pub max_iterations : ℕ
max_iterations = 4

unfoldable pub optimize_functions : List Function → ArcStats → List Function × ArcStats
optimize_functions [] stats = ([], stats)
optimize_functions (fn ∷ rest) stats =
    let (fn', stats') =
      if not fn.is_declaration && has_body fn
      then rounds max_iterations fn stats
      else (fn, stats) in
    let (rest', stats'') = optimize_functions rest stats' in (fn' ∷ rest', stats'')

abbrev pub no_stats : ArcStats
no_stats = record { retains_eliminated = 0; releases_eliminated = 0; moves_converted = 0 }

-- RunPerformancePasses, with the statistics that it prints for debugging.
unfoldable pub run_performance_passes : Module → Module × ArcStats
run_performance_passes m =
    let (functions, stats) = optimize_functions m.functions no_stats in
    (record m { functions = functions }, stats)
