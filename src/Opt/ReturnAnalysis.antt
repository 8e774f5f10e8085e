-- ===== src/Opt/ReturnAnalysis.antt =====
-- toolchain/tiny_sil_optimizer/return_analysis.cpp: every block ends with a terminator, and a
-- function that returns a value returns somewhere. The first error ends the check of a function.
pub mod Verdict
use tinyswift.Prelude.{
  Bool, true, false, not, ◌&&◌, ◌||◌, List, [], ◌∷◌, ℤ, Option, none, some, if◌then◌else◌, is_empty,
  last?, any,
}
use tinyswift.Sil.{Instruction, BasicBlock, Function, Module, is_terminator, is_return}
use tinyswift.Sil.Build.{has_body}

pub data ReturnError : Type 0 where
  empty_block no_terminator : ℤ → ReturnError
  missing_return : ReturnError

unfoldable pub last_error : ℤ → Option Instruction → Option ReturnError
last_error id none = some (empty_block id)
last_error id (some last) = if is_terminator last.kind then none else some (no_terminator id)

unfoldable pub block_errors : List BasicBlock → Option ReturnError
block_errors [] = none
block_errors (bb ∷ rest) = elim (last_error bb.id (last? bb.insts)) [
  | none ↦ block_errors rest
  | some e ↦ some e
]

unfoldable pub ends_with_return : BasicBlock → Bool
ends_with_return bb = elim (last? bb.insts) [ none ↦ false | some last ↦ is_return last.kind ]

unfoldable pub return_error : Bool → List BasicBlock → Option ReturnError
return_error is_void blocks = elim (block_errors blocks) [
  | some e ↦ some e
  | none ↦ (if not is_void && not (any ends_with_return blocks) then some missing_return else none)
]

abbrev pub is_none : Option ReturnError → Bool
is_none none = true
is_none (some _) = false

unfoldable pub check_return_paths : Function → Bool
check_return_paths fn =
    if fn.is_declaration || is_empty fn.blocks
    then true
    else is_none (return_error fn.type.is_void_return fn.blocks)

unfoldable pub check_returns : List Function → Bool
check_returns [] = true
check_returns (fn ∷ rest) =
    (if not fn.is_declaration && has_body fn then check_return_paths fn else true)
    && check_returns rest

-- RunReturnAnalysis
unfoldable pub run_return_analysis : Module → Bool
run_return_analysis m = check_returns m.functions
