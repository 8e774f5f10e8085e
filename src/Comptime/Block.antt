-- ===== src/Comptime/Block.antt =====
-- `EvalCodeBlockBody` of toolchain/check/comptime_eval.cpp: the statements of a block, where the
-- condition of an `if` or a `while` stands before it as a sibling.
use tinyswift.Prelude.{Bool, true, false, Option, some, List, [], ◌∷◌, head?, if◌then◌else◌}
use tinyswift.Comptime.Tree.{
  NodeKind, code_block_start, expr_statement, assignment_expr, if_statement, while_statement, Node,
  node, kind, is_expr_kind,
}
use tinyswift.Comptime.State.{State, M, pure, ◌>>=◌, ◌>>◌, read, modify}
use tinyswift.Comptime.Expr.{Evaluator}

-- What is done with a child: passed over, kept as the pending condition, evaluated for its effects,
-- or executed.
pub data Plan : Type 0 where
  skip condition effect statement : Plan

-- The part of an expression in front of a sibling.
unfoldable pub plan_before : Option Node → Plan
plan_before (some (node if_statement _ _)) = condition
plan_before (some (node while_statement _ _)) = condition
plan_before (some (node expr_statement _ _)) = effect
plan_before _ = statement

unfoldable pub plan : NodeKind → Option Node → Plan
unfolding plan_before is_expr_kind
plan code_block_start next = skip
plan expr_statement next = skip
plan assignment_expr next = statement
plan k next = if is_expr_kind k then plan_before next else statement

unfoldable pub set_pending : Option Node → State → State
set_pending c s = record s { pending_condition = c }

-- `rest` is what follows the child; `if (has_returned_) return false;` stands before it.
unfoldable pub unless_returned : M Bool → M Bool
unless_returned rest =
    read (λ s. s.has_returned) >>= λ returned. if returned then pure false else rest

unfoldable pub continue_if : M Bool → Bool → M Bool
continue_if rest ok = if ok then rest else pure false

unfoldable pub run_plan : Evaluator → Node → M Bool → Plan → M Bool
run_plan ev n rest skip = rest
run_plan ev n rest condition = modify (set_pending (some n)) >> rest
run_plan ev n rest effect = ev.expr n >> unless_returned rest
run_plan ev n rest statement = ev.stmt n >>= continue_if rest

unfoldable pub run_children : Evaluator → List Node → M Bool
run_children ev [] = pure true
run_children ev (n ∷ ns) =
    let rest = run_children ev ns in unless_returned (run_plan ev n rest (plan (kind n) (head? ns)))
