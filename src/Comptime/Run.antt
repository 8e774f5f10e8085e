-- ===== src/Comptime/Run.antt =====
-- `EvalExpr`, `EvalStmt` and the entry point `EvaluateComptimeExpr` of
-- toolchain/check/comptime_eval.cpp, tied together on fuel for the nested calls.
use tinyswift.Prelude.{ℕ, zero, suc, Bool, true, false, Option, none, some, List, String}
use tinyswift.Comptime.Tree.{
  NodeKind, int_literal, floating_literal, bool_literal_true, bool_literal_false, string_literal,
  identifier_name_expr, paren_expr, prefix_operator_expr, infix_operator_expr, ternary_expr,
  comptime_expr, call_expr, array_expr, member_access_expr, subscript_expr, assignment_expr,
  code_block, expr_statement, if_statement, while_statement, let_decl, variable_decl,
  return_statement, for_in_statement, Node, kind, text, children, is_expr, first_child,
  filter_children,
}
use tinyswift.Comptime.Value.{Value, bool, float, string, Host}
use tinyswift.Comptime.State.{
  State, M, pure, ◌>>=◌, ◌>>◌, no_fuel, modify, on_some, report, check_iteration_limit, unsupported,
  bad_expression, bad_statement, empty_expression,
}
use tinyswift.Comptime.Expr.{
  Evaluator, int_value, strip_quotes, eval_identifier, eval_inner, eval_prefix, eval_infix,
  eval_ternary, eval_array, eval_member, eval_subscript,
}
use tinyswift.Comptime.Call.{eval_call}
use tinyswift.Comptime.Block.{run_children, unless_returned, continue_if}
use tinyswift.Comptime.Stmt.Assign.{eval_assignment}
use tinyswift.Comptime.Stmt.Simple.{eval_declaration, eval_return, eval_if, eval_effects, run_block}
use tinyswift.Comptime.Stmt.Loops.{eval_while, eval_for}

-- The expressions by kind, with the token's text and the children.
unfoldable pub expr_of : Host → Evaluator → NodeKind → String → List Node → M (Option Value)
expr_of h ev int_literal t ns = int_value (h.parse_int t)
expr_of h ev floating_literal t ns = pure (some (float (h.parse_double t)))
expr_of h ev bool_literal_true t ns = pure (some (bool true))
expr_of h ev bool_literal_false t ns = pure (some (bool false))
expr_of h ev string_literal t ns = pure (some (string (strip_quotes t)))
expr_of h ev identifier_name_expr t ns = eval_identifier t
expr_of h ev paren_expr t ns = eval_inner ev ns
expr_of h ev prefix_operator_expr t ns = eval_prefix h ev t ns
expr_of h ev infix_operator_expr t ns = eval_infix h ev t ns
expr_of h ev ternary_expr t ns = eval_ternary ev (filter_children is_expr ns)
expr_of h ev comptime_expr t ns = eval_inner ev ns
expr_of h ev call_expr t ns = eval_call (run_block ev) h ev ns
expr_of h ev array_expr t ns = eval_array ev ns
expr_of h ev member_access_expr t ns = eval_member ev ns
expr_of h ev subscript_expr t ns = eval_subscript ev ns
expr_of h ev _ t ns = report (unsupported bad_expression)

unfoldable pub stmt_of : Host → Evaluator → NodeKind → List Node → M Bool
stmt_of h ev let_decl ns = eval_declaration ev ns
stmt_of h ev variable_decl ns = eval_declaration ev ns
stmt_of h ev return_statement ns = eval_return ev ns
stmt_of h ev if_statement ns = eval_if ev ns
stmt_of h ev while_statement ns = eval_while ev ns
stmt_of h ev for_in_statement ns = eval_for h ev ns
stmt_of h ev expr_statement ns = eval_effects ev ns
stmt_of h ev assignment_expr ns = eval_assignment ev ns
stmt_of h ev code_block ns = run_children ev ns
stmt_of h ev _ ns = report (unsupported bad_statement) >> pure false

unfoldable pub expr_step : Host → Evaluator → Node → M (Option Value)
expr_step h ev n = expr_of h ev (kind n) (text n) (children n)

unfoldable pub stmt_step : Host → Evaluator → Node → M Bool
stmt_step h ev n =
    unless_returned (check_iteration_limit >>= continue_if (stmt_of h ev (kind n) (children n)))

-- Each level of nested calls spends one unit of fuel.
unfoldable pub evaluator : Host → ℕ → Evaluator
evaluator h zero = record { expr = λ _. no_fuel; stmt = λ _. no_fuel }
evaluator h (suc f) =
    let ev = evaluator h f in record { expr = expr_step h ev; stmt = stmt_step h ev }

unfoldable pub eval_expr : Host → ℕ → Node → M (Option Value)
unfolding evaluator
eval_expr h f n = (evaluator h f).expr n

-- The state of the interpreter is reset, but for its environment and its functions.
unfoldable pub reset : State → State
reset s = record s { iteration_count = 0; has_returned = false; return_value = none }

unfoldable pub evaluate_comptime_expr : Host → ℕ → Node → M (Option Value)
unfolding eval_expr reset
evaluate_comptime_expr h f n =
    on_some (report (unsupported empty_expression)) (λ e. modify reset >> eval_expr h f e)
      (first_child is_expr (children n))
