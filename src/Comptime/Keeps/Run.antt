-- ===== src/Comptime/Keeps/Run.antt =====
-- The evaluator keeps a frame's relations at every level of nested calls.
use tinyswift.Prelude.{ℕ, zero, suc, ◌+◌, arith, false, List, String, ◌≡◌}
use mathlib.Core.Path.{subst}
use tinyswift.Comptime.Tree
use tinyswift.Comptime.Tree.{NodeKind, Node, kind, text, children, is_expr, filter_children}
use tinyswift.Comptime.Value.{Host}
use tinyswift.Comptime.State.{State}
use tinyswift.Comptime.Expr.{Evaluator}
use tinyswift.Comptime.Run.{expr_of, stmt_of, expr_step, stmt_step, evaluator}
use tinyswift.Comptime.Keeps.Rules.{Refines, Frame, KeepsAll, pure-Keeps, no_fuel-Keeps, then-Keeps}
use tinyswift.Comptime.Keeps.Calls.{
  report-Keeps, int_value-Keeps, eval_identifier-Keeps, eval_inner-Keeps, eval_prefix-Keeps,
  eval_infix-Keeps, eval_ternary-Keeps, eval_array-Keeps, eval_member-Keeps, eval_subscript-Keeps,
  eval_call-Keeps,
}
use tinyswift.Comptime.Keeps.Statements.{
  weaken-Keeps, unless_returned-Keeps, checked-Keeps, run_children-Keeps, run_block-Keeps,
  eval_assignment-Keeps, eval_declaration-Keeps, eval_return-Keeps, eval_if-Keeps,
  eval_effects-Keeps,
}
use tinyswift.Comptime.Keeps.Loops.{eval_while-Keeps, eval_for-Keeps}

module _ {E S : State → State → Type 0} (fr : Frame E S) (h : Host) where
  module _ (ev ev' : Evaluator) (k : KeepsAll E S ev ev') where
    expr_of-Keeps :
        (kd : NodeKind) (t : String) (ns : List Node)
        → Refines E (expr_of h ev kd t ns) (expr_of h ev' kd t ns)
    unfolding expr_of
    expr_of-Keeps Tree.int_literal t ns = int_value-Keeps fr (h.parse_int t)
    expr_of-Keeps Tree.floating_literal t ns = pure-Keeps fr.expr_order _
    expr_of-Keeps Tree.bool_literal_true t ns = pure-Keeps fr.expr_order _
    expr_of-Keeps Tree.bool_literal_false t ns = pure-Keeps fr.expr_order _
    expr_of-Keeps Tree.string_literal t ns = pure-Keeps fr.expr_order _
    expr_of-Keeps Tree.identifier_name_expr t ns = eval_identifier-Keeps fr t
    expr_of-Keeps Tree.paren_expr t ns = eval_inner-Keeps fr ev ev' k ns
    expr_of-Keeps Tree.prefix_operator_expr t ns = eval_prefix-Keeps fr ev ev' k h t ns
    expr_of-Keeps Tree.infix_operator_expr t ns = eval_infix-Keeps fr ev ev' k h t ns
    expr_of-Keeps Tree.ternary_expr t ns =
        eval_ternary-Keeps fr ev ev' k (filter_children is_expr ns)
    expr_of-Keeps Tree.comptime_expr t ns = eval_inner-Keeps fr ev ev' k ns
    expr_of-Keeps Tree.call_expr t ns =
        eval_call-Keeps fr _ _ (run_block-Keeps fr ev ev' k) h ev ev' ns k
    expr_of-Keeps Tree.array_expr t ns = eval_array-Keeps fr ev ev' k ns
    expr_of-Keeps Tree.member_access_expr t ns = eval_member-Keeps fr ev ev' k ns
    expr_of-Keeps Tree.subscript_expr t ns = eval_subscript-Keeps fr ev ev' k ns
    expr_of-Keeps _ t ns = report-Keeps fr _

    stmt_of-Keeps :
        (kd : NodeKind) (ns : List Node) → Refines S (stmt_of h ev kd ns) (stmt_of h ev' kd ns)
    unfolding stmt_of
    stmt_of-Keeps Tree.let_decl ns = eval_declaration-Keeps fr ev ev' k ns
    stmt_of-Keeps Tree.variable_decl ns = eval_declaration-Keeps fr ev ev' k ns
    stmt_of-Keeps Tree.return_statement ns = eval_return-Keeps fr ev ev' k ns
    stmt_of-Keeps Tree.if_statement ns = eval_if-Keeps fr ev ev' k ns
    stmt_of-Keeps Tree.while_statement ns = eval_while-Keeps fr ev ev' k ns
    stmt_of-Keeps Tree.for_in_statement ns = eval_for-Keeps fr ev ev' k h ns
    stmt_of-Keeps Tree.expr_statement ns = eval_effects-Keeps fr ev ev' k ns
    stmt_of-Keeps Tree.assignment_expr ns = eval_assignment-Keeps fr ev ev' k ns
    stmt_of-Keeps Tree.code_block ns = run_children-Keeps fr ev ev' k ns
    stmt_of-Keeps _ ns =
        then-Keeps fr.stmt_order (weaken-Keeps fr (report-Keeps fr _))
          (pure-Keeps fr.stmt_order false)

    expr_step-Keeps : (n : Node) → Refines E (expr_step h ev n) (expr_step h ev' n)
    unfolding expr_step
    expr_step-Keeps n = expr_of-Keeps (kind n) (text n) (children n)

    stmt_step-Keeps : (n : Node) → Refines S (stmt_step h ev n) (stmt_step h ev' n)
    unfolding stmt_step
    stmt_step-Keeps n =
        unless_returned-Keeps fr (checked-Keeps fr (stmt_of-Keeps (kind n) (children n)))

  -- The evaluator with more fuel for nested calls refines the one with less.
  pub evaluator-KeepsAll : (f extra : ℕ) → KeepsAll E S (evaluator h f) (evaluator h (f + extra))
  unfolding evaluator
  evaluator-KeepsAll zero extra = record {
    expr = λ _. no_fuel-Keeps fr.expr_order;
    stmt = λ _. no_fuel-Keeps fr.stmt_order;
  }
  evaluator-KeepsAll (suc f) extra =
      let e : suc f + extra ≡ suc (f + extra) = omega arith in
      rw e (record {
        expr =
            expr_step-Keeps (evaluator h f) (evaluator h (f + extra)) (evaluator-KeepsAll f extra);
        stmt =
            stmt_step-Keeps (evaluator h f) (evaluator h (f + extra)) (evaluator-KeepsAll f extra);
      })

  pub evaluator_same : (f : ℕ) → KeepsAll E S (evaluator h f) (evaluator h f)
  evaluator_same f =
      let e : f + 0 ≡ f = omega arith in
      subst (λ g. KeepsAll E S (evaluator h f) (evaluator h g)) e (evaluator-KeepsAll f 0)
