-- ===== src/Comptime/Stmt/Simple.antt =====
-- The declarations, `return`, `if` and expression statements of `EvalStmt` in
-- toolchain/check/comptime_eval.cpp.
use tinyswift.Prelude.{
  Bool, true, false, Option, none, some, List, [], ◌∷◌, String, if◌then◌else◌, str_eq,
}
use tinyswift.Comptime.Tree.{
  let_binding_pattern, var_binding_pattern, variable_pattern, identifier_pattern,
  identifier_name_not_before_params, identifier_name_before_params, identifier_name_expr,
  if_statement, code_block, assignment_expr, Node, node, children, is_expr, is_expr_kind,
  first_child, last_child, is_code_block, to_list,
}
use tinyswift.Comptime.Value.{Value, none_value, to_bool}
use tinyswift.Comptime.State.{State, M, pure, ◌>>=◌, ◌>>◌, read, modify, on_some, set_var}
use tinyswift.Comptime.Expr.{Evaluator}
use tinyswift.Comptime.Block.{run_children, set_pending}
use tinyswift.Comptime.Stmt.Assign.{eval_assignment}

-- The last name inside a pattern, or the name found before.
unfoldable pub name_in : List Node → String → String
name_in [] x = x
name_in (node identifier_pattern t _ ∷ ns) x = name_in ns t
name_in (node identifier_name_not_before_params t _ ∷ ns) x = name_in ns t
name_in (node identifier_name_before_params t _ ∷ ns) x = name_in ns t
name_in (node identifier_name_expr t _ ∷ ns) x = name_in ns t
name_in (_ ∷ ns) x = name_in ns x

unfoldable pub or_text : String → String → String
or_text x t = if str_eq x "" then t else x

-- The name that a declaration binds.
unfoldable pub bound_name : List Node → String → String
unfolding name_in or_text
bound_name [] x = x
bound_name (node let_binding_pattern t ps ∷ ns) x =
    bound_name ns (or_text (name_in (to_list ps) x) t)
bound_name (node var_binding_pattern t ps ∷ ns) x =
    bound_name ns (or_text (name_in (to_list ps) x) t)
bound_name (node variable_pattern t ps ∷ ns) x = bound_name ns (or_text (name_in (to_list ps) x) t)
bound_name (node identifier_pattern t _ ∷ ns) x = bound_name ns (or_text x t)
bound_name (_ ∷ ns) x = bound_name ns x

unfoldable pub set_when : String → Option Value → M Bool
set_when x = on_some (pure true) λ v. modify (set_var x v)

unfoldable pub declare : Evaluator → String → Option Node → M Bool
declare ev x none = modify (set_var x none_value)
declare ev x (some n) = ev.expr n >>= set_when x

unfoldable pub eval_declaration : Evaluator → List Node → M Bool
eval_declaration ev ns =
    if str_eq (bound_name ns "") ""
    then pure true
    else declare ev (bound_name ns "") (last_child is_expr ns)

-- A returned expression without a value leaves the return value as it was.
unfoldable pub return_with : Option Value → State → State
return_with none s = record s { has_returned = true }
return_with (some v) s = record s { return_value = some v; has_returned = true }

unfoldable pub finish : Option Value → M Bool
unfolding return_with
finish v = modify (return_with v) >> pure false

unfoldable pub eval_return : Evaluator → List Node → M Bool
eval_return ev ns =
    on_some (finish (some none_value)) (λ n. ev.expr n >>= finish) (first_child is_expr ns)

-- The last child that is an `if` statement, or a block other than the first one.
unfoldable pub else_of : List Node → Bool → Option Node
else_of [] seen = none
else_of (node code_block t ns ∷ rest) seen = elim (else_of rest true) [
  | some e ↦ some e
  | none ↦ if seen then some (node code_block t ns) else none
]
else_of (node if_statement t ns ∷ rest) seen = elim (else_of rest seen) [
  | some e ↦ some e
  | none ↦ some (node if_statement t ns)
]
else_of (_ ∷ rest) seen = else_of rest seen

unfoldable pub run_else : Evaluator → Node → M Bool
run_else ev (node if_statement t ns) = ev.stmt (node if_statement t ns)
run_else ev n = run_children ev (children n)

unfoldable pub run_block : Evaluator → Node → M Bool
run_block ev n = run_children ev (children n)

unfoldable pub branch : Evaluator → List Node → Value → M Bool
branch ev ns v =
    if to_bool v
    then on_some (pure true) (run_block ev) (first_child is_code_block ns)
    else on_some (pure true) (run_else ev) (else_of ns false)

unfoldable pub eval_if : Evaluator → List Node → M Bool
eval_if ev ns = do
  c ← read (λ s. s.pending_condition)
  modify (set_pending none)
  on_some (pure true) (λ cond. ev.expr cond >>= on_some (pure true) (branch ev ns)) c

-- The children of an expression statement: each is evaluated, up to an assignment.
unfoldable pub eval_effects : Evaluator → List Node → M Bool
eval_effects ev [] = pure true
eval_effects ev (node assignment_expr _ ns ∷ _) = eval_assignment ev (to_list ns)
eval_effects ev (node k t ns ∷ rest) =
    let more = eval_effects ev rest in
    if is_expr_kind k then ev.expr (node k t ns) >> more else more
