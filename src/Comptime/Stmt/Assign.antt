-- ===== src/Comptime/Stmt/Assign.antt =====
-- `EvalAssignment` of toolchain/check/comptime_eval.cpp: `x = v`, `x[i] = v` and `x.f = v`.
use tinyswift.Prelude.{Bool, true, List, String, ℤ, pos, ltb, if◌then◌else◌}
use tinyswift.Comptime.Tree.{
  identifier_name_expr, subscript_expr, member_access_expr, Node, node, is_expr, first_child,
  last_child, to_list,
}
use tinyswift.Comptime.Value.{Value, int, array, struct, count, set_element, set_field}
use tinyswift.Comptime.State.{M, pure, ◌>>=◌, ◌>>◌, read, modify, on_some, get_var, set_var_mutable}
use tinyswift.Comptime.Expr.{Evaluator, after_first, subscript_base}

-- Every case but a failed write of the code ends with `return true`.
abbrev unchanged : M Bool
unchanged = pure true

unfoldable pub write_element : String → ℤ → Value → Value → M Bool
write_element x (pos i) v (array vs) =
    if ltb i (count vs) then modify (set_var_mutable x (array (set_element vs i v))) else unchanged
write_element x _ v _ = unchanged

unfoldable pub assign_index : String → Value → Value → M Bool
assign_index x v (int i) = read (get_var x) >>= on_some unchanged (write_element x i v)
assign_index x v _ = unchanged

unfoldable pub assign_based : Evaluator → Value → Node → Node → M Bool
assign_based ev v i (node identifier_name_expr x _) =
    ev.expr i >>= on_some unchanged (assign_index x v)
assign_based ev v i _ = ev.expr i >> unchanged

unfoldable pub assign_subscript : Evaluator → Value → List Node → M Bool
assign_subscript ev v ns =
    on_some unchanged (λ b. on_some unchanged (λ i. assign_based ev v i b) (last_child is_expr ns))
      (subscript_base ns)

unfoldable pub write_field : String → String → Value → Value → M Bool
write_field x f v (struct t fs) =
    on_some unchanged (λ fs'. modify (set_var_mutable x (struct t fs'))) (set_field f v fs)
write_field x f v _ = unchanged

-- The name of the field is the text of the token of the member access.
unfoldable pub assign_member : String → Value → Node → M Bool
assign_member f v (node identifier_name_expr x _) =
    read (get_var x) >>= on_some unchanged (write_field x f v)
assign_member f v _ = unchanged

unfoldable pub assign_to : Evaluator → Value → Node → M Bool
assign_to ev v (node identifier_name_expr x _) = modify (set_var_mutable x v)
assign_to ev v (node subscript_expr _ ns) = assign_subscript ev v (to_list ns)
assign_to ev v (node member_access_expr t ns) =
    on_some unchanged (assign_member t v) (first_child is_expr (to_list ns))
assign_to ev v _ = unchanged

unfoldable pub eval_assignment : Evaluator → List Node → M Bool
eval_assignment ev ns =
    on_some unchanged
      (λ l.
        on_some unchanged (λ r. ev.expr r >>= on_some unchanged (λ v. assign_to ev v l))
          (last_child is_expr (after_first ns)))
      (first_child is_expr ns)
