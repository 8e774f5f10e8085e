-- ===== src/Comptime/Stmt/Loops.antt =====
-- The `while` and `for`-`in` loops of `EvalStmt` in toolchain/check/comptime_eval.cpp.
use tinyswift.Prelude.{
  ℕ, zero, suc, ◌-◌, Bool, true, false, not, ◌||◌, Option, none, some, List, [], ◌∷◌, String, ℤ,
  pos, ◌+ℤ◌, ◌-ℤ◌, pos_part, if◌then◌else◌, str_eq,
}
use tinyswift.Comptime.Tree.{
  identifier_pattern, identifier_name_not_before_params, identifier_name_expr, infix_operator_expr,
  Node, node, text, children, is_expr, first_child, last_child, is_code_block,
}
use tinyswift.Comptime.Value.{Value, int, array, Values, empty, item, Host, to_int64, to_bool}
use tinyswift.Comptime.Int64.{add64}
use tinyswift.Comptime.State.{
  M, pure, ◌>>=◌, ◌>>◌, stuck, no_fuel, read, modify, on_some, set_var_mutable, max_iterations,
  check_iteration_limit,
}
use tinyswift.Comptime.Expr.{Evaluator, after_first}
use tinyswift.Comptime.Block.{run_children, continue_if, set_pending}

-- `cond.has_value() && cond->ToBool()`
unfoldable pub holds : Option Value → Bool
unfolding to_bool
holds none = false
holds (some v) = to_bool v

-- The bound of a closed range is one more.
unfoldable pub closed_end : String → ℤ → Option ℤ
closed_end op hi = if str_eq op "..." then add64 hi (pos 1) else some hi

module _ (ev : Evaluator) where
  -- One round checks the limit, then the condition, then runs the body. Without rounds left the
  -- loop has not ended.
  unfoldable pub while_loop : Node → Node → ℕ → M Bool
  while_loop c b zero = no_fuel
  while_loop c b (suc k) =
      let again = while_loop c b k in
      check_iteration_limit
      >>= continue_if (
          ev.expr c >>= λ v.
          if holds v then run_children ev (children b) >>= continue_if again else pure true)

  -- The limit leaves `max_iterations - iteration_count` rounds, and one in which the check fails.
  unfoldable pub run_while : Node → Node → M Bool
  run_while c b = read (λ s. suc (max_iterations - s.iteration_count)) >>= while_loop c b

  unfoldable pub eval_while : List Node → M Bool
  eval_while ns = do
    c ← read (λ s. s.pending_condition)
    modify (set_pending none)
    on_some (pure true) (λ cond. on_some (pure true) (run_while cond) (last_child is_code_block ns))
        c

  -- The rounds of a counted loop from `i` on.
  unfoldable pub count_loop : String → Node → ℤ → ℕ → M Bool
  count_loop x b i zero = pure true
  count_loop x b i (suc k) =
      let again = count_loop x b (i +ℤ pos 1) k in
      check_iteration_limit
      >>= continue_if (
          modify (set_var_mutable x (int i))
          >> (run_children ev (children b) >>= continue_if again))

  unfoldable pub items_loop : String → Node → Values → M Bool
  items_loop x b empty = pure true
  items_loop x b (item v vs) =
      let again = items_loop x b vs in
      check_iteration_limit
      >>= continue_if
          (modify (set_var_mutable x v) >> (run_children ev (children b) >>= continue_if again))

  -- `for (i = lo; i < hi; ++i)`
  unfoldable pub range_rounds : String → Node → ℤ → Option ℤ → M Bool
  range_rounds x b lo none = stuck
  range_rounds x b lo (some hi) = count_loop x b lo (pos_part (hi -ℤ lo))

  unfoldable pub run_range : String → String → Node → Option ℤ → Option ℤ → M Bool
  run_range op x b (some lo) (some hi) = range_rounds x b lo (closed_end op hi)
  run_range op x b _ _ = stuck

  unfoldable pub items_of : String → Node → Option Value → M Bool
  items_of x b (some (array vs)) = items_loop x b vs
  items_of x b _ = pure true

  unfoldable pub over_items : String → Node → Node → M Bool
  over_items x b r = ev.expr r >>= items_of x b

  unfoldable pub eval_bound : Option Node → M (Option Value)
  eval_bound = on_some (pure none) ev.expr

  unfoldable pub over_range : Host → String → String → Node → Node → M Bool
  over_range h op x b r = do
    lo ← eval_bound (first_child is_expr (children r))
    hi ← eval_bound (last_child is_expr (after_first (children r)))
    on_some (over_items x b r)
        (λ u. on_some (over_items x b r) (λ v. run_range op x b (to_int64 h u) (to_int64 h v)) hi)
        lo

  -- A range operator is a loop over numbers; any other sequence is taken for an array.
  unfoldable pub over_sequence : Host → String → Node → Node → M Bool
  over_sequence h x b (node infix_operator_expr op ns) =
      if str_eq op "..<" || str_eq op "..."
      then over_range h op x b (node infix_operator_expr op ns)
      else over_items x b (node infix_operator_expr op ns)
  over_sequence h x b r = over_items x b r

-- The loop's variable is the first name of some text; the sequence is the first expression from
-- that name on.
unfoldable pub is_loop_name : Node → Bool
is_loop_name (node identifier_pattern t _) = not (str_eq t "")
is_loop_name (node identifier_name_not_before_params t _) = not (str_eq t "")
is_loop_name (node identifier_name_expr t _) = not (str_eq t "")
is_loop_name _ = false

unfoldable pub sequence_of : List Node → Option Node
sequence_of [] = none
sequence_of (n ∷ ns) = if is_loop_name n then first_child is_expr (n ∷ ns) else sequence_of ns

unfoldable pub eval_for : Host → Evaluator → List Node → M Bool
eval_for h ev ns =
    on_some (pure true)
      (λ x.
        on_some (pure true)
          (λ b. on_some (pure true) (over_sequence ev h (text x) b) (sequence_of ns))
          (last_child is_code_block ns))
      (first_child is_loop_name ns)
