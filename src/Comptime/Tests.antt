-- ===== src/Comptime/Tests.antt =====
-- Runs of the evaluator on the program of Sample, and the theorems about it at concrete inputs.
use tinyswift.Prelude.{
  ℤ, if◌then◌else◌, ◌+ℤ◌, ℕ, suc, ◌+◌, ◌-◌, ◌≡◌, refl, arith, Option, some, none, true, false, pos,
  negsuc, ◌-ℤ◌, ◌*ℤ◌, List, ◌∷◌, [], id_eq,
}
use text.Mathlib.TextEquality.{eq_iff}
use tinyswift.Comptime.Tree
use tinyswift.Comptime.Tree.{
  Node, node, nil, cons, children, is_expr, is_expr_kind, first_child, last_child, filter_children,
  is_code_block, is_definition_start, is_param_list, is_param, is_identifier_pattern,
}
use tinyswift.Comptime.Value.{Value, int, bool, is_numeric, is_float, to_int64, to_double, to_bool}
use tinyswift.Comptime.Int64.{in_int64, checked, add64, sub64, mul64, of_bits}
use tinyswift.Comptime.State.{
  State, Outcome, done, out_of_fuel, pure, ◌>>=◌, ◌>>◌, read, modify, on_some, push_scope,
  pop_stack, pop_scope, find, assign, set_in, set_var, or_else, get_in, get_var, set_var_mutable,
  check_iteration_limit, is_comptime_function, unsupported, undefined_variable, non_comptime_call,
}
use tinyswift.Comptime.Operators.{
  of_int, logical, on_strings, on_order, on_integers, string_operator, integer_operator,
  numeric_operator, apply_infix, apply_prefix,
}
use tinyswift.Comptime.Expr.{settle, int_value, eval_identifier, after_first, eval_infix, eval_list}
use tinyswift.Comptime.Call.{
  start_names, callee_of, argument_nodes, pattern_texts, param_names_in, param_names_of,
  param_names, bind_params, enter, leave, run_body, run_definition, execute_function, call_entity,
  call_named, dispatch_call, eval_call,
}
use tinyswift.Comptime.Block.{
  plan_before, plan, set_pending, unless_returned, continue_if, run_plan, run_children,
}
use tinyswift.Comptime.Stmt.Simple.{
  return_with, finish, eval_return, else_of, run_block, branch, eval_if,
}
use tinyswift.Comptime.Run.{expr_of, stmt_of, expr_step, stmt_step, evaluator, eval_expr}
use tinyswift.Comptime.Value.{array, string, item, empty}
use tinyswift.Comptime.Tree.{Nodes, of_list}
use tinyswift.Comptime.Stmt.Loops.{while_loop, run_while}
use tinyswift.Comptime.Lower.{value_to_semir}
use tinyswift.Comptime.Lower.Represents.{Represents, Extends, value_to_semir-Represents}
use tinyswift.Comptime.Integers.{exact, Divides, Shifted, apply_infix-Integers}
use tinyswift.Comptime.Operators.{apply_infix, apply_prefix, value}
use tinyswift.Comptime.Caller.{binds, is_held, counted, assigning, run_body-assigns}
use tinyswift.Comptime.Env.{store, put, store_refines}
use tinyswift.Comptime.Keeps.Scopes.{KeepsReturn, eval_expr-KeepsReturn}
use tinyswift.Comptime.Keeps.Rounds.{run_while_rounds}
use tinyswift.Comptime.Traps.{
  member, eval-name_child, call_with, eval_if-else_if, call_self, eval_expr-call_self,
}
use tinyswift.Comptime.Sample.{
  leaf, block_of, return_of, loop_body, loop_definition, sample_host, start, call_of, num,
}

-- The evaluator with what the runs below go through.
run : ℕ → Node → State → Outcome (Option Value)
unfolding is_expr is_expr_kind first_child last_child filter_children is_code_block
    is_definition_start is_param_list is_param is_identifier_pattern is_numeric is_float to_int64
    to_double to_bool in_int64 checked add64 sub64 mul64 of_bits pure ◌>>=◌ ◌>>◌ read modify on_some
    push_scope pop_stack pop_scope find assign set_in set_var or_else get_in get_var
    check_iteration_limit is_comptime_function of_int logical on_strings on_order on_integers
    string_operator integer_operator numeric_operator apply_infix settle int_value eval_identifier
    after_first eval_infix eval_list start_names callee_of argument_nodes pattern_texts
    param_names_in param_names_of param_names bind_params enter leave run_body run_definition
    execute_function call_entity call_named dispatch_call eval_call plan_before plan set_pending
    unless_returned continue_if run_plan run_children return_with finish eval_return else_of
    run_block branch eval_if ◌-ℤ◌ ◌*ℤ◌ expr_of stmt_of expr_step stmt_step evaluator eval_expr
run f n s = eval_expr sample_host f n s

abbrev factorial_2 : Node
factorial_2 = call_of "factorial" "n" (num "2")

abbrev after : State
after = record start { iteration_count = 4 }

run-factorial_2 : run 20 factorial_2 start ≡ done (some (int (pos 2))) after
unfolding run
run-factorial_2 = refl

eval_expr-KeepsReturn_example : KeepsReturn start after
unfolding run
eval_expr-KeepsReturn_example =
    eval_expr-KeepsReturn sample_host 20 factorial_2 start after (some (int (pos 2)))
      run-factorial_2

-- `while true { }`, entered near the limit.
abbrev yes : Node
yes = leaf Tree.bool_literal_true "true"

abbrev near : State
near = record start { iteration_count = 999998 }

run_while_rounds_example :
    while_loop (evaluator sample_host 5) yes (block_of []) (suc (1000000 - 999998) + 7) near
    ≡ run_while (evaluator sample_host 5) yes (block_of []) near
run_while_rounds_example = run_while_rounds sample_host 5 yes (block_of []) near 7

-- A scope that holds `a`.
abbrev with_a : State
with_a = set_var "a" (int (pos 1)) (push_scope start)

store_refines_example :
    (store (set_var "b" (int (pos 2)) with_a) ≡ put "b" (int (pos 2)) (store with_a))
    × (store (set_var_mutable "b" (int (pos 2)) with_a) ≡ put "b" (int (pos 2)) (store with_a))
    × (store (push_scope with_a) ≡ store with_a)
    × (store (pop_scope (set_var "b" (int (pos 2)) (push_scope with_a))) ≡ store with_a)
store_refines_example = store_refines "b" (int (pos 2)) with_a

-- The body `{ a = 2 }` of a function with the parameter `b`.
abbrev assigns_a : Node
assigns_a = node Tree.code_block "}" (of_list (assigning "a" (num "2") ";"))

evaluates_2 :
    eval_expr sample_host 1 (num "2") (counted (enter ("b" ∷ []) (bool true ∷ []) with_a))
    ≡ done (some (int (pos 2))) (counted (enter ("b" ∷ []) (bool true ∷ []) with_a))
unfolding eval_expr evaluator expr_step expr_of int_value pure of_bits
evaluates_2 = refl

run_body-assigns_example :
    (t : State) × (run_body
        (run_block (evaluator sample_host 2))
        assigns_a
        ("b" ∷ [])
        (bool true ∷ [])
        with_a
      ≡ done none t)
    × (store t ≡ (
        if binds ("b" ∷ []) (bool true ∷ []) "a"
        then store with_a
        else if is_held (store with_a "a")
        then put "a" (int (pos 2)) (store with_a)
        else store with_a))
unfolding is_expr is_expr_kind set_var push_scope
run_body-assigns_example =
    run_body-assigns sample_host "a" (num "2") ";" 1 assigns_a ("b" ∷ []) (bool true ∷ [])
      (int (pos 2)) with_a (counted (enter ("b" ∷ []) (bool true ∷ []) with_a)) refl refl
      (omega arith) evaluates_2 refl

-- -7 and 2, and a shift by 3.
apply_infix-Integers_example :
    (apply_infix sample_host "+" (int (negsuc 6)) (int (pos 2)) ≡ exact (negsuc 6 +ℤ pos 2))
    × (apply_infix sample_host "-" (int (negsuc 6)) (int (pos 2)) ≡ exact (negsuc 6 -ℤ pos 2))
    × (apply_infix sample_host "*" (int (negsuc 6)) (int (pos 2)) ≡ exact (negsuc 6 *ℤ pos 2))
    × Divides
        (negsuc 6)
        (pos 2)
        (apply_infix sample_host "/" (int (negsuc 6)) (int (pos 2)))
        (apply_infix sample_host "%" (int (negsuc 6)) (int (pos 2)))
    × Shifted (negsuc 6) 3 (apply_infix sample_host "<<" (int (negsuc 6)) (int (pos 3)))
    × (apply_prefix sample_host "-" (int (negsuc 6)) ≡ exact (pos 0 -ℤ negsuc 6))
    × ((c : ℤ) × (apply_prefix sample_host "~" (int (negsuc 6)) ≡ value (int c))
        × (c +ℤ negsuc 6 ≡ negsuc 0))
apply_infix-Integers_example = apply_infix-Integers sample_host (negsuc 6) (pos 2) 3

-- `[1, "a"]`
abbrev pair : Value
pair = array (item (int (pos 1)) (item (string "a") empty))

value_to_semir-Represents_example :
    Represents sample_host
      (value_to_semir sample_host pair []).1
      (value_to_semir sample_host pair []).0
      pair
    × Extends [] (value_to_semir sample_host pair []).1
value_to_semir-Represents_example = value_to_semir-Represents sample_host pair []

-- `a.count` and `factorial(n: a)`
eval-name_child_example :
    (eval_expr sample_host 7 (member "a" "count") with_a
      ≡ done none (record with_a { errors = unsupported (undefined_variable "count") ∷ [] }))
    × (eval_expr sample_host 6 (call_with "factorial" "n" "a") with_a
        ≡ done none (record with_a { errors = non_comptime_call "a" ∷ [] }))
unfolding get_var get_in find or_else set_var push_scope set_in assign
eval-name_child_example =
    eval-name_child sample_host 5 "a" "count" "factorial" "n" with_a refl refl
      (λ e. ground (arith, eq_iff "a" "", e))

-- `if false { } else if true { return 1 }`
abbrev else_children : Nodes
else_children =
    of_list (leaf Tree.if_condition "if" ∷ yes ∷ block_of (return_of (num "1") ∷ []) ∷ [])

abbrev if_children : List Node
if_children =
    leaf Tree.if_condition "if"
    ∷ block_of []
    ∷ leaf Tree.if_statement_else "else"
    ∷ node Tree.if_statement "if" else_children
    ∷ []

abbrev no : Node
no = leaf Tree.bool_literal_false "false"

eval_if-else_if_example :
    eval_if (evaluator sample_host 6) if_children (record start { pending_condition = some no })
    ≡ done true (record start { iteration_count = 1; pending_condition = none })
unfolding eval_expr evaluator expr_step expr_of pure to_bool else_of set_pending
eval_if-else_if_example =
    eval_if-else_if sample_host 5 if_children no "if" else_children
      (record start { pending_condition = some no }) start (bool false) refl refl refl refl refl
      (omega arith) refl

eval_expr-call_self_example :
    eval_expr sample_host 100
      (call_self sample_host "loop" (pos 8) loop_definition loop_body "")
      start
    ≡ out_of_fuel
unfolding last_child is_code_block id_eq
eval_expr-call_self_example =
    eval_expr-call_self sample_host "loop" (pos 8) loop_definition loop_body "" 100 start
      (λ e. ground (arith, eq_iff "loop" "", e)) refl refl refl refl
