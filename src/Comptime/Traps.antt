-- ===== src/Comptime/Traps.antt =====
-- Programs for toolchain/check/comptime_eval.cpp in the shapes that toolchain/parse gives to calls,
-- member accesses and `else if`.
use tinyswift.Prelude.{
  ℕ, zero, suc, ◌+◌, ◌<◌, true, false, none, some, List, [], ◌∷◌, String, ℤ, lookup_id, ◌≡◌, ◌≢◌,
  refl, ◌∙◌, ap,
}
use tinyswift.Comptime.Tree
use tinyswift.Comptime.Tree.{
  Node, Nodes, node, nil, cons, children, is_expr, last_child, is_code_block, is_definition_start,
  to_list, is_expr_kind,
}
use tinyswift.Comptime.Value.{Value, function_decl, Host, to_bool}
use tinyswift.Comptime.State.{
  State, out_of_fuel, no_fuel, done, pure, ◌>>=◌, ◌>>◌, read, modify, on_some, get_var, push_scope,
  non_comptime_call, unsupported, undefined_variable, max_iterations,
}
use tinyswift.Comptime.Expr.{Evaluator, eval_member, eval_then, eval_list}
use tinyswift.Comptime.Call.{
  enter, param_names, eval_call, argument_nodes, callee_of, start_names, dispatch_call, call_named,
}
use tinyswift.Comptime.Block.{run_children, set_pending, run_plan, plan, plan_before}
use tinyswift.Comptime.Stmt.Simple.{else_of, eval_if, run_block, branch, run_else}
use tinyswift.Comptime.Steps.{
  bind-done, bind-out_of_fuel, eval_identifier_unknown, call_named_unknown, stmt_step_within,
  unless_returned_not, call_named_known, run_definition_with, run_body_out_of_fuel,
  bind_params_functions, eval_if_unconditional,
}
use tinyswift.Comptime.Run.{evaluator, eval_expr, expr_step, expr_of, stmt_step, stmt_of}

-- `x.m`, as toolchain/parse/parse_expr.cpp builds it: both names are IdentifierNameExpr.
abbrev pub member : String → String → Node
member x m =
    node Tree.member_access_expr "." (
      cons (node Tree.identifier_name_expr x nil) (cons (node Tree.identifier_name_expr m nil) nil))

eval-member :
    (h : Host) (f : ℕ) (x m : String) (s : State)
    → get_var m s ≡ none
    → eval_expr h (suc (suc f)) (member x m) s
      ≡ done none (record s { errors = unsupported (undefined_variable m) ∷ s.errors })
unfolding eval_expr expr_step expr_of eval_member last_child is_expr eval_then on_some pure
eval-member h f x m s e = bind-done _ _ (eval_identifier_unknown m s e)

-- `g(label: x)`, whose arguments are children of the call beside their labels.
abbrev pub call_with : String → String → String → Node
call_with g label x = node Tree.call_expr ")" (
    cons (node Tree.call_expr_start "(" (cons (node Tree.identifier_name_expr g nil) nil))
      (cons (node Tree.argument_label label nil) (cons (node Tree.identifier_name_expr x nil) nil)))

eval-call_with :
    (h : Host) (f : ℕ) (g label x : String) (s : State)
    → h.lookup_name x ≡ none
    → x ≢ ""
    → eval_expr h (suc f) (call_with g label x) s
      ≡ done none (record s { errors = non_comptime_call x ∷ s.errors })
unfolding eval_expr expr_step expr_of eval_call argument_nodes callee_of start_names eval_list
    dispatch_call is_expr_kind
eval-call_with h f g label x s e q = call_named_unknown _ h x [] s e q

-- A plain name in the wrong place is taken for the base or the callee. A property `x.m` is not read:
-- unless a variable is called `m` the access fails with `m` as an undefined variable, whatever `x`
-- is. A call `g(label: x)` fails as a call of the variable `x`, unless the checker knows a
-- declaration of that name.
pub eval-name_child :
    (h : Host) (f : ℕ) (x m g label : String) (s : State)
    → get_var m s ≡ none
    → h.lookup_name x ≡ none
    → x ≢ ""
    → (eval_expr h (suc (suc f)) (member x m) s
        ≡ done none (record s { errors = unsupported (undefined_variable m) ∷ s.errors }))
      × (eval_expr h (suc f) (call_with g label x) s
          ≡ done none (record s { errors = non_comptime_call x ∷ s.errors }))
eval-name_child h f x m g label s e l q =
    (eval-member h f x m s e, eval-call_with h f g label x s l q)

module _ (h : Host) (f : ℕ) (ns : List Node) (c : Node) (t : String) (ms : Nodes) where
  branch_else :
      (s : State) (v : Value)
      → to_bool v ≡ false
      → else_of ns false ≡ some (node Tree.if_statement t ms)
      → branch (evaluator h (suc f)) ns v s
        ≡ stmt_step h (evaluator h f) (node Tree.if_statement t ms) s
  unfolding branch run_else on_some evaluator stmt_step
  branch_else s v hv ho = rw hv (rw ho)

  -- Where the condition of an `if` is false and its `else` is another `if`, that one is passed over:
  -- nothing of it is evaluated, and only the count of iterations grows.
  pub eval_if-else_if :
      (s s₁ : State) (v : Value)
      → s.pending_condition ≡ some c
      → eval_expr h (suc f) c (set_pending none s) ≡ done (some v) s₁
      → to_bool v ≡ false
      → s₁.pending_condition ≡ none
      → s₁.has_returned ≡ false
      → s₁.iteration_count < max_iterations
      → else_of ns false ≡ some (node Tree.if_statement t ms)
      → eval_if (evaluator h (suc f)) ns s
        ≡ done true
            (record s₁ { iteration_count = s₁.iteration_count + 1; pending_condition = none })
  unfolding eval_if read modify ◌>>=◌ ◌>>◌ eval_expr stmt_of on_some branch set_pending
  eval_if-else_if s s₁ v hc he hv hp hr hn ho =
      let ev = evaluator h (suc f) in
      ap
        (λ o.
          on_some (pure true) (λ cond. ev.expr cond >>= on_some (pure true) (branch ev ns)) o
            (set_pending none s))
        hc
      ∙ bind-done (ev.expr c) (on_some (pure true) (branch ev ns)) he
      ∙ branch_else s₁ v hv ho
      ∙ stmt_step_within h (evaluator h f) (node Tree.if_statement t ms) s₁ hr hn
      ∙ eval_if_unconditional (evaluator h f) (to_list ms)
          (record s₁ { iteration_count = s₁.iteration_count + 1 }) hp

module _ (h : Host) (g : String) (i : ℤ) (def b : Node) (sep : String) where
  -- `g()`, and a function whose body is that call as an expression statement.
  abbrev pub call_self : Node
  call_self =
      node Tree.call_expr ")"
        (cons (node Tree.call_expr_start "(" (cons (node Tree.identifier_name_expr g nil) nil)) nil)

  abbrev xs : List String
  xs = param_names (last_child is_definition_start (children def))

  run_children_self :
      (ev : Evaluator) (s : State)
      → s.has_returned ≡ false
      → ev.expr call_self s ≡ out_of_fuel
      → run_children ev
          (node Tree.code_block_start "{" nil ∷ call_self ∷ node Tree.expr_statement sep nil ∷ [])
          s
        ≡ out_of_fuel
  unfolding run_children run_plan plan plan_before is_expr_kind ◌>>◌
  run_children_self ev s r e =
      unless_returned_not _ s r
      ∙ unless_returned_not _ s r
      ∙ bind-out_of_fuel (ev.expr call_self) _ e

  -- A comptime function whose body is a call of itself, as an expression statement, is never left:
  -- no depth of nested calls is enough, since such a statement does not count as an iteration.
  pub eval_expr-call_self :
      (f : ℕ) (s : State)
      → g ≢ ""
      → h.lookup_name g ≡ some (function_decl i)
      → last_child is_code_block (children def) ≡ some b
      → children b
        ≡ node Tree.code_block_start "{" nil ∷ call_self ∷ node Tree.expr_statement sep nil ∷ []
      → lookup_id i s.function_defs ≡ some def
      → eval_expr h f call_self s ≡ out_of_fuel
  unfolding eval_expr no_fuel expr_step expr_of eval_call argument_nodes callee_of start_names
      eval_list dispatch_call run_block run_children enter push_scope is_expr_kind call_named
  eval_expr-call_self zero s q l d k e = refl
  eval_expr-call_self (suc f) s q l d k e =
      let ev = evaluator h f in
      let s₁ = enter xs [] s in
      call_named_known (run_block ev) h g i [] s def q l e
      ∙ run_definition_with (run_block ev) [] def b s d
      ∙ run_body_out_of_fuel (run_block ev) b xs [] s (
          ap (λ ns. run_children ev ns s₁) k
          ∙ run_children_self ev s₁ refl (
              eval_expr-call_self f s₁ q l d k
                (ap (lookup_id i) (bind_params_functions xs [] (push_scope s)) ∙ e)))
