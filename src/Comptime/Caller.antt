-- ===== src/Comptime/Caller.antt =====
-- `ExecuteFunction` of toolchain/check/comptime_eval.cpp: the variables of a caller and the
-- assignments of the function that it calls.
use mathlib.Core.Path.{fun_ext}
use tinyswift.Prelude.{
  ℕ, suc, ◌+◌, ◌<◌, sym, Bool, true, false, ◌||◌, Option, none, some, List, [], ◌∷◌, String, ◌≡◌,
  refl, ◌∙◌, ap, arith, if◌then◌else◌, str_eq, Option-cases, Bool-cases, inl, inr,
}
use mathlib.Core.Path.{subst}
use tinyswift.Comptime.Tree
use tinyswift.Comptime.Tree.{
  Node, node, nil, cons, children, first_child, last_child, is_expr, is_expr_kind,
}
use tinyswift.Comptime.Value.{Value, Host}
use tinyswift.Comptime.Expr.{Evaluator, after_first}
use tinyswift.Comptime.Block.{run_children, run_plan, plan, continue_if}
use tinyswift.Comptime.Stmt.Simple.{run_block}
use tinyswift.Comptime.Stmt.Assign.{eval_assignment, assign_to}
use tinyswift.Comptime.Run.{stmt_of, stmt_step, evaluator, eval_expr}
use tinyswift.Comptime.Keeps.Scopes.{eval_expr-KeepsReturn}
use tinyswift.Comptime.State.{
  State, Scope, M, on_some, max_iterations, done, read, modify, pure, ◌>>=◌, ◌>>◌, push_scope,
  pop_stack, pop_scope, find, assign, set_in, set_var, get_in, get_var, update_at, update_in,
  or_set_in, set_mutable_in, set_var_mutable,
}
use tinyswift.Comptime.Call.{bind_params, enter, leave, run_body}
use tinyswift.Comptime.Steps.{bind-done, unless_returned_not, stmt_step_within}
use tinyswift.Comptime.Env.{
  store, put, find-assign, get_in-update_in, update_in-some, update_in-absent,
}

-- A parameter has the name, and is given an argument.
abbrev pub binds : List String → List Value → String → Bool
binds (y ∷ ys) (_ ∷ args) x = str_eq y x || binds ys args x
binds _ _ x = false

abbrev pub is_held : Option Value → Bool
is_held none = false
is_held (some _) = true

is_held-assign :
    (x y : String) (v : Value) (m : Scope)
    → is_held (find y (assign x v m)) ≡ (str_eq x y || is_held (find y m))
is_held-assign x y v m =
    rw (find-assign x y v m) (elim (Bool-cases (str_eq x y)) [ inl b ↦ rw b | inr b ↦ rw b ])

or_false : (a : Bool) → (a || false) ≡ a
or_false a = ground arith

or_shift : (a b c : Bool) → (b || (a || c)) ≡ ((a || b) || c)
or_shift a b c = ground arith

set_var_scope :
    (y : String) (a : Value) (s : State) (m : Scope) (env : List Scope)
    → s.env_stack ≡ m ∷ env
    → (set_var y a s).env_stack ≡ assign y a m ∷ env
unfolding set_var set_in
set_var_scope y a s m env e = ap (set_in y a) e

-- Binding fills the scope that was pushed, with the parameters and nothing else.
bind_params_scope :
    (xs : List String) (args : List Value) (x : String) (s : State) (m : Scope) (env : List Scope)
    → s.env_stack ≡ m ∷ env
    → (m' : Scope) × ((bind_params xs args s).env_stack ≡ m' ∷ env)
      × (is_held (find x m') ≡ (binds xs args x || is_held (find x m)))
unfolding bind_params
bind_params_scope [] args x s m env e = (m, e, refl)
bind_params_scope (y ∷ ys) [] x s m env e = (m, e, refl)
bind_params_scope (y ∷ ys) (a ∷ args) x s m env e =
    let (m', e', h) =
      bind_params_scope ys args x (set_var y a s) (assign y a m) env
        (set_var_scope y a s m env e) in
    (
      m',
      e',
      h
          ∙ ap (λ b. binds ys args x || b) (is_held-assign y x a m)
          ∙ or_shift (str_eq y x) (binds ys args x) (is_held (find x m)),
    )

-- What an assignment leaves for the caller: nothing in the callee's own scope, the caller's variable
-- changed where the name is not the callee's, and nothing where no one has the name.
popped :
    (x : String) (v : Value) (m : Scope) (env : List Scope)
    → (λ y. get_in y (pop_stack (set_mutable_in x v (m ∷ env)))) ≡ (
        if is_held (find x m)
        then (λ y. get_in y env)
        else if is_held (get_in x env)
        then put x v (λ y. get_in y env)
        else (λ y. get_in y env))
unfolding pop_stack set_mutable_in update_in update_at or_set_in set_in
popped x v m env = elim (Option-cases (find x m)) [
  | inr (w, f) ↦ rw f
  | inl f ↦ rw f (elim (Option-cases (get_in x env)) [
    | inl g ↦ rw g (rw (update_in-absent x v env g))
    | inr (w, g) ↦
        let (env', u) = update_in-some x v w env g in
        rw g (rw u (fun_ext (λ y. get_in-update_in x y v env u)))
  ])
]

left_store :
    (xs : List String) (args : List Value) (x : String) (v : Value) (s : State)
    → store (leave s (set_var_mutable x v (enter xs args s))) ≡ (
        if binds xs args x
        then store s
        else if is_held (store s x)
        then put x v (store s)
        else store s)
unfolding store get_var leave pop_scope set_var_mutable enter push_scope find
left_store xs args x v s =
    let (m, e, h) = bind_params_scope xs args x (push_scope s) [] s.env_stack refl in
    ap (λ env. λ y. get_in y (pop_stack (set_mutable_in x v env))) e
    ∙ popped x v m s.env_stack
    ∙ ap (λ c. if c then store s else if is_held (store s x) then put x v (store s) else store s)
        (h ∙ or_false (binds xs args x))

abbrev pub counted : State → State
counted s = record s { iteration_count = s.iteration_count + 1 }

bind_params_count :
    (xs : List String) (args : List Value) (s : State)
    → (bind_params xs args s).iteration_count ≡ s.iteration_count
unfolding bind_params set_var
bind_params_count [] args s = refl
bind_params_count (x ∷ xs) [] s = refl
bind_params_count (x ∷ xs) (a ∷ args) s = bind_params_count xs args (set_var x a s)

enter_count :
    (xs : List String) (args : List Value) (s : State)
    → (enter xs args s).iteration_count ≡ s.iteration_count
unfolding enter push_scope
enter_count xs args s = bind_params_count xs args (push_scope s)

left_by_body :
    (body : Node → M Bool) (b : Node) (xs : List String) (args : List Value) (s w : State)
    (go : Bool)
    → body b (enter xs args s) ≡ done go w
    → run_body body b xs args s ≡ done w.return_value (leave s w)
unfolding run_body read modify pure ◌>>=◌ ◌>>◌
left_by_body body b xs args s w go e = bind-done (body b) _ e

module _ (x : String) (r : Node) (sep : String) where
  -- `x = r`, and the children of a body that consists of it.
  abbrev pub assignment : Node
  assignment =
      node Tree.assignment_expr "=" (cons (node Tree.identifier_name_expr x nil) (cons r nil))

  abbrev pub assigning : List Node
  assigning =
      node Tree.code_block_start "{" nil ∷ assignment ∷ node Tree.expr_statement sep nil ∷ []

module _ (h : Host) (x : String) (r : Node) (sep : String) where
  assigned :
      (ev : Evaluator) (v : Value) (s u : State)
      → is_expr r ≡ true
      → ev.expr r s ≡ done (some v) u
      → stmt_of h ev Tree.assignment_expr (children (assignment x r sep)) s
        ≡ done true (set_var_mutable x v u)
  unfolding stmt_of eval_assignment on_some first_child last_child after_first is_expr is_expr_kind
      assign_to modify
  assigned ev v s u q e = rw q (bind-done (ev.expr r) _ e)

  run_assigning :
      (f : ℕ) (v : Value) (s u : State)
      → is_expr r ≡ true
      → s.has_returned ≡ false
      → u.has_returned ≡ false
      → s.iteration_count < max_iterations
      → eval_expr h f r (counted s) ≡ done (some v) u
      → run_children (evaluator h (suc f)) (assigning x r sep) s ≡ done true (set_var_mutable x v u)
  unfolding run_children run_plan plan continue_if eval_expr evaluator set_var_mutable pure
  run_assigning f v s u q a c l e =
      let ev = evaluator h f in
      unless_returned_not _ s a
      ∙ unless_returned_not _ s a
      ∙ bind-done (stmt_step h ev (assignment x r sep)) _
          (stmt_step_within h ev (assignment x r sep) s a l ∙ assigned ev v (counted s) u q e)
      ∙ unless_returned_not _ (set_var_mutable x v u) c

  -- A function whose body is an assignment to a name, of an expression that has a value and changes
  -- no variable, gives no value where it is called below the limit of iterations. What its caller's
  -- variables are afterwards depends on the name: those of before, where a parameter has it; those
  -- with the caller's variable assigned, where no parameter has the name and a scope of the caller
  -- does; and those of before where no one has it.
  pub run_body-assigns :
      (f : ℕ) (b : Node) (xs : List String) (args : List Value) (v : Value) (s u : State)
      → children b ≡ assigning x r sep
      → is_expr r ≡ true
      → s.iteration_count < max_iterations
      → eval_expr h f r (counted (enter xs args s)) ≡ done (some v) u
      → u.env_stack ≡ (enter xs args s).env_stack
      → (t : State) × (run_body (run_block (evaluator h (suc f))) b xs args s ≡ done none t)
        × (store t ≡ (
            if binds xs args x
            then store s
            else if is_held (store s x)
            then put x v (store s)
            else store s))
  unfolding run_block enter set_var_mutable leave pop_scope store get_var
  run_body-assigns f b xs args v s u k q l e same =
      let ev = evaluator h (suc f) in
      let kept = eval_expr-KeepsReturn h f r _ u (some v) e in
      let w = set_var_mutable x v u in
      let ran =
        ap (λ ns. run_children ev ns (enter xs args s)) k
        ∙ run_assigning f v (enter xs args s) u q refl kept.flag
            (subst (λ n. n < max_iterations) (sym (enter_count xs args s)) l) e in
      (
        leave s w,
        left_by_body (run_block ev) b xs args s w true ran
            ∙ ap (λ o. done o (leave s w)) kept.value,
        ap (λ env. λ y. get_in y (pop_stack (set_mutable_in x v env))) same
            ∙ left_store xs args x v s,
      )
