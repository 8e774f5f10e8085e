-- ===== src/Comptime/Keeps/Statements.antt =====
-- Statements keep the relation for statements: `EvalCodeBlockBody`, `EvalStmt` and `EvalAssignment`.
use tinyswift.Prelude.{
  Bool, true, false, Option, none, some, List, [], ◌∷◌, String, ℤ, pos, refl, str_eq, ltb, ◌+◌,
  head?, Bool-cases, inl, inr,
}
use tinyswift.Comptime.Tree.{
  identifier_name_expr, subscript_expr, member_access_expr, if_statement, assignment_expr, Node,
  node, kind, children, is_expr, is_expr_kind, last_child, first_child, is_code_block, to_list,
}
use tinyswift.Comptime.Value.{Value, int, array, struct, count, set_field, to_bool, none_value}
use tinyswift.Comptime.State.{
  State, Outcome, M, pure, ◌>>=◌, modify, set_var_mutable, max_iterations, check_iteration_limit,
}
use tinyswift.Comptime.Expr.{Evaluator, after_first, subscript_base}
use tinyswift.Comptime.Block.{
  Plan, skip, condition, effect, statement, plan, unless_returned, continue_if, run_plan,
  run_children,
}
use tinyswift.Comptime.Stmt.Assign.{
  write_element, assign_index, assign_based, assign_subscript, write_field, assign_member,
  assign_to, eval_assignment,
}
use tinyswift.Comptime.Stmt.Simple.{
  bound_name, set_when, declare, eval_declaration, finish, eval_return, else_of, run_else,
  run_block, branch, eval_if, eval_effects,
}
use tinyswift.Comptime.Keeps.Rules.{
  Meets, Refines, Keeps, Preorder, Frame, KeepsAll, pure-Keeps, read-Keeps, on_some-Keeps, if-Keeps,
  modify-Keeps, bind-Keeps, then-Keeps,
}

module _ {E S : State → State → Type 0} (fr : Frame E S) where
  abbrev pub p : Preorder S
  p = fr.stmt_order

  Meets-weaken :
      {A : Type 0} (s : State) (o o' : Outcome A)
      → Meets (λ t. E s t) o o'
      → Meets (λ t. S s t) o o'
  Meets-weaken s Outcome.out_of_fuel o' h = tt
  Meets-weaken s Outcome.undefined o' h = h
  Meets-weaken s (Outcome.done a t) o' h = (h.0, fr.weaken s t h.1)

  pub weaken-Keeps : {A : Type 0} {m m' : M A} → Refines E m m' → Refines S m m'
  weaken-Keeps {A} {m} {m'} k = record { apply = λ s. Meets-weaken s (m s) (m' s) (k.apply s) }

  pub true-Keeps : Keeps S (pure true)
  true-Keeps = pure-Keeps p true

  pub unless_returned-Keeps :
      {rest rest' : M Bool}
      → Refines S rest rest'
      → Refines S (unless_returned rest) (unless_returned rest')
  unfolding unless_returned
  unless_returned-Keeps h = bind-Keeps p (read-Keeps p _) λ b. if-Keeps p b (pure-Keeps p false) h

  pub continue_if-Keeps :
      {rest rest' : M Bool} (b : Bool)
      → Refines S rest rest'
      → Refines S (continue_if rest b) (continue_if rest' b)
  unfolding continue_if
  continue_if-Keeps b h = if-Keeps p b h (pure-Keeps p false)

  check_iteration_limit-Keeps : Keeps S check_iteration_limit
  unfolding check_iteration_limit
  check_iteration_limit-Keeps = record {
    apply = λ s. elim (Bool-cases (ltb max_iterations (s.iteration_count + 1))) [
      | inl e ↦ rw e (refl, fr.beyond s)
      | inr e ↦ rw e (refl, fr.within s)
    ];
  }

  pub checked-Keeps :
      {rest rest' : M Bool}
      → Refines S rest rest'
      → Refines S
          (check_iteration_limit >>= continue_if rest)
          (check_iteration_limit >>= continue_if rest')
  checked-Keeps h = bind-Keeps p check_iteration_limit-Keeps λ b. continue_if-Keeps b h

  pub update-Keeps : (x : String) (v : Value) → Keeps S (modify (set_var_mutable x v))
  update-Keeps x v = modify-Keeps _ (fr.updated x v)

  write_element-Keeps : (x : String) (i : ℤ) (v w : Value) → Keeps S (write_element x i v w)
  unfolding write_element
  write_element-Keeps x (pos i) v (array vs) =
      if-Keeps p (ltb i (count vs)) (update-Keeps x _) true-Keeps
  write_element-Keeps x _ v _ = true-Keeps

  assign_index-Keeps : (x : String) (v w : Value) → Keeps S (assign_index x v w)
  unfolding assign_index
  assign_index-Keeps x v (int i) =
      bind-Keeps p (read-Keeps p _) λ o. on_some-Keeps p o true-Keeps (write_element-Keeps x i v)
  assign_index-Keeps x v _ = true-Keeps

  write_field-Keeps : (x f : String) (v w : Value) → Keeps S (write_field x f v w)
  unfolding write_field
  write_field-Keeps x f v (struct t fs) =
      on_some-Keeps p (set_field f v fs) true-Keeps λ fs'. update-Keeps x _
  write_field-Keeps x f v _ = true-Keeps

  assign_member-Keeps : (f : String) (v : Value) (n : Node) → Keeps S (assign_member f v n)
  unfolding assign_member
  assign_member-Keeps f v (node identifier_name_expr x _) =
      bind-Keeps p (read-Keeps p _) λ o. on_some-Keeps p o true-Keeps (write_field-Keeps x f v)
  assign_member-Keeps f v _ = true-Keeps

  set_when-Keeps : (x : String) (o : Option Value) → Keeps S (set_when x o)
  unfolding set_when
  set_when-Keeps x o = on_some-Keeps p o true-Keeps λ v. modify-Keeps _ (fr.declared x v)

  finish-Keeps : (o : Option Value) → Keeps S (finish o)
  unfolding finish
  finish-Keeps o = then-Keeps p (modify-Keeps _ (fr.returned o)) (pure-Keeps p false)

  module _ (ev ev' : Evaluator) (k : KeepsAll E S ev ev') where
    pub expr-Keeps : (n : Node) → Refines S (ev.expr n) (ev'.expr n)
    expr-Keeps n = weaken-Keeps (k.expr n)

    run_plan-Keeps :
        (n : Node) {rest rest' : M Bool} (pl : Plan)
        → Refines S rest rest'
        → Refines S (run_plan ev n rest pl) (run_plan ev' n rest' pl)
    unfolding run_plan
    run_plan-Keeps n skip h = h
    run_plan-Keeps n condition h = then-Keeps p (modify-Keeps _ (fr.pending (some n))) h
    run_plan-Keeps n effect h = then-Keeps p (expr-Keeps n) (unless_returned-Keeps h)
    run_plan-Keeps n statement h = bind-Keeps p (k.stmt n) λ b. continue_if-Keeps b h

    pub run_children-Keeps : (ns : List Node) → Refines S (run_children ev ns) (run_children ev' ns)
    unfolding run_children
    run_children-Keeps [] = true-Keeps
    run_children-Keeps (n ∷ ns) =
        unless_returned-Keeps (run_plan-Keeps n (plan (kind n) (head? ns)) (run_children-Keeps ns))

    pub run_block-Keeps : (n : Node) → Refines S (run_block ev n) (run_block ev' n)
    unfolding run_block
    run_block-Keeps n = run_children-Keeps (children n)

    assign_based-Keeps :
        (v : Value) (i b : Node) → Refines S (assign_based ev v i b) (assign_based ev' v i b)
    unfolding assign_based
    assign_based-Keeps v i (node identifier_name_expr x _) =
        bind-Keeps p (expr-Keeps i) λ o. on_some-Keeps p o true-Keeps (assign_index-Keeps x v)
    assign_based-Keeps v i _ = then-Keeps p (expr-Keeps i) true-Keeps

    assign_subscript-Keeps :
        (v : Value) (ns : List Node)
        → Refines S (assign_subscript ev v ns) (assign_subscript ev' v ns)
    unfolding assign_subscript
    assign_subscript-Keeps v ns =
        on_some-Keeps p (subscript_base ns) true-Keeps
          λ b. on_some-Keeps p (last_child is_expr ns) true-Keeps λ i. assign_based-Keeps v i b

    assign_to-Keeps : (v : Value) (n : Node) → Refines S (assign_to ev v n) (assign_to ev' v n)
    unfolding assign_to
    assign_to-Keeps v (node identifier_name_expr x _) = update-Keeps x v
    assign_to-Keeps v (node subscript_expr _ ns) = assign_subscript-Keeps v (to_list ns)
    assign_to-Keeps v (node member_access_expr t ns) =
        on_some-Keeps p (first_child is_expr (to_list ns)) true-Keeps (assign_member-Keeps t v)
    assign_to-Keeps v _ = true-Keeps

    pub eval_assignment-Keeps :
        (ns : List Node) → Refines S (eval_assignment ev ns) (eval_assignment ev' ns)
    unfolding eval_assignment
    eval_assignment-Keeps ns = on_some-Keeps p (first_child is_expr ns) true-Keeps λ l.
        on_some-Keeps p (last_child is_expr (after_first ns)) true-Keeps λ r.
          bind-Keeps p (expr-Keeps r) λ o. on_some-Keeps p o true-Keeps λ v. assign_to-Keeps v l

    declare-Keeps : (x : String) (o : Option Node) → Refines S (declare ev x o) (declare ev' x o)
    unfolding declare
    declare-Keeps x none = modify-Keeps _ (fr.declared x none_value)
    declare-Keeps x (some n) = bind-Keeps p (expr-Keeps n) (set_when-Keeps x)

    pub eval_declaration-Keeps :
        (ns : List Node) → Refines S (eval_declaration ev ns) (eval_declaration ev' ns)
    unfolding eval_declaration
    eval_declaration-Keeps ns =
        if-Keeps p (str_eq (bound_name ns "") "") true-Keeps (declare-Keeps _ _)

    pub eval_return-Keeps : (ns : List Node) → Refines S (eval_return ev ns) (eval_return ev' ns)
    unfolding eval_return
    eval_return-Keeps ns =
        on_some-Keeps p (first_child is_expr ns) (finish-Keeps _)
          λ n. bind-Keeps p (expr-Keeps n) finish-Keeps

    run_else-Keeps : (n : Node) → Refines S (run_else ev n) (run_else ev' n)
    unfolding run_else
    run_else-Keeps (node if_statement t ns) = k.stmt _
    run_else-Keeps n = run_children-Keeps _

    branch-Keeps : (ns : List Node) (v : Value) → Refines S (branch ev ns v) (branch ev' ns v)
    unfolding branch
    branch-Keeps ns v =
        if-Keeps p (to_bool v)
          (on_some-Keeps p (first_child is_code_block ns) true-Keeps run_block-Keeps)
          (on_some-Keeps p (else_of ns false) true-Keeps run_else-Keeps)

    pub eval_if-Keeps : (ns : List Node) → Refines S (eval_if ev ns) (eval_if ev' ns)
    unfolding eval_if
    eval_if-Keeps ns = bind-Keeps p (read-Keeps p _) λ c.
        then-Keeps p (modify-Keeps _ (fr.pending none)) (
          on_some-Keeps p c true-Keeps λ cond.
            bind-Keeps p (expr-Keeps cond) λ o. on_some-Keeps p o true-Keeps (branch-Keeps ns))

    pub eval_effects-Keeps : (ns : List Node) → Refines S (eval_effects ev ns) (eval_effects ev' ns)
    unfolding eval_effects
    eval_effects-Keeps [] = true-Keeps
    eval_effects-Keeps (node assignment_expr _ ns ∷ _) = eval_assignment-Keeps (to_list ns)
    eval_effects-Keeps (node kd t ns ∷ rest) =
        if-Keeps p (is_expr_kind kd) (then-Keeps p (expr-Keeps _) (eval_effects-Keeps rest))
          (eval_effects-Keeps rest)
