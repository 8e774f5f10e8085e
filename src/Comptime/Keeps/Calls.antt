-- ===== src/Comptime/Keeps/Calls.antt =====
-- Expressions keep the relation for expressions: the helpers of `EvalExpr`, with calls.
use tinyswift.Prelude.{
  Bool, ◌≡◌, Bool-cases, inl, inr, not, Option, none, some, List, [], ◌∷◌, String, ℤ, pos, negsuc,
  refl, str_eq, ◌&&◌, ltb, ℕ, ◌^◌,
}
use tinyswift.Comptime.Tree.{
  Node, is_expr, last_child, first_child, filter_children, is_code_block, children,
}
use tinyswift.Comptime.Value.{
  Value, int, bool, float, string, array, struct, none_value, Values, Host, to_bool, Entity,
  function_decl, struct_type, other_inst,
}
use tinyswift.Comptime.State.{
  State, Outcome, out_of_fuel, undefined, done, M, pure, ◌>>=◌, ◌>>◌, read, modify, report, Error,
  on_some, get_var,
}
use tinyswift.Comptime.Operators.{Computed, value, fault, undefined_result}
use tinyswift.Comptime.Expr.{
  Evaluator, nothing, eval_then, settle, int_value, eval_identifier, eval_inner, eval_prefix,
  eval_infix, eval_ternary, eval_list, eval_array, member_of, eval_member, at_index, subscript_of,
  eval_subscript, after_first, subscript_base,
}
use tinyswift.Comptime.Call.{
  enter, leave, append_first, call_method, init_struct, eval_struct_init, argument_nodes, run_body,
  run_definition, execute_function, call_entity, call_named, dispatch_call, eval_call, Callee,
}
use tinyswift.Comptime.Keeps.Rules.{
  Meets, Refines, Keeps, Preorder, Frame, KeepsAll, pure-Keeps, read-Keeps, stuck-Keeps,
  on_some-Keeps, if-Keeps, bind-Keeps,
}

module _ {E S : State → State → Type 0} (fr : Frame E S) where
  abbrev p : Preorder E
  p = fr.expr_order

  nothing-Keeps : Keeps E nothing
  nothing-Keeps = pure-Keeps p none

  pub report-Keeps : (e : Error) → Keeps E (report e)
  unfolding report
  report-Keeps e = record { apply = λ s. (refl, fr.reported e s) }

  settle-Keeps : (c : Computed) → Keeps E (settle c)
  unfolding settle
  settle-Keeps (value v) = pure-Keeps p (some v)
  settle-Keeps (fault e) = report-Keeps e
  settle-Keeps undefined_result = stuck-Keeps p

  pub int_value-Keeps : (o : Option ℕ) → Keeps E (int_value o)
  unfolding int_value
  int_value-Keeps none = pure-Keeps p _
  int_value-Keeps (some n) = if-Keeps p (ltb n (2 ^ 64)) (pure-Keeps p _) (stuck-Keeps p)

  pub eval_identifier-Keeps : (x : String) → Keeps E (eval_identifier x)
  unfolding eval_identifier
  eval_identifier-Keeps x =
      bind-Keeps p (read-Keeps p _) λ o. on_some-Keeps p o (report-Keeps _) (λ v. pure-Keeps p _)

  member_of-Keeps : (x : String) (v : Value) → Keeps E (member_of x v)
  unfolding member_of
  member_of-Keeps x (array vs) = if-Keeps p (str_eq x "count") (pure-Keeps p _) (report-Keeps _)
  member_of-Keeps x (string t) =
      if-Keeps p (str_eq x "count") (pure-Keeps p _)
        (if-Keeps p (str_eq x "isEmpty") (pure-Keeps p _) (report-Keeps _))
  member_of-Keeps x (struct _ fs) = on_some-Keeps p _ (report-Keeps _) (λ v. pure-Keeps p _)
  member_of-Keeps x none_value = report-Keeps _
  member_of-Keeps x (int _) = report-Keeps _
  member_of-Keeps x (bool _) = report-Keeps _
  member_of-Keeps x (float _) = report-Keeps _

  at_index-Keeps : (vs : Values) (i : ℤ) → Keeps E (at_index vs i)
  unfolding at_index
  at_index-Keeps vs (pos i) = on_some-Keeps p _ (report-Keeps _) (λ v. pure-Keeps p _)
  at_index-Keeps vs (negsuc i) = report-Keeps _

  subscript_of-Keeps : (v w : Value) → Keeps E (subscript_of v w)
  unfolding subscript_of
  subscript_of-Keeps (array vs) (int i) = at_index-Keeps vs i
  subscript_of-Keeps _ _ = report-Keeps _

  -- A method is called on a variable that was found.
  append_first-Meets :
      (x : String) (vs : Values) (args : List Value) (s : State) (w : Value)
      → get_var x s ≡ some w
      → Meets (E s) (append_first x vs args s) (append_first x vs args s)
  unfolding append_first modify pure ◌>>◌ ◌>>=◌
  append_first-Meets x vs [] s w e = (refl, p.same s)
  append_first-Meets x vs (a ∷ _) s w e = (refl, fr.appended x _ w s e)

  call_method-Meets :
      (x m : String) (args : List Value) (v : Value) (s : State)
      → get_var x s ≡ some v
      → Meets (E s) (call_method x m args v s) (call_method x m args v s)
  unfolding call_method
  call_method-Meets x m args (array vs) s e = elim (Bool-cases (str_eq m "append")) [
    | inl b ↦ rw b (append_first-Meets x vs args s _ e)
    | inr b ↦ rw b ((if-Keeps p (str_eq m "count") (pure-Keeps p _) (report-Keeps _)).apply s)
  ]
  call_method-Meets x m args _ s e = (report-Keeps _).apply s

  method_of-Meets :
      (x m : String) (args : List Value) (er : Error) (s : State) (o : Option Value)
      → get_var x s ≡ o
      → Meets
          (E s)
          (on_some (report er) (call_method x m args) o s)
          (on_some (report er) (call_method x m args) o s)
  unfolding on_some
  method_of-Meets x m args er s none e = (report-Keeps er).apply s
  method_of-Meets x m args er s (some v) e = call_method-Meets x m args v s e

  method_of-Keeps :
      (x m : String) (args : List Value) (er : Error)
      → Keeps E (read (get_var x) >>= on_some (report er) (call_method x m args))
  unfolding read ◌>>=◌
  method_of-Keeps x m args er = record {
    apply = λ s. method_of-Meets x m args er s (get_var x s) refl;
  }

  init_struct-Keeps : (x : String) (args : List Value) (e : Entity) → Keeps E (init_struct x args e)
  unfolding init_struct
  init_struct-Keeps x args (struct_type es) = pure-Keeps p _
  init_struct-Keeps x args (function_decl _) = nothing-Keeps
  init_struct-Keeps x args other_inst = nothing-Keeps

  eval_struct_init-Keeps :
      (h : Host) (x : String) (args : List Value) → Keeps E (eval_struct_init h x args)
  unfolding eval_struct_init
  eval_struct_init-Keeps h x args =
      on_some-Keeps p (h.lookup_name x) nothing-Keeps (init_struct-Keeps x args)

  module _ (ev ev' : Evaluator) (k : KeepsAll E S ev ev') where
    eval_then-Keeps :
        (n : Node) {f f' : Value → M (Option Value)}
        → ((v : Value) → Refines E (f v) (f' v))
        → Refines E (eval_then ev n f) (eval_then ev' n f')
    unfolding eval_then
    eval_then-Keeps n h = bind-Keeps p (k.expr n) λ o. on_some-Keeps p o nothing-Keeps h

    pub eval_inner-Keeps : (ns : List Node) → Refines E (eval_inner ev ns) (eval_inner ev' ns)
    unfolding eval_inner
    eval_inner-Keeps ns = on_some-Keeps p (first_child is_expr ns) nothing-Keeps k.expr

    pub eval_prefix-Keeps :
        (h : Host) (op : String) (ns : List Node)
        → Refines E (eval_prefix h ev op ns) (eval_prefix h ev' op ns)
    unfolding eval_prefix
    eval_prefix-Keeps h op ns =
        on_some-Keeps p (first_child is_expr ns) nothing-Keeps
          λ n. eval_then-Keeps n λ v. settle-Keeps _

    pub eval_infix-Keeps :
        (h : Host) (op : String) (ns : List Node)
        → Refines E (eval_infix h ev op ns) (eval_infix h ev' op ns)
    unfolding eval_infix
    eval_infix-Keeps h op ns = on_some-Keeps p (first_child is_expr ns) nothing-Keeps λ l.
        on_some-Keeps p (last_child is_expr (after_first ns)) nothing-Keeps λ r.
          bind-Keeps p (k.expr l) λ a. bind-Keeps p (k.expr r) λ b.
            on_some-Keeps p a nothing-Keeps λ x. on_some-Keeps p b nothing-Keeps λ y. settle-Keeps _

    pub eval_ternary-Keeps : (ns : List Node) → Refines E (eval_ternary ev ns) (eval_ternary ev' ns)
    unfolding eval_ternary
    eval_ternary-Keeps (c ∷ t ∷ e ∷ _) =
        eval_then-Keeps c λ v. if-Keeps p (to_bool v) (k.expr t) (k.expr e)
    eval_ternary-Keeps [] = nothing-Keeps
    eval_ternary-Keeps (_ ∷ []) = nothing-Keeps
    eval_ternary-Keeps (_ ∷ _ ∷ []) = nothing-Keeps

    eval_list-Keeps :
        (ns : List Node) {f f' : List Value → M (Option Value)}
        → ((vs : List Value) → Refines E (f vs) (f' vs))
        → Refines E (eval_list ev ns nothing f) (eval_list ev' ns nothing f')
    unfolding eval_list
    eval_list-Keeps [] h = h []
    eval_list-Keeps (n ∷ ns) h =
        bind-Keeps p (k.expr n)
          λ o. on_some-Keeps p o nothing-Keeps λ v. eval_list-Keeps ns λ vs. h (v ∷ vs)

    pub eval_array-Keeps : (ns : List Node) → Refines E (eval_array ev ns) (eval_array ev' ns)
    unfolding eval_array
    eval_array-Keeps ns = eval_list-Keeps (filter_children is_expr ns) λ vs. pure-Keeps p _

    pub eval_member-Keeps : (ns : List Node) → Refines E (eval_member ev ns) (eval_member ev' ns)
    unfolding eval_member
    eval_member-Keeps ns =
        on_some-Keeps p (last_child is_expr ns) nothing-Keeps
          λ b. eval_then-Keeps b (member_of-Keeps _)

    pub eval_subscript-Keeps :
        (ns : List Node) → Refines E (eval_subscript ev ns) (eval_subscript ev' ns)
    unfolding eval_subscript
    eval_subscript-Keeps ns = on_some-Keeps p (subscript_base ns) nothing-Keeps λ b.
        on_some-Keeps p (last_child is_expr ns) nothing-Keeps λ i. bind-Keeps p (k.expr b) λ v.
          bind-Keeps p (k.expr i) λ w.
            on_some-Keeps p v nothing-Keeps
              λ x. on_some-Keeps p w nothing-Keeps λ y. subscript_of-Keeps x y

  module _ (body body' : Node → M Bool) (kept : (n : Node) → Refines S (body n) (body' n)) where
    left :
        (xs : List String) (args : List Value) (s : State) (o o' : Outcome Bool)
        → Meets (λ t. S (enter xs args s) t) o o'
        → Meets
            (λ t. E s t)
            (elim o [
              | out_of_fuel ↦ out_of_fuel
              | undefined ↦ undefined
              | done a t ↦ done t.return_value (leave s t)
            ])
            (elim o' [
              | out_of_fuel ↦ out_of_fuel
              | undefined ↦ undefined
              | done a t ↦ done t.return_value (leave s t)
            ])
    left xs args s out_of_fuel o' h = tt
    left xs args s undefined o' h = rw h
    left xs args s (done a t) o' h = (rw (h.0), fr.called xs args s t h.1)

    run_body-Keeps :
        (b : Node) (xs : List String) (args : List Value)
        → Refines E (run_body body b xs args) (run_body body' b xs args)
    unfolding run_body ◌>>=◌ ◌>>◌ read modify pure
    run_body-Keeps b xs args = record {
      apply = λ s.
          left xs args s (body b (enter xs args s)) (body' b (enter xs args s))
            ((kept b).apply (enter xs args s));
    }

    run_definition-Keeps :
        (args : List Value) (def : Node)
        → Refines E (run_definition body args def) (run_definition body' args def)
    unfolding run_definition
    run_definition-Keeps args def =
        on_some-Keeps p (last_child is_code_block (children def)) nothing-Keeps
          λ b. run_body-Keeps b _ args

    pub execute_function-Keeps :
        (f : ℤ) (args : List Value)
        → Refines E (execute_function body f args) (execute_function body' f args)
    unfolding execute_function
    execute_function-Keeps f args =
        bind-Keeps p (read-Keeps p _)
          λ o. on_some-Keeps p o nothing-Keeps (run_definition-Keeps args)

    call_entity-Keeps :
        (h : Host) (x : String) (args : List Value) (e : Entity)
        → Refines E (call_entity body h x args e) (call_entity body' h x args e)
    unfolding call_entity
    call_entity-Keeps h x args (function_decl f) =
        bind-Keeps p (read-Keeps p _)
          λ b. if-Keeps p b (execute_function-Keeps f args) (report-Keeps _)
    call_entity-Keeps h x args (struct_type es) = eval_struct_init-Keeps h x args
    call_entity-Keeps h x args other_inst = report-Keeps _

    call_named-Keeps :
        (h : Host) (x : String) (args : List Value)
        → Refines E (call_named body h x args) (call_named body' h x args)
    unfolding call_named
    call_named-Keeps h x args =
        if-Keeps p (str_eq x "") (report-Keeps _)
          (on_some-Keeps p (h.lookup_name x) (report-Keeps _) (call_entity-Keeps h x args))

    dispatch_call-Keeps :
        (h : Host) (c : Callee) (args : List Value)
        → Refines E (dispatch_call body h c args) (dispatch_call body' h c args)
    unfolding dispatch_call
    dispatch_call-Keeps h c args =
        if-Keeps p (not (str_eq c.object_name "") && not (str_eq c.method_name ""))
          (method_of-Keeps c.object_name c.method_name args _)
          (call_named-Keeps h c.callee_name args)

    pub eval_call-Keeps :
        (h : Host) (ev ev' : Evaluator) (ns : List Node)
        → KeepsAll E S ev ev'
        → Refines E (eval_call body h ev ns) (eval_call body' h ev' ns)
    unfolding eval_call
    eval_call-Keeps h ev ev' ns k =
        eval_list-Keeps ev ev' k (argument_nodes ns) λ vs. dispatch_call-Keeps h _ vs
