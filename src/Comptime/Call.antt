-- ===== src/Comptime/Call.antt =====
-- `EvalCallExpr`, `EvalStructInit` and `ExecuteFunction` of toolchain/check/comptime_eval.cpp.
use tinyswift.Prelude.{
  Bool, true, false, not, ◌&&◌, Option, none, some, List, [], ◌∷◌, ◌++◌, String, ℤ, pos, lookup_id,
  map, if◌then◌else◌, str_eq,
}
use tinyswift.Comptime.Tree.{
  call_expr_start, identifier_name_expr, call_argument, member_access_expr, Node, node, text,
  children, is_expr, is_expr_kind, to_list, last_child, filter_children, is_code_block,
  is_definition_start, is_param_list, is_param, is_identifier_pattern,
}
use tinyswift.Comptime.Value.{
  Value, int, array, struct, none_value, Values, Fields, no_fields, field, Entity, function_decl,
  struct_type, other_inst, Host, count, push_back,
}
use tinyswift.Comptime.State.{
  State, M, pure, ◌>>=◌, ◌>>◌, read, modify, on_some, report, get_var, set_var, set_var_mutable,
  push_scope, pop_scope, is_comptime_function, non_comptime_call, unsupported, undefined_variable,
  unsupported_method, no_callee,
}
use tinyswift.Comptime.Expr.{Evaluator, nothing, eval_list}

-- The names of a call: the callee, and the object and the method of `obj.method(...)`; an empty
-- text is no name.
pub record Callee : Type 0 where
  pub callee_name : String
  pub object_name : String
  pub method_name : String

-- The identifiers of a member access: the first names the object, the last one after it the method.
unfoldable pub member_names : List Node → Callee → Callee
member_names [] c = c
member_names (node identifier_name_expr t _ ∷ ns) c =
    member_names ns (
      if str_eq c.object_name ""
      then record c { object_name = t }
      else record c { method_name = t })
member_names (_ ∷ ns) c = member_names ns c

-- The children of a CallExprStart.
unfoldable pub start_names : List Node → Callee → Callee
unfolding member_names
start_names [] c = c
start_names (node identifier_name_expr t _ ∷ ns) c = start_names ns (record c { callee_name = t })
start_names (node member_access_expr _ ms ∷ ns) c = start_names ns (member_names (to_list ms) c)
start_names (_ ∷ ns) c = start_names ns c

-- The names that the children of a CallExpr give.
unfoldable pub callee_of : List Node → Callee → Callee
unfolding start_names
callee_of [] c = c
callee_of (node call_expr_start _ ss ∷ ns) c = callee_of ns (start_names (to_list ss) c)
callee_of (node identifier_name_expr t _ ∷ ns) c = callee_of ns (record c { callee_name = t })
callee_of (_ ∷ ns) c = callee_of ns c

-- The argument expressions among the children of a CallExpr: those inside a CallArgument, and the
-- bare ones, but a bare identifier, which is taken for the callee.
unfoldable pub argument_nodes : List Node → List Node
argument_nodes [] = []
argument_nodes (node call_argument _ parts ∷ ns) =
    filter_children is_expr (to_list parts) ++ argument_nodes ns
argument_nodes (node identifier_name_expr _ _ ∷ ns) = argument_nodes ns
argument_nodes (node k t cs ∷ ns) =
    let rest = argument_nodes ns in if is_expr_kind k then node k t cs ∷ rest else rest

-- `obj->array_vals.push_back(args[0])`, where there is an argument.
unfoldable pub append_first : String → Values → List Value → M (Option Value)
append_first x vs [] = pure (some none_value)
append_first x vs (a ∷ _) =
    modify (set_var_mutable x (array (push_back vs a))) >> pure (some none_value)

unfoldable pub call_method : String → String → List Value → Value → M (Option Value)
call_method x m args (array vs) =
    if str_eq m "append"
    then append_first x vs args
    else if str_eq m "count"
    then pure (some (int (pos (count vs))))
    else report (unsupported (unsupported_method m x))
call_method x m args _ = report (unsupported (unsupported_method m x))

-- The fields of a struct in the order of its scope, methods left out; a field without an argument
-- gets no value.
unfoldable pub init_fields : List (Option String × Bool) → List Value → Fields
init_fields [] args = no_fields
init_fields ((none, _) ∷ es) args = init_fields es args
init_fields ((some x, true) ∷ es) args = init_fields es args
init_fields ((some x, false) ∷ es) [] = field x none_value (init_fields es [])
init_fields ((some x, false) ∷ es) (a ∷ args) = field x a (init_fields es args)

unfoldable pub init_struct : String → List Value → Entity → M (Option Value)
unfolding init_fields
init_struct x args (struct_type es) = pure (some (struct x (init_fields es args)))
init_struct x args (function_decl _) = nothing
init_struct x args other_inst = nothing

unfoldable pub eval_struct_init : Host → String → List Value → M (Option Value)
unfolding init_struct
eval_struct_init h x args = on_some nothing (init_struct x args) (h.lookup_name x)

-- The names of the parameters, from the signature of a function definition.
unfoldable pub pattern_texts : List Node → List String
pattern_texts ns = map text (filter_children is_identifier_pattern ns)

unfoldable pub param_names_in : List Node → List String
param_names_in [] = []
param_names_in (p ∷ ps) = pattern_texts (children p) ++ param_names_in ps

unfoldable pub param_names_of : List Node → List String
param_names_of [] = []
param_names_of (l ∷ ls) =
    param_names_in (filter_children is_param (children l)) ++ param_names_of ls

unfoldable pub param_names : Option Node → List String
param_names none = []
param_names (some sig) = param_names_of (filter_children is_param_list (children sig))

unfoldable pub bind_params : List String → List Value → State → State
bind_params (x ∷ xs) (a ∷ args) s = bind_params xs args (set_var x a s)
bind_params _ _ s = s

-- The state in which the body starts, and the one after it, given that of the call.
unfoldable pub enter : List String → List Value → State → State
enter xs args s = record (bind_params xs args (push_scope s)) {
  return_value = none;
  has_returned = false;
}

unfoldable pub leave : State → State → State
leave before after = record (pop_scope after) {
  return_value = before.return_value;
  has_returned = before.has_returned;
}

module _ (body : Node → M Bool) where
  -- `body` is EvalCodeBlockBody.
  unfoldable pub run_body : Node → List String → List Value → M (Option Value)
  run_body b xs args = do
    before ← read (λ s. s)
    modify (enter xs args)
    body b
    result ← read (λ s. s.return_value)
    modify (leave before)
    pure result

  unfoldable pub run_definition : List Value → Node → M (Option Value)
  run_definition args def =
      on_some nothing
        (λ b. run_body b (param_names (last_child is_definition_start (children def))) args)
        (last_child is_code_block (children def))

  unfoldable pub execute_function : ℤ → List Value → M (Option Value)
  execute_function f args =
      read (λ s. lookup_id f s.function_defs) >>= on_some nothing (run_definition args)

  unfoldable pub call_entity : Host → String → List Value → Entity → M (Option Value)
  call_entity h x args (function_decl f) = read (is_comptime_function f) >>= λ registered.
      if registered then execute_function f args else report (non_comptime_call x)
  call_entity h x args (struct_type _) = eval_struct_init h x args
  call_entity h x args other_inst = report (non_comptime_call x)

  unfoldable pub call_named : Host → String → List Value → M (Option Value)
  call_named h x args =
      if str_eq x ""
      then report (unsupported no_callee)
      else on_some (report (non_comptime_call x)) (call_entity h x args) (h.lookup_name x)

  unfoldable pub dispatch_call : Host → Callee → List Value → M (Option Value)
  dispatch_call h c args =
      if not (str_eq c.object_name "") && not (str_eq c.method_name "")
      then read (get_var c.object_name)
        >>= on_some (report (unsupported (undefined_variable c.object_name)))
            (call_method c.object_name c.method_name args)
      else call_named h c.callee_name args

  unfoldable pub eval_call : Host → Evaluator → List Node → M (Option Value)
  eval_call h ev ns = eval_list ev (argument_nodes ns) nothing (
      dispatch_call h
        (callee_of ns (record { callee_name = ""; object_name = ""; method_name = "" })))
