-- ===== src/Comptime/Steps.antt =====
-- Single steps of the evaluator of toolchain/check/comptime_eval.cpp, for proofs that follow a run.
use tinyswift.Prelude.{
  ◌+◌, ◌<◌, Bool, true, false, none, some, List, [], ◌∷◌, String, ℤ, ltb, lookup_id, has_id,
  if◌then◌else◌, str_eq, ◌≡◌, ◌≢◌, refl, ◌∙◌, ap, arith, Bool-cases, inl, inr,
}
use text.Mathlib.TextEquality.{eq_iff}
use tinyswift.Comptime.Tree.{Node, kind, children, last_child, is_code_block, is_definition_start}
use tinyswift.Comptime.Value.{Value, Host, function_decl}
use tinyswift.Comptime.State.{
  State, out_of_fuel, done, M, pure, ◌>>=◌, ◌>>◌, read, modify, on_some, report, get_var, set_var,
  is_comptime_function, non_comptime_call, unsupported, undefined_variable, max_iterations,
  check_iteration_limit, iteration_limit,
}
use tinyswift.Comptime.Expr.{Evaluator, eval_identifier}
use tinyswift.Comptime.Call.{
  call_named, call_entity, execute_function, run_definition, run_body, enter, bind_params,
  param_names,
}
use tinyswift.Comptime.Block.{unless_returned, continue_if, set_pending}
use tinyswift.Comptime.Stmt.Simple.{eval_if}
use tinyswift.Comptime.Run.{stmt_step, stmt_of}

pub bind-done :
    {A B : Type 0} (m : M A) (f : A → M B) {s t : State} {a : A}
    → m s ≡ done a t
    → (m >>= f) s ≡ f a t
unfolding ◌>>=◌
bind-done m f e = rw (e, ◌>>=◌)

pub check_beyond :
    (s : State)
    → ltb max_iterations (s.iteration_count + 1) ≡ true
    → (t : State) × (check_iteration_limit s ≡ done false t)
unfolding check_iteration_limit
check_beyond s e = (
  record s { iteration_count = s.iteration_count + 1; errors = iteration_limit ∷ s.errors },
  rw e,
)

pub check_within :
    (s : State)
    → ltb max_iterations (s.iteration_count + 1) ≡ false
    → check_iteration_limit s ≡ done true (record s { iteration_count = s.iteration_count + 1 })
unfolding check_iteration_limit
check_within s e = rw e

pub bind-out_of_fuel :
    {A B : Type 0} (m : M A) (f : A → M B) {s : State}
    → m s ≡ out_of_fuel
    → (m >>= f) s ≡ out_of_fuel
unfolding ◌>>=◌
bind-out_of_fuel m f e = rw (e, ◌>>=◌)

pub eval_identifier_unknown :
    (x : String) (s : State)
    → get_var x s ≡ none
    → eval_identifier x s
      ≡ done none (record s { errors = unsupported (undefined_variable x) ∷ s.errors })
unfolding eval_identifier read ◌>>=◌ on_some report
eval_identifier_unknown x s e =
    ap (λ o. on_some (report (unsupported (undefined_variable x))) (λ v. pure (some v)) o s) e

pub call_named_unknown :
    (body : Node → M Bool) (h : Host) (x : String) (args : List Value) (s : State)
    → h.lookup_name x ≡ none
    → x ≢ ""
    → call_named body h x args s ≡ done none (record s { errors = non_comptime_call x ∷ s.errors })
unfolding call_named on_some report
call_named_unknown body h x args s e q = elim (Bool-cases (str_eq x "")) [
  | inl t ↦ absurd (q ((eq_iff x "").0 t))
  | inr t ↦ rw t (rw e)
]

pub unless_returned_not :
    (rest : M Bool) (s : State) → s.has_returned ≡ false → unless_returned rest s ≡ rest s
unfolding unless_returned read ◌>>=◌
unless_returned_not rest s r = ap (λ b. (if b then pure false else rest) s) r

-- A statement that is executed within the limit counts as one iteration.
pub stmt_step_within :
    (h : Host) (ev : Evaluator) (n : Node) (s : State)
    → s.has_returned ≡ false
    → s.iteration_count < max_iterations
    → stmt_step h ev n s
      ≡ stmt_of h ev (kind n) (children n) (record s { iteration_count = s.iteration_count + 1 })
unfolding stmt_step continue_if
stmt_step_within h ev n s r l =
    unless_returned_not _ s r ∙ bind-done check_iteration_limit _ (check_within s (ground arith))

-- An `if` statement that no condition stands before does nothing.
pub eval_if_unconditional :
    (ev : Evaluator) (ns : List Node) (s : State)
    → s.pending_condition ≡ none
    → eval_if ev ns s ≡ done true (set_pending none s)
unfolding eval_if read modify ◌>>=◌ ◌>>◌ on_some pure
eval_if_unconditional ev ns s e = rw e

has_id_of_lookup :
    (i : ℤ) (defs : List (ℤ × Node)) {def : Node}
    → lookup_id i defs ≡ some def
    → has_id i defs ≡ true
has_id_of_lookup i [] e = ground arith
has_id_of_lookup i ((j, n) ∷ defs) {def} e = ground (arith, has_id_of_lookup i defs {def = def})

-- A call by the name of a registered function runs its definition.
pub call_named_known :
    (body : Node → M Bool) (h : Host) (g : String) (i : ℤ) (args : List Value) (s : State)
    (def : Node)
    → g ≢ ""
    → h.lookup_name g ≡ some (function_decl i)
    → lookup_id i s.function_defs ≡ some def
    → call_named body h g args s ≡ run_definition body args def s
unfolding call_named call_entity execute_function is_comptime_function on_some read ◌>>=◌
call_named_known body h g i args s def q l e = elim (Bool-cases (str_eq g "")) [
  | inl t ↦ absurd (q ((eq_iff g "").0 t))
  | inr t ↦ rw t (rw l (rw (has_id_of_lookup i s.function_defs e) (rw e)))
]

pub run_definition_with :
    (body : Node → M Bool) (args : List Value) (def b : Node) (s : State)
    → last_child is_code_block (children def) ≡ some b
    → run_definition body args def s
      ≡ run_body body b (param_names (last_child is_definition_start (children def))) args s
unfolding run_definition on_some
run_definition_with body args def b s e = rw e

pub run_body_out_of_fuel :
    (body : Node → M Bool) (b : Node) (xs : List String) (args : List Value) (s : State)
    → body b (enter xs args s) ≡ out_of_fuel
    → run_body body b xs args s ≡ out_of_fuel
unfolding run_body read modify ◌>>◌
run_body_out_of_fuel body b xs args s e = bind-out_of_fuel (body b) _ e

pub bind_params_functions :
    (xs : List String) (args : List Value) (s : State)
    → (bind_params xs args s).function_defs ≡ s.function_defs
unfolding bind_params set_var
bind_params_functions [] args s = refl
bind_params_functions (x ∷ xs) [] s = refl
bind_params_functions (x ∷ xs) (a ∷ args) s = bind_params_functions xs args (set_var x a s)
