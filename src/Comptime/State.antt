-- ===== src/Comptime/State.antt =====
-- The state of `ComptimeEvaluator` in toolchain/check/comptime_eval.h, its variable environment and
-- its iteration limit, and the way in which its methods are composed.
use tinyswift.Prelude.{
  ℕ, ◌+◌, Bool, true, false, Option, none, some, List, [], ◌∷◌, String, ℤ, has_id, ltb, id_eq,
  if◌then◌else◌, str_eq,
}
use tinyswift.Comptime.Tree.{Node}
use tinyswift.Comptime.Value.{Value}

-- The texts of the diagnostic ComptimeUnsupportedOperation.
pub data Reason : Type 0 where
  empty_expression no_callee not_an_array index_out_of_bounds bad_expression : Reason
  bad_statement : Reason
  undefined_variable prefix_operator binary_operator no_such_field bad_member : String → Reason
  unsupported_method : String → String → Reason

pub data Error : Type 0 where
  non_comptime_call : String → Error
  iteration_limit division_by_zero : Error
  unsupported : Reason → Error

abbrev pub Scope : Type 0
Scope = List (String × Value)

-- The innermost scope stands first, and the newest error.
pub record State : Type 0 where
  pub env_stack : List Scope
  pub return_value : Option Value
  pub has_returned : Bool
  pub pending_condition : Option Node
  pub iteration_count : ℕ
  pub function_defs : List (ℤ × Node)
  pub errors : List Error

-- How a method ends: with a result and a state; with an operation that C++ leaves undefined; or
-- not yet, when the fuel for nested calls has run out.
pub data Outcome (A : Type 0) : Type 0 where
  out_of_fuel undefined : Outcome A
  done : A → State → Outcome A

abbrev pub M : Type 0 → Type 0
M A = State → Outcome A

unfoldable pub pure : {A : Type 0} → A → M A
pure a s = done a s

infixl 5 ◌>>=◌ ◌>>◌
unfoldable pub ◌>>=◌ : {A B : Type 0} → M A → (A → M B) → M B
◌>>=◌ m f s = elim (m s) [ out_of_fuel ↦ out_of_fuel | undefined ↦ undefined | done a s' ↦ f a s' ]

unfoldable pub ◌>>◌ : {A B : Type 0} → M A → M B → M B
unfolding ◌>>=◌
m >> k = m >>= λ _. k

-- An undefined operation, the fuel spent, a read of the state and a change of it.
unfoldable pub stuck : {A : Type 0} → M A
stuck s = undefined

unfoldable pub no_fuel : {A : Type 0} → M A
no_fuel s = out_of_fuel

unfoldable pub read : {A : Type 0} → (State → A) → M A
read f s = done (f s) s

unfoldable pub modify : (State → State) → M Bool
modify f s = done true (f s)

-- `if (!x.has_value()) return d;`
unfoldable pub on_some : {A B : Type 0} → M B → (A → M B) → Option A → M B
on_some d f none = d
on_some d f (some a) = f a

unfoldable pub report : Error → M (Option Value)
report e s = done none (record s { errors = e ∷ s.errors })

unfoldable pub push_scope : State → State
push_scope s = record s { env_stack = [] ∷ s.env_stack }

unfoldable pub pop_stack : List Scope → List Scope
pop_stack [] = []
pop_stack (_ ∷ env) = env

unfoldable pub pop_scope : State → State
unfolding pop_stack
pop_scope s = record s { env_stack = pop_stack s.env_stack }

-- StringMap: `find` and the assignment to `map[name]`.
unfoldable pub find : String → Scope → Option Value
find x [] = none
find x ((y, v) ∷ m) = if str_eq y x then some v else find x m

unfoldable pub assign : String → Value → Scope → Scope
assign x v [] = (x, v) ∷ []
assign x v ((y, w) ∷ m) =
    let rest = assign x v m in if str_eq y x then (y, v) ∷ m else (y, w) ∷ rest

unfoldable pub set_in : String → Value → List Scope → List Scope
set_in x v [] = assign x v [] ∷ []
set_in x v (m ∷ env) = assign x v m ∷ env

unfoldable pub set_var : String → Value → State → State
unfolding set_in assign
set_var x v s = record s { env_stack = set_in x v s.env_stack }

unfoldable pub or_else : Option Value → Option Value → Option Value
or_else (some v) o = some v
or_else none o = o

unfoldable pub get_in : String → List Scope → Option Value
unfolding or_else
get_in x [] = none
get_in x (m ∷ env) = or_else (find x m) (get_in x env)

unfoldable pub get_var : String → State → Option Value
unfolding get_in find
get_var x s = get_in x s.env_stack

-- The innermost scope that holds the name, updated; `none` where no scope does.
unfoldable pub update_at :
    Option Value → List Scope → Scope → Option (List Scope) → Option (List Scope)
update_at (some _) here m rest = some here
update_at none here m none = none
update_at none here m (some env) = some (m ∷ env)

unfoldable pub update_in : String → Value → List Scope → Option (List Scope)
unfolding update_at
update_in x v [] = none
update_in x v (m ∷ env) = update_at (find x m) (assign x v m ∷ env) m (update_in x v env)

unfoldable pub or_set_in : String → Value → List Scope → Option (List Scope) → List Scope
or_set_in x v env none = set_in x v env
or_set_in x v env (some env') = env'

unfoldable pub set_mutable_in : String → Value → List Scope → List Scope
unfolding update_in find assign set_in or_set_in
set_mutable_in x v env = or_set_in x v env (update_in x v env)

unfoldable pub set_var_mutable : String → Value → State → State
unfolding set_mutable_in
set_var_mutable x v s = record s { env_stack = set_mutable_in x v s.env_stack }

abbrev pub max_iterations : ℕ
max_iterations = 1000000

unfoldable pub check_iteration_limit : M Bool
check_iteration_limit s =
    if ltb max_iterations (s.iteration_count + 1)
    then done false
        (record s { iteration_count = s.iteration_count + 1; errors = iteration_limit ∷ s.errors })
    else done true (record s { iteration_count = s.iteration_count + 1 })

-- `comptime_function_defs_.insert_or_assign(fn_id.index, def_node_id)`
unfoldable pub insert_or_assign : ℤ → Node → List (ℤ × Node) → List (ℤ × Node)
insert_or_assign f n [] = (f, n) ∷ []
insert_or_assign f n ((g, m) ∷ defs) =
    let rest = insert_or_assign f n defs in if id_eq f g then (g, n) ∷ defs else (g, m) ∷ rest

unfoldable pub register_comptime_function : ℤ → Node → State → State
unfolding insert_or_assign
register_comptime_function f n s = record s { function_defs = insert_or_assign f n s.function_defs }

unfoldable pub is_comptime_function : ℤ → State → Bool
is_comptime_function f s = has_id f s.function_defs
