-- ===== src/Comptime/Env.antt =====
-- The variable environment of toolchain/check/comptime_eval.cpp as a function from names to values.
use tinyswift.Prelude.{
  Option, none, some, List, [], ◌∷◌, String, ◌≡◌, refl, arith, if◌then◌else◌, str_eq, Option-cases,
  inl, inr,
}
use mathlib.Core.Path.{fun_ext}
use text.Mathlib.TextEquality.{eq_iff}
use tinyswift.Comptime.Value.{Value}
use tinyswift.Comptime.State.{
  State, Scope, push_scope, pop_stack, pop_scope, find, assign, set_in, set_var, or_else, get_in,
  get_var, update_at, update_in, or_set_in, set_mutable_in, set_var_mutable,
}

pub find-assign :
    (x y : String) (v : Value) (m : Scope)
    → find y (assign x v m) ≡ (if str_eq x y then some v else find y m)
unfolding find assign
find-assign x y v [] = refl
find-assign x y v ((z, w) ∷ m) =
    ground (arith, eq_iff x y, eq_iff z x, eq_iff z y, find-assign x y v m)

get_in-set_in :
    (x y : String) (v : Value) (env : List Scope)
    → get_in y (set_in x v env) ≡ (if str_eq x y then some v else get_in y env)
unfolding get_in set_in or_else find assign
get_in-set_in x y v [] = ground arith
get_in-set_in x y v (m ∷ env) = rw (find-assign x y v m) (ground arith)

-- Where no scope holds the name, an update finds none.
update_in-none :
    (x : String) (v : Value) (env : List Scope) → update_in x v env ≡ none → get_in x env ≡ none
unfolding get_in update_in update_at or_else
update_in-none x v [] e = refl
update_in-none x v (m ∷ env) e = elim (Option-cases (find x m)) [
  | inl n ↦ elim (Option-cases (update_in x v env)) [
    | inl u ↦ rw n (update_in-none x v env u)
    | inr (_, u) ↦ ground (arith, n, u)
  ]
  | inr (_, n) ↦ ground (arith, n)
]

get_in-update_at :
    (x y : String) (v : Value) (m : Scope) (env : List Scope) (o : Option Value)
    (rest : Option (List Scope)) (env' : List Scope)
    → find x m ≡ o
    → ((env₁ : List Scope)
        → rest ≡ some env₁
        → get_in y env₁ ≡ (if str_eq x y then some v else get_in y env))
    → update_at o (assign x v m ∷ env) m rest ≡ some env'
    → get_in y env' ≡ (if str_eq x y then some v else or_else (find y m) (get_in y env))
unfolding get_in update_at or_else
get_in-update_at x y v m env (some w) rest env' f h e =
    let q : assign x v m ∷ env ≡ env' = cc in rw (← q) (rw (find-assign x y v m) (ground arith))
get_in-update_at x y v m env none none env' f h e = ground arith
get_in-update_at x y v m env none (some env₁) env' f h e =
    let q : m ∷ env₁ ≡ env' = cc in rw (← q) (rw (h env₁ refl) (ground (arith, eq_iff x y)))

pub get_in-update_in :
    (x y : String) (v : Value) (env : List Scope) {env' : List Scope}
    → update_in x v env ≡ some env'
    → get_in y env' ≡ (if str_eq x y then some v else get_in y env)
unfolding get_in update_in
get_in-update_in x y v [] e = ground arith
get_in-update_in x y v (m ∷ env) e =
    get_in-update_at x y v m env (find x m) (update_in x v env) _ refl
      (λ env₁ u. get_in-update_in x y v env u) e

get_in-or_set_in :
    (x y : String) (v : Value) (env : List Scope) (o : Option (List Scope))
    → update_in x v env ≡ o
    → get_in y (or_set_in x v env o) ≡ (if str_eq x y then some v else get_in y env)
unfolding or_set_in
get_in-or_set_in x y v env none e = get_in-set_in x y v env
get_in-or_set_in x y v env (some env') e = get_in-update_in x y v env e

-- The store that a state stands for, and the change of a store at one name.
abbrev pub Store : Type 0
Store = String → Option Value

abbrev pub put : String → Value → Store → Store
put x v f y = if str_eq x y then some v else f y

unfoldable pub store : State → Store
store s y = get_var y s

-- A declaration and an assignment both change the store that the scopes stand for at one name, and
-- at no other, though one writes the innermost scope and the other the scope that holds the name;
-- and a declaration in a new scope is gone when that scope is popped.
pub store_refines :
    (x : String) (v : Value) (s : State)
    → (store (set_var x v s) ≡ put x v (store s))
      × (store (set_var_mutable x v s) ≡ put x v (store s))
      × (store (push_scope s) ≡ store s)
      × (store (pop_scope (set_var x v (push_scope s))) ≡ store s)
unfolding store get_var set_var set_var_mutable set_mutable_in push_scope pop_scope set_in pop_stack
    get_in find or_else
store_refines x v s = (
  fun_ext (λ y. get_in-set_in x y v s.env_stack),
  fun_ext (λ y. get_in-or_set_in x y v s.env_stack (update_in x v s.env_stack) refl),
  refl,
  refl,
)

pub update_in-some :
    (x : String) (v w : Value) (env : List Scope)
    → get_in x env ≡ some w
    → (env' : List Scope) × (update_in x v env ≡ some env')
update_in-some x v w env e = elim (Option-cases (update_in x v env)) [
  | inl u ↦ let n = update_in-none x v env u in absurd (ground (arith, n))
  | inr u ↦ u
]

pub update_in-absent :
    (x : String) (v : Value) (env : List Scope) → get_in x env ≡ none → update_in x v env ≡ none
unfolding update_in get_in or_else update_at
update_in-absent x v [] e = refl
update_in-absent x v (m ∷ env) e = elim (Option-cases (find x m)) [
  | inl n ↦ let g = rw n at e in rw n (rw (update_in-absent x v env g))
  | inr (_, n) ↦ ground (arith, n)
]
