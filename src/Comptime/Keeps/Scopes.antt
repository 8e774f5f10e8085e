-- ===== src/Comptime/Keeps/Scopes.antt =====
-- What an expression leaves of the state, calls of functions included: the depth of the stack of
-- scopes, the pending return, the registered functions, the count of iterations and the errors.
use tinyswift.Prelude.{
  ℕ, suc, ◌≤◌, ◌<◌, Option, none, some, List, [], ◌∷◌, ◌++◌, String, ◌≡◌, refl, sym, ◌∙◌, ap, arith,
  length,
}
use mathlib.Core.Path.{subst}
use mathlib.Core.List.{append_assoc}
use tinyswift.Comptime.Tree.{Node}
use tinyswift.Comptime.Value.{Value, Host}
use tinyswift.Comptime.State.{
  State, Scope, Outcome, done, Error, iteration_limit, push_scope, pop_stack, pop_scope, assign,
  find, set_in, set_var, or_set_in, update_at, update_in, set_mutable_in, set_var_mutable, get_in,
  get_var,
}
use tinyswift.Comptime.Call.{bind_params, enter, leave}
use tinyswift.Comptime.Block.{set_pending}
use tinyswift.Comptime.Stmt.Simple.{return_with}
use tinyswift.Comptime.Run.{eval_expr}
use tinyswift.Comptime.Keeps.Rules.{Meets, Frame}
use tinyswift.Comptime.Keeps.Run.{evaluator_same}

abbrev pub IsSuffix : List Error → List Error → Type 0
IsSuffix xs ys = (zs : List Error) × (ys ≡ zs ++ xs)

-- What statements keep. A declaration outside every scope opens one, so the number of scopes is kept
-- where there is one; a statement runs only in the body of a function, which has its own.
pub record KeepsScopes (s t : State) : Type 0 where
  pub scopes : 0 < length s.env_stack → length t.env_stack ≡ length s.env_stack
  pub functions : t.function_defs ≡ s.function_defs
  pub counted : s.iteration_count ≤ t.iteration_count
  pub logged : IsSuffix s.errors t.errors

-- What expressions keep.
pub record KeepsReturn (s t : State) : Type 0 where
  pub base : KeepsScopes s t
  pub depth : length t.env_stack ≡ length s.env_stack
  pub flag : t.has_returned ≡ s.has_returned
  pub value : t.return_value ≡ s.return_value

Meets-done :
    (P : State → Type 0) {A : Type 0} (o o' : Outcome A) {a : A} {t : State}
    → o ≡ done a t
    → Meets P o o'
    → P t
Meets-done P o o' e h = (subst (λ x. Meets P x o') e h).1

IsSuffix-trans : (xs ys zs : List Error) → IsSuffix xs ys → IsSuffix ys zs → IsSuffix xs zs
IsSuffix-trans xs ys zs (as₁, p) (bs, q) =
    (bs ++ as₁, q ∙ ap (λ es. bs ++ es) p ∙ sym (append_assoc bs as₁ xs))

KeepsScopes-refl : (s : State) → KeepsScopes s s
KeepsScopes-refl s = record {
  scopes = λ _. refl;
  functions = refl;
  counted = omega arith;
  logged = ([], refl);
}

pub KeepsScopes-trans : (s t u : State) → KeepsScopes s t → KeepsScopes t u → KeepsScopes s u
KeepsScopes-trans s t u a b = record {
  scopes = λ p. let e = a.scopes p in b.scopes (omega (arith, e, p)) ∙ e;
  functions = b.functions ∙ a.functions;
  counted = omega (arith, a.counted, b.counted);
  logged = IsSuffix-trans _ _ _ a.logged b.logged;
}

length-set_in :
    (x : String) (v : Value) (env : List Scope)
    → 0 < length env
    → length (set_in x v env) ≡ length env
unfolding set_in
length-set_in x v [] p = absurd (omega arith)
length-set_in x v (m ∷ env) p = refl

length-update_at :
    (here : List Scope) (m : Scope) (env : List Scope) (o : Option Value)
    (rest : Option (List Scope)) (env' : List Scope)
    → length here ≡ suc (length env)
    → ((env₁ : List Scope) → rest ≡ some env₁ → length env₁ ≡ length env)
    → update_at o here m rest ≡ some env'
    → length env' ≡ suc (length env)
unfolding update_at
length-update_at here m env (some _) rest env' l h e = let q : here ≡ env' = cc in rw (← q) l
length-update_at here m env none none env' l h e = ground arith
length-update_at here m env none (some env₁) env' l h e =
    let q : m ∷ env₁ ≡ env' = cc in rw (← q) (omega (arith, h env₁ refl))

length-update_in :
    (x : String) (v : Value) (env : List Scope) {env' : List Scope}
    → update_in x v env ≡ some env'
    → length env' ≡ length env
unfolding update_in
length-update_in x v [] e = ground arith
length-update_in x v (m ∷ env) e =
    length-update_at (assign x v m ∷ env) m env (find x m) (update_in x v env) _ refl
      (λ env₁ u. length-update_in x v env u) e

length-or_set_in :
    (x : String) (v : Value) (env : List Scope) (o : Option (List Scope))
    → 0 < length env
    → ((env' : List Scope) → o ≡ some env' → length env' ≡ length env)
    → length (or_set_in x v env o) ≡ length env
unfolding or_set_in
length-or_set_in x v env none p h = length-set_in x v env p
length-or_set_in x v env (some env') p h = h env' refl

length-set_mutable_in :
    (x : String) (v : Value) (env : List Scope)
    → 0 < length env
    → length (set_mutable_in x v env) ≡ length env
unfolding set_mutable_in
length-set_mutable_in x v env p =
    length-or_set_in x v env (update_in x v env) p (λ env' e. length-update_in x v env e)

-- Where a scope holds the variable there is a scope.
held_positive : (x : String) (v : Value) (env : List Scope) → get_in x env ≡ some v → 0 < length env
unfolding get_in
held_positive x v [] e = ground arith
held_positive x v (m ∷ env) e = omega arith

set_var-KeepsScopes : (x : String) (v : Value) (s : State) → KeepsScopes s (set_var x v s)
unfolding set_var
set_var-KeepsScopes x v s = record {
  scopes = length-set_in x v s.env_stack;
  functions = refl;
  counted = omega arith;
  logged = ([], refl);
}

set_var_mutable-KeepsScopes :
    (x : String) (v : Value) (s : State) → KeepsScopes s (set_var_mutable x v s)
unfolding set_var_mutable
set_var_mutable-KeepsScopes x v s = record {
  scopes = length-set_mutable_in x v s.env_stack;
  functions = refl;
  counted = omega arith;
  logged = ([], refl);
}

-- Binding the parameters changes the variables of the new scope only.
bind_params-KeepsScopes :
    (xs : List String) (args : List Value) (s : State) → KeepsScopes s (bind_params xs args s)
unfolding bind_params
bind_params-KeepsScopes [] args s = KeepsScopes-refl s
bind_params-KeepsScopes (x ∷ xs) [] s = KeepsScopes-refl s
bind_params-KeepsScopes (x ∷ xs) (a ∷ args) s =
    KeepsScopes-trans s (set_var x a s) _ (set_var-KeepsScopes x a s)
      (bind_params-KeepsScopes xs args (set_var x a s))

return_with-KeepsScopes : (o : Option Value) (s : State) → KeepsScopes s (return_with o s)
unfolding return_with
return_with-KeepsScopes none s = record {
  scopes = λ _. refl;
  functions = refl;
  counted = omega arith;
  logged = ([], refl);
}
return_with-KeepsScopes (some v) s = record {
  scopes = λ _. refl;
  functions = refl;
  counted = omega arith;
  logged = ([], refl);
}

KeepsReturn-trans : (s t u : State) → KeepsReturn s t → KeepsReturn t u → KeepsReturn s u
KeepsReturn-trans s t u a b = record {
  base = KeepsScopes-trans s t u a.base b.base;
  depth = b.depth ∙ a.depth;
  flag = b.flag ∙ a.flag;
  value = b.value ∙ a.value;
}

length-pop_stack : (n : ℕ) (env : List Scope) → length env ≡ suc n → length (pop_stack env) ≡ n
unfolding pop_stack
length-pop_stack n [] e = ground arith
length-pop_stack n (_ ∷ env) e = ground arith

-- A call: the scope that it pushes is popped again, and the pending return is restored.
leave-KeepsReturn :
    (xs : List String) (args : List Value) (s t : State)
    → KeepsScopes (enter xs args s) t
    → KeepsReturn s (leave s t)
unfolding enter leave push_scope pop_scope
leave-KeepsReturn xs args s t h =
    let b = bind_params-KeepsScopes xs args (push_scope s) in
    let bound = b.scopes (omega arith) in
    let kept =
      length-pop_stack (length s.env_stack) t.env_stack (h.scopes (omega (arith, bound)) ∙ bound) in
    record {
      depth = kept;
      base = record {
        scopes = λ _. kept;
        functions = h.functions ∙ b.functions;
        counted = omega (arith, h.counted, b.counted);
        logged = IsSuffix-trans _ _ _ b.logged h.logged;
      };
      flag = refl;
      value = refl;
    }

pub scopes_frame : Frame KeepsReturn KeepsScopes
unfolding set_var_mutable set_pending return_with get_var
scopes_frame = record {
  expr_order = record {
    same = λ s. record { base = KeepsScopes-refl s; depth = refl; flag = refl; value = refl };
    chain = KeepsReturn-trans;
  };
  stmt_order = record { same = KeepsScopes-refl; chain = KeepsScopes-trans };
  weaken = λ s t h. h.base;
  reported = λ e s. record {
    base = record {
      scopes = λ _. refl;
      functions = refl;
      counted = omega arith;
      logged = (e ∷ [], refl);
    };
    depth = refl;
    flag = refl;
    value = refl;
  };
  updated = set_var_mutable-KeepsScopes;
  appended = λ x v w s e. record {
    base = set_var_mutable-KeepsScopes x v s;
    depth = length-set_mutable_in x v s.env_stack (held_positive x w s.env_stack e);
    flag = refl;
    value = refl;
  };
  declared = set_var-KeepsScopes;
  pending = λ c s. record {
    scopes = λ _. refl;
    functions = refl;
    counted = omega arith;
    logged = ([], refl);
  };
  returned = return_with-KeepsScopes;
  within = λ s. record {
    scopes = λ _. refl;
    functions = refl;
    counted = omega arith;
    logged = ([], refl);
  };
  beyond = λ s. record {
    scopes = λ _. refl;
    functions = refl;
    counted = omega arith;
    logged = (iteration_limit ∷ [], refl);
  };
  called = leave-KeepsReturn;
}

-- The evaluation of an expression that ends leaves the stack of scopes as deep as it was and the
-- pending return as it was, whatever functions it calls; it registers no function, takes back no
-- count of iterations and drops no error.
pub eval_expr-KeepsReturn :
    (h : Host) (f : ℕ) (n : Node) (s t : State) (v : Option Value)
    → eval_expr h f n s ≡ done v t
    → KeepsReturn s t
unfolding eval_expr
eval_expr-KeepsReturn h f n s t v e =
    Meets-done _ _ _ e (((evaluator_same scopes_frame h f).expr n).apply s)
