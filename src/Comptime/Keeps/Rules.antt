-- ===== src/Comptime/Keeps/Rules.antt =====
-- How each way of composing methods keeps a relation between the state before and the one after.
use tinyswift.Prelude.{
  Bool, true, false, Option, none, some, ◌≡◌, refl, if◌then◌else◌, List, ◌∷◌, String, ◌+◌,
}
use tinyswift.Comptime.State.{
  State, Outcome, out_of_fuel, undefined, done, M, pure, ◌>>=◌, ◌>>◌, stuck, no_fuel, read, modify,
  on_some, Error, iteration_limit, set_var, set_var_mutable, get_var,
}
use tinyswift.Comptime.Tree.{Node}
use tinyswift.Comptime.Value.{Value}
use tinyswift.Comptime.Expr.{Evaluator}
use tinyswift.Comptime.Call.{enter, leave}
use tinyswift.Comptime.Block.{set_pending}
use tinyswift.Comptime.Stmt.Simple.{return_with}

-- Two outcomes of which the second is that of more fuel: it is the same, unless the fuel of the
-- first has run out; and the state where they end is one of `P`.
abbrev pub Meets : {A : Type 0} → (State → Type 0) → Outcome A → Outcome A → Type 0
Meets P out_of_fuel o = Unit
Meets P undefined o = o ≡ undefined
Meets P (done a s) o = (o ≡ done a s) × P s

pub record Refines (R : State → State → Type 0) {A : Type 0} (m m' : M A) : Type 0 where
  pub apply : (s : State) → Meets (R s) (m s) (m' s)

abbrev pub Keeps : (R : State → State → Type 0) {A : Type 0} → M A → Type 0
Keeps R m = Refines R m m

pub record Preorder (R : State → State → Type 0) : Type 0 where
  pub same : (s : State) → R s s
  pub chain : (s t u : State) → R s t → R t u → R s u

module _ {R : State → State → Type 0} (p : Preorder R) {A : Type 0} where
  pub pure-Keeps : (a : A) → Keeps R (pure a)
  unfolding pure
  pure-Keeps a = record { apply = λ s. (refl, p.same s) }

  pub read-Keeps : (f : State → A) → Keeps R (read f)
  unfolding read
  read-Keeps f = record { apply = λ s. (refl, p.same s) }

  pub stuck-Keeps : Keeps R (stuck {A = A})
  unfolding stuck
  stuck-Keeps = record { apply = λ s. refl }

  pub no_fuel-Keeps : {m : M A} → Refines R (no_fuel {A = A}) m
  unfolding no_fuel
  no_fuel-Keeps = record { apply = λ s. tt }

  pub on_some-Keeps :
      {B : Type 0} {d d' : M A} {f f' : B → M A} (o : Option B)
      → Refines R d d'
      → ((b : B) → Refines R (f b) (f' b))
      → Refines R (on_some d f o) (on_some d' f' o)
  unfolding on_some
  on_some-Keeps none hd hf = hd
  on_some-Keeps (some b) hd hf = hf b

  pub if-Keeps :
      {m m' n n' : M A} (b : Bool)
      → Refines R m m'
      → Refines R n n'
      → Refines R (if b then m else n) (if b then m' else n')
  if-Keeps true hm hn = hm
  if-Keeps false hm hn = hn

pub modify-Keeps :
    {R : State → State → Type 0} (f : State → State)
    → ((s : State) → R s (f s))
    → Keeps R (modify f)
unfolding modify
modify-Keeps f h = record { apply = λ s. (refl, h s) }

module _ {R : State → State → Type 0} (p : Preorder R) {B : Type 0} where
  Meets-then : (s t : State) (o o' : Outcome B) → R s t → Meets (R t) o o' → Meets (R s) o o'
  Meets-then s t out_of_fuel o' h k = tt
  Meets-then s t undefined o' h k = k
  Meets-then s t (done b u) o' h k = (k.0, p.chain s t u h k.1)

module _ {R : State → State → Type 0} (p : Preorder R) {A B : Type 0} where
  Meets-bind :
      (s : State) (o o' : Outcome A) (f f' : A → M B)
      → Meets (R s) o o'
      → ((a : A) → Refines R (f a) (f' a))
      → Meets
          (R s)
          (elim o [ out_of_fuel ↦ out_of_fuel | undefined ↦ undefined | done a s' ↦ f a s' ])
          (elim o' [ out_of_fuel ↦ out_of_fuel | undefined ↦ undefined | done a s' ↦ f' a s' ])
  Meets-bind s out_of_fuel o' f f' h k = tt
  Meets-bind s undefined o' f f' h k = rw h
  Meets-bind s (done a t) o' f f' h k =
      rw (h.0) (Meets-then p s t (f a t) (f' a t) h.1 ((k a).apply t))

  pub bind-Keeps :
      {m m' : M A} {f f' : A → M B}
      → Refines R m m'
      → ((a : A) → Refines R (f a) (f' a))
      → Refines R (m >>= f) (m' >>= f')
  unfolding ◌>>=◌
  bind-Keeps {m} {m'} {f} {f'} hm hf = record {
    apply = λ s. Meets-bind s (m s) (m' s) f f' (hm.apply s) hf;
  }

  pub then-Keeps :
      {m m' : M A} {k k' : M B} → Refines R m m' → Refines R k k' → Refines R (m >> k) (m' >> k')
  unfolding ◌>>◌
  then-Keeps hm hk = bind-Keeps hm (λ _. hk)

-- Relations for expressions and for statements that every step of the evaluator keeps. The state
-- after a call is compared with that before it, given what the body keeps.
pub record Frame (E S : State → State → Type 0) : Type 0 where
  pub expr_order : Preorder E
  pub stmt_order : Preorder S
  pub weaken : (s t : State) → E s t → S s t
  pub reported : (e : Error) (s : State) → E s (record s { errors = e ∷ s.errors })
  pub updated : (x : String) (v : Value) (s : State) → S s (set_var_mutable x v s)
  pub appended :
      (x : String) (v w : Value) (s : State) → get_var x s ≡ some w → E s (set_var_mutable x v s)
  pub declared : (x : String) (v : Value) (s : State) → S s (set_var x v s)
  pub pending : (c : Option Node) (s : State) → S s (set_pending c s)
  pub returned : (v : Option Value) (s : State) → S s (return_with v s)
  pub within : (s : State) → S s (record s { iteration_count = s.iteration_count + 1 })
  pub beyond :
      (s : State)
      → S s (record s {
        iteration_count = s.iteration_count + 1;
        errors = iteration_limit ∷ s.errors;
      })
  pub called :
      (xs : List String) (args : List Value) (s t : State) → S (enter xs args s) t → E s (leave s t)

-- What the evaluators of the next level of nested calls keep, with less fuel and with more.
pub record KeepsAll (E S : State → State → Type 0) (ev ev' : Evaluator) : Type 0 where
  pub expr : (n : Node) → Refines E (ev.expr n) (ev'.expr n)
  pub stmt : (n : Node) → Refines S (ev.stmt n) (ev'.stmt n)
