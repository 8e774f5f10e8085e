-- ===== src/Comptime/Keeps/Rounds.antt =====
-- The rounds of a `while` loop in `EvalStmt` of toolchain/check/comptime_eval.cpp and the
-- iteration limit.
use tinyswift.Prelude.{
  ℕ, zero, suc, ◌+◌, ◌-◌, ◌≤◌, ◌<◌, Bool, true, false, ◌≡◌, refl, sym, ◌∙◌, arith, Bool-cases, inl,
  inr, ltb, if◌then◌else◌,
}
use tinyswift.Comptime.Tree.{Node, children}
use tinyswift.Comptime.Value.{Host}
use tinyswift.Comptime.State.{
  State, Outcome, out_of_fuel, undefined, done, M, pure, ◌>>=◌, read, max_iterations,
  check_iteration_limit,
}
use tinyswift.Comptime.Expr.{Evaluator}
use tinyswift.Comptime.Block.{run_children, continue_if}
use tinyswift.Comptime.Stmt.Loops.{holds, while_loop, run_while}
use tinyswift.Comptime.Run.{evaluator}
use tinyswift.Comptime.Steps.{bind-done, check_beyond, check_within}
use tinyswift.Comptime.Keeps.Rules.{Meets, Keeps, KeepsAll}
use tinyswift.Comptime.Keeps.Run.{evaluator_same}
use tinyswift.Comptime.Keeps.Statements.{run_children-Keeps, expr-Keeps}
use tinyswift.Comptime.Keeps.Scopes.{KeepsScopes, KeepsReturn, scopes_frame}

-- Two continuations that agree on every state that the first method can end in.
elim-agree :
    (R : State → State → Type 0) {A B : Type 0} (s : State) (o : Outcome A) (f g : A → M B)
    → Meets (R s) o o
    → ((a : A) (t : State) → R s t → f a t ≡ g a t)
    → ◌≡◌ {A = Outcome B}
        (elim o [ out_of_fuel ↦ out_of_fuel | undefined ↦ undefined | done a t ↦ f a t ])
        (elim o [ out_of_fuel ↦ out_of_fuel | undefined ↦ undefined | done a t ↦ g a t ])
elim-agree R s out_of_fuel f g h k = refl
elim-agree R s undefined f g h k = refl
elim-agree R s (done a t) f g h k = k a t h.1

bind-agree :
    {R : State → State → Type 0} {A B : Type 0} {m : M A} (s : State) (f g : A → M B)
    → Keeps R m
    → ((a : A) (t : State) → R s t → f a t ≡ g a t)
    → (m >>= f) s ≡ (m >>= g) s
unfolding ◌>>=◌
bind-agree {R} {A} {B} {m} s f g h k = elim-agree R s (m s) f g (h.apply s) k

module _ (h : Host) (f : ℕ) (c b : Node) where
  abbrev ev : Evaluator
  ev = evaluator h f

  abbrev ev-KeepsAll : KeepsAll KeepsReturn KeepsScopes ev ev
  ev-KeepsAll = evaluator_same scopes_frame h f

  body : M Bool → M Bool
  body again = ev.expr c >>= λ v.
      if holds v then run_children ev (children b) >>= continue_if again else pure true

  continue_if-agree :
      (m n : M Bool) (go : Bool) (t : State) → m t ≡ n t → continue_if m go t ≡ continue_if n go t
  unfolding continue_if
  continue_if-agree m n true t e = e
  continue_if-agree m n false t e = refl

  body-agree :
      (s : State) (m n : M Bool)
      → ((t : State) → s.iteration_count ≤ t.iteration_count → m t ≡ n t)
      → body m s ≡ body n s
  unfolding body
  body-agree s m n agree = bind-agree s _ _ (expr-Keeps scopes_frame ev ev ev-KeepsAll c) λ v t r.
      elim (Bool-cases (holds v)) [
        | inl e ↦ rw e (
            bind-agree t (continue_if m) (continue_if n)
              (run_children-Keeps scopes_frame ev ev ev-KeepsAll (children b))
              (λ go u q.
                continue_if-agree m n go u (agree u (omega (arith, r.counted, q.counted)))))
        | inr e ↦ rw e
      ]

  round-agree :
      (s : State) (m n : M Bool)
      → (s.iteration_count < max_iterations
          → (t : State) → s.iteration_count + 1 ≤ t.iteration_count
          → m t ≡ n t)
      → (check_iteration_limit >>= continue_if (body m)) s
        ≡ (check_iteration_limit >>= continue_if (body n)) s
  unfolding continue_if
  round-agree s m n agree = elim (Bool-cases (ltb max_iterations (s.iteration_count + 1))) [
    | inl e ↦
        let q = (check_beyond s e).1 in
        bind-done _ (continue_if (body m)) q ∙ sym (bind-done _ (continue_if (body n)) q)
    | inr e ↦
        let q = check_within s e in
        bind-done _ (continue_if (body m)) q
        ∙ body-agree (record s { iteration_count = s.iteration_count + 1 }) m n
            (agree (ground arith))
        ∙ sym (bind-done _ (continue_if (body n)) q)
  ]

  rounds-agree :
      (n extra : ℕ) (s : State)
      → max_iterations ≤ n + s.iteration_count
      → while_loop ev c b (suc (n + extra)) s ≡ while_loop ev c b (suc n) s
  unfolding while_loop body
  rounds-agree zero extra s h = round-agree s _ _ λ less. absurd (omega arith)
  rounds-agree (suc n) extra s h = round-agree s _ _ λ less t le.
      let q : suc n + extra ≡ suc (n + extra) = omega arith in
      rw q (rounds-agree n extra t (omega arith))

  -- The rounds that a `while` loop is given are enough: with any number of rounds more it ends the
  -- same way, in the same state, whatever its condition and its body do.
  pub run_while_rounds :
      (s : State) (extra : ℕ)
      → while_loop ev c b (suc (max_iterations - s.iteration_count) + extra) s ≡ run_while ev c b s
  unfolding run_while read ◌>>=◌
  run_while_rounds s extra =
      let k = max_iterations - s.iteration_count in
      let q : suc k + extra ≡ suc (k + extra) = omega arith in
      rw q (rounds-agree k extra s (omega arith))
