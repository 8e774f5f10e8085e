-- ===== src/Runtime/Arc/Collector.antt =====
-- The candidates of the cycle collector in runtime/tinyswift_runtime.c.
use tinyswift.Prelude.{ℕ, Option, none, some, [], ◌∷◌, ℤ, pos, ◌-ℤ◌, id_eq, ◌≡◌, ◌∙◌, ap}
use tinyswift.Runtime.Arc.{
  Heap, done, undefined, Deinit, update, set_count, release, run_deinit, candidate_at,
  release_cycle_candidate, register, collect_one, collect_at, collect_loop, collect_cycles, ◌go_on◌,
}
use tinyswift.Runtime.Arc.Balance.{release_last, update_same}

-- A heap whose list of candidates is empty.
abbrev pub uncollected : (ℕ → Option ℤ) → ℕ → Heap
uncollected f n = record { refcount = f; next_object = n; candidates = [] }

-- The heap after the first release of an object with two references.
abbrev registered : (ℕ → Option ℤ) → ℕ → ℕ → Option ℕ → Heap
registered f n o d = record {
  refcount = update o (some (pos 1)) f;
  next_object = n;
  candidates = record { object = some o; deinit = d } ∷ [];
}

release_candidate_first :
    (call : Deinit) (d : Option ℕ) (o n : ℕ) (f : ℕ → Option ℤ)
    → f o ≡ some (pos 2)
    → release_cycle_candidate call d (some o) (uncollected f n) ≡ done (registered f n o d)
unfolding release_cycle_candidate candidate_at register id_eq ◌-ℤ◌
release_candidate_first call d o n f e = ap (λ c. candidate_at call d o c (uncollected f n)) e

collect_freed :
    (call : Deinit) (d : Option ℕ) (o n : ℕ) (f : ℕ → Option ℤ)
    → collect_cycles call (set_count o none (registered f n o d)) ≡ undefined
unfolding collect_cycles collect_loop collect_at collect_one ◌go_on◌
collect_freed call d o n f =
    let h = set_count o none (registered f n o d) in
    let rest = collect_loop call 1 1023 in
    ap
      (λ c.
        (collect_one call 0 o d c h go_on rest) go_on λ h'. done (record h' { candidates = [] }))
      (update_same o none (update o (some (pos 1)) f))

-- An object with two references is released twice, the first time as a candidate for a cycle: the
-- second release frees it, and the collector then touches its freed header.
pub collect_cycles-freed :
    (call : Deinit) (d : Option ℕ) (o n : ℕ) (f : ℕ → Option ℤ)
    → ((h : Heap) → run_deinit call d o h ≡ done h)
    → f o ≡ some (pos 2)
    → (release_cycle_candidate call d (some o) (uncollected f n)
        go_on release call d (some o)
        go_on collect_cycles call)
      ≡ undefined
unfolding ◌go_on◌
collect_cycles-freed call d o n f quiet e =
    ap (λ x. x go_on release call d (some o) go_on collect_cycles call)
      (release_candidate_first call d o n f e)
    ∙ ap (λ x. x go_on collect_cycles call)
        (release_last call d o (registered f n o d) quiet (update_same o (some (pos 1)) f))
    ∙ collect_freed call d o n f
