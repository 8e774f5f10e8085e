-- ===== src/Runtime/Arc.antt =====
-- The reference counts and the cycle collector of runtime/tinyswift_runtime.c. An object is known by
-- the number of its allocation. A call of a `deinit` function is a parameter, and so is what it does
-- to the heap. The counts are changed by one thread.
use tinyswift.Prelude.{
  ℕ, zero, suc, ◌+◌, ◌-◌, Bool, true, false, ◌||◌, Option, none, some, List, [], ◌∷◌, ◌++◌, ℤ, pos,
  negsuc, ◌+ℤ◌, ◌-ℤ◌, leb_ℤ, id_eq, ltb, ◌==◌, length, get_elem?, if◌then◌else◌, map,
}
pub mod Balance
pub mod Collector

abbrev pub max_int32 : ℤ
max_int32 = pos 2147483647

abbrev pub max_candidates : ℕ
max_candidates = 1024

-- A candidate: its object, null where it was taken out, and its `deinit` function.
pub record Candidate : Type 0 where
  pub object : Option ℕ
  pub deinit : Option ℕ

-- `none` is the count of an object that is not allocated: its header must not be touched.
pub record Heap : Type 0 where
  pub refcount : ℕ → Option ℤ
  pub next_object : ℕ
  pub candidates : List Candidate

-- How a function ends: it returns, it aborts the program, or it touches memory that is not
-- allocated.
pub data Outcome : Type 0 where
  done : Heap → Outcome
  aborted undefined : Outcome

abbrev pub Deinit : Type 0
Deinit = ℕ → ℕ → Heap → Outcome

abbrev pub update : ℕ → Option ℤ → (ℕ → Option ℤ) → ℕ → Option ℤ
update o x f p = if p == o then x else f p

abbrev pub set_count : ℕ → Option ℤ → Heap → Heap
set_count o x h = record h { refcount = update o x h.refcount }

-- A new object, and the heap with it; `malloc` succeeds.
unfoldable pub alloc : Heap → ℕ × Heap
alloc h = (
  h.next_object,
  record h {
    refcount = update h.next_object (some (pos 1)) h.refcount;
    next_object = suc h.next_object;
  },
)

unfoldable pub retain_at : ℕ → Option ℤ → Heap → Outcome
retain_at o none h = undefined
retain_at o (some old) h =
    if leb_ℤ old (pos 0) || id_eq old max_int32
    then aborted
    else done (set_count o (some (old +ℤ pos 1)) h)

unfoldable pub retain : Option ℕ → Heap → Outcome
unfolding retain_at
retain none h = done h
retain (some o) h = retain_at o (h.refcount o) h

-- `free(header)`: a second one is undefined.
unfoldable pub free_at : ℕ → Option ℤ → Heap → Outcome
free_at o none h = undefined
free_at o (some _) h = done (set_count o none h)

unfoldable pub free_after : ℕ → Outcome → Outcome
unfolding free_at
free_after o (done h) = free_at o (h.refcount o) h
free_after o aborted = aborted
free_after o undefined = undefined

-- `if (deinit_fn) deinit_fn(obj);`
unfoldable pub run_deinit : Deinit → Option ℕ → ℕ → Heap → Outcome
run_deinit call none o h = done h
run_deinit call (some d) o h = call d o h

unfoldable pub release_at : Deinit → Option ℕ → ℕ → Option ℤ → Heap → Outcome
unfolding free_after run_deinit
release_at call d o none h = undefined
release_at call d o (some old) h =
    if leb_ℤ old (pos 0)
    then aborted
    else if id_eq old (pos 1)
    then free_after o (run_deinit call d o (set_count o (some (pos 0)) h))
    else done (set_count o (some (old -ℤ pos 1)) h)

unfoldable pub release : Deinit → Option ℕ → Option ℕ → Heap → Outcome
unfolding release_at
release call d none h = done h
release call d (some o) h = release_at call d o (h.refcount o) h

-- `none` where the header must not be read.
unfoldable pub is_unique : Option ℕ → Heap → Option Bool
is_unique none h = some false
is_unique (some o) h = elim (h.refcount o) [ none ↦ none | some c ↦ some (id_eq c (pos 1)) ]

-- A full list takes no candidate.
unfoldable pub register : ℕ → Option ℕ → Heap → Heap
register o d h =
    if ltb (length h.candidates) max_candidates
    then record h { candidates = h.candidates ++ record { object = some o; deinit = d } ∷ [] }
    else h

unfoldable pub candidate_at : Deinit → Option ℕ → ℕ → Option ℤ → Heap → Outcome
unfolding free_after run_deinit register
candidate_at call d o none h = undefined
candidate_at call d o (some old) h =
    if id_eq old (pos 1)
    then free_after o (run_deinit call d o (set_count o (some (pos 0)) h))
    else done (register o d (set_count o (some (old -ℤ pos 1)) h))

unfoldable pub release_cycle_candidate : Deinit → Option ℕ → Option ℕ → Heap → Outcome
unfolding candidate_at
release_cycle_candidate call d none h = done h
release_cycle_candidate call d (some o) h = candidate_at call d o (h.refcount o) h

abbrev pub is_object : ℕ → Candidate → Bool
is_object o c = elim c.object [ none ↦ false | some p ↦ p == o ]

-- How many candidates are the object.
unfoldable pub candidate_refs : ℕ → List Candidate → ℕ
candidate_refs o [] = 0
candidate_refs o (c ∷ cs) = (if is_object o c then 1 else 0) + candidate_refs o cs

-- All candidates of the object taken out.
unfoldable pub null_out : ℕ → List Candidate → List Candidate
null_out o [] = []
null_out o (c ∷ cs) = (if is_object o c then record c { object = none } else c) ∷ null_out o cs

unfoldable pub null_after : ℕ → Outcome → Outcome
unfolding null_out
null_after o (done h) = done (record h { candidates = null_out o h.candidates })
null_after o aborted = aborted
null_after o undefined = undefined

-- The candidate at a position taken out.
unfoldable pub null_at : ℕ → List Candidate → List Candidate
null_at i [] = []
null_at zero (c ∷ cs) = record c { object = none } ∷ cs
null_at (suc i) (c ∷ cs) = c ∷ null_at i cs

-- One candidate, by its position, its object and the count there.
unfoldable pub collect_one : Deinit → ℕ → ℕ → Option ℕ → Option ℤ → Heap → Outcome
unfolding candidate_refs free_after run_deinit null_after null_at
collect_one call i o d none h = undefined
collect_one call i o d (some rc) h =
    if leb_ℤ rc (pos 0)
    then done (record h { candidates = null_at i h.candidates })
    else if leb_ℤ rc (pos (candidate_refs o h.candidates))
    then null_after o (free_after o (run_deinit call d o (set_count o (some (pos 0)) h)))
    else done h

unfoldable pub collect_at : Deinit → ℕ → Candidate → Heap → Outcome
unfolding collect_one
collect_at call i c h = elim c.object [
  | none ↦ done h
  | some o ↦ collect_one call i o c.deinit (h.refcount o) h
]

-- What follows, where the program goes on.
infixl 5 ◌go_on◌
unfoldable pub ◌go_on◌ : Outcome → (Heap → Outcome) → Outcome
done h go_on f = f h
aborted go_on f = aborted
undefined go_on f = undefined

-- The loop from position `i` on, of at most `left` steps; it ends at the last candidate, which is
-- looked for again in each step. At most `max_candidates` are ever in the list.
unfoldable pub collect_loop : Deinit → ℕ → ℕ → Heap → Outcome
unfolding collect_at ◌go_on◌
collect_loop call i zero h = done h
collect_loop call i (suc left) h =
    let rest = collect_loop call (suc i) left in
    elim (get_elem? h.candidates i) [ none ↦ done h | some c ↦ collect_at call i c h go_on rest ]

unfoldable pub collect_cycles : Deinit → Heap → Outcome
unfolding collect_loop ◌go_on◌
collect_cycles call h =
    collect_loop call 0 max_candidates h go_on λ h'. done (record h' { candidates = [] })
