-- ===== src/Runtime/Arc/Balance.antt =====
-- Retains and releases of one object in runtime/tinyswift_runtime.c, as a counter.
use mathlib.Core.Path.{fun_ext}
use tinyswift.Prelude.{
  ℕ, zero, suc, ◌+◌, ◌≤◌, ◌<◌, true, false, Option, none, some, List, [], ◌∷◌, ℤ, pos, ◌+ℤ◌, ◌-ℤ◌,
  id_eq, ◌==◌, ◌≡◌, refl, sym, ◌∙◌, ap, arith, Bool-cases, inl, inr,
}
use tinyswift.Runtime.Arc.{
  Heap, Outcome, done, undefined, Deinit, update, set_count, retain, retain_at, release, release_at,
  run_deinit, free_after, free_at, ◌go_on◌,
}

pub data Count : Type 0 where
  retains releases : Count

-- The operations on an object one after the other.
unfoldable pub run_counts : Deinit → Option ℕ → ℕ → List Count → Heap → Outcome
unfolding ◌go_on◌
run_counts call d o [] h = done h
run_counts call d o (retains ∷ cs) h = retain (some o) h go_on run_counts call d o cs
run_counts call d o (releases ∷ cs) h = release call d (some o) h go_on run_counts call d o cs

-- The counter: `none` where an operation comes after it has gone down to 0.
abbrev pub counter : ℕ → List Count → Option ℕ
counter n [] = some n
counter zero (_ ∷ cs) = none
counter (suc n) (retains ∷ cs) = counter (suc (suc n)) cs
counter (suc n) (releases ∷ cs) = counter n cs

abbrev pub retained : List Count → ℕ
retained [] = 0
retained (retains ∷ cs) = suc (retained cs)
retained (releases ∷ cs) = retained cs

-- The count of an object: none where it is freed.
abbrev pub count_of : ℕ → Option ℤ
count_of zero = none
count_of (suc n) = some (pos (suc n))

abbrev pub counted : ℕ → Heap → Option ℕ → Outcome
counted o h none = undefined
counted o h (some n) = done (set_count o (count_of n) h)

pub update_same : (o : ℕ) (x : Option ℤ) (f : ℕ → Option ℤ) → update o x f o ≡ x
update_same o x f = let b : (o == o) ≡ true = ground arith in rw b

update_twice :
    (o : ℕ) (x y : Option ℤ) (f : ℕ → Option ℤ) → update o x (update o y f) ≡ update o x f
update_twice o x y f = fun_ext λ p. elim (Bool-cases (p == o)) [ inl b ↦ rw b | inr b ↦ rw b ]

update_none : (o : ℕ) (x : Option ℤ) (f : ℕ → Option ℤ) → f o ≡ x → update o x f ≡ f
update_none o x f e = fun_ext λ p. elim (Bool-cases (p == o)) [
  | inl b ↦ let r : p ≡ o = ground arith in rw b (sym (ap f r ∙ e))
  | inr b ↦ rw b
]

counted_twice :
    (o : ℕ) (y : Option ℤ) (h : Heap) (n : Option ℕ) → counted o (set_count o y h) n ≡ counted o h n
counted_twice o y h none = refl
counted_twice o y h (some n) =
    ap (λ f. done (record h { refcount = f })) (update_twice o (count_of n) y h.refcount)

-- One operation on a live object.
retain_live :
    (o n : ℕ) (h : Heap)
    → suc n < 2147483647
    → h.refcount o ≡ some (pos (suc n))
    → retain (some o) h ≡ done (set_count o (some (pos (suc (suc n)))) h)
unfolding retain retain_at ◌+ℤ◌ id_eq
retain_live o n h p e =
    ap (λ c. retain_at o c h) e
    ∙ (let b : (suc n == 2147483647) ≡ false = ground arith in
        let q : suc n + 1 ≡ suc (suc n) = omega arith in rw b (ground arith))

release_live :
    (call : Deinit) (d : Option ℕ) (o n : ℕ) (h : Heap)
    → h.refcount o ≡ some (pos (suc (suc n)))
    → release call d (some o) h ≡ done (set_count o (some (pos (suc n))) h)
unfolding release release_at ◌-ℤ◌ id_eq
release_live call d o n h e =
    ap (λ c. release_at call d o c h) e
    ∙ (let b : (suc (suc n) == 1) ≡ false = ground arith in
        let q : suc (suc n) + 0 ≡ suc (suc n) = omega arith in rw b (ground arith))

-- The last release: the object's `deinit` is called, and then it is freed.
pub release_last :
    (call : Deinit) (d : Option ℕ) (o : ℕ) (h : Heap)
    → ((h' : Heap) → run_deinit call d o h' ≡ done h')
    → h.refcount o ≡ some (pos 1)
    → release call d (some o) h ≡ done (set_count o none h)
unfolding release release_at free_after free_at id_eq
release_last call d o h quiet e =
    let zeroed = set_count o (some (pos 0)) h in
    ap (λ c. release_at call d o c h) e
    ∙ ap (free_after o) (quiet zeroed)
    ∙ ap (λ c. free_at o c zeroed) (update_same o (some (pos 0)) h.refcount)
    ∙ ap (λ f. done (record h { refcount = f })) (update_twice o none (some (pos 0)) h.refcount)

run_freed :
    (call : Deinit) (d : Option ℕ) (o : ℕ) (c : Count) (cs : List Count) (h : Heap)
    → h.refcount o ≡ none
    → run_counts call d o (c ∷ cs) h ≡ undefined
unfolding run_counts retain release retain_at release_at ◌go_on◌
run_freed call d o retains cs h e = ap (λ x. retain_at o x h go_on run_counts call d o cs) e
run_freed call d o releases cs h e =
    ap (λ x. release_at call d o x h go_on run_counts call d o cs) e

-- Retains and releases of an object that start at a count act as a counter. The object is freed
-- by the release that takes the counter to 0, and not before; an operation after that touches freed
-- memory; and no other object's count changes. The count and the retains together must stay within
-- int32_t, and the object's `deinit` must leave the heap as it is.
pub run_counts-counter :
    (call : Deinit) (d : Option ℕ) (o n : ℕ) (cs : List Count) (h : Heap)
    → ((h' : Heap) → run_deinit call d o h' ≡ done h')
    → h.refcount o ≡ count_of n
    → n + retained cs ≤ 2147483647
    → run_counts call d o cs h ≡ counted o h (counter n cs)
unfolding run_counts ◌go_on◌
run_counts-counter call d o n [] h quiet e p =
    ap done (sym (ap (λ f. record h { refcount = f }) (update_none o (count_of n) h.refcount e)))
run_counts-counter call d o zero (c ∷ cs) h quiet e p = run_freed call d o c cs h e
run_counts-counter call d o (suc n) (retains ∷ cs) h quiet e p =
    ap (λ x. x go_on run_counts call d o cs) (retain_live o n h (omega arith) e)
    ∙ run_counts-counter call d o (suc (suc n)) cs _ quiet (update_same o _ h.refcount)
        (omega arith)
    ∙ counted_twice o _ h _
run_counts-counter call d o (suc zero) (releases ∷ cs) h quiet e p =
    ap (λ x. x go_on run_counts call d o cs) (release_last call d o h quiet e)
    ∙ run_counts-counter call d o zero cs _ quiet (update_same o _ h.refcount) (omega arith)
    ∙ counted_twice o _ h _
run_counts-counter call d o (suc (suc n)) (releases ∷ cs) h quiet e p =
    ap (λ x. x go_on run_counts call d o cs) (release_live call d o n h e)
    ∙ run_counts-counter call d o (suc n) cs _ quiet (update_same o _ h.refcount) (omega arith)
    ∙ counted_twice o _ h _
