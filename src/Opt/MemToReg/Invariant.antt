-- ===== src/Opt/MemToReg/Invariant.antt =====
-- The invariant of the forward scan: a tracked slot holds its tracked value, a promoted load has
-- the value that replaces it.
use tinyswift.Prelude.{
  true, false, List, ℤ, pos, negsuc, some, id_eq, id_eq_iff, mem_id, lookup_id, cons_id, ◌≡◌, sym,
  ◌∙◌, arith, Bool-cases, inl, inr,
}
use mathlib.Core.Path.{subst, ap}
use tinyswift.Sil.{Value, is_valid}
use tinyswift.Opt.Interp.{update, bind_result}
use tinyswift.Opt.MemToReg.{ScanState, scan_store}

bind_other :
    {Val : Type 0} (r : Value) (x : Val) (env : ℤ → Val) (later : List ℤ) (b : ℤ)
    → mem_id b (cons_id r.id later) ≡ false
    → (mem_id b later ≡ false) × (bind_result r x env b ≡ env b)
unfolding bind_result
bind_other r x env later b h = (ground arith, ground arith)

pub shrink :
    (a b : ℤ) (later : List ℤ) → mem_id b (cons_id a later) ≡ false → mem_id b later ≡ false
shrink (pos n) b later h = ground arith
shrink (negsuc n) b later h = h

store_escaped :
    (allocs : List ℤ) (src dst : Value) (s : ScanState)
    → (scan_store allocs src dst s).escaped ≡ s.escaped
unfolding scan_store
store_escaped allocs src dst s = ground arith

store_promoted :
    (allocs : List ℤ) (src dst : Value) (s : ScanState)
    → (scan_store allocs src dst s).promoted_values ≡ s.promoted_values
unfolding scan_store
store_promoted allocs src dst s = ground arith

module _ {Val : Type 0} (allocs : List ℤ) where
  -- `later` are the identifiers that the rest of the block defines.
  pub record IsTracked (later escaped : List ℤ) (env slots : ℤ → Val) (a : ℤ) (v : Value)
      : Type 0 where
    pub is_slot : mem_id a allocs ≡ true
    pub valid : is_valid v ≡ true
    pub is_value : mem_id v.id allocs ≡ false
    pub settled : mem_id v.id later ≡ false
    pub holds : mem_id a escaped ≡ false → slots a ≡ env v.id

  pub record IsPromoted (later : List ℤ) (env : ℤ → Val) (r : ℤ) (v : Value) : Type 0 where
    pub is_load_result : mem_id r allocs ≡ false
    pub valid : is_valid v ≡ true
    pub is_value : mem_id v.id allocs ≡ false
    pub known : mem_id r later ≡ false
    pub settled : mem_id v.id later ≡ false
    pub same : env r ≡ env v.id

  pub record Inv (later : List ℤ) (s : ScanState) (env slots : ℤ → Val) : Type 0 where
    pub current :
        (a : ℤ) (v : Value)
        → lookup_id a s.current_value ≡ some v
        → IsTracked later s.escaped env slots a v
    pub promoted :
        (r : ℤ) (v : Value) → lookup_id r s.promoted_values ≡ some v → IsPromoted later env r v

  -- A step that binds a result and leaves the slots that have not escaped alone.
  pub bind-Inv :
      (r : Value) (x : Val) (later esc : List ℤ) (s : ScanState) (env slots slots' : ℤ → Val)
      → ((a : ℤ) → mem_id a esc ≡ false → mem_id a s.escaped ≡ false)
      → ((a : ℤ) → mem_id a allocs ≡ true → mem_id a esc ≡ false → slots' a ≡ slots a)
      → Inv (cons_id r.id later) s env slots
      → Inv later (record s { escaped = esc }) (bind_result r x env) slots'
  bind-Inv r x later esc s env slots slots' grows keeps inv = record {
    current = λ a v e.
        let t = inv.current a v e in
        let b = bind_other r x env later v.id t.settled in
        record {
          is_slot = t.is_slot;
          valid = t.valid;
          is_value = t.is_value;
          settled = b.0;
          holds = λ m. keeps a t.is_slot m ∙ (t.holds (grows a m) ∙ sym b.1);
        };
    promoted = λ k v e.
        let t = inv.promoted k v e in
        let b = bind_other r x env later v.id t.settled in
        let c = bind_other r x env later k t.known in
        record {
          is_load_result = t.is_load_result;
          valid = t.valid;
          is_value = t.is_value;
          known = c.0;
          settled = b.0;
          same = c.1 ∙ (t.same ∙ sym b.1);
        };
  }

  pub shrink-Inv :
      (a : ℤ) (later : List ℤ) (s : ScanState) (env slots : ℤ → Val)
      → Inv (cons_id a later) s env slots
      → Inv later s env slots
  shrink-Inv a later s env slots inv = record {
    current = λ b v e.
        let t = inv.current b v e in
        record {
          is_slot = t.is_slot;
          valid = t.valid;
          is_value = t.is_value;
          settled = shrink a v.id later t.settled;
          holds = t.holds;
        };
    promoted = λ k v e.
        let t = inv.promoted k v e in
        record {
          is_load_result = t.is_load_result;
          valid = t.valid;
          is_value = t.is_value;
          known = shrink a k later t.known;
          settled = shrink a v.id later t.settled;
          same = t.same;
        };
  }

  -- The tracked values after a direct store.
  store-IsTracked :
      (later : List ℤ) (src dst : Value) (s : ScanState) (env slots : ℤ → Val) (a : ℤ) (v : Value)
      → mem_id dst.id allocs ≡ true
      → is_valid dst ≡ true
      → is_valid src ≡ true
      → mem_id src.id allocs ≡ false
      → mem_id src.id later ≡ false
      → Inv later s env slots
      → lookup_id a (scan_store allocs src dst s).current_value ≡ some v
      → IsTracked later s.escaped env (update slots dst.id (env src.id)) a v
  unfolding scan_store
  store-IsTracked later src dst s env slots a v m d w x y inv e =
      elim (Bool-cases (id_eq a dst.id)) [
        | inl same ↦ elim (Bool-cases (mem_id dst.id s.escaped)) [
          | inl esc ↦
              (let t = inv.current a v (ground arith) in
                record {
                  is_slot = t.is_slot;
                  valid = t.valid;
                  is_value = t.is_value;
                  settled = t.settled;
                  holds = λ n. absurd (ground (arith, id_eq_iff a dst.id));
                })
          | inr free ↦
              (let p : src ≡ v = ground arith in
                subst (IsTracked later s.escaped env (update slots dst.id (env src.id)) a) p
                  (record {
                    is_slot = ground (arith, id_eq_iff a dst.id);
                    valid = w;
                    is_value = x;
                    settled = y;
                    holds = λ n. rw same;
                  }))
        ]
        | inr other ↦
            (let t = inv.current a v (ground arith) in
              record {
                is_slot = t.is_slot;
                valid = t.valid;
                is_value = t.is_value;
                settled = t.settled;
                holds = λ n. rw other (t.holds n);
              })
      ]

  pub store-Inv :
      (later : List ℤ) (src dst : Value) (s : ScanState) (env slots : ℤ → Val)
      → mem_id dst.id allocs ≡ true
      → is_valid dst ≡ true
      → is_valid src ≡ true
      → mem_id src.id allocs ≡ false
      → mem_id src.id later ≡ false
      → Inv later s env slots
      → Inv later (scan_store allocs src dst s) env (update slots dst.id (env src.id))
  store-Inv later src dst s env slots m d w x y inv = record {
    current = λ a v e.
        subst (λ esc. IsTracked later esc env (update slots dst.id (env src.id)) a v)
          (sym (store_escaped allocs src dst s))
          (store-IsTracked later src dst s env slots a v m d w x y inv e);
    promoted =
        λ k v e. inv.promoted k v (sym (ap (lookup_id k) (store_promoted allocs src dst s)) ∙ e);
  }
