-- ===== src/Opt/DefiniteInit/Accepts.antt =====
-- Which functions toolchain/tiny_sil_optimizer/definite_init.cpp accepts.
use tinyswift.Prelude.{
  true, false, ◌&&◌, List, [], ◌∷◌, ℤ, Option, none, some, if◌then◌else◌, lookup_id, has_id, ◌≡◌,
  refl, arith, any, Bool-cases, inl, inr, All,
}
use tinyswift.Sil.{is_valid, InstKind, Instruction, Function, is_load, struct_element_addr, store}
use tinyswift.Opt.DefiniteInit.{
  InitState, uninitialized, States, insts_of, alloc_states, InitScan, store_direct, mark_maybe,
  store_field, init_kind, init_scan, is_uninitialized, load_errors, final_states, init_errors,
  check_definite_init,
}
use tinyswift.Opt.DefiniteInit.Stored.{stores_to, scan_sets}

-- A direct store anywhere in the function, whether it comes before or after the load.
abbrev pub LoadsStored : List Instruction → List Instruction → Type 0
LoadsStored whole insts =
    All
      (λ i.
        is_load i.kind ≡ true
        → is_valid i.operand0 ≡ true
        → any (stores_to i.operand0.id) whole ≡ true)
      insts

module _ (slot : ℤ) where
  -- No step makes a slot uninitialized.
  maybe_back :
      (other : ℤ) (o : Option InitState) (s : States)
      → is_uninitialized (lookup_id slot (mark_maybe other o s)) ≡ true
      → is_uninitialized (lookup_id slot s) ≡ true
  unfolding mark_maybe
  maybe_back other (some uninitialized) s h = ground arith
  maybe_back other _ s h = h

  field_back :
      (o : Option ℤ) (s : States)
      → is_uninitialized (lookup_id slot (store_field o s)) ≡ true
      → is_uninitialized (lookup_id slot s) ≡ true
  unfolding store_field
  field_back none s h = h
  field_back (some other) s h = maybe_back other (lookup_id other s) s h

  direct_back :
      (dst : ℤ) (s : States)
      → is_uninitialized (lookup_id slot (store_direct dst s)) ≡ true
      → is_uninitialized (lookup_id slot s) ≡ true
  unfolding store_direct
  direct_back dst s h = ground arith

  kind_back :
      (k : InstKind) (i : Instruction) (s : InitScan)
      → is_uninitialized (lookup_id slot (init_kind k i s).states) ≡ true
      → is_uninitialized (lookup_id slot s.states) ≡ true
  unfolding init_kind
  kind_back struct_element_addr i s h = ground arith
  kind_back store i s h = elim (Bool-cases (is_valid i.operand1)) [
    | inl e ↦
        direct_back i.operand1.id s.states
          (field_back (lookup_id i.operand1.id s.field_addrs) _ ((rw (e, if◌then◌else◌) at h)))
    | inr e ↦ (rw (e, if◌then◌else◌) at h)
  ]
  kind_back _ i s h = h

  scan_back :
      (insts : List Instruction) (s : InitScan)
      → is_uninitialized (lookup_id slot (init_scan insts s).states) ≡ true
      → is_uninitialized (lookup_id slot s.states) ≡ true
  unfolding init_scan
  scan_back [] s h = h
  scan_back (i ∷ rest) s h = kind_back i.kind i s (scan_back rest (init_kind i.kind i s) h)

  uninitialized_has :
      (s : States) → is_uninitialized (lookup_id slot s) ≡ true → has_id slot s ≡ true
  uninitialized_has [] h = cc
  uninitialized_has ((j, t) ∷ s) h = ground (arith, uninitialized_has s)

  -- A slot that is uninitialized at the end has no direct store.
  stored_is_initialized :
      (insts : List Instruction)
      → any (stores_to slot) insts ≡ true
      → is_uninitialized (lookup_id slot (final_states insts)) ≡ false
  stored_is_initialized insts h =
      elim (Bool-cases (is_uninitialized (lookup_id slot (final_states insts)))) [
        | inl u ↦
            (let has = uninitialized_has _ (scan_back insts _ u) in
              let set =
                scan_sets slot insts (record { states = alloc_states insts []; field_addrs = [] })
                  has h in
              ground (arith, set))
        | inr f ↦ f
      ]

load_errors-stored :
    (whole insts : List Instruction)
    → LoadsStored whole insts
    → load_errors (final_states whole) insts ≡ []
unfolding load_errors
load_errors-stored whole [] h = refl
load_errors-stored whole (i ∷ rest) h =
    let more = load_errors-stored whole rest h.1 in
    elim (Bool-cases (is_load i.kind && is_valid i.operand0)) [
      | inl e ↦
          (let fine =
              stored_is_initialized i.operand0.id whole (h.0 (ground arith) (ground arith)) in
            ground arith)
      | inr e ↦ ground arith
    ]

-- The check accepts every function in which each slot that is loaded has a direct store somewhere,
-- wherever the store stands: before the load, after it, or on another path.
pub check_definite_init-accepts :
    (fn : Function)
    → LoadsStored (insts_of fn.blocks) (insts_of fn.blocks)
    → check_definite_init fn ≡ true
unfolding check_definite_init init_errors
check_definite_init-accepts fn h =
    ground (arith, load_errors-stored (insts_of fn.blocks) (insts_of fn.blocks) h)
