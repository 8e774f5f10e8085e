-- ===== src/Opt/DefiniteInit/Rejects.antt =====
-- Which functions toolchain/tiny_sil_optimizer/definite_init.cpp rejects.
use tinyswift.Prelude.{
  Bool, true, false, ◌&&◌, ◌||◌, List, [], ◌∷◌, ℤ, Option, none, some, if◌then◌else◌, lookup_id,
  is_empty, ◌≡◌, refl, arith, any, Bool-cases, inl, inr, id_eq, id_eq_iff, mem_id, id_eq_refl, ◌∙◌,
}
use tinyswift.Sil.{
  is_valid, InstKind, Instruction, Function, is_alloc_stack, is_load, is_store, is_element_addr,
  struct_element_addr, store,
}
use tinyswift.Opt.DefiniteInit.{
  InitState, uninitialized, States, insts_of, alloc_states, InitScan, store_direct, mark_maybe,
  store_field, init_kind, init_scan, is_uninitialized, load_errors, final_states, init_errors,
  check_definite_init,
}

abbrev pub allocates : ℤ → Instruction → Bool
allocates slot i = is_alloc_stack i.kind && (is_valid i.result && id_eq slot i.result.id)

abbrev pub loads_from : ℤ → Instruction → Bool
loads_from slot i = is_load i.kind && (is_valid i.operand0 && id_eq slot i.operand0.id)

-- The addresses of fields of the slot.
abbrev pub element_addrs : ℤ → List Instruction → List ℤ
element_addrs slot [] = []
element_addrs slot (i ∷ rest) =
    let more = element_addrs slot rest in
    if is_element_addr i.kind
      && (is_valid i.result && (is_valid i.operand0 && id_eq slot i.operand0.id))
    then i.result.id ∷ more
    else more

-- A store to the slot or to one of the addresses.
abbrev pub writes_to : ℤ → List ℤ → Instruction → Bool
writes_to slot addrs i =
    is_store i.kind
    && (is_valid i.operand1 && (id_eq slot i.operand1.id || mem_id i.operand1.id addrs))

module _ (slot : ℤ) (addrs : List ℤ) where
  -- The fields of the slot that the scan knows are among the addresses.
  abbrev FieldsKnown : InitScan → Type 0
  FieldsKnown s = (b : ℤ) → lookup_id b s.field_addrs ≡ some slot → mem_id b addrs ≡ true

  kind_fields :
      (k : InstKind) (i : Instruction) (s : InitScan)
      → (is_element_addr k ≡ true
          → is_valid i.result ≡ true
          → is_valid i.operand0 ≡ true
          → id_eq slot i.operand0.id ≡ true
          → mem_id i.result.id addrs ≡ true)
      → FieldsKnown s
      → FieldsKnown (init_kind k i s)
  unfolding init_kind is_element_addr
  kind_fields struct_element_addr i s new h b e =
      ground (arith, h b, id_eq_iff b i.result.id, id_eq_iff slot i.operand0.id)
  kind_fields store i s new h b e = ground (arith, h b)
  kind_fields _ i s new h b e = h b e

  maybe_untouched :
      (other : ℤ) (o : Option InitState) (s : States)
      → id_eq slot other ≡ false
      → lookup_id slot (mark_maybe other o s) ≡ lookup_id slot s
  unfolding mark_maybe
  maybe_untouched other (some uninitialized) s e = ground arith
  maybe_untouched other _ s e = refl

  field_untouched :
      (o : Option ℤ) (s : States)
      → (o ≡ some slot → ⊥)
      → lookup_id slot (store_field o s) ≡ lookup_id slot s
  unfolding store_field
  field_untouched none s h = refl
  field_untouched (some other) s h =
      maybe_untouched other (lookup_id other s) s (ground (arith, h, id_eq_iff slot other))

  direct_untouched :
      (dst : ℤ) (s : States)
      → id_eq slot dst ≡ false
      → lookup_id slot (store_direct dst s) ≡ lookup_id slot s
  unfolding store_direct
  direct_untouched dst s e = ground arith

  kind_untouched :
      (k : InstKind) (i : Instruction) (s : InitScan)
      → FieldsKnown s
      → (is_store k
          && (is_valid i.operand1 && (id_eq slot i.operand1.id || mem_id i.operand1.id addrs)))
        ≡ false
      → lookup_id slot (init_kind k i s).states ≡ lookup_id slot s.states
  unfolding init_kind is_store
  kind_untouched struct_element_addr i s known h = ground arith
  kind_untouched store i s known h = elim (Bool-cases (is_valid i.operand1)) [
    | inl e ↦ rw e (
        field_untouched (lookup_id i.operand1.id s.field_addrs)
          (store_direct i.operand1.id s.states) (λ p. ground (arith, known i.operand1.id))
        ∙ direct_untouched i.operand1.id s.states (ground arith))
    | inr e ↦ rw e refl
  ]
  kind_untouched _ i s known h = refl

  scan_untouched :
      (insts : List Instruction) (s : InitScan)
      → ((b : ℤ) → mem_id b (element_addrs slot insts) ≡ true → mem_id b addrs ≡ true)
      → FieldsKnown s
      → any (writes_to slot addrs) insts ≡ false
      → lookup_id slot (init_scan insts s).states ≡ lookup_id slot s.states
  unfolding init_scan
  scan_untouched [] s sub known h = refl
  scan_untouched (i ∷ rest) s sub known h =
      scan_untouched rest (init_kind i.kind i s) (λ b m. sub b (ground arith))
        (kind_fields i.kind i s
          (λ a b c d. sub i.result.id (ground (arith, id_eq_refl i.result.id))) known)
        (ground arith)
      ∙ kind_untouched i.kind i s known (ground arith)

  alloc_states-uninitialized :
      (insts : List Instruction) (s : States)
      → is_uninitialized (lookup_id slot s) || any (allocates slot) insts ≡ true
      → is_uninitialized (lookup_id slot (alloc_states insts s)) ≡ true
  unfolding alloc_states
  alloc_states-uninitialized [] s h = ground arith
  alloc_states-uninitialized (i ∷ rest) s h = alloc_states-uninitialized rest _ (ground arith)

  load_errors-found :
      (s : States) (insts : List Instruction)
      → is_uninitialized (lookup_id slot s) ≡ true
      → any (loads_from slot) insts ≡ true
      → is_empty (load_errors s insts) ≡ false
  unfolding load_errors
  load_errors-found s [] u h = cc
  load_errors-found s (i ∷ rest) u h =
      ground (arith, load_errors-found s rest u, id_eq_iff slot i.operand0.id)

-- The check rejects every function with a slot that is allocated and loaded, while no instruction
-- stores to the slot or to an address that `struct_element_addr` takes in it.
pub check_definite_init-rejects :
    (fn : Function) (slot : ℤ)
    → any (allocates slot) (insts_of fn.blocks) ≡ true
    → any (loads_from slot) (insts_of fn.blocks) ≡ true
    → any (writes_to slot (element_addrs slot (insts_of fn.blocks))) (insts_of fn.blocks) ≡ false
    → check_definite_init fn ≡ false
unfolding check_definite_init init_errors
check_definite_init-rejects fn slot a l w =
    let insts = insts_of fn.blocks in
    let addrs = element_addrs slot insts in
    let start = alloc_states-uninitialized slot addrs insts [] (ground arith) in
    let same =
      scan_untouched slot addrs insts (record { states = alloc_states insts []; field_addrs = [] })
        (λ b m. m) (λ b e. absurd (cc e)) w in
    let found = load_errors-found slot addrs (final_states insts) insts (rw same start) l in
    ground arith
