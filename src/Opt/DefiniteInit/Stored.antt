-- ===== src/Opt/DefiniteInit/Stored.antt =====
-- The scan of stores in toolchain/tiny_sil_optimizer/definite_init.cpp: a slot that is stored
-- to directly is initialized at the end.
use tinyswift.Prelude.{
  Bool, true, ◌&&◌, List, [], ◌∷◌, ℤ, Option, none, some, lookup_id, has_id, ◌≡◌, arith, any,
  Bool-cases, inl, inr, id_eq, id_eq_iff,
}
use tinyswift.Sil.{is_valid, InstKind, Instruction, is_store, struct_element_addr, store}
use tinyswift.Opt.DefiniteInit.{
  InitState, uninitialized, initialized, States, InitScan, store_direct, mark_maybe, store_field,
  init_kind, init_scan,
}

-- The instruction stores to the slot itself.
abbrev pub stores_to : ℤ → Instruction → Bool
stores_to slot i = is_store i.kind && (is_valid i.operand1 && id_eq slot i.operand1.id)

module _ (slot : ℤ) where
  direct_keeps :
      (dst : ℤ) (s : States)
      → lookup_id slot s ≡ some initialized
      → lookup_id slot (store_direct dst s) ≡ some initialized
  unfolding store_direct
  direct_keeps dst s h = ground arith

  maybe_keeps :
      (other : ℤ) (s : States)
      → lookup_id slot s ≡ some initialized
      → lookup_id slot (mark_maybe other (lookup_id other s) s) ≡ some initialized
  unfolding mark_maybe
  maybe_keeps other s h = elim (Bool-cases (id_eq slot other)) [
    | inl e ↦ (let same = (id_eq_iff slot other).0 e in rw ((rw same at h), mark_maybe) h)
    | inr e ↦ ground arith
  ]

  field_keeps :
      (o : Option ℤ) (s : States)
      → lookup_id slot s ≡ some initialized
      → lookup_id slot (store_field o s) ≡ some initialized
  unfolding store_field
  field_keeps none s h = h
  field_keeps (some other) s h = maybe_keeps other s h

  kind_keeps :
      (k : InstKind) (i : Instruction) (s : InitScan)
      → lookup_id slot s.states ≡ some initialized
      → lookup_id slot (init_kind k i s).states ≡ some initialized
  unfolding init_kind
  kind_keeps struct_element_addr i s h = ground arith
  kind_keeps store i s h = elim (Bool-cases (is_valid i.operand1)) [
    | inl e ↦ rw e (field_keeps _ _ (direct_keeps i.operand1.id s.states h))
    | inr e ↦ rw e h
  ]
  kind_keeps _ i s h = h

  pub scan_keeps :
      (insts : List Instruction) (s : InitScan)
      → lookup_id slot s.states ≡ some initialized
      → lookup_id slot (init_scan insts s).states ≡ some initialized
  unfolding init_scan
  scan_keeps [] s h = h
  scan_keeps (i ∷ rest) s h = scan_keeps rest (init_kind i.kind i s) (kind_keeps i.kind i s h)

  direct_has :
      (dst : ℤ) (s : States) → has_id slot s ≡ true → has_id slot (store_direct dst s) ≡ true
  unfolding store_direct
  direct_has dst s h = ground arith

  maybe_has :
      (other : ℤ) (o : Option InitState) (s : States)
      → has_id slot s ≡ true
      → has_id slot (mark_maybe other o s) ≡ true
  unfolding mark_maybe
  maybe_has other (some uninitialized) s h = ground arith
  maybe_has other _ s h = h

  field_has :
      (o : Option ℤ) (s : States) → has_id slot s ≡ true → has_id slot (store_field o s) ≡ true
  unfolding store_field
  field_has none s h = h
  field_has (some other) s h = maybe_has other (lookup_id other s) s h

  kind_has :
      (k : InstKind) (i : Instruction) (s : InitScan)
      → has_id slot s.states ≡ true
      → has_id slot (init_kind k i s).states ≡ true
  unfolding init_kind
  kind_has struct_element_addr i s h = ground arith
  kind_has store i s h = elim (Bool-cases (is_valid i.operand1)) [
    | inl e ↦ rw e (field_has _ _ (direct_has i.operand1.id s.states h))
    | inr e ↦ rw e h
  ]
  kind_has _ i s h = h

  direct_sets :
      (dst : ℤ) (s : States)
      → has_id slot s ≡ true
      → id_eq slot dst ≡ true
      → lookup_id slot (store_direct dst s) ≡ some initialized
  unfolding store_direct
  direct_sets dst s h e = ground (arith, id_eq_iff slot dst)

  kind_sets :
      (k : InstKind) (i : Instruction) (s : InitScan)
      → is_store k ≡ true
      → is_valid i.operand1 ≡ true
      → id_eq slot i.operand1.id ≡ true
      → has_id slot s.states ≡ true
      → lookup_id slot (init_kind k i s).states ≡ some initialized
  unfolding init_kind is_store
  kind_sets store i s k v e h = rw v (field_keeps _ _ (direct_sets i.operand1.id s.states h e))
  kind_sets _ i s k v e h = cc

  -- A slot with a direct store is initialized at the end.
  pub scan_sets :
      (insts : List Instruction) (s : InitScan)
      → has_id slot s.states ≡ true
      → any (stores_to slot) insts ≡ true
      → lookup_id slot (init_scan insts s).states ≡ some initialized
  unfolding init_scan
  scan_sets [] s h e = cc
  scan_sets (i ∷ rest) s h e = elim (Bool-cases (stores_to slot i)) [
    | inl t ↦
        scan_keeps rest (init_kind i.kind i s)
          (kind_sets i.kind i s (ground arith) (ground arith) (ground arith) h)
    | inr f ↦ scan_sets rest (init_kind i.kind i s) (kind_has i.kind i s h) (ground arith)
  ]
