-- ===== src/Opt/MemToReg/Replace.antt =====
-- Replacing the promoted operands of an instruction: toolchain/tiny_sil_optimizer/mem2reg.cpp.
use tinyswift.Prelude.{
  ℕ, zero, suc, ltb, Bool, true, false, ◌&&◌, List, [], ◌∷◌, ℤ, some, if◌then◌else◌, mem_id,
  lookup_id, ◌≡◌, refl, ◌∙◌, ap, arith, map, take, Bool-cases, Option-cases, inl, inr, All, lt→ltb,
}
use mathlib.Core.List.{map-append}
use tinyswift.Sil.{Value, is_valid, Instruction, is_load, is_store, all_operands}
use tinyswift.Opt.Interp.{shape, arg, args}
use tinyswift.Opt.MemToReg.{replace_value, replace_operands}
use tinyswift.Opt.MemToReg.Meaning.{
  Semantics, is_slot_load, is_slot_store, Machine, step_other, step,
}

-- What the scan promises of every replacement, whatever the values are.
pub record IsReplacement (allocs : List ℤ) (p : List (ℤ × Value)) : Type 0 where
  pub from_load : (k : ℤ) (w : Value) → lookup_id k p ≡ some w → mem_id k allocs ≡ false
  pub valid : (k : ℤ) (w : Value) → lookup_id k p ≡ some w → is_valid w ≡ true
  pub to_value : (k : ℤ) (w : Value) → lookup_id k p ≡ some w → mem_id w.id allocs ≡ false

module _ (allocs : List ℤ) (p : List (ℤ × Value)) (ok : IsReplacement allocs p) where
  -- At an operand that is defined before, the replacement has the same value.
  replace-arg :
      {Val : Type 0} (env : ℤ → Val) (v : Value)
      → (is_valid v ≡ true → (w : Value) → lookup_id v.id p ≡ some w → env v.id ≡ env w.id)
      → arg env (replace_value p v) ≡ arg env v
  unfolding replace_value
  replace-arg env v same = elim (Bool-cases (is_valid v)) [
    | inl valid ↦ elim (Option-cases (lookup_id v.id p)) [
      | inl e ↦ ground arith
      | inr e ↦ (let s = same valid e.0 e.1 in let w = ok.valid v.id e.0 e.1 in ground arith)
    ]
    | inr invalid ↦ ground arith
  ]

  replace-args :
      {Val : Type 0} (env : ℤ → Val) (vs : List Value)
      → All
          (λ v. is_valid v ≡ true → (w : Value) → lookup_id v.id p ≡ some w → env v.id ≡ env w.id)
          vs
      → map (arg env) (map (replace_value p) vs) ≡ map (arg env) vs
  replace-args env [] h = refl
  replace-args env (v ∷ vs) h = rw (replace-arg env v h.0, replace-args env vs h.1)

  replace-slot :
      (v : Value)
      → (is_valid (replace_value p v) && mem_id (replace_value p v).id allocs)
        ≡ (is_valid v && mem_id v.id allocs)
  unfolding replace_value
  replace-slot v = elim (Option-cases (lookup_id v.id p)) [
    | inl e ↦ ground arith
    | inr e ↦
        (let f = ok.from_load v.id e.0 e.1 in
          let w = ok.valid v.id e.0 e.1 in let t = ok.to_value v.id e.0 e.1 in ground arith)
  ]

  replace-slot_id : (v : Value) → mem_id v.id allocs ≡ true → replace_value p v ≡ v
  unfolding replace_value
  replace-slot_id v m = elim (Option-cases (lookup_id v.id p)) [
    | inl e ↦ ground arith
    | inr e ↦ absurd (ground (arith, ok.from_load v.id e.0 e.1))
  ]

direct-replace :
    (r : Value → Value) (n : ℕ) (a b c : Value)
    → take n (
        (if ltb 0 n then r a else a)
        ∷ (if ltb 1 n then r b else b)
        ∷ (if ltb 2 n then r c else c)
        ∷ [])
      ≡ map r (take n (a ∷ b ∷ c ∷ []))
direct-replace r zero a b c = refl
direct-replace r (suc zero) a b c = ground arith
direct-replace r (suc (suc zero)) a b c = ground arith
direct-replace r (suc (suc (suc zero))) a b c = ground arith
direct-replace r (suc (suc (suc (suc n)))) a b c =
    let k = suc (suc (suc (suc n))) in
    rw (lt→ltb 0 k (omega arith), lt→ltb 1 k (omega arith), lt→ltb 2 k (omega arith)) refl

operands-replace :
    (p : List (ℤ × Value)) (i : Instruction)
    → all_operands (replace_operands p i) ≡ map (replace_value p) (all_operands i)
unfolding all_operands replace_operands
operands-replace p i =
    let d = direct-replace (replace_value p) i.num_operands i.operand0 i.operand1 i.operand2 in
    rw d (simp map-append)

module _ (sem : Semantics) (allocs : List ℤ) (p : List (ℤ × Value))
    (ok : IsReplacement allocs p) where
  -- The operands of an instruction that are defined before it have their values.
  abbrev pub Settled : Machine sem allocs → List Value → Type 0
  Settled m vs =
      All
        (λ v. is_valid v ≡ true → (w : Value) → lookup_id v.id p ≡ some w → m.env v.id ≡ m.env w.id)
        vs

  value-replace :
      (m : Machine sem allocs) (v : Value)
      → (is_valid v ≡ true → (w : Value) → lookup_id v.id p ≡ some w → m.env v.id ≡ m.env w.id)
      → m.env (replace_value p v).id ≡ m.env v.id
  unfolding replace_value
  value-replace m v h = elim (Bool-cases (is_valid v)) [
    | inl valid ↦ elim (Option-cases (lookup_id v.id p)) [
      | inl e ↦ ground arith
      | inr e ↦ (let same = h valid e.0 e.1 in ground arith)
    ]
    | inr invalid ↦ ground arith
  ]

  slot-if :
      (b : Bool) (v : Value)
      → (is_valid (if b then replace_value p v else v)
          && mem_id (if b then replace_value p v else v).id allocs)
        ≡ (is_valid v && mem_id v.id allocs)
  slot-if true v = replace-slot allocs p ok v
  slot-if false v = refl

  slot_id-if :
      (b : Bool) (v : Value) → mem_id v.id allocs ≡ true → (if b then replace_value p v else v) ≡ v
  slot_id-if true v h = replace-slot_id allocs p ok v h
  slot_id-if false v h = refl

  value-if :
      (m : Machine sem allocs) (b : Bool) (v : Value)
      → (is_valid v ≡ true → (w : Value) → lookup_id v.id p ≡ some w → m.env v.id ≡ m.env w.id)
      → m.env (if b then replace_value p v else v).id ≡ m.env v.id
  value-if m true v h = value-replace m v h
  value-if m false v h = refl

  shape-replace : (i : Instruction) → shape (replace_operands p i) ≡ shape i
  unfolding shape replace_operands
  shape-replace i = refl

  result-replace : (i : Instruction) → (replace_operands p i).result ≡ i.result
  unfolding replace_operands
  result-replace i = refl

  args-replace :
      (i : Instruction) (m : Machine sem allocs)
      → Settled m (all_operands i)
      → args m.env (replace_operands p i) ≡ args m.env i
  unfolding args
  args-replace i m h =
      ap (map (arg m.env)) (operands-replace p i)
      ∙ replace-args allocs p ok m.env (all_operands i) h

  slot_load-replace :
      (i : Instruction) → is_slot_load allocs (replace_operands p i) ≡ is_slot_load allocs i
  unfolding is_slot_load replace_operands
  slot_load-replace i = ap (λ b. is_load i.kind && b) (slot-if (ltb 0 i.num_operands) i.operand0)

  slot_store-replace :
      (i : Instruction) → is_slot_store allocs (replace_operands p i) ≡ is_slot_store allocs i
  unfolding is_slot_store replace_operands
  slot_store-replace i = ap (λ b. is_store i.kind && b) (slot-if (ltb 1 i.num_operands) i.operand1)

  load-replace :
      (i : Instruction)
      → is_slot_load allocs i ≡ true
      → (replace_operands p i).operand0 ≡ i.operand0
  unfolding is_slot_load replace_operands
  load-replace i h = slot_id-if (ltb 0 i.num_operands) i.operand0 (ground arith)

  store-replace :
      (i : Instruction)
      → is_slot_store allocs i ≡ true
      → (replace_operands p i).operand1 ≡ i.operand1
  unfolding is_slot_store replace_operands
  store-replace i h = slot_id-if (ltb 1 i.num_operands) i.operand1 (ground arith)

  source-replace :
      (i : Instruction) (m : Machine sem allocs)
      → Settled m (i.operand0 ∷ [])
      → m.env (replace_operands p i).operand0.id ≡ m.env i.operand0.id
  unfolding replace_operands
  source-replace i m h = value-if m (ltb 0 i.num_operands) i.operand0 h.0

  pub step-replace :
      (i : Instruction) (m : Machine sem allocs)
      → Settled m (i.operand0 ∷ all_operands i)
      → step sem allocs (replace_operands p i) m ≡ step sem allocs i m
  unfolding step step_other
  step-replace i m h = elim (Bool-cases (is_slot_load allocs i)) [
    | inl e ↦ rw (slot_load-replace, e, load-replace i e, result-replace)
    | inr e ↦ elim (Bool-cases (is_slot_store allocs i)) [
      | inl t ↦ rw (
        slot_load-replace,
        e,
        slot_store-replace,
        t,
        store-replace i t,
        source-replace i m (h.0, tt),
      )
      | inr t ↦ rw (
        slot_load-replace,
        e,
        slot_store-replace,
        t,
        args-replace i m h.1,
        shape-replace,
        result-replace,
      )
    ]
  ]
