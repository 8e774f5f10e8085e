-- ===== src/Opt/MemToReg/Steps.antt =====
-- Each step of a block keeps the invariant of the forward scan.
use tinyswift.Prelude.{
  true, false, not, ◌&&◌, List, [], ◌∷◌, ℤ, Option, none, some, id_eq, id_eq_iff, mem_id, lookup_id,
  cons_id, ◌≡◌, refl, sym, ◌∙◌, arith, Bool-cases, Option-cases, inl, inr,
}
use mathlib.Core.Path.{subst}
use tinyswift.Sil.{Value, is_valid, InstKind, Instruction, is_load, is_store, apply, load, store}
use tinyswift.Opt.Interp.{bind_result}
use tinyswift.Opt.MemToReg.{ScanState, escape_args, scan_store, scan_found, scan_load, scan_kind}
use tinyswift.Opt.MemToReg.Meaning.{escaped_after}
use tinyswift.Opt.MemToReg.Invariant.{IsPromoted, Inv, bind-Inv}

-- An address that has not escaped after the arguments had not escaped before them.
escape_args-grows :
    (allocs : List ℤ) (vs : List Value) (escaped : List ℤ) (a : ℤ)
    → mem_id a (escape_args allocs vs escaped) ≡ false
    → mem_id a escaped ≡ false
unfolding escape_args
escape_args-grows allocs [] escaped a h = h
escape_args-grows allocs (v ∷ vs) escaped a h =
    let before = escape_args-grows allocs vs _ a h in ground arith

pub escaped_after-grows :
    (allocs : List ℤ) (k : InstKind) (i : Instruction) (escaped : List ℤ) (a : ℤ)
    → mem_id a (escaped_after allocs k i escaped) ≡ false
    → mem_id a escaped ≡ false
unfolding escaped_after
escaped_after-grows allocs apply i escaped a h = escape_args-grows allocs i.operand_list escaped a h
escaped_after-grows allocs _ i escaped a h = h

pub kind-load :
    (allocs : List ℤ) (k : InstKind) (i : Instruction) (s : ScanState)
    → is_load k ≡ true
    → scan_kind allocs k i s ≡ scan_load i.operand0 i.result s
unfolding scan_kind is_load
kind-load allocs load i s h = refl
kind-load allocs _ i s h = cc

pub kind-store :
    (allocs : List ℤ) (k : InstKind) (i : Instruction) (s : ScanState)
    → is_store k ≡ true
    → scan_kind allocs k i s ≡ scan_store allocs i.operand0 i.operand1 s
unfolding scan_kind is_store
kind-store allocs store i s h = refl
kind-store allocs _ i s h = cc

pub scan_kind-escaped :
    (allocs : List ℤ) (k : InstKind) (i : Instruction) (s : ScanState)
    → (scan_kind allocs k i s).escaped ≡ escaped_after allocs k i s.escaped
unfolding scan_kind escaped_after scan_store scan_load scan_found
scan_kind-escaped allocs apply i s = refl
scan_kind-escaped allocs store i s = ground arith
scan_kind-escaped allocs load i s = ground arith
scan_kind-escaped allocs _ i s = refl

module _ {Val : Type 0} (allocs : List ℤ) where
  -- A load from a slot: the scan may promote it to the value that the slot holds.
  found-Inv :
      (o : Option Value) (later : List ℤ) (addr result : Value) (s : ScanState)
      (env slots : ℤ → Val)
      → lookup_id addr.id s.current_value ≡ o
      → mem_id result.id allocs ≡ false
      → (is_valid result ≡ true → mem_id result.id later ≡ false)
      → (is_valid result ≡ true → env result.id ≡ slots addr.id)
      → Inv allocs later s env slots
      → Inv allocs later (scan_found o addr result s) env slots
  unfolding scan_found
  found-Inv none later addr result s env slots e m once bound inv = inv
  found-Inv (some v) later addr result s env slots e m once bound inv =
      let t = inv.current addr.id v e in
      elim (Bool-cases (not (mem_id addr.id s.escaped) && is_valid result)) [
        | inl c ↦ rw c (record {
          current = inv.current;
          promoted = λ k w f. elim (Bool-cases (id_eq k result.id)) [
            | inl same ↦
                (let p : v ≡ w = ground arith in
                  let q = (id_eq_iff k result.id).0 same in
                  let new : IsPromoted allocs later env result.id v = record {
                    is_load_result = m;
                    valid = t.valid;
                    is_value = t.is_value;
                    known = once (ground arith);
                    settled = t.settled;
                    same = bound (ground arith) ∙ t.holds (ground arith);
                  } in
                  subst (IsPromoted allocs later env k) p
                    (subst (λ z. IsPromoted allocs later env z v) (sym q) new))
            | inr other ↦ inv.promoted k w (ground arith)
          ];
        })
        | inr c ↦ rw c inv
      ]

  pub load-Inv :
      (later : List ℤ) (addr result : Value) (s : ScanState) (env slots : ℤ → Val)
      → mem_id result.id allocs ≡ false
      → (is_valid result ≡ true → mem_id result.id later ≡ false)
      → Inv allocs (cons_id result.id later) s env slots
      → Inv allocs later (scan_load addr result s) (bind_result result (slots addr.id) env) slots
  unfolding scan_load
  load-Inv later addr result s env slots m once inv =
      let bound =
        bind-Inv allocs result (slots addr.id) later s.escaped s env slots slots (λ a n. n)
          (λ a n o. refl) inv in
      elim (Bool-cases (is_valid addr)) [
        | inl e ↦ rw e (
            found-Inv _ later addr result s _ slots refl m once
              (λ v. unfold bind_result in ground (arith, id_eq_iff result.id result.id)) bound)
        | inr e ↦ rw e bound
      ]

  -- Off the slots the scan changes nothing but the set of escaped addresses.
  pub kind-other :
      (k : InstKind) (i : Instruction) (s : ScanState) (later : List ℤ) (env slots : ℤ → Val)
      → (is_load k && (is_valid i.operand0 && mem_id i.operand0.id allocs)) ≡ false
      → (is_store k && (is_valid i.operand1 && mem_id i.operand1.id allocs)) ≡ false
      → Inv allocs later s env slots
      → scan_kind allocs k i s ≡ record s { escaped = escaped_after allocs k i s.escaped }
  unfolding scan_kind escaped_after is_load is_store scan_store scan_load scan_found
  kind-other apply i s later env slots l t inv = refl
  kind-other store i s later env slots l t inv = ground arith
  kind-other load i s later env slots l t inv =
      elim (Option-cases (lookup_id i.operand0.id s.current_value)) [
        | inl e ↦ ground arith
        | inr e ↦ (let m = (inv.current i.operand0.id e.0 e.1).is_slot in ground arith)
      ]
  kind-other _ i s later env slots l t inv = refl
