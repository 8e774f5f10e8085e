-- ===== src/Opt/MemToReg/Scan.antt =====
-- Facts about the forward scan of toolchain/tiny_sil_optimizer/mem2reg.cpp.
use tinyswift.Prelude.{
  true, List, [], ◌∷◌, ℤ, ◌≡◌, refl, arith, All, lookup_id, Option, none, some, Bool-cases, inl,
  inr,
}
use tinyswift.Sil.{Value, is_valid, Instruction, InstKind, apply, store, load}
use tinyswift.Opt.MemToReg.{ScanState, scan, scan_kind, scan_store, scan_load, scan_found}

abbrev pub AllValid : List (ℤ × Value) → Type 0
AllValid m = All (λ (e : ℤ × Value). is_valid e.1 ≡ true) m

pub lookup_id-AllValid :
    (a : ℤ) (m : List (ℤ × Value)) (v : Value)
    → AllValid m
    → lookup_id a m ≡ some v
    → is_valid v ≡ true
lookup_id-AllValid a [] v h e = cc
lookup_id-AllValid a ((b, w) ∷ m) v h e = ground (arith, lookup_id-AllValid a m v)

pub record StoresValid (s : ScanState) : Type 0 where
  pub current : AllValid s.current_value
  pub promoted : AllValid s.promoted_values

found-StoresValid :
    (o : Option Value) (addr result : Value) (s : ScanState)
    → ((v : Value) → o ≡ some v → is_valid v ≡ true)
    → StoresValid s
    → StoresValid (scan_found o addr result s)
unfolding scan_found
found-StoresValid none addr result s f h = h
found-StoresValid (some v) addr result s f h =
    let valid = f v refl in
    record { current = ground (arith, h.current); promoted = ground (arith, h.promoted) }

scan_load-StoresValid :
    (addr result : Value) (s : ScanState) → StoresValid s → StoresValid (scan_load addr result s)
unfolding scan_load
scan_load-StoresValid addr result s h = elim (Bool-cases (is_valid addr)) [
  | inl e ↦ rw e (
      found-StoresValid (lookup_id addr.id s.current_value) addr result s
        (λ v. lookup_id-AllValid addr.id s.current_value v h.current) h)
  | inr e ↦ rw e h
]

scan_kind-StoresValid :
    (allocs : List ℤ) (k : InstKind) (i : Instruction) (s : ScanState)
    → StoresValid s
    → StoresValid (scan_kind allocs k i s)
unfolding scan_kind scan_store
scan_kind-StoresValid allocs apply i s h = record { current = h.current; promoted = h.promoted }
scan_kind-StoresValid allocs store i s h = record {
  current = ground (arith, h.current);
  promoted = ground (arith, h.promoted);
}
scan_kind-StoresValid allocs load i s h = scan_load-StoresValid i.operand0 i.result s h
scan_kind-StoresValid allocs _ i s h = h

pub scan-StoresValid :
    (allocs : List ℤ) (insts : List Instruction) (s : ScanState)
    → StoresValid s
    → StoresValid (scan allocs insts s)
unfolding scan
scan-StoresValid allocs [] s h = h
scan-StoresValid allocs (i ∷ rest) s h =
    scan-StoresValid allocs rest (scan_kind allocs i.kind i s)
      (scan_kind-StoresValid allocs i.kind i s h)
