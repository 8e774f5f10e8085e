-- ===== src/Opt/Dce/Unused.antt =====
-- Dead code elimination (toolchain/tiny_sil_optimizer/dce.cpp) against Opt/Effects: which
-- instructions act, and which values the operands of a function name.
use mathlib.Core.Path.{subst}
use tinyswift.Prelude.{
  ℕ, zero, suc, true, false, ◌||◌, List, [], ◌∷◌, ◌++◌, ℤ, pos, negsuc, String, str_eq, some,
  get_elem?, All, ◌≡◌, refl, sym, ◌∙◌, ap, arith, inl, inr, mem_id, mem_id-append, id_eq_refl,
  is_nonneg, cons_id, Bool-cases,
}
use text.Mathlib.TextEquality.{eq_iff}
use tinyswift.Sil.{
  Value, is_valid, InstKind, Instruction, BasicBlock, direct_operands, all_operands, valid_ids,
  builtin_inst, store, alloc_stack, dealloc_stack, alloc_box, apply, partial_apply, branch,
  cond_branch, switch_enum, return_inst, unreachable, destroy_value, end_borrow, debug_value,
}
use tinyswift.Opt.Effects.{acting_builtins, is_listed, kind_acts, acts, IsOperand, Names}
use tinyswift.Opt.Dce.{
  has_effectful_name, kind_has_side_effects, has_side_effects, used_by, used_ids,
}

listed_effectful :
    (name : String) (names : List String)
    → All (λ n. has_effectful_name n ≡ true) names
    → is_listed name names ≡ true
    → has_effectful_name name ≡ true
listed_effectful name [] h e = ground arith
listed_effectful name (n ∷ ns) h e = elim (Bool-cases (str_eq name n)) [
  | inl b ↦ let same = (eq_iff name n).0 b in ap has_effectful_name same ∙ h.0
  | inr b ↦ listed_effectful name ns h.1 (ground (arith, b, e))
]

acting_effectful : All (λ n. has_effectful_name n ≡ true) acting_builtins
unfolding has_effectful_name
acting_effectful = search

kind_acts-has_side_effects :
    (k : InstKind) (name : String) → kind_has_side_effects k name ≡ false → kind_acts k name ≡ false
unfolding kind_has_side_effects
kind_acts-has_side_effects builtin_inst name e =
    elim (Bool-cases (is_listed name acting_builtins)) [
      | inl b ↦
          let f = listed_effectful name acting_builtins acting_effectful b in ground (arith, e, f)
      | inr b ↦ b
    ]
kind_acts-has_side_effects store name e = cc
kind_acts-has_side_effects alloc_stack name e = cc
kind_acts-has_side_effects dealloc_stack name e = cc
kind_acts-has_side_effects alloc_box name e = cc
kind_acts-has_side_effects apply name e = cc
kind_acts-has_side_effects partial_apply name e = cc
kind_acts-has_side_effects branch name e = cc
kind_acts-has_side_effects cond_branch name e = cc
kind_acts-has_side_effects switch_enum name e = cc
kind_acts-has_side_effects return_inst name e = cc
kind_acts-has_side_effects unreachable name e = cc
kind_acts-has_side_effects destroy_value name e = cc
kind_acts-has_side_effects end_borrow name e = cc
kind_acts-has_side_effects debug_value name e = cc
kind_acts-has_side_effects _ name e = refl

-- An instruction that the pass takes for pure does not act.
pub acts-has_side_effects : (i : Instruction) → has_side_effects i ≡ false → acts i ≡ false
unfolding has_side_effects
acts-has_side_effects i e = kind_acts-has_side_effects i.kind i.builtin_name e

cons_here : (a : ℤ) (xs : List ℤ) → is_nonneg a ≡ true → mem_id a (cons_id a xs) ≡ true
cons_here (pos n) xs p = ground (arith, id_eq_refl (pos n))
cons_here (negsuc n) xs p = ground arith

cons_or :
    (b a : ℤ) (xs ys zs : List ℤ)
    → mem_id a zs ≡ (mem_id a xs || mem_id a ys)
    → mem_id a (cons_id b zs) ≡ (mem_id a (cons_id b xs) || mem_id a ys)
cons_or (pos n) a xs ys zs e = ground (arith, e)
cons_or (negsuc n) a xs ys zs e = e

cons_there : (a b : ℤ) (xs : List ℤ) → mem_id a xs ≡ true → mem_id a (cons_id b xs) ≡ true
cons_there a (pos n) xs p = ground (arith, p)
cons_there a (negsuc n) xs p = p

get-valid_ids :
    (v : Value) (vs : List Value) (k : ℕ)
    → get_elem? vs k ≡ some v
    → is_valid v ≡ true
    → mem_id v.id (valid_ids vs) ≡ true
get-valid_ids v [] k e p = absurd (cc e)
get-valid_ids v (w ∷ vs) zero e p =
    let same : w ≡ v = ground arith in
    subst (λ x. mem_id v.id (cons_id x.id (valid_ids vs)) ≡ true) (sym same)
      (cons_here v.id (valid_ids vs) p)
get-valid_ids v (w ∷ vs) (suc k) e p = cons_there v.id w.id _ (get-valid_ids v vs k e p)

valid_ids-append :
    (xs ys : List Value) (a : ℤ)
    → mem_id a (valid_ids (xs ++ ys)) ≡ (mem_id a (valid_ids xs) || mem_id a (valid_ids ys))
valid_ids-append [] ys a = refl
valid_ids-append (x ∷ xs) ys a = cons_or x.id a _ _ _ (valid_ids-append xs ys a)

IsOperand-all_operands :
    (v : Value) (i : Instruction)
    → IsOperand v i
    → is_valid v ≡ true
    → mem_id v.id (valid_ids (all_operands i)) ≡ true
unfolding all_operands
IsOperand-all_operands v i (k, w) p =
    let outer = valid_ids-append (direct_operands i) (i.operand_list ++ i.branch_args) v.id in
    let inner = valid_ids-append i.operand_list i.branch_args v.id in
    elim w [
      | inl e ↦ let m = get-valid_ids v (direct_operands i) k e p in ground (arith, outer, inner, m)
      | inr (inl e) ↦
          let m = get-valid_ids v i.operand_list k e p in ground (arith, outer, inner, m)
      | inr (inr e) ↦ let m = get-valid_ids v i.branch_args k e p in ground (arith, outer, inner, m)
    ]

get-used_by :
    (a : ℤ) (insts : List Instruction) (i : Instruction) (k : ℕ)
    → get_elem? insts k ≡ some i
    → mem_id a (valid_ids (all_operands i)) ≡ true
    → mem_id a (used_by insts) ≡ true
unfolding used_by
get-used_by a [] i k e m = absurd (cc e)
get-used_by a (j ∷ rest) i zero e m =
    let same : j ≡ i = ground arith in
    let m' = subst (λ x. mem_id a (valid_ids (all_operands x)) ≡ true) (sym same) m in
    ground (arith, m', mem_id-append a (valid_ids (all_operands j)) (used_by rest))
get-used_by a (j ∷ rest) i (suc k) e m =
    ground (
      arith,
      get-used_by a rest i k e m,
      mem_id-append a (valid_ids (all_operands j)) (used_by rest),
    )

get-used_ids :
    (a : ℤ) (blocks : List BasicBlock) (bb : BasicBlock) (k : ℕ)
    → get_elem? blocks k ≡ some bb
    → mem_id a (used_by bb.insts) ≡ true
    → mem_id a (used_ids blocks) ≡ true
unfolding used_ids
get-used_ids a [] bb k e m = absurd (cc e)
get-used_ids a (b ∷ rest) bb zero e m =
    let same : b ≡ bb = ground arith in
    let m' = subst (λ x. mem_id a (used_by x.insts) ≡ true) (sym same) m in
    ground (arith, m', mem_id-append a (used_by b.insts) (used_ids rest))
get-used_ids a (b ∷ rest) bb (suc k) e m =
    ground (arith, get-used_ids a rest bb k e m, mem_id-append a (used_by b.insts) (used_ids rest))

-- Every identifier that an operand of the function names is collected.
pub Names-used_ids :
    (blocks : List BasicBlock) (a : ℤ) → Names blocks a → mem_id a (used_ids blocks) ≡ true
Names-used_ids blocks a (bi, ii, bb, i, v, at_block, at_inst, operand, valid, same) =
    get-used_ids a blocks bb bi at_block (
      get-used_by a bb.insts i ii at_inst (
        subst (λ x. mem_id x (valid_ids (all_operands i)) ≡ true) same
          (IsOperand-all_operands v i operand valid)))

-- What makes an instruction dead: it has a result, it does not act, and no operand of the function
-- names its result.
pub record IsDead (blocks : List BasicBlock) (i : Instruction) : Type 0 where
  pub defines : is_valid i.result ≡ true
  pub quiet : acts i ≡ false
  pub unused : ¬ Names blocks i.result.id
