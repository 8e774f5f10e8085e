-- ===== src/Comptime/Lower/Represents.antt =====
-- What the instructions of `ValueToSemIR` in toolchain/check/comptime_eval.cpp say of the value.
use mathlib.Core.List.{append_assoc, append-nil}
use tinyswift.Prelude.{
  ℕ, zero, suc, List, [], ◌∷◌, ◌++◌, some, pos, length, get_elem?, ◌≡◌, refl, sym, ◌∙◌, ap, arith,
}
use tinyswift.Comptime.Value.{
  Value, none_value, int, bool, float, string, array, struct, Values, empty, item, Fields,
  no_fields, field, Host,
}
use tinyswift.Comptime.Lower.{
  SemType, builtin, Inst, int_inst, bool_literal, float_inst, string_literal, array_literal_init,
  struct_init, add_inst, struct_type_of, value_to_semir, values_to_semir, fields_to_semir,
}

-- The instruction at a position holds a value: a literal the value itself, an array or a struct the
-- positions of its parts in order. A value that is none is held as the number 0.
abbrev mutual
  pub Represents : Host → List Inst → ℕ → Value → Type 0
  Represents h is e (int a) = get_elem? is e ≡ some (int_inst (builtin "Int") a)
  Represents h is e (bool b) = get_elem? is e ≡ some (bool_literal (builtin "Bool") b)
  Represents h is e (float d) = get_elem? is e ≡ some (float_inst (builtin "Double") d)
  Represents h is e (string t) = get_elem? is e ≡ some (string_literal (builtin "String") t)
  Represents h is e (array vs) =
      (t : SemType) × (es : List ℕ) × (get_elem? is e ≡ some (array_literal_init t es))
      × RepresentsAll h is es vs
  Represents h is e (struct x fs) =
      (es : List ℕ) × (get_elem? is e ≡ some (struct_init (struct_type_of x (h.lookup_name x)) es))
      × RepresentsFields h is es fs
  Represents h is e none_value = get_elem? is e ≡ some (int_inst (builtin "Int") (pos 0))

  pub RepresentsAll : Host → List Inst → List ℕ → Values → Type 0
  RepresentsAll h is [] empty = Unit {0}
  RepresentsAll h is (e ∷ es) (item v vs) = Represents h is e v × RepresentsAll h is es vs
  RepresentsAll h is [] (item v vs) = ⊥
  RepresentsAll h is (e ∷ es) empty = ⊥

  pub RepresentsFields : Host → List Inst → List ℕ → Fields → Type 0
  RepresentsFields h is [] no_fields = Unit {0}
  RepresentsFields h is (e ∷ es) (field x v fs) = Represents h is e v × RepresentsFields h is es fs
  RepresentsFields h is [] (field x v fs) = ⊥
  RepresentsFields h is (e ∷ es) no_fields = ⊥

get_elem?-append :
    (is ms : List Inst) (e : ℕ) {i : Inst}
    → get_elem? is e ≡ some i
    → get_elem? (is ++ ms) e ≡ some i
get_elem?-append [] ms e h = ground arith
get_elem?-append (j ∷ is) ms zero h = h
get_elem?-append (j ∷ is) ms (suc e) h = get_elem?-append is ms e h

get_elem?-last : (is : List Inst) (i : Inst) → get_elem? (is ++ i ∷ []) (length is) ≡ some i
get_elem?-last [] i = refl
get_elem?-last (j ∷ is) i = get_elem?-last is i

mutual
  Represents-append :
      (h : Host) (is ms : List Inst) (e : ℕ) (v : Value)
      → Represents h is e v
      → Represents h (is ++ ms) e v
  Represents-append h is ms e (int a) r = get_elem?-append is ms e r
  Represents-append h is ms e (bool b) r = get_elem?-append is ms e r
  Represents-append h is ms e (float d) r = get_elem?-append is ms e r
  Represents-append h is ms e (string t) r = get_elem?-append is ms e r
  Represents-append h is ms e (array vs) (t, es, g, r) =
      (t, es, get_elem?-append is ms e g, RepresentsAll-append h is ms es vs r)
  Represents-append h is ms e (struct x fs) (es, g, r) =
      (es, get_elem?-append is ms e g, RepresentsFields-append h is ms es fs r)
  Represents-append h is ms e none_value r = get_elem?-append is ms e r

  RepresentsAll-append :
      (h : Host) (is ms : List Inst) (es : List ℕ) (vs : Values)
      → RepresentsAll h is es vs
      → RepresentsAll h (is ++ ms) es vs
  RepresentsAll-append h is ms [] empty r = tt
  RepresentsAll-append h is ms (e ∷ es) (item v vs) r =
      (Represents-append h is ms e v r.0, RepresentsAll-append h is ms es vs r.1)
  RepresentsAll-append h is ms [] (item v vs) r = absurd r
  RepresentsAll-append h is ms (e ∷ es) empty r = absurd r

  RepresentsFields-append :
      (h : Host) (is ms : List Inst) (es : List ℕ) (fs : Fields)
      → RepresentsFields h is es fs
      → RepresentsFields h (is ++ ms) es fs
  RepresentsFields-append h is ms [] no_fields r = tt
  RepresentsFields-append h is ms (e ∷ es) (field x v fs) r =
      (Represents-append h is ms e v r.0, RepresentsFields-append h is ms es fs r.1)
  RepresentsFields-append h is ms [] (field x v fs) r = absurd r
  RepresentsFields-append h is ms (e ∷ es) no_fields r = absurd r

-- The block is only extended.
abbrev pub Extends : List Inst → List Inst → Type 0
Extends is js = (ms : List Inst) × (js ≡ is ++ ms)

Extends-trans : (is js ks : List Inst) → Extends is js → Extends js ks → Extends is ks
Extends-trans is js ks (ms, e) (ns, f) = (ms ++ ns, f ∙ ap (λ l. l ++ ns) e ∙ append_assoc is ms ns)

Represents-Extends :
    (h : Host) (is js : List Inst) (e : ℕ) (v : Value)
    → Extends is js
    → Represents h is e v
    → Represents h js e v
Represents-Extends h is js e v (ms, x) r = rw x (Represents-append h is ms e v r)

mutual
  unfolding value_to_semir values_to_semir fields_to_semir add_inst

  value_lem :
      (h : Host) (v : Value) (is : List Inst)
      → Represents h (value_to_semir h v is).1 (value_to_semir h v is).0 v
        × Extends is (value_to_semir h v is).1
  value_lem h (int a) is = (get_elem?-last is _, (_, refl))
  value_lem h (bool b) is = (get_elem?-last is _, (_, refl))
  value_lem h (float d) is = (get_elem?-last is _, (_, refl))
  value_lem h (string t) is = (get_elem?-last is _, (_, refl))
  value_lem h (array vs) is =
      let r = values_lem h vs is in
      let js = (values_to_semir h vs is).1 in
      (
        (_, _, get_elem?-last js _, RepresentsAll-append h js _ _ vs r.0),
        Extends-trans is js _ r.1 (_, refl),
      )
  value_lem h (struct x fs) is =
      let r = fields_lem h fs is in
      let js = (fields_to_semir h fs is).1 in
      (
        (_, get_elem?-last js _, RepresentsFields-append h js _ _ fs r.0),
        Extends-trans is js _ r.1 (_, refl),
      )
  value_lem h none_value is = (get_elem?-last is _, (_, refl))

  values_lem :
      (h : Host) (vs : Values) (is : List Inst)
      → RepresentsAll h (values_to_semir h vs is).1 (values_to_semir h vs is).0 vs
        × Extends is (values_to_semir h vs is).1
  values_lem h empty is = (tt, ([], sym (append-nil is)))
  values_lem h (item v vs) is =
      let r = value_lem h v is in
      let js = (value_to_semir h v is).1 in
      let q = values_lem h vs js in
      ((Represents-Extends h js _ _ v q.1 r.0, q.0), Extends-trans is js _ r.1 q.1)

  fields_lem :
      (h : Host) (fs : Fields) (is : List Inst)
      → RepresentsFields h (fields_to_semir h fs is).1 (fields_to_semir h fs is).0 fs
        × Extends is (fields_to_semir h fs is).1
  fields_lem h no_fields is = (tt, ([], sym (append-nil is)))
  fields_lem h (field x v fs) is =
      let r = value_lem h v is in
      let js = (value_to_semir h v is).1 in
      let q = fields_lem h fs js in
      ((Represents-Extends h js _ _ v q.1 r.0, q.0), Extends-trans is js _ r.1 q.1)

-- The instructions that a value is turned into hold it: the one returned a literal of the value, or
-- an array or a struct whose parts, nested to any depth, are held by the instructions that it names
-- in order. The instructions that were there before stay.
pub value_to_semir-Represents :
    (h : Host) (v : Value) (is : List Inst)
    → Represents h (value_to_semir h v is).1 (value_to_semir h v is).0 v
      × Extends is (value_to_semir h v is).1
value_to_semir-Represents h v is = value_lem h v is
