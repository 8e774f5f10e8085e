-- ===== src/Comptime/Expr.antt =====
-- `EvalExpr`, `EvalMemberAccessExpr` and `EvalSubscriptExpr` of toolchain/check/comptime_eval.cpp,
-- but for calls. The evaluator's own recursive calls go through an argument, `Evaluator`.
use Prim.Native.Char.{code}
use Prim.Native.String.{len}
use tinyswift.Prelude.{
  ℕ, ◌^◌, Bool, Option, none, some, List, [], ◌∷◌, String, ℤ, pos, negsuc, ltb, ◌==◌, if◌then◌else◌,
  str_eq,
}
use tinyswift.Comptime.Tree.{
  Node, node, subscript_expr_start, text, children, is_expr, first_child, last_child,
  filter_children, is_member_name,
}
use tinyswift.Comptime.Value.{
  Value, int, bool, string, array, struct, Values, Host, count, element, find_field, to_items,
  to_bool,
}
use tinyswift.Comptime.Int64.{of_bits}
use tinyswift.Comptime.Operators.{
  Computed, value, fault, undefined_result, apply_prefix, apply_infix,
}
use tinyswift.Comptime.State.{
  M, pure, ◌>>=◌, stuck, read, on_some, report, get_var, unsupported, undefined_variable,
  no_such_field, bad_member, not_an_array, index_out_of_bounds,
}

-- `EvalExpr` and `EvalStmt`.
pub record Evaluator : Type 0 where
  pub expr : Node → M (Option Value)
  pub stmt : Node → M Bool

abbrev pub nothing : M (Option Value)
nothing = pure none

-- `auto v = EvalExpr(n); if (!v.has_value()) return std::nullopt;`
unfoldable pub eval_then : Evaluator → Node → (Value → M (Option Value)) → M (Option Value)
eval_then ev n k = ev.expr n >>= on_some nothing k

unfoldable pub settle : Computed → M (Option Value)
settle (value v) = pure (some v)
settle (fault e) = report e
settle undefined_result = stuck

-- Literals. `getZExtValue` is undefined on a number of more than 64 bits; a text that is not read
-- as a number counts as 0.
unfoldable pub int_value : Option ℕ → M (Option Value)
int_value none = pure (some (int (pos 0)))
int_value (some n) = if ltb n (2 ^ 64) then pure (some (int (of_bits n))) else stuck

-- A text without its last byte, where that is a quote.
unfoldable pub drop_quote : String → Option String
drop_quote String.[] = none
drop_quote (String.◌∷◌ c s) = elim s [
  | String.[] ↦ if code c == b'"' then some "" else none
  | String.◌∷◌ _ _ ↦ elim (drop_quote s) [ none ↦ none | some t ↦ some (String.◌∷◌ c t) ]
]

unfoldable pub strip_quotes : String → String
unfolding drop_quote
strip_quotes String.[] = String.[]
strip_quotes (String.◌∷◌ c s) =
    if code c == b'"'
    then elim (drop_quote s) [ some t ↦ t | none ↦ String.◌∷◌ c s ]
    else String.◌∷◌ c s

unfoldable pub eval_identifier : String → M (Option Value)
eval_identifier x =
    read (get_var x) >>= on_some (report (unsupported (undefined_variable x))) (λ v. pure (some v))

-- The value of the first child that is an expression: ParenExpr, ComptimeExpr.
unfoldable pub eval_inner : Evaluator → List Node → M (Option Value)
eval_inner ev ns = on_some nothing ev.expr (first_child is_expr ns)

unfoldable pub eval_prefix : Host → Evaluator → String → List Node → M (Option Value)
eval_prefix h ev op ns =
    on_some nothing (λ n. eval_then ev n λ v. settle (apply_prefix h op v)) (first_child is_expr ns)

-- The first expression among the children, and the last of those after it.
unfoldable pub after_first : List Node → List Node
after_first [] = []
after_first (n ∷ ns) = if is_expr n then ns else after_first ns

unfoldable pub eval_infix : Host → Evaluator → String → List Node → M (Option Value)
eval_infix h ev op ns =
    on_some nothing
      (λ l.
        on_some nothing
          (λ r. do
            a ← ev.expr l
            b ← ev.expr r
            on_some nothing (λ x. on_some nothing (λ y. settle (apply_infix h op x y)) b) a)
          (last_child is_expr (after_first ns)))
      (first_child is_expr ns)

unfoldable pub eval_ternary : Evaluator → List Node → M (Option Value)
eval_ternary ev (c ∷ t ∷ e ∷ _) = eval_then ev c λ v. if to_bool v then ev.expr t else ev.expr e
eval_ternary ev _ = nothing

-- The values of a list of expressions, or nothing at the first that has none.
unfoldable pub eval_list :
    {A : Type 0} → Evaluator → List Node → M (Option A) → (List Value → M (Option A)) → M (Option A)
eval_list ev [] failed k = k []
eval_list ev (n ∷ ns) failed k =
    ev.expr n >>= on_some failed λ v. eval_list ev ns failed λ vs. k (v ∷ vs)

-- ArrayExprStart and PatternListComma are no expressions.
unfoldable pub eval_array : Evaluator → List Node → M (Option Value)
eval_array ev ns =
    eval_list ev (filter_children is_expr ns) nothing λ vs. pure (some (array (to_items vs)))

-- The base is the last child that is an expression. Without one the source takes the node's own
-- token for the name and looks for a base again, which fails.
unfoldable pub member_name : List Node → String
member_name ns = elim (last_child is_member_name ns) [ none ↦ "" | some n ↦ text n ]

unfoldable pub member_of : String → Value → M (Option Value)
member_of x (array vs) =
    if str_eq x "count"
    then pure (some (int (pos (count vs))))
    else report (unsupported (bad_member x))
member_of x (string s) =
    if str_eq x "count"
    then pure (some (int (pos (len s))))
    else if str_eq x "isEmpty"
    then pure (some (bool (len s == 0)))
    else report (unsupported (bad_member x))
member_of x (struct _ fs) =
    on_some (report (unsupported (no_such_field x))) (λ v. pure (some v)) (find_field x fs)
member_of x _ = report (unsupported (bad_member x))

unfoldable pub eval_member : Evaluator → List Node → M (Option Value)
eval_member ev ns =
    on_some nothing (λ b. eval_then ev b (member_of (member_name ns))) (last_child is_expr ns)

-- The last expression inside a SubscriptExprStart child.
unfoldable pub subscript_base : List Node → Option Node
subscript_base [] = none
subscript_base (node subscript_expr_start t ns ∷ rest) = elim (subscript_base rest) [
  | some b ↦ some b
  | none ↦ last_child is_expr (children (node subscript_expr_start t ns))
]
subscript_base (_ ∷ rest) = subscript_base rest

unfoldable pub at_index : Values → ℤ → M (Option Value)
at_index vs (pos i) =
    on_some (report (unsupported index_out_of_bounds)) (λ v. pure (some v)) (element vs i)
at_index vs (negsuc _) = report (unsupported index_out_of_bounds)

unfoldable pub subscript_of : Value → Value → M (Option Value)
subscript_of (array vs) (int i) = at_index vs i
subscript_of _ _ = report (unsupported not_an_array)

unfoldable pub eval_subscript : Evaluator → List Node → M (Option Value)
eval_subscript ev ns =
    on_some nothing
      (λ b.
        on_some nothing
          (λ i. do
            v ← ev.expr b
            w ← ev.expr i
            on_some nothing (λ x. on_some nothing (λ y. subscript_of x y) w) v)
          (last_child is_expr ns))
      (subscript_base ns)
