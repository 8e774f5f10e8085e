-- ===== src/Comptime/Operators.antt =====
-- The operators of `EvalExpr` in toolchain/check/comptime_eval.cpp on values: the prefix, string,
-- `double`, integer and logical operators, in the order in which the source tries them.
use Prim.Native.String.{◌++◌ as append_text}
use tinyswift.Prelude.{
  ℕ, Bool, not, ◌&&◌, ◌||◌, Option, none, some, String, ℤ, pos, id_eq, ltb_ℤ, leb_ℤ, if◌then◌else◌,
  str_eq,
}
use tinyswift.Comptime.Value.{
  Value, int, bool, float, string, Host, is_numeric, is_float, to_int64, to_double, to_bool,
}
use tinyswift.Comptime.Int64.{
  add64, sub64, mul64, neg64, div64, rem64, and64, or64, xor64, not64, shl64, shr64,
}
use tinyswift.Comptime.State.{
  Error, division_by_zero, unsupported, prefix_operator, binary_operator,
}

-- A value, an error that is reported, or an operation that C++ leaves undefined.
pub data Computed : Type 0 where
  value : Value → Computed
  fault : Error → Computed
  undefined_result : Computed

unfoldable pub of_int : Option ℤ → Computed
of_int none = undefined_result
of_int (some a) = value (int a)

abbrev pub of_bool : Bool → Computed
of_bool b = value (bool b)

unfoldable pub negate : Host → String → Value → Computed
unfolding of_int
negate h op (int a) = of_int (neg64 a)
negate h op (float d) = value (float (h.neg_double d))
negate h op _ = fault (unsupported (prefix_operator op))

unfoldable pub complement : String → Value → Computed
complement op (int a) = value (int (not64 a))
complement op _ = fault (unsupported (prefix_operator op))

unfoldable pub apply_prefix : Host → String → Value → Computed
unfolding negate complement to_bool
apply_prefix h op v =
    if str_eq op "-"
    then negate h op v
    else if str_eq op "!"
    then of_bool (not (to_bool v))
    else if str_eq op "~"
    then complement op v
    else fault (unsupported (prefix_operator op))

-- The logical operators, on values of any kind.
unfoldable pub logical : String → Value → Value → Computed
unfolding to_bool
logical op a b =
    if str_eq op "&&"
    then of_bool (to_bool a && to_bool b)
    else if str_eq op "||"
    then of_bool (to_bool a || to_bool b)
    else fault (unsupported (binary_operator op))

-- Each of the next three hands an operator that it has no case for to `next`.
unfoldable pub on_strings : String → String → String → Computed → Computed
on_strings op a b next =
    if str_eq op "+"
    then value (string (append_text a b))
    else if str_eq op "=="
    then of_bool (str_eq a b)
    else if str_eq op "!="
    then of_bool (not (str_eq a b))
    else next

unfoldable pub on_doubles : Host → String → (a b : ℕ) → Computed → Computed
on_doubles h op a b next =
    if str_eq op "+"
    then value (float (h.add_double a b))
    else if str_eq op "-"
    then value (float (h.sub_double a b))
    else if str_eq op "*"
    then value (float (h.mul_double a b))
    else if str_eq op "/"
    then (if h.eq_double b 0 then fault division_by_zero else value (float (h.div_double a b)))
    else if str_eq op "=="
    then of_bool (h.eq_double a b)
    else if str_eq op "!="
    then of_bool (not (h.eq_double a b))
    else if str_eq op "<"
    then of_bool (h.lt_double a b)
    else if str_eq op ">"
    then of_bool (h.lt_double b a)
    else if str_eq op "<="
    then of_bool (h.le_double a b)
    else if str_eq op ">="
    then of_bool (h.le_double b a)
    else next

-- The comparisons and the bitwise operators of two integers.
unfoldable pub on_bits : String → (a b : ℤ) → Computed → Computed
unfolding of_int
on_bits op a b next =
    if str_eq op "&"
    then value (int (and64 a b))
    else if str_eq op "|"
    then value (int (or64 a b))
    else if str_eq op "^"
    then value (int (xor64 a b))
    else if str_eq op "<<"
    then of_int (shl64 a b)
    else if str_eq op ">>"
    then of_int (shr64 a b)
    else next

unfoldable pub on_order : String → (a b : ℤ) → Computed → Computed
on_order op a b next =
    if str_eq op "=="
    then of_bool (id_eq a b)
    else if str_eq op "!="
    then of_bool (not (id_eq a b))
    else if str_eq op "<"
    then of_bool (ltb_ℤ a b)
    else if str_eq op ">"
    then of_bool (ltb_ℤ b a)
    else if str_eq op "<="
    then of_bool (leb_ℤ a b)
    else if str_eq op ">="
    then of_bool (leb_ℤ b a)
    else on_bits op a b next

unfoldable pub on_integers : String → (a b : ℤ) → Computed → Computed
unfolding of_int on_order on_bits
on_integers op a b next =
    if str_eq op "+"
    then of_int (add64 a b)
    else if str_eq op "-"
    then of_int (sub64 a b)
    else if str_eq op "*"
    then of_int (mul64 a b)
    else if str_eq op "/"
    then (if id_eq b (pos 0) then fault division_by_zero else of_int (div64 a b))
    else if str_eq op "%"
    then (if id_eq b (pos 0) then fault division_by_zero else of_int (rem64 a b))
    else on_order op a b next

-- The string operators, where both operands are strings.
unfoldable pub string_operator : String → Value → Value → Computed → Computed
unfolding on_strings
string_operator op (string a) (string b) next = on_strings op a b next
string_operator op _ _ next = next

unfoldable pub integer_operator : String → Option ℤ → Option ℤ → Computed → Computed
unfolding on_integers
integer_operator op (some a) (some b) next = on_integers op a b next
integer_operator op _ _ next = undefined_result

-- The numeric operators, where both operands are numbers; in `double` if one of them is.
unfoldable pub numeric_operator : Host → String → Value → Value → Computed → Computed
unfolding integer_operator on_doubles is_numeric is_float to_double to_int64
numeric_operator h op a b next =
    if is_numeric a && is_numeric b
    then (if is_float a || is_float b
        then on_doubles h op (to_double h a) (to_double h b) next
        else integer_operator op (to_int64 h a) (to_int64 h b) next)
    else next

unfoldable pub apply_infix : Host → String → Value → Value → Computed
unfolding string_operator numeric_operator logical
apply_infix h op a b = string_operator op a b (numeric_operator h op a b (logical op a b))
