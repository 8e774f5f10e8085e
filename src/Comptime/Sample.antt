-- ===== src/Comptime/Sample.antt =====
-- The functions of toolchain/testing/testdata/check/comptime_functions.swift as parse trees, and a
-- host whose `double` arithmetic is that of whole numbers.
use tinyswift.Prelude.{
  ℕ, ◌+◌, ◌-◌, ◌*◌, ◌/◌, true, false, Option, none, some, List, [], ◌∷◌, String, pos, ltb, leb,
  ◌==◌, if◌then◌else◌, str_eq,
}
use tinyswift.Comptime.Tree
use tinyswift.Comptime.Tree.{NodeKind, Node, node, nil, cons, of_list}
use tinyswift.Comptime.Value.{Entity, function_decl, struct_type, Host}
use tinyswift.Comptime.State.{State}

abbrev read_digit : String → Option ℕ
read_digit t =
    if str_eq t "0"
    then some 0
    else if str_eq t "1"
    then some 1
    else if str_eq t "2"
    then some 2
    else if str_eq t "5"
    then some 5
    else none

abbrev names : String → Option Entity
names x =
    if str_eq x "factorial"
    then some (function_decl (pos 7))
    else if str_eq x "loop"
    then some (function_decl (pos 8))
    else if str_eq x "Point"
    then some (struct_type ((some "x", false) ∷ (some "norm", true) ∷ (some "y", false) ∷ []))
    else none

abbrev pub sample_host : Host
sample_host = record {
  parse_int = read_digit;
  parse_double = λ _. 0;
  double_of_int = λ _. 0;
  int_of_double = λ d. some (pos d);
  add_double = λ a b. a + b;
  sub_double = λ a b. a - b;
  mul_double = λ a b. a * b;
  div_double = λ a b. a / b;
  neg_double = λ a. a;
  eq_double = λ a b. a == b;
  lt_double = ltb;
  le_double = leb;
  lookup_name = names;
}

abbrev pub leaf : NodeKind → String → Node
leaf k t = node k t nil

abbrev pub tree : NodeKind → String → List Node → Node
tree k t ns = node k t (of_list ns)

abbrev pub name : String → Node
name x = leaf Tree.identifier_name_expr x

abbrev pub num : String → Node
num t = leaf Tree.int_literal t

abbrev pub infix_of : String → Node → Node → Node
infix_of op a b = tree Tree.infix_operator_expr op (a ∷ b ∷ [])

-- `f(label: arg)`
abbrev pub call_of : String → String → Node → Node
call_of f label arg =
    tree Tree.call_expr ")"
      (tree Tree.call_expr_start "(" (name f ∷ []) ∷ leaf Tree.argument_label label ∷ arg ∷ [])

abbrev pub return_of : Node → Node
return_of e =
    tree Tree.return_statement "return" (leaf Tree.return_statement_start "return" ∷ e ∷ [])

abbrev pub block_of : List Node → Node
block_of ns = tree Tree.code_block "}" (leaf Tree.code_block_start "{" ∷ ns)

abbrev pub signature_of : String → Node
signature_of x = tree Tree.function_definition_start "{" (
    tree Tree.explicit_param_list ")"
      (tree Tree.function_param ":" (leaf Tree.identifier_pattern x ∷ []) ∷ [])
    ∷ [])

abbrev pub function_of : String → Node → Node
function_of x body = tree (Tree.other false) "}" (signature_of x ∷ body ∷ [])

abbrev pub factorial_body : Node
factorial_body = block_of (
    infix_of "<=" (name "n") (num "1")
    ∷ tree Tree.if_statement "if"
        (leaf Tree.if_condition "if" ∷ block_of (return_of (num "1") ∷ []) ∷ [])
    ∷ return_of
        (infix_of "*" (name "n") (call_of "factorial" "n" (infix_of "-" (name "n") (num "1"))))
    ∷ [])

-- A function whose body is a call of itself as an expression statement, and its definition.
abbrev pub loop_body : Node
loop_body = block_of (
    tree Tree.call_expr ")" (tree Tree.call_expr_start "(" (name "loop" ∷ []) ∷ [])
    ∷ leaf Tree.expr_statement ""
    ∷ [])

abbrev pub loop_definition : Node
loop_definition = function_of "n" loop_body

abbrev pub start : State
start = record {
  env_stack = [];
  return_value = none;
  has_returned = false;
  pending_condition = none;
  iteration_count = 0;
  function_defs = (pos 7, function_of "n" factorial_body) ∷ (pos 8, loop_definition) ∷ [];
  errors = [];
}
