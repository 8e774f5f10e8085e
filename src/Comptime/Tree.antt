-- ===== src/Comptime/Tree.antt =====
-- The parse tree as toolchain/check/comptime_eval.cpp reads it: a node has a kind, the text of its
-- token and its children in source order. The kinds are those of toolchain/parse/node_kind.def that
-- the evaluator names; `other` stands for all others, with whether its category holds Expr.
use tinyswift.Prelude.{Bool, true, false, Option, none, some, List, [], ◌∷◌, String, if◌then◌else◌}

pub data NodeKind : Type 0 where
  int_literal floating_literal bool_literal_true bool_literal_false string_literal : NodeKind
  identifier_name_expr paren_expr prefix_operator_expr infix_operator_expr : NodeKind
  ternary_expr comptime_expr call_expr array_expr member_access_expr : NodeKind
  subscript_expr assignment_expr : NodeKind
  array_expr_start pattern_list_comma call_expr_start call_argument argument_label : NodeKind
  subscript_expr_start identifier_name_not_before_params : NodeKind
  identifier_name_before_params code_block code_block_start : NodeKind
  function_definition_start explicit_param_list function_param : NodeKind
  identifier_pattern expr_statement if_statement while_statement let_decl : NodeKind
  variable_decl let_binding_pattern var_binding_pattern variable_pattern : NodeKind
  let_introducer variable_introducer let_initializer variable_initializer : NodeKind
  type_annotation return_statement return_statement_start if_condition : NodeKind
  if_statement_else while_condition for_in_statement for_in_introducer : NodeKind
  other : Bool → NodeKind

mutual
  pub data Node : Type 0 where
    node : NodeKind → String → Nodes → Node

  pub data Nodes : Type 0 where
    nil : Nodes
    cons : Node → Nodes → Nodes

-- `category().HasAnyOf(NodeCategory::Expr)`, as toolchain/parse/typed_nodes.h defines the kinds.
unfoldable pub is_expr_kind : NodeKind → Bool
is_expr_kind int_literal = true
is_expr_kind floating_literal = true
is_expr_kind bool_literal_true = true
is_expr_kind bool_literal_false = true
is_expr_kind string_literal = true
is_expr_kind identifier_name_expr = true
is_expr_kind paren_expr = true
is_expr_kind prefix_operator_expr = true
is_expr_kind infix_operator_expr = true
is_expr_kind ternary_expr = true
is_expr_kind comptime_expr = true
is_expr_kind call_expr = true
is_expr_kind array_expr = true
is_expr_kind member_access_expr = true
is_expr_kind subscript_expr = true
is_expr_kind assignment_expr = true
is_expr_kind (other e) = e
is_expr_kind _ = false

abbrev pub kind : Node → NodeKind
kind (node k _ _) = k

-- `token_text(node_token(node))`
abbrev pub text : Node → String
text (node _ t _) = t

abbrev pub to_list : Nodes → List Node
to_list nil = []
to_list (cons n ns) = n ∷ to_list ns

abbrev pub of_list : List Node → Nodes
of_list [] = nil
of_list (n ∷ ns) = cons n (of_list ns)

-- `children_source_order(node)`
abbrev pub children : Node → List Node
children (node _ _ ns) = to_list ns

unfoldable pub is_expr : Node → Bool
unfolding is_expr_kind
is_expr n = is_expr_kind (kind n)

-- The first child with a property: a search that breaks off, or that keeps what it found.
unfoldable pub first_child : (Node → Bool) → List Node → Option Node
first_child p [] = none
first_child p (n ∷ ns) = if p n then some n else first_child p ns

-- The last child with a property: a search that overwrites what it found.
unfoldable pub last_child : (Node → Bool) → List Node → Option Node
last_child p [] = none
last_child p (n ∷ ns) = elim (last_child p ns) [
  | some m ↦ some m
  | none ↦ if p n then some n else none
]

-- The children with a property, in order.
unfoldable pub filter_children : (Node → Bool) → List Node → List Node
filter_children p [] = []
filter_children p (n ∷ ns) = let rest = filter_children p ns in if p n then n ∷ rest else rest

-- The kinds that the evaluator looks for among children.
unfoldable pub is_code_block : Node → Bool
is_code_block (node code_block _ _) = true
is_code_block _ = false

unfoldable pub is_definition_start : Node → Bool
is_definition_start (node function_definition_start _ _) = true
is_definition_start _ = false

unfoldable pub is_param_list : Node → Bool
is_param_list (node explicit_param_list _ _) = true
is_param_list _ = false

unfoldable pub is_param : Node → Bool
is_param (node function_param _ _) = true
is_param _ = false

unfoldable pub is_identifier_pattern : Node → Bool
is_identifier_pattern (node identifier_pattern _ _) = true
is_identifier_pattern _ = false

unfoldable pub is_if_statement : Node → Bool
is_if_statement (node if_statement _ _) = true
is_if_statement _ = false

unfoldable pub is_member_name : Node → Bool
is_member_name (node identifier_name_not_before_params _ _) = true
is_member_name (node identifier_name_before_params _ _) = true
is_member_name _ = false
