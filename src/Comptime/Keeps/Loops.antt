-- ===== src/Comptime/Keeps/Loops.antt =====
-- Loops keep the relation for statements.
use tinyswift.Prelude.{
  ℕ, zero, suc, Bool, ◌||◌, Option, none, some, List, String, ℤ, pos, str_eq, ◌+ℤ◌,
}
use tinyswift.Comptime.Tree.{
  infix_operator_expr, Node, node, children, last_child, first_child, is_code_block,
}
use tinyswift.Comptime.Value.{Value, array, Values, empty, item, Host}
use tinyswift.Comptime.State.{State, M, ◌>>=◌, ◌>>◌, modify, set_var_mutable, check_iteration_limit}
use tinyswift.Comptime.Expr.{Evaluator}
use tinyswift.Comptime.Block.{continue_if, run_children}
use tinyswift.Comptime.Stmt.Loops.{
  holds, while_loop, run_while, eval_while, count_loop, items_loop, range_rounds, run_range,
  items_of, over_items, eval_bound, over_range, over_sequence, is_loop_name, sequence_of, eval_for,
}
use tinyswift.Comptime.Keeps.Rules.{
  Refines, Frame, KeepsAll, pure-Keeps, read-Keeps, stuck-Keeps, no_fuel-Keeps, on_some-Keeps,
  if-Keeps, modify-Keeps, bind-Keeps, then-Keeps,
}
use tinyswift.Comptime.Keeps.Statements.{
  p, true-Keeps, continue_if-Keeps, checked-Keeps, update-Keeps, expr-Keeps, run_children-Keeps,
}

module _ {E S : State → State → Type 0} (fr : Frame E S) (ev ev' : Evaluator)
    (k : KeepsAll E S ev ev') where
  pub while_loop-Keeps :
      (c b : Node) (n : ℕ) → Refines S (while_loop ev c b n) (while_loop ev' c b n)
  unfolding while_loop
  while_loop-Keeps c b zero = no_fuel-Keeps (p fr)
  while_loop-Keeps c b (suc n) = checked-Keeps fr (
      bind-Keeps (p fr) (expr-Keeps fr ev ev' k c) λ v.
        if-Keeps (p fr) (holds v)
          (bind-Keeps (p fr) (run_children-Keeps fr ev ev' k (children b))
            λ go. continue_if-Keeps fr go (while_loop-Keeps c b n))
          (true-Keeps fr))

  pub eval_while-Keeps : (ns : List Node) → Refines S (eval_while ev ns) (eval_while ev' ns)
  unfolding eval_while run_while
  eval_while-Keeps ns = bind-Keeps (p fr) (read-Keeps (p fr) _) λ c.
      then-Keeps (p fr) (modify-Keeps _ (fr.pending none)) (
        on_some-Keeps (p fr) c (true-Keeps fr) λ cond.
          on_some-Keeps (p fr) (last_child is_code_block ns) (true-Keeps fr)
            λ b. bind-Keeps (p fr) (read-Keeps (p fr) _) (while_loop-Keeps cond b))

  -- A round of a `for` loop, given the rounds after it.
  round-Keeps :
      (x : String) (v : Value) (b : Node) {again again' : M Bool}
      → Refines S again again'
      → Refines S
          (check_iteration_limit
            >>= continue_if (
                modify (set_var_mutable x v)
                >> (run_children ev (children b) >>= continue_if again)))
          (check_iteration_limit
            >>= continue_if (
                modify (set_var_mutable x v)
                >> (run_children ev' (children b) >>= continue_if again')))
  round-Keeps x v b h = checked-Keeps fr (
      then-Keeps (p fr) (update-Keeps fr x v) (
        bind-Keeps (p fr) (run_children-Keeps fr ev ev' k (children b))
          λ go. continue_if-Keeps fr go h))

  count_loop-Keeps :
      (x : String) (b : Node) (i : ℤ) (n : ℕ)
      → Refines S (count_loop ev x b i n) (count_loop ev' x b i n)
  unfolding count_loop
  count_loop-Keeps x b i zero = true-Keeps fr
  count_loop-Keeps x b i (suc n) = round-Keeps x _ b (count_loop-Keeps x b (i +ℤ pos 1) n)

  items_loop-Keeps :
      (x : String) (b : Node) (vs : Values)
      → Refines S (items_loop ev x b vs) (items_loop ev' x b vs)
  unfolding items_loop
  items_loop-Keeps x b empty = true-Keeps fr
  items_loop-Keeps x b (item v vs) = round-Keeps x v b (items_loop-Keeps x b vs)

  range_rounds-Keeps :
      (x : String) (b : Node) (lo : ℤ) (hi : Option ℤ)
      → Refines S (range_rounds ev x b lo hi) (range_rounds ev' x b lo hi)
  unfolding range_rounds
  range_rounds-Keeps x b lo none = stuck-Keeps (p fr)
  range_rounds-Keeps x b lo (some hi) = count_loop-Keeps x b lo _

  run_range-Keeps :
      (op x : String) (b : Node) (lo hi : Option ℤ)
      → Refines S (run_range ev op x b lo hi) (run_range ev' op x b lo hi)
  unfolding run_range
  run_range-Keeps op x b (some lo) (some hi) = range_rounds-Keeps x b lo _
  run_range-Keeps op x b none hi = stuck-Keeps (p fr)
  run_range-Keeps op x b (some lo) none = stuck-Keeps (p fr)

  items_of-Keeps :
      (x : String) (b : Node) (o : Option Value)
      → Refines S (items_of ev x b o) (items_of ev' x b o)
  unfolding items_of
  items_of-Keeps x b (some (array vs)) = items_loop-Keeps x b vs
  items_of-Keeps x b _ = true-Keeps fr

  over_items-Keeps :
      (x : String) (b r : Node) → Refines S (over_items ev x b r) (over_items ev' x b r)
  unfolding over_items
  over_items-Keeps x b r = bind-Keeps (p fr) (expr-Keeps fr ev ev' k r) (items_of-Keeps x b)

  eval_bound-Keeps : (o : Option Node) → Refines S (eval_bound ev o) (eval_bound ev' o)
  unfolding eval_bound
  eval_bound-Keeps o = on_some-Keeps (p fr) o (pure-Keeps (p fr) none) (expr-Keeps fr ev ev' k)

  over_range-Keeps :
      (h : Host) (op x : String) (b r : Node)
      → Refines S (over_range ev h op x b r) (over_range ev' h op x b r)
  unfolding over_range
  over_range-Keeps h op x b r = bind-Keeps (p fr) (eval_bound-Keeps _) λ lo.
      bind-Keeps (p fr) (eval_bound-Keeps _) λ hi.
        on_some-Keeps (p fr) lo (over_items-Keeps x b r)
          λ u. on_some-Keeps (p fr) hi (over_items-Keeps x b r) λ v. run_range-Keeps op x b _ _

  over_sequence-Keeps :
      (h : Host) (x : String) (b r : Node)
      → Refines S (over_sequence ev h x b r) (over_sequence ev' h x b r)
  unfolding over_sequence
  over_sequence-Keeps h x b (node infix_operator_expr op ns) =
      if-Keeps (p fr) (str_eq op "..<" || str_eq op "...") (over_range-Keeps h op x b _)
        (over_items-Keeps x b _)
  over_sequence-Keeps h x b r = over_items-Keeps x b r

  pub eval_for-Keeps :
      (h : Host) (ns : List Node) → Refines S (eval_for h ev ns) (eval_for h ev' ns)
  unfolding eval_for
  eval_for-Keeps h ns = on_some-Keeps (p fr) (first_child is_loop_name ns) (true-Keeps fr) λ x.
      on_some-Keeps (p fr) (last_child is_code_block ns) (true-Keeps fr)
        λ b. on_some-Keeps (p fr) (sequence_of ns) (true-Keeps fr) (over_sequence-Keeps h _ b)
