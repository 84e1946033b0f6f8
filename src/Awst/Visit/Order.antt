-- ===== src/Awst/Visit/Order.antt =====
-- The order in which visitExpressions (src/awst/Visit.cpp) calls its visitor.
pub mod Parts
use mathlib.Core.List.{append-nil, append_assoc}
use puya_sol.Prelude.{◌≡◌, refl, sym, ap, ◌∙◌, List, [], ◌∷◌, ◌++◌}
use puya_sol.Awst.Visit.Nodes.{
  Trace, nodes, nodes_below, nodes_of_list, nodes_of_args, nodes_of_values,
}
use puya_sol.Awst.Visit.{
  visit_expr, visit_node, visit_exprs, visit_args, visit_values, visit_stmt, visit_block,
  visit_block_ptr, visit_stmts, visit_cases, visit_expressions,
}
use puya_sol.Awst.Expr.{
  Expression, null, node, ExprNode, Expressions, nil, cons, CallArgs, no_args, arg, NamedValues,
  no_values, value, integer_constant, bool_constant, bytes_constant, string_constant, void_constant,
  var_expression, uint64_binary_operation, big_uint_binary_operation, bytes_binary_operation,
  bytes_unary_operation, numeric_comparison_expression, bytes_comparison_expression,
  boolean_binary_operation, not_expression, assert_expression, assignment_expression,
  conditional_expression, subroutine_call_expression, intrinsic_call, field_expression,
  index_expression, tuple_expression, tuple_item_expression, arc4_encode, arc4_decode,
  arc4_from_bytes, arc4_router, reinterpret_cast, template_var, copy, single_evaluation,
  checked_maybe, emit, new_array, array_length, array_pop, array_concat, array_extend,
  convert_array, new_struct, named_tuple_expression, state_get, state_exists, state_delete,
  state_get_ex, app_state_expression, app_account_state_expression, box_prefixed_key_expression,
  box_value_expression, create_inner_transaction, submit_inner_transaction, inner_transaction_field,
  comma_expression, method_constant, address_constant, puya_lib_call,
}
use puya_sol.Awst.Stmt.{
  Statement, block_statement, expression_statement, return_statement, if_else, while_loop,
  loop_exit, loop_continue, assignment_statement, goto, switch, for_in_loop,
  uint64_augmented_assignment, big_uint_augmented_assignment, Block, block, BlockPtr, no_block,
  to_block, Statements, done, then_do, Cases, no_cases, case,
}

-- The visitor that writes down its calls.
abbrev pub note : Expression → Trace → Trace
note e trace = trace ++ (e ∷ [])

-- The calls for one expression, in order.
unfoldable pub visited : Expression → Trace
visited e = visit_expr note e []

-- The expressions of a statement, field by field and with all below them, and those of its blocks.
unfoldable mutual
  pub requested : Statement → Trace
  requested (block_statement b) = requested_block b
  requested (expression_statement _ e) = nodes e
  requested (return_statement _ e) = nodes e
  requested (assignment_statement _ target e) = nodes target ++ nodes e
  requested (if_else _ c yes_branch no_branch) =
      nodes c ++ (requested_ptr yes_branch ++ requested_ptr no_branch)
  requested (while_loop _ c body) = nodes c ++ requested_ptr body
  requested (for_in_loop _ sequence items body) =
      nodes sequence ++ (nodes items ++ requested_ptr body)
  requested (switch _ e cases default) = nodes e ++ (requested_cases cases ++ requested_ptr default)
  requested (uint64_augmented_assignment _ target _ e) = nodes target ++ nodes e
  requested (big_uint_augmented_assignment _ target _ e) = nodes target ++ nodes e
  requested (goto _ _) = []
  requested (loop_exit _) = []
  requested (loop_continue _) = []

  pub requested_block : Block → Trace
  requested_block (block _ body _ _) = requested_stmts body

  pub requested_ptr : BlockPtr → Trace
  requested_ptr no_block = []
  requested_ptr (to_block b) = requested_block b

  pub requested_stmts : Statements → Trace
  requested_stmts done = []
  requested_stmts (then_do st rest) = requested st ++ requested_stmts rest

  pub requested_cases : Cases → Trace
  requested_cases no_cases = []
  requested_cases (case e b rest) = nodes e ++ (requested_ptr b ++ requested_cases rest)

module _ {S : Type 0} (visitor : Expression → S → S) where
  -- The visitor called on the expressions of a list.
  unfoldable pub run : Trace → S → S
  run [] s = s
  run (e ∷ es) s = run es (visitor e s)

  run-append : (xs ys : Trace) (s : S) → run (xs ++ ys) s ≡ run ys (run xs s)
  unfolding run
  run-append [] ys s = refl
  run-append (x ∷ xs) ys s = run-append xs ys (visitor x s)

  -- `f` makes the calls of a list.
  record Makes (f : S → S) (l : Trace) : Type 0 where
    makes : (s : S) → f s ≡ run l s

  nothing-Makes : Makes (λ s. s) []
  unfolding run
  nothing-Makes = record { makes = λ s. refl }

  chain-Makes : {f g : S → S} {l m : Trace} → Makes f l → Makes g m → Makes (λ s. g (f s)) (l ++ m)
  chain-Makes {f} {g} {l} {m} h k = record {
    makes = λ s. k.makes (f s) ∙ (ap (run m) (h.makes s) ∙ sym (run-append l m s));
  }

  mutual
    unfolding visit_expr run nodes

    expr-Makes : (e : Expression) → Makes (visit_expr visitor e) (nodes e)
    expr-Makes null = nothing-Makes
    expr-Makes (node loc t n) = record {
      makes = λ s. (node-Makes n).makes (visitor (node loc t n) s);
    }

    node-Makes : (n : ExprNode) → Makes (visit_node visitor n) (nodes_below n)
    node-Makes (integer_constant _) = nothing-Makes
    node-Makes (bool_constant _) = nothing-Makes
    node-Makes (bytes_constant _ _) = nothing-Makes
    node-Makes (string_constant _) = nothing-Makes
    node-Makes void_constant = nothing-Makes
    node-Makes (var_expression _) = nothing-Makes
    node-Makes (uint64_binary_operation a _ b) = chain-Makes (expr-Makes a) (expr-Makes b)
    node-Makes (big_uint_binary_operation a _ b) = chain-Makes (expr-Makes a) (expr-Makes b)
    node-Makes (bytes_binary_operation a _ b) = chain-Makes (expr-Makes a) (expr-Makes b)
    node-Makes (bytes_unary_operation a _) = expr-Makes a
    node-Makes (numeric_comparison_expression a _ b) = chain-Makes (expr-Makes a) (expr-Makes b)
    node-Makes (bytes_comparison_expression a _ b) = chain-Makes (expr-Makes a) (expr-Makes b)
    node-Makes (boolean_binary_operation a _ b) = chain-Makes (expr-Makes a) (expr-Makes b)
    node-Makes (not_expression a) = expr-Makes a
    node-Makes (assert_expression a _ _) = expr-Makes a
    node-Makes (assignment_expression a b) = chain-Makes (expr-Makes a) (expr-Makes b)
    node-Makes (conditional_expression a b c) =
        chain-Makes (expr-Makes a) (chain-Makes (expr-Makes b) (expr-Makes c))
    node-Makes (subroutine_call_expression _ args) = args-Makes args
    node-Makes (intrinsic_call _ _ es) = exprs-Makes es
    node-Makes (field_expression a _) = expr-Makes a
    node-Makes (index_expression a b) = chain-Makes (expr-Makes a) (expr-Makes b)
    node-Makes (tuple_expression es) = exprs-Makes es
    node-Makes (tuple_item_expression a _) = expr-Makes a
    node-Makes (arc4_encode a) = expr-Makes a
    node-Makes (arc4_decode a) = expr-Makes a
    node-Makes (arc4_from_bytes a _) = expr-Makes a
    node-Makes arc4_router = nothing-Makes
    node-Makes (reinterpret_cast a) = expr-Makes a
    node-Makes (template_var _) = nothing-Makes
    node-Makes (copy a) = expr-Makes a
    node-Makes (single_evaluation a _) = expr-Makes a
    node-Makes (checked_maybe a _) = expr-Makes a
    node-Makes (emit _ a) = expr-Makes a
    node-Makes (new_array es) = exprs-Makes es
    node-Makes (array_length a) = expr-Makes a
    node-Makes (array_pop a) = expr-Makes a
    node-Makes (array_concat a b) = chain-Makes (expr-Makes a) (expr-Makes b)
    node-Makes (array_extend a b) = chain-Makes (expr-Makes a) (expr-Makes b)
    node-Makes (convert_array a) = expr-Makes a
    node-Makes (new_struct vs) = values-Makes vs
    node-Makes (named_tuple_expression vs) = values-Makes vs
    node-Makes (state_get a b) = chain-Makes (expr-Makes a) (expr-Makes b)
    node-Makes (state_exists a) = expr-Makes a
    node-Makes (state_delete a) = expr-Makes a
    node-Makes (state_get_ex a) = expr-Makes a
    node-Makes (app_state_expression a _) = expr-Makes a
    node-Makes (app_account_state_expression a b _) = chain-Makes (expr-Makes a) (expr-Makes b)
    node-Makes (box_prefixed_key_expression a b) = chain-Makes (expr-Makes a) (expr-Makes b)
    node-Makes (box_value_expression a _) = expr-Makes a
    node-Makes (create_inner_transaction vs) = values-Makes vs
    node-Makes (submit_inner_transaction es) = exprs-Makes es
    node-Makes (inner_transaction_field a _ b) = chain-Makes (expr-Makes a) (expr-Makes b)
    node-Makes (comma_expression es) = exprs-Makes es
    node-Makes (method_constant _) = nothing-Makes
    node-Makes (address_constant _) = nothing-Makes
    node-Makes (puya_lib_call _ args) = args-Makes args

    exprs-Makes : (es : Expressions) → Makes (visit_exprs visitor es) (nodes_of_list es)
    exprs-Makes nil = nothing-Makes
    exprs-Makes (cons e es) = chain-Makes (expr-Makes e) (exprs-Makes es)

    args-Makes : (args : CallArgs) → Makes (visit_args visitor args) (nodes_of_args args)
    args-Makes no_args = nothing-Makes
    args-Makes (arg _ e args) = chain-Makes (expr-Makes e) (args-Makes args)

    values-Makes : (vs : NamedValues) → Makes (visit_values visitor vs) (nodes_of_values vs)
    values-Makes no_values = nothing-Makes
    values-Makes (value _ e vs) = chain-Makes (expr-Makes e) (values-Makes vs)

  mutual
    unfolding visit_stmt requested run

    stmt-Makes : (st : Statement) → Makes (visit_stmt visitor st) (requested st)
    stmt-Makes (block_statement b) = block-Makes b
    stmt-Makes (expression_statement _ e) = expr-Makes e
    stmt-Makes (return_statement _ e) = expr-Makes e
    stmt-Makes (assignment_statement _ target e) = chain-Makes (expr-Makes target) (expr-Makes e)
    stmt-Makes (if_else _ c y n) =
        chain-Makes (expr-Makes c) (chain-Makes (ptr-Makes y) (ptr-Makes n))
    stmt-Makes (while_loop _ c body) = chain-Makes (expr-Makes c) (ptr-Makes body)
    stmt-Makes (for_in_loop _ sequence items body) =
        chain-Makes (expr-Makes sequence) (chain-Makes (expr-Makes items) (ptr-Makes body))
    stmt-Makes (switch _ e cases default) =
        chain-Makes (expr-Makes e) (chain-Makes (cases-Makes cases) (ptr-Makes default))
    stmt-Makes (uint64_augmented_assignment _ target _ e) =
        chain-Makes (expr-Makes target) (expr-Makes e)
    stmt-Makes (big_uint_augmented_assignment _ target _ e) =
        chain-Makes (expr-Makes target) (expr-Makes e)
    stmt-Makes (goto _ _) = nothing-Makes
    stmt-Makes (loop_exit _) = nothing-Makes
    stmt-Makes (loop_continue _) = nothing-Makes

    block-Makes : (b : Block) → Makes (visit_block visitor b) (requested_block b)
    block-Makes (block _ body _ _) = stmts-Makes body

    ptr-Makes : (b : BlockPtr) → Makes (visit_block_ptr visitor b) (requested_ptr b)
    ptr-Makes no_block = nothing-Makes
    ptr-Makes (to_block b) = block-Makes b

    stmts-Makes : (b : Statements) → Makes (visit_stmts visitor b) (requested_stmts b)
    stmts-Makes done = nothing-Makes
    stmts-Makes (then_do st rest) = chain-Makes (stmt-Makes st) (stmts-Makes rest)

    cases-Makes : (c : Cases) → Makes (visit_cases visitor c) (requested_cases c)
    cases-Makes no_cases = nothing-Makes
    cases-Makes (case e b rest) =
        chain-Makes (expr-Makes e) (chain-Makes (ptr-Makes b) (cases-Makes rest))

run-note : (es l : Trace) → run note es l ≡ l ++ es
unfolding run
run-note [] l = sym (append-nil l)
run-note (e ∷ es) l = run-note es (l ++ (e ∷ [])) ∙ append_assoc l (e ∷ []) es

pub visited-nodes : (e : Expression) → visited e ≡ nodes e
unfolding visited
visited-nodes e = (expr-Makes note e).makes [] ∙ run-note (nodes e) []

pub visit_expr-note : (e : Expression) (l : Trace) → visit_expr note e l ≡ l ++ visited e
visit_expr-note e l =
    (expr-Makes note e).makes l ∙ (run-note (nodes e) l ∙ ap (λ m. l ++ m) (sym (visited-nodes e)))

-- Whatever a visitor does and in whatever state it starts, visiting a statement calls it on the
-- expressions that the statement holds at any depth, each as often as it stands there and in
-- order: fields and blocks from left to right, each expression before those below it; null
-- pointers are passed over.
pub visit_expressions-run :
    {S : Type 0} (visitor : Expression → S → S) (st : Statement) (s : S)
    → visit_expressions visitor st s ≡ run visitor (requested st) s
unfolding visit_expressions
visit_expressions-run visitor st = (stmt-Makes visitor st).makes
