-- ===== src/Awst/Visit.antt =====
-- visitExpr and visitStmt (src/awst/Visit.cpp): the visitor is called on every expression, parents
-- first. What a visitor has done is a state that it updates. The test on each class becomes a
-- clause, so that the exception for an unknown class has no counterpart.
pub mod Nodes
pub mod Order
use puya_sol.Prelude.{ℕ, List}
use puya_sol.Awst.Expr.{
  Expression, null, node, ExprNode, Expressions, nil, cons, CallArgs, no_args, arg, NamedValues,
  no_values, value, integer_constant, bool_constant, bytes_constant, string_constant, void_constant,
  var_expression, uint64_binary_operation, big_uint_binary_operation, bytes_binary_operation,
  bytes_unary_operation, numeric_comparison_expression, bytes_comparison_expression,
  boolean_binary_operation, not_expression, assert_expression, assignment_expression,
  conditional_expression, subroutine_call_expression, intrinsic_call, field_expression,
  index_expression, tuple_expression, tuple_item_expression, arc4_encode, arc4_decode,
  arc4_from_bytes, arc4_router, reinterpret_cast, template_var, copy, single_evaluation,
  checked_maybe, emit, new_array, array_length, array_pop, array_concat, array_extend,
  convert_array, new_struct, named_tuple_expression, state_get, state_exists, state_delete,
  state_get_ex, app_state_expression, app_account_state_expression, box_prefixed_key_expression,
  box_value_expression, create_inner_transaction, submit_inner_transaction, inner_transaction_field,
  comma_expression, method_constant, address_constant, puya_lib_call,
}
use puya_sol.Awst.Stmt.{
  Statement, block_statement, expression_statement, return_statement, if_else, while_loop,
  loop_exit, loop_continue, assignment_statement, goto, switch, for_in_loop,
  uint64_augmented_assignment, big_uint_augmented_assignment, Block, block, BlockPtr, no_block,
  to_block, Statements, done, then_do, Cases, no_cases, case,
}

module _ {S : Type 0} (visitor : Expression → S → S) where
  unfoldable mutual
    pub visit_expr : Expression → S → S
    visit_expr null s = s
    visit_expr (node loc t n) s = visit_node n (visitor (node loc t n) s)

    pub visit_node : ExprNode → S → S
    visit_node (integer_constant _) s = s
    visit_node (bool_constant _) s = s
    visit_node (bytes_constant _ _) s = s
    visit_node (string_constant _) s = s
    visit_node void_constant s = s
    visit_node (var_expression _) s = s
    visit_node (uint64_binary_operation a _ b) s = visit_expr b (visit_expr a s)
    visit_node (big_uint_binary_operation a _ b) s = visit_expr b (visit_expr a s)
    visit_node (bytes_binary_operation a _ b) s = visit_expr b (visit_expr a s)
    visit_node (bytes_unary_operation a _) s = visit_expr a s
    visit_node (numeric_comparison_expression a _ b) s = visit_expr b (visit_expr a s)
    visit_node (bytes_comparison_expression a _ b) s = visit_expr b (visit_expr a s)
    visit_node (boolean_binary_operation a _ b) s = visit_expr b (visit_expr a s)
    visit_node (not_expression a) s = visit_expr a s
    visit_node (assert_expression a _ _) s = visit_expr a s
    visit_node (assignment_expression a b) s = visit_expr b (visit_expr a s)
    visit_node (conditional_expression a b c) s = visit_expr c (visit_expr b (visit_expr a s))
    visit_node (subroutine_call_expression _ args) s = visit_args args s
    visit_node (intrinsic_call _ _ es) s = visit_exprs es s
    visit_node (field_expression a _) s = visit_expr a s
    visit_node (index_expression a b) s = visit_expr b (visit_expr a s)
    visit_node (tuple_expression es) s = visit_exprs es s
    visit_node (tuple_item_expression a _) s = visit_expr a s
    visit_node (arc4_encode a) s = visit_expr a s
    visit_node (arc4_decode a) s = visit_expr a s
    visit_node (arc4_from_bytes a _) s = visit_expr a s
    visit_node arc4_router s = s
    visit_node (reinterpret_cast a) s = visit_expr a s
    visit_node (template_var _) s = s
    visit_node (copy a) s = visit_expr a s
    visit_node (single_evaluation a _) s = visit_expr a s
    visit_node (checked_maybe a _) s = visit_expr a s
    visit_node (emit _ a) s = visit_expr a s
    visit_node (new_array es) s = visit_exprs es s
    visit_node (array_length a) s = visit_expr a s
    visit_node (array_pop a) s = visit_expr a s
    visit_node (array_concat a b) s = visit_expr b (visit_expr a s)
    visit_node (array_extend a b) s = visit_expr b (visit_expr a s)
    visit_node (convert_array a) s = visit_expr a s
    visit_node (new_struct vs) s = visit_values vs s
    visit_node (named_tuple_expression vs) s = visit_values vs s
    visit_node (state_get a b) s = visit_expr b (visit_expr a s)
    visit_node (state_exists a) s = visit_expr a s
    visit_node (state_delete a) s = visit_expr a s
    visit_node (state_get_ex a) s = visit_expr a s
    visit_node (app_state_expression a _) s = visit_expr a s
    visit_node (app_account_state_expression a b _) s = visit_expr b (visit_expr a s)
    visit_node (box_prefixed_key_expression a b) s = visit_expr b (visit_expr a s)
    visit_node (box_value_expression a _) s = visit_expr a s
    visit_node (create_inner_transaction vs) s = visit_values vs s
    visit_node (submit_inner_transaction es) s = visit_exprs es s
    visit_node (inner_transaction_field a _ b) s = visit_expr b (visit_expr a s)
    visit_node (comma_expression es) s = visit_exprs es s
    visit_node (method_constant _) s = s
    visit_node (address_constant _) s = s
    visit_node (puya_lib_call _ args) s = visit_args args s

    pub visit_exprs : Expressions → S → S
    visit_exprs nil s = s
    visit_exprs (cons e es) s = visit_exprs es (visit_expr e s)

    pub visit_args : CallArgs → S → S
    visit_args no_args s = s
    visit_args (arg _ e args) s = visit_args args (visit_expr e s)

    pub visit_values : NamedValues → S → S
    visit_values no_values s = s
    visit_values (value _ e vs) s = visit_values vs (visit_expr e s)

  unfoldable mutual
    pub visit_stmt : Statement → S → S
    visit_stmt (block_statement b) s = visit_block b s
    visit_stmt (expression_statement _ e) s = visit_expr e s
    visit_stmt (return_statement _ e) s = visit_expr e s
    visit_stmt (assignment_statement _ target e) s = visit_expr e (visit_expr target s)
    visit_stmt (if_else _ c yes_branch no_branch) s =
        visit_block_ptr no_branch (visit_block_ptr yes_branch (visit_expr c s))
    visit_stmt (while_loop _ c body) s = visit_block_ptr body (visit_expr c s)
    visit_stmt (for_in_loop _ sequence items body) s =
        visit_block_ptr body (visit_expr items (visit_expr sequence s))
    visit_stmt (switch _ e cases default) s =
        visit_block_ptr default (visit_cases cases (visit_expr e s))
    visit_stmt (uint64_augmented_assignment _ target _ e) s = visit_expr e (visit_expr target s)
    visit_stmt (big_uint_augmented_assignment _ target _ e) s = visit_expr e (visit_expr target s)
    visit_stmt (goto _ _) s = s
    visit_stmt (loop_exit _) s = s
    visit_stmt (loop_continue _) s = s

    pub visit_block : Block → S → S
    visit_block (block _ body _ _) s = visit_stmts body s

    pub visit_block_ptr : BlockPtr → S → S
    visit_block_ptr no_block s = s
    visit_block_ptr (to_block b) s = visit_block b s

    pub visit_stmts : Statements → S → S
    visit_stmts done s = s
    visit_stmts (then_do st rest) s = visit_stmts rest (visit_stmt st s)

    pub visit_cases : Cases → S → S
    visit_cases no_cases s = s
    visit_cases (case e b rest) s = visit_cases rest (visit_block_ptr b (visit_expr e s))

  -- visitExpressions on a statement.
  pub visit_expressions : Statement → S → S
  visit_expressions st s = visit_stmt st s
