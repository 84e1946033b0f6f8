-- ===== src/Awst/Visit/Nodes.antt =====
-- The expressions below an expression of src/awst/Node.h, in the order in which they stand: an expression
-- before those in its fields, field by field.
use puya_sol.Prelude.{List, [], ◌∷◌, ◌++◌}
use puya_sol.Awst.Expr.{
  Expression, null, node, ExprNode, Expressions, nil, cons, CallArgs, no_args, arg, NamedValues,
  no_values, value, integer_constant, bool_constant, bytes_constant, string_constant, void_constant,
  var_expression, uint64_binary_operation, big_uint_binary_operation, bytes_binary_operation,
  bytes_unary_operation, numeric_comparison_expression, bytes_comparison_expression,
  boolean_binary_operation, not_expression, assert_expression, assignment_expression,
  conditional_expression, subroutine_call_expression, intrinsic_call, field_expression,
  index_expression, tuple_expression, tuple_item_expression, arc4_encode, arc4_decode,
  arc4_from_bytes, arc4_router, reinterpret_cast, template_var, copy, single_evaluation,
  checked_maybe, emit, new_array, array_length, array_pop, array_concat, array_extend,
  convert_array, new_struct, named_tuple_expression, state_get, state_exists, state_delete,
  state_get_ex, app_state_expression, app_account_state_expression, box_prefixed_key_expression,
  box_value_expression, create_inner_transaction, submit_inner_transaction, inner_transaction_field,
  comma_expression, method_constant, address_constant, puya_lib_call,
}

abbrev pub Trace : Type 0
Trace = List Expression

-- An expression and all below it; a null pointer is no expression.
unfoldable mutual
  pub nodes : Expression → Trace
  nodes null = []
  nodes (node loc t n) = node loc t n ∷ nodes_below n

  pub nodes_below : ExprNode → Trace
  nodes_below (integer_constant _) = []
  nodes_below (bool_constant _) = []
  nodes_below (bytes_constant _ _) = []
  nodes_below (string_constant _) = []
  nodes_below void_constant = []
  nodes_below (var_expression _) = []
  nodes_below (uint64_binary_operation a _ b) = nodes a ++ nodes b
  nodes_below (big_uint_binary_operation a _ b) = nodes a ++ nodes b
  nodes_below (bytes_binary_operation a _ b) = nodes a ++ nodes b
  nodes_below (bytes_unary_operation a _) = nodes a
  nodes_below (numeric_comparison_expression a _ b) = nodes a ++ nodes b
  nodes_below (bytes_comparison_expression a _ b) = nodes a ++ nodes b
  nodes_below (boolean_binary_operation a _ b) = nodes a ++ nodes b
  nodes_below (not_expression a) = nodes a
  nodes_below (assert_expression a _ _) = nodes a
  nodes_below (assignment_expression a b) = nodes a ++ nodes b
  nodes_below (conditional_expression a b c) = nodes a ++ (nodes b ++ nodes c)
  nodes_below (subroutine_call_expression _ args) = nodes_of_args args
  nodes_below (intrinsic_call _ _ es) = nodes_of_list es
  nodes_below (field_expression a _) = nodes a
  nodes_below (index_expression a b) = nodes a ++ nodes b
  nodes_below (tuple_expression es) = nodes_of_list es
  nodes_below (tuple_item_expression a _) = nodes a
  nodes_below (arc4_encode a) = nodes a
  nodes_below (arc4_decode a) = nodes a
  nodes_below (arc4_from_bytes a _) = nodes a
  nodes_below arc4_router = []
  nodes_below (reinterpret_cast a) = nodes a
  nodes_below (template_var _) = []
  nodes_below (copy a) = nodes a
  nodes_below (single_evaluation a _) = nodes a
  nodes_below (checked_maybe a _) = nodes a
  nodes_below (emit _ a) = nodes a
  nodes_below (new_array es) = nodes_of_list es
  nodes_below (array_length a) = nodes a
  nodes_below (array_pop a) = nodes a
  nodes_below (array_concat a b) = nodes a ++ nodes b
  nodes_below (array_extend a b) = nodes a ++ nodes b
  nodes_below (convert_array a) = nodes a
  nodes_below (new_struct vs) = nodes_of_values vs
  nodes_below (named_tuple_expression vs) = nodes_of_values vs
  nodes_below (state_get a b) = nodes a ++ nodes b
  nodes_below (state_exists a) = nodes a
  nodes_below (state_delete a) = nodes a
  nodes_below (state_get_ex a) = nodes a
  nodes_below (app_state_expression a _) = nodes a
  nodes_below (app_account_state_expression a b _) = nodes a ++ nodes b
  nodes_below (box_prefixed_key_expression a b) = nodes a ++ nodes b
  nodes_below (box_value_expression a _) = nodes a
  nodes_below (create_inner_transaction vs) = nodes_of_values vs
  nodes_below (submit_inner_transaction es) = nodes_of_list es
  nodes_below (inner_transaction_field a _ b) = nodes a ++ nodes b
  nodes_below (comma_expression es) = nodes_of_list es
  nodes_below (method_constant _) = []
  nodes_below (address_constant _) = []
  nodes_below (puya_lib_call _ args) = nodes_of_args args

  pub nodes_of_list : Expressions → Trace
  nodes_of_list nil = []
  nodes_of_list (cons e es) = nodes e ++ nodes_of_list es

  pub nodes_of_args : CallArgs → Trace
  nodes_of_args no_args = []
  nodes_of_args (arg _ e args) = nodes e ++ nodes_of_args args

  pub nodes_of_values : NamedValues → Trace
  nodes_of_values no_values = []
  nodes_of_values (value _ e vs) = nodes e ++ nodes_of_values vs
