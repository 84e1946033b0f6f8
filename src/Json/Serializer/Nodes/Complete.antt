-- ===== src/Json/Serializer/Nodes/Complete.antt =====
-- The expressions for which serializeExpression (src/json/AWSTSerializer.cpp) follows no null pointer.
use puya_sol.Prelude.{Bool, true, false, ◌&&◌, Option, none, some}
use puya_sol.Awst.Expr
use puya_sol.Awst.Expr.{
  Expression, ExprNode, Expressions, CallArgs, no_args, NamedValues, no_values,
}
use puya_sol.Json.Value.{Json}
use puya_sol.Json.Serializer.Integer.{integer_value}

abbrev pub has_value : Option Json → Bool
has_value none = false
has_value (some _) = true

-- No pointer that the source follows is null, and no constant's negation overflows. The condition of
-- an assertion and the index of a transaction field may be null.
unfoldable mutual
  unfolding integer_value

  pub complete : Expression → Bool
  complete Expr.null = false
  complete (Expr.node _ _ n) = complete_node n

  pub complete_or_null : Expression → Bool
  complete_or_null Expr.null = true
  complete_or_null (Expr.node _ _ n) = complete_node n

  pub complete_node : ExprNode → Bool
  complete_node (Expr.integer_constant s) = has_value (integer_value s)
  complete_node (Expr.uint64_binary_operation left _ right) = complete left && complete right
  complete_node (Expr.big_uint_binary_operation left _ right) = complete left && complete right
  complete_node (Expr.bytes_binary_operation left _ right) = complete left && complete right
  complete_node (Expr.bytes_unary_operation expr _) = complete expr
  complete_node (Expr.numeric_comparison_expression lhs _ rhs) = complete lhs && complete rhs
  complete_node (Expr.bytes_comparison_expression lhs _ rhs) = complete lhs && complete rhs
  complete_node (Expr.boolean_binary_operation left _ right) = complete left && complete right
  complete_node (Expr.not_expression expr) = complete expr
  complete_node (Expr.assert_expression condition _ _) = complete_or_null condition
  complete_node (Expr.assignment_expression target value) = complete target && complete value
  complete_node (Expr.conditional_expression c t f) = complete c && (complete t && complete f)
  complete_node (Expr.subroutine_call_expression _ args) = complete_args args
  complete_node (Expr.intrinsic_call _ _ stack_args) = complete_all stack_args
  complete_node (Expr.field_expression base _) = complete base
  complete_node (Expr.index_expression base index) = complete base && complete index
  complete_node (Expr.tuple_expression items) = complete_all items
  complete_node (Expr.tuple_item_expression base _) = complete base
  complete_node (Expr.arc4_encode value) = complete value
  complete_node (Expr.arc4_decode value) = complete value
  complete_node (Expr.arc4_from_bytes value _) = complete value
  complete_node (Expr.reinterpret_cast expr) = complete expr
  complete_node (Expr.copy value) = complete value
  complete_node (Expr.single_evaluation source _) = complete source
  complete_node (Expr.checked_maybe expr _) = complete expr
  complete_node (Expr.emit _ value) = complete value
  complete_node (Expr.new_array values) = complete_all values
  complete_node (Expr.array_length e) = complete e
  complete_node (Expr.array_pop base) = complete base
  complete_node (Expr.array_concat left right) = complete left && complete right
  complete_node (Expr.array_extend base other) = complete base && complete other
  complete_node (Expr.convert_array expr) = complete expr
  complete_node (Expr.new_struct values) = complete_values values
  complete_node (Expr.named_tuple_expression values) = complete_values values
  complete_node (Expr.state_get field default_value) = complete field && complete default_value
  complete_node (Expr.state_exists field) = complete field
  complete_node (Expr.state_delete field) = complete field
  complete_node (Expr.state_get_ex field) = complete field
  complete_node (Expr.app_state_expression key _) = complete key
  complete_node (Expr.app_account_state_expression key account _) = complete key && complete account
  complete_node (Expr.box_prefixed_key_expression prefix key) = complete prefix && complete key
  complete_node (Expr.box_value_expression key _) = complete key
  complete_node (Expr.create_inner_transaction fields) = complete_values fields
  complete_node (Expr.submit_inner_transaction itxns) = complete_all itxns
  complete_node (Expr.inner_transaction_field itxn _ array_index) =
      complete itxn && complete_or_null array_index
  complete_node (Expr.comma_expression expressions) = complete_all expressions
  complete_node (Expr.puya_lib_call _ args) = complete_args args
  complete_node _ = true

  pub complete_all : Expressions → Bool
  complete_all Expr.nil = true
  complete_all (Expr.cons e rest) = complete e && complete_all rest

  pub complete_args : CallArgs → Bool
  complete_args no_args = true
  complete_args (Expr.arg _ e rest) = complete e && complete_args rest

  pub complete_values : NamedValues → Bool
  complete_values no_values = true
  complete_values (Expr.value _ e rest) = complete e && complete_values rest
