-- ===== src/Json/Serializer/Nodes.antt =====
-- serializeExpression of src/json/AWSTSerializer.cpp. `none` stands for following a null pointer.
pub mod Complete
pub mod Documents
use puya_sol.Prelude.{Option, none, some, List, [], ◌∷◌, String, ℤ}
use puya_sol.Awst.Location.{SourceLocation}
use puya_sol.Awst.Expr
use puya_sol.Awst.Expr.{
  Expression, ExprNode, Expressions, nil, cons, CallArgs, no_args, arg, NamedValues, no_values,
}
use puya_sol.Json.Value.{
  Json, json_null, boolean, number, text, array, object, Items, no_items, Members, no_members,
  assign, erase, try_assign_all, as_object, push, as_array, as_implicit_object,
}
use puya_sol.Json.Serializer.Texts.{
  bytes_encoding_to_string, uint64_bin_op_to_string, big_uint_bin_op_to_string,
  numeric_comp_to_string, equality_comp_to_string, bool_bin_op_to_string, bytes_bin_op_to_string,
}
use puya_sol.Json.Serializer.Integer.{integer_value}
use puya_sol.Json.Serializer.Parts.{
  Entry, expression_header, serialize_subroutine_target, immediate_items, method_signature,
  base85_text, binary_entries, comparison_entries, message_entry, assert_entries, concat_entries,
  call_arg_entries,
}

-- The classes whose type the backend derives, which are written with no `wtype`.
abbrev pub typed_header : ExprNode → Members → Members
unfolding erase
typed_header (ExprNode.state_get _ _) j = erase "wtype" j
typed_header (ExprNode.state_exists _) j = erase "wtype" j
typed_header (ExprNode.state_get_ex _) j = erase "wtype" j
typed_header (ExprNode.puya_lib_call _ _) j = erase "wtype" j
typed_header _ j = j

unfoldable mutual
  unfolding base85_text expression_header try_assign_all integer_value serialize_subroutine_target
      method_signature assign

  pub serialize_expression : Expression → Option Json
  serialize_expression Expr.null = none
  serialize_expression (Expr.node loc type n) =
      as_object
        (try_assign_all (typed_header n (expression_header loc type n)) (node_entries loc n))

  -- A pointer that the source tests.
  pub serialize_or_null : Expression → Option Json
  serialize_or_null Expr.null = some json_null
  serialize_or_null (Expr.node loc type n) =
      as_object
        (try_assign_all (typed_header n (expression_header loc type n)) (node_entries loc n))

  pub node_entries : SourceLocation → ExprNode → List Entry
  node_entries loc (Expr.integer_constant s) =
      ("value", integer_value s) ∷ ("teal_alias", some json_null) ∷ []
  node_entries loc (Expr.bool_constant b) = ("value", some (boolean b)) ∷ []
  node_entries loc (Expr.bytes_constant bytes encoding) =
      ("value", some (text (base85_text bytes)))
      ∷ ("encoding", some (text (bytes_encoding_to_string encoding)))
      ∷ []
  node_entries loc (Expr.string_constant s) = ("value", some (text s)) ∷ []
  node_entries loc Expr.void_constant = []
  node_entries loc (Expr.var_expression name) = ("name", some (text name)) ∷ []
  node_entries loc (Expr.uint64_binary_operation left op right) =
      binary_entries (serialize_expression left) (uint64_bin_op_to_string op)
        (serialize_expression right)
  node_entries loc (Expr.big_uint_binary_operation left op right) =
      binary_entries (serialize_expression left) (big_uint_bin_op_to_string op)
        (serialize_expression right)
  node_entries loc (Expr.bytes_binary_operation left op right) =
      binary_entries (serialize_expression left) (bytes_bin_op_to_string op)
        (serialize_expression right)
  node_entries loc (Expr.bytes_unary_operation expr _) =
      ("op", some (text "~")) ∷ ("expr", serialize_expression expr) ∷ []
  node_entries loc (Expr.numeric_comparison_expression lhs op rhs) =
      comparison_entries (serialize_expression lhs) (numeric_comp_to_string op)
        (serialize_expression rhs)
  node_entries loc (Expr.bytes_comparison_expression lhs op rhs) =
      comparison_entries (serialize_expression lhs) (equality_comp_to_string op)
        (serialize_expression rhs)
  node_entries loc (Expr.boolean_binary_operation left op right) =
      binary_entries (serialize_expression left) (bool_bin_op_to_string op)
        (serialize_expression right)
  node_entries loc (Expr.not_expression expr) = ("expr", serialize_expression expr) ∷ []
  node_entries loc (Expr.assert_expression condition message is_explicit) =
      assert_entries (serialize_or_null condition) message (boolean is_explicit)
  node_entries loc (Expr.assignment_expression target value) =
      ("target", serialize_expression target) ∷ ("value", serialize_expression value) ∷ []
  node_entries loc (Expr.conditional_expression condition true_expr false_expr) =
      ("condition", serialize_expression condition)
      ∷ ("true_expr", serialize_expression true_expr)
      ∷ ("false_expr", serialize_expression false_expr)
      ∷ []
  node_entries loc (Expr.subroutine_call_expression target args) =
      ("target", some (serialize_subroutine_target target))
      ∷ ("args", as_array (serialize_call_args args))
      ∷ []
  node_entries loc (Expr.intrinsic_call op_code immediates stack_args) =
      ("op_code", some (text op_code))
      ∷ ("immediates", some (array (immediate_items immediates)))
      ∷ ("stack_args", as_array (serialize_expressions stack_args))
      ∷ []
  node_entries loc (Expr.field_expression base name) =
      ("base", serialize_expression base) ∷ ("name", some (text name)) ∷ []
  node_entries loc (Expr.index_expression base index) =
      ("base", serialize_expression base) ∷ ("index", serialize_expression index) ∷ []
  node_entries loc (Expr.tuple_expression items) =
      ("items", as_array (serialize_expressions items)) ∷ []
  node_entries loc (Expr.tuple_item_expression base index) =
      ("base", serialize_expression base) ∷ ("index", some (number index)) ∷ []
  node_entries loc (Expr.arc4_encode value) =
      ("value", serialize_expression value) ∷ ("error_message", some json_null) ∷ []
  node_entries loc (Expr.arc4_decode value) =
      ("value", serialize_expression value) ∷ ("error_message", some json_null) ∷ []
  node_entries loc (Expr.arc4_from_bytes value validate) =
      ("value", serialize_expression value) ∷ ("validate", some (boolean validate)) ∷ []
  node_entries loc Expr.arc4_router = []
  node_entries loc (Expr.reinterpret_cast expr) = ("expr", serialize_expression expr) ∷ []
  node_entries loc (Expr.template_var name) = ("name", some (text name)) ∷ []
  node_entries loc (Expr.copy value) = ("value", serialize_expression value) ∷ []
  node_entries loc (Expr.single_evaluation source id) =
      ("source", serialize_expression source) ∷ ("_id", some (number id)) ∷ []
  node_entries loc (Expr.checked_maybe expr comment) =
      ("expr", serialize_expression expr) ∷ ("comment", some (text comment)) ∷ []
  node_entries loc (Expr.emit signature value) =
      ("signature", some (text signature)) ∷ ("value", serialize_expression value) ∷ []
  node_entries loc (Expr.new_array values) =
      ("values", as_array (serialize_expressions values)) ∷ []
  node_entries loc (Expr.array_length e) = ("array", serialize_expression e) ∷ []
  node_entries loc (Expr.array_pop base) = ("base", serialize_expression base) ∷ []
  node_entries loc (Expr.array_concat left right) =
      ("left", serialize_expression left) ∷ ("right", serialize_expression right) ∷ []
  node_entries loc (Expr.array_extend base other) =
      ("base", serialize_expression base) ∷ ("other", serialize_expression other) ∷ []
  node_entries loc (Expr.convert_array expr) = ("expr", serialize_expression expr) ∷ []
  node_entries loc (Expr.new_struct values) =
      ("values", as_object (serialize_values no_members values)) ∷ []
  node_entries loc (Expr.named_tuple_expression values) =
      ("values", as_implicit_object (serialize_values no_members values)) ∷ []
  node_entries loc (Expr.state_get field default_value) =
      ("field", serialize_expression field) ∷ ("default", serialize_expression default_value) ∷ []
  node_entries loc (Expr.state_exists field) = ("field", serialize_expression field) ∷ []
  node_entries loc (Expr.state_delete field) = ("field", serialize_expression field) ∷ []
  node_entries loc (Expr.state_get_ex field) = ("field", serialize_expression field) ∷ []
  node_entries loc (Expr.app_state_expression key message) =
      ("key", serialize_expression key) ∷ message_entry message ∷ []
  node_entries loc (Expr.app_account_state_expression key account message) =
      ("key", serialize_expression key)
      ∷ ("account", serialize_expression account)
      ∷ message_entry message
      ∷ []
  node_entries loc (Expr.box_prefixed_key_expression prefix key) =
      concat_entries (serialize_expression prefix) (serialize_expression key)
  node_entries loc (Expr.box_value_expression key message) =
      ("key", serialize_expression key) ∷ message_entry message ∷ []
  node_entries loc (Expr.create_inner_transaction fields) =
      ("fields", as_implicit_object (serialize_values no_members fields)) ∷ []
  node_entries loc (Expr.submit_inner_transaction itxns) =
      ("itxns", as_array (serialize_expressions itxns)) ∷ []
  node_entries loc (Expr.inner_transaction_field itxn field array_index) =
      ("itxn", serialize_expression itxn)
      ∷ ("field", some (text field))
      ∷ ("array_index", serialize_or_null array_index)
      ∷ []
  node_entries loc (Expr.comma_expression expressions) =
      ("expressions", as_array (serialize_expressions expressions)) ∷ []
  node_entries loc (Expr.method_constant value) = ("value", some (method_signature loc value)) ∷ []
  node_entries loc (Expr.address_constant value) = ("value", some (text value)) ∷ []
  node_entries loc (Expr.puya_lib_call func args) =
      ("func", some (text func)) ∷ ("args", as_array (serialize_call_args args)) ∷ []

  pub serialize_expressions : Expressions → Option Items
  serialize_expressions nil = some no_items
  serialize_expressions (cons e rest) = push (serialize_expression e) (serialize_expressions rest)

  pub serialize_call_args : CallArgs → Option Items
  serialize_call_args no_args = some no_items
  serialize_call_args (arg name e rest) =
      push (as_object (try_assign_all no_members (call_arg_entries name (serialize_expression e))))
        (serialize_call_args rest)

  -- The loop over the pairs of a map.
  pub serialize_values : Members → NamedValues → Option Members
  serialize_values ms no_values = some ms
  serialize_values ms (Expr.value k e rest) = elim (serialize_expression e) [
    | none ↦ none
    | some j ↦ serialize_values (assign k j ms) rest
  ]
