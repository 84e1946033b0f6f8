-- ===== src/Awst/Visit/Order/Parts.antt =====
-- The parts of an expression, and visitExpr (src/awst/Visit.cpp) on an expression of any class.
use mathlib.Core.List.{append-nil, append_assoc}
use puya_sol.Prelude.{◌≡◌, refl, sym, ap, ◌∙◌, [], ◌∷◌, ◌++◌}
use puya_sol.Awst.Visit.{visit_expr, visit_node, visit_exprs, visit_args, visit_values}
use puya_sol.Awst.Expr.{
  null, node, ExprNode, Expressions, nil, cons, CallArgs, no_args, arg, NamedValues, no_values,
  value, integer_constant, bool_constant, bytes_constant, string_constant, void_constant,
  var_expression, uint64_binary_operation, big_uint_binary_operation, bytes_binary_operation,
  bytes_unary_operation, numeric_comparison_expression, bytes_comparison_expression,
  boolean_binary_operation, not_expression, assert_expression, assignment_expression,
  conditional_expression, subroutine_call_expression, intrinsic_call, field_expression,
  index_expression, tuple_expression, tuple_item_expression, arc4_encode, arc4_decode,
  arc4_from_bytes, arc4_router, reinterpret_cast, template_var, copy, single_evaluation,
  checked_maybe, emit, new_array, array_length, array_pop, array_concat, array_extend,
  convert_array, new_struct, named_tuple_expression, state_get, state_exists, state_delete,
  state_get_ex, app_state_expression, app_account_state_expression, box_prefixed_key_expression,
  box_value_expression, create_inner_transaction, submit_inner_transaction, inner_transaction_field,
  comma_expression, method_constant, address_constant, puya_lib_call,
}
use puya_sol.Awst.Visit.Nodes.{Trace}
use puya_sol.Awst.Visit.Order.{visited, note, visit_expr-note}
use puya_sol.Awst.Location.{SourceLocation}
use puya_sol.Awst.WType.{WType}
use puya_sol.Prelude.{Option}

items : Expressions → Trace
items nil = []
items (cons e es) = e ∷ items es

arg_values : CallArgs → Trace
arg_values no_args = []
arg_values (arg _ e args) = e ∷ arg_values args

named_values : NamedValues → Trace
named_values no_values = []
named_values (value _ e vs) = e ∷ named_values vs

-- The expressions that a node of src/awst/Node.h holds in its fields, null pointers included.
pub parts : ExprNode → Trace
unfolding items arg_values named_values
parts (integer_constant _) = []
parts (bool_constant _) = []
parts (bytes_constant _ _) = []
parts (string_constant _) = []
parts void_constant = []
parts (var_expression _) = []
parts (uint64_binary_operation a _ b) = a ∷ b ∷ []
parts (big_uint_binary_operation a _ b) = a ∷ b ∷ []
parts (bytes_binary_operation a _ b) = a ∷ b ∷ []
parts (bytes_unary_operation a _) = a ∷ []
parts (numeric_comparison_expression a _ b) = a ∷ b ∷ []
parts (bytes_comparison_expression a _ b) = a ∷ b ∷ []
parts (boolean_binary_operation a _ b) = a ∷ b ∷ []
parts (not_expression a) = a ∷ []
parts (assert_expression a _ _) = a ∷ []
parts (assignment_expression a b) = a ∷ b ∷ []
parts (conditional_expression a b c) = a ∷ b ∷ c ∷ []
parts (subroutine_call_expression _ args) = arg_values args
parts (intrinsic_call _ _ es) = items es
parts (field_expression a _) = a ∷ []
parts (index_expression a b) = a ∷ b ∷ []
parts (tuple_expression es) = items es
parts (tuple_item_expression a _) = a ∷ []
parts (arc4_encode a) = a ∷ []
parts (arc4_decode a) = a ∷ []
parts (arc4_from_bytes a _) = a ∷ []
parts arc4_router = []
parts (reinterpret_cast a) = a ∷ []
parts (template_var _) = []
parts (copy a) = a ∷ []
parts (single_evaluation a _) = a ∷ []
parts (checked_maybe a _) = a ∷ []
parts (emit _ a) = a ∷ []
parts (new_array es) = items es
parts (array_length a) = a ∷ []
parts (array_pop a) = a ∷ []
parts (array_concat a b) = a ∷ b ∷ []
parts (array_extend a b) = a ∷ b ∷ []
parts (convert_array a) = a ∷ []
parts (new_struct vs) = named_values vs
parts (named_tuple_expression vs) = named_values vs
parts (state_get a b) = a ∷ b ∷ []
parts (state_exists a) = a ∷ []
parts (state_delete a) = a ∷ []
parts (state_get_ex a) = a ∷ []
parts (app_state_expression a _) = a ∷ []
parts (app_account_state_expression a b _) = a ∷ b ∷ []
parts (box_prefixed_key_expression a b) = a ∷ b ∷ []
parts (box_value_expression a _) = a ∷ []
parts (create_inner_transaction vs) = named_values vs
parts (submit_inner_transaction es) = items es
parts (inner_transaction_field a _ b) = a ∷ b ∷ []
parts (comma_expression es) = items es
parts (method_constant _) = []
parts (address_constant _) = []
parts (puya_lib_call _ args) = arg_values args

pub visited_all : Trace → Trace
visited_all [] = []
visited_all (e ∷ es) = visited e ++ visited_all es

visit_all : Trace → Trace → Trace
visit_all [] l = l
visit_all (e ∷ es) l = visit_all es (visit_expr note e l)

visit_exprs-items : (es : Expressions) (l : Trace) → visit_exprs note es l ≡ visit_all (items es) l
unfolding visit_exprs visit_all items
visit_exprs-items nil l = refl
visit_exprs-items (cons e es) l = visit_exprs-items es (visit_expr note e l)

visit_args-arg_values :
    (args : CallArgs) (l : Trace) → visit_args note args l ≡ visit_all (arg_values args) l
unfolding visit_args visit_all arg_values
visit_args-arg_values no_args l = refl
visit_args-arg_values (arg _ e args) l = visit_args-arg_values args (visit_expr note e l)

visit_values-named_values :
    (vs : NamedValues) (l : Trace) → visit_values note vs l ≡ visit_all (named_values vs) l
unfolding visit_values visit_all named_values
visit_values-named_values no_values l = refl
visit_values-named_values (value _ e vs) l = visit_values-named_values vs (visit_expr note e l)

visit_node-parts : (n : ExprNode) (l : Trace) → visit_node note n l ≡ visit_all (parts n) l
unfolding visit_node parts visit_all
visit_node-parts (subroutine_call_expression _ args) l = visit_args-arg_values args l
visit_node-parts (intrinsic_call _ _ es) l = visit_exprs-items es l
visit_node-parts (tuple_expression es) l = visit_exprs-items es l
visit_node-parts (new_array es) l = visit_exprs-items es l
visit_node-parts (new_struct vs) l = visit_values-named_values vs l
visit_node-parts (named_tuple_expression vs) l = visit_values-named_values vs l
visit_node-parts (create_inner_transaction vs) l = visit_values-named_values vs l
visit_node-parts (submit_inner_transaction es) l = visit_exprs-items es l
visit_node-parts (comma_expression es) l = visit_exprs-items es l
visit_node-parts (puya_lib_call _ args) l = visit_args-arg_values args l
visit_node-parts _ l = refl

visit_all-visited_all : (es l : Trace) → visit_all es l ≡ l ++ visited_all es
unfolding visit_all visited_all visited
visit_all-visited_all [] l = sym (append-nil l)
visit_all-visited_all (e ∷ es) l =
    visit_all-visited_all es (visit_expr note e l)
    ∙ (ap (λ m. m ++ visited_all es) (visit_expr-note e l)
        ∙ append_assoc l (visited e) (visited_all es))

-- Visiting an expression of any class calls the visitor on it first and then on all that its fields
-- hold, field by field; a null pointer gives no call.
pub visited-parts :
    (loc : SourceLocation) (t : Option WType) (n : ExprNode)
    → (visited (node loc t n) ≡ node loc t n ∷ visited_all (parts n)) × (visited null ≡ [])
unfolding visited visit_expr
visited-parts loc t n = (
  visit_node-parts n (node loc t n ∷ []) ∙ visit_all-visited_all (parts n) (node loc t n ∷ []),
  refl,
)
