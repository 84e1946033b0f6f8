-- ===== src/Json/Serializer/Nodes/Documents.antt =====
-- For which expressions serializeExpression (src/json/AWSTSerializer.cpp) follows no null pointer, and the
-- keys of what it writes.
use puya_sol.Prelude.{
  Bool, true, false, ◌&&◌, codes, ℕ, Option, none, some, List, [], ◌∷◌, String, refl, ℤ,
}
use puya_sol.Awst.Location.{SourceLocation}
use puya_sol.Awst.Operators.{
  Immediate, SubroutineTarget, subroutine_id, instance_method_target, instance_super_method_target,
  contract_method_target,
}
use puya_sol.Awst.WType.{WType}
use puya_sol.Awst.Expr
use puya_sol.Awst.Expr.{
  Expression, ExprNode, Expressions, CallArgs, no_args, NamedValues, no_values,
}
use puya_sol.Json.Value.{
  Json, Members, no_members, assign, assign_all, try_assign_all, AllKeyed, AllDocuments, IsDocument,
  has_key,
}
use puya_sol.Json.Value.Outcome.{
  Outcome, failed, document, Outcomes, end, part, given, last, only, pair, ItemsOutcome, no_more,
  pushed, array-Outcome, MembersOutcome, no_object, keyed, object-Outcome, implicit-Outcome,
  text_or_null-IsDocument, Documents, assign_all-AllKeyed, assign-AllKeyed, erase-AllKeyed,
}
use puya_sol.Json.Serializer.Types.Documents.{
  serialize_source_location-IsDocument, serialize_wtype-IsDocument,
}
use puya_sol.Json.Serializer.Integer.{
  integer_value, hex_value, hex_result, decimal_result, value_of, some_number, negated,
  starts_with_minus, hex_part, behind_minus,
}
use puya_sol.Json.Serializer.Parts.{
  expression_header, header_entries, signature_entries, serialize_subroutine_target,
  immediate_items, method_signature,
}
use puya_sol.Json.Serializer.Nodes.Complete.{
  has_value, complete, complete_or_null, complete_node, complete_all, complete_args,
  complete_values,
}
use puya_sol.Json.Serializer.Nodes.{
  typed_header, serialize_expression, serialize_or_null, node_entries, serialize_expressions,
  serialize_call_args, serialize_values,
}

expression_header-AllKeyed :
    (loc : SourceLocation) (type : Option WType) (n : ExprNode)
    → AllKeyed (expression_header loc type n)
unfolding IsDocument expression_header Documents header_entries
expression_header-AllKeyed loc type n =
    assign_all-AllKeyed no_members (header_entries loc type n) tt
      (tt, (serialize_source_location-IsDocument loc, (serialize_wtype-IsDocument type, tt)))

typed_header-AllKeyed : (n : ExprNode) (j : Members) → AllKeyed j → AllKeyed (typed_header n j)
unfolding typed_header
typed_header-AllKeyed (Expr.state_get _ _) j h = erase-AllKeyed "wtype" j h
typed_header-AllKeyed (Expr.state_exists _) j h = erase-AllKeyed "wtype" j h
typed_header-AllKeyed (Expr.state_get_ex _) j h = erase-AllKeyed "wtype" j h
typed_header-AllKeyed (Expr.puya_lib_call _ _) j h = erase-AllKeyed "wtype" j h
typed_header-AllKeyed _ j h = h

serialize_subroutine_target-IsDocument :
    (target : SubroutineTarget) → IsDocument (serialize_subroutine_target target)
unfolding IsDocument serialize_subroutine_target assign_all assign has_key
serialize_subroutine_target-IsDocument (subroutine_id _) = (refl, tt, (refl, tt, tt))
serialize_subroutine_target-IsDocument (instance_method_target _) = (refl, tt, (refl, tt, tt))
serialize_subroutine_target-IsDocument (instance_super_method_target _) = (refl, tt, (refl, tt, tt))
serialize_subroutine_target-IsDocument (contract_method_target _ _) =
    (refl, tt, (refl, tt, (refl, tt, tt)))

immediate_items-AllDocuments : (is : List Immediate) → AllDocuments (immediate_items is)
unfolding IsDocument
immediate_items-AllDocuments [] = tt
immediate_items-AllDocuments (Immediate.text _ ∷ rest) = (tt, immediate_items-AllDocuments rest)
immediate_items-AllDocuments (Immediate.number _ ∷ rest) = (tt, immediate_items-AllDocuments rest)

method_signature-IsDocument :
    (loc : SourceLocation) (value : String) → IsDocument (method_signature loc value)
unfolding IsDocument method_signature Documents signature_entries
method_signature-IsDocument loc value =
    assign_all-AllKeyed no_members (signature_entries loc value) tt
      (tt, (serialize_source_location-IsDocument loc, (tt, tt)))

some_number-Outcome : (z : Option ℤ) → Outcome (has_value (some_number z)) (some_number z)
unfolding IsDocument
some_number-Outcome none = failed
some_number-Outcome (some z) = document tt

hex_result-Outcome :
    (neg : Bool) (s : String) (z : Option ℤ)
    → Outcome (has_value (hex_result neg s z)) (hex_result neg s z)
unfolding IsDocument
hex_result-Outcome neg s none = document tt
hex_result-Outcome true s (some z) = some_number-Outcome (negated z)
hex_result-Outcome false s (some z) = document tt

decimal_result-Outcome :
    (s : String) (z : Option ℤ) → Outcome (has_value (decimal_result s z)) (decimal_result s z)
unfolding IsDocument
decimal_result-Outcome s none = document tt
decimal_result-Outcome s (some z) = document tt

value_of-Outcome :
    (s : String) (cs : List ℕ) (hex : Option (List ℕ))
    → Outcome (has_value (value_of s cs hex)) (value_of s cs hex)
unfolding hex_value
value_of-Outcome s cs none = decimal_result-Outcome s _
value_of-Outcome s cs (some hex) = hex_result-Outcome (starts_with_minus cs) _ _

integer_value-Outcome : (s : String) → Outcome (has_value (integer_value s)) (integer_value s)
unfolding integer_value
integer_value-Outcome s = value_of-Outcome s (codes s) (hex_part (behind_minus (codes s)))

values_step :
    {a b : Bool} {v : Option Json} {f : Json → Option Members}
    → Outcome a v
    → ((j : Json) → IsDocument j → MembersOutcome b (f j))
    → MembersOutcome (a && b) (elim v [ none ↦ none | some j ↦ f j ])
values_step failed h = no_object
values_step {v = some j} (document d) h = h j d

mutual
  unfolding serialize_expression complete IsDocument try_assign_all

  expression-Outcome : (e : Expression) → Outcome (complete e) (serialize_expression e)
  expression-Outcome Expr.null = failed
  expression-Outcome (Expr.node loc type n) = (node_entries-Outcomes loc n).made _ (
      typed_header-AllKeyed n (expression_header loc type n)
        (expression_header-AllKeyed loc type n))

  pub serialize_or_null-Outcome :
      (e : Expression) → Outcome (complete_or_null e) (serialize_or_null e)
  serialize_or_null-Outcome Expr.null = document tt
  serialize_or_null-Outcome (Expr.node loc type n) = (node_entries-Outcomes loc n).made _ (
      typed_header-AllKeyed n (expression_header loc type n)
        (expression_header-AllKeyed loc type n))

  node_entries-Outcomes :
      (loc : SourceLocation) (n : ExprNode) → Outcomes (complete_node n) (node_entries loc n)
  node_entries-Outcomes loc (Expr.integer_constant s) =
      only (integer_value-Outcome s) (given tt end)
  node_entries-Outcomes loc (Expr.bool_constant b) = given tt end
  node_entries-Outcomes loc (Expr.bytes_constant bytes encoding) = given tt (given tt end)
  node_entries-Outcomes loc (Expr.string_constant s) = given tt end
  node_entries-Outcomes loc Expr.void_constant = end
  node_entries-Outcomes loc (Expr.var_expression name) = given tt end
  node_entries-Outcomes loc (Expr.uint64_binary_operation left op right) =
      part (expression-Outcome left) (given tt (last (expression-Outcome right)))
  node_entries-Outcomes loc (Expr.big_uint_binary_operation left op right) =
      part (expression-Outcome left) (given tt (last (expression-Outcome right)))
  node_entries-Outcomes loc (Expr.bytes_binary_operation left op right) =
      part (expression-Outcome left) (given tt (last (expression-Outcome right)))
  node_entries-Outcomes loc (Expr.bytes_unary_operation expr _) =
      given tt (last (expression-Outcome expr))
  node_entries-Outcomes loc (Expr.numeric_comparison_expression lhs op rhs) =
      part (expression-Outcome lhs) (given tt (last (expression-Outcome rhs)))
  node_entries-Outcomes loc (Expr.bytes_comparison_expression lhs op rhs) =
      part (expression-Outcome lhs) (given tt (last (expression-Outcome rhs)))
  node_entries-Outcomes loc (Expr.boolean_binary_operation left op right) =
      part (expression-Outcome left) (given tt (last (expression-Outcome right)))
  node_entries-Outcomes loc (Expr.not_expression expr) = last (expression-Outcome expr)
  node_entries-Outcomes loc (Expr.assert_expression condition message is_explicit) =
      only (serialize_or_null-Outcome condition) (
        given (text_or_null-IsDocument message)
          (given (text_or_null-IsDocument message) (given tt end)))
  node_entries-Outcomes loc (Expr.assignment_expression target value) =
      part (expression-Outcome target) (last (expression-Outcome value))
  node_entries-Outcomes loc (Expr.conditional_expression condition true_expr false_expr) =
      part (expression-Outcome condition)
        (part (expression-Outcome true_expr) (last (expression-Outcome false_expr)))
  node_entries-Outcomes loc (Expr.subroutine_call_expression target args) =
      given (serialize_subroutine_target-IsDocument target)
        (last (array-Outcome (serialize_call_args-ItemsOutcome args)))
  node_entries-Outcomes loc (Expr.intrinsic_call op_code immediates stack_args) = given tt (
      given (immediate_items-AllDocuments immediates)
        (last (array-Outcome (serialize_expressions-ItemsOutcome stack_args))))
  node_entries-Outcomes loc (Expr.field_expression base name) =
      only (expression-Outcome base) (given tt end)
  node_entries-Outcomes loc (Expr.index_expression base index) =
      part (expression-Outcome base) (last (expression-Outcome index))
  node_entries-Outcomes loc (Expr.tuple_expression items) =
      last (array-Outcome (serialize_expressions-ItemsOutcome items))
  node_entries-Outcomes loc (Expr.tuple_item_expression base index) =
      only (expression-Outcome base) (given tt end)
  node_entries-Outcomes loc (Expr.arc4_encode value) =
      only (expression-Outcome value) (given tt end)
  node_entries-Outcomes loc (Expr.arc4_decode value) =
      only (expression-Outcome value) (given tt end)
  node_entries-Outcomes loc (Expr.arc4_from_bytes value validate) =
      only (expression-Outcome value) (given tt end)
  node_entries-Outcomes loc Expr.arc4_router = end
  node_entries-Outcomes loc (Expr.reinterpret_cast expr) = last (expression-Outcome expr)
  node_entries-Outcomes loc (Expr.template_var name) = given tt end
  node_entries-Outcomes loc (Expr.copy value) = last (expression-Outcome value)
  node_entries-Outcomes loc (Expr.single_evaluation source id) =
      only (expression-Outcome source) (given tt end)
  node_entries-Outcomes loc (Expr.checked_maybe expr comment) =
      only (expression-Outcome expr) (given tt end)
  node_entries-Outcomes loc (Expr.emit signature value) = given tt (last (expression-Outcome value))
  node_entries-Outcomes loc (Expr.new_array values) =
      last (array-Outcome (serialize_expressions-ItemsOutcome values))
  node_entries-Outcomes loc (Expr.array_length e) = last (expression-Outcome e)
  node_entries-Outcomes loc (Expr.array_pop base) = last (expression-Outcome base)
  node_entries-Outcomes loc (Expr.array_concat left right) =
      part (expression-Outcome left) (last (expression-Outcome right))
  node_entries-Outcomes loc (Expr.array_extend base other) =
      part (expression-Outcome base) (last (expression-Outcome other))
  node_entries-Outcomes loc (Expr.convert_array expr) = last (expression-Outcome expr)
  node_entries-Outcomes loc (Expr.new_struct values) =
      last (object-Outcome (serialize_values-MembersOutcome no_members values tt))
  node_entries-Outcomes loc (Expr.named_tuple_expression values) =
      last (implicit-Outcome (serialize_values-MembersOutcome no_members values tt))
  node_entries-Outcomes loc (Expr.state_get field default_value) =
      part (expression-Outcome field) (last (expression-Outcome default_value))
  node_entries-Outcomes loc (Expr.state_exists field) = last (expression-Outcome field)
  node_entries-Outcomes loc (Expr.state_delete field) = last (expression-Outcome field)
  node_entries-Outcomes loc (Expr.state_get_ex field) = last (expression-Outcome field)
  node_entries-Outcomes loc (Expr.app_state_expression key message) =
      only (expression-Outcome key) (given (text_or_null-IsDocument message) end)
  node_entries-Outcomes loc (Expr.app_account_state_expression key account message) =
      part (expression-Outcome key)
        (only (expression-Outcome account) (given (text_or_null-IsDocument message) end))
  node_entries-Outcomes loc (Expr.box_prefixed_key_expression prefix key) = given tt (
      given tt (
        given tt
          (last (array-Outcome (pair (expression-Outcome prefix) (expression-Outcome key))))))
  node_entries-Outcomes loc (Expr.box_value_expression key message) =
      only (expression-Outcome key) (given (text_or_null-IsDocument message) end)
  node_entries-Outcomes loc (Expr.create_inner_transaction fields) =
      last (implicit-Outcome (serialize_values-MembersOutcome no_members fields tt))
  node_entries-Outcomes loc (Expr.submit_inner_transaction itxns) =
      last (array-Outcome (serialize_expressions-ItemsOutcome itxns))
  node_entries-Outcomes loc (Expr.inner_transaction_field itxn field array_index) =
      part (expression-Outcome itxn) (given tt (last (serialize_or_null-Outcome array_index)))
  node_entries-Outcomes loc (Expr.comma_expression expressions) =
      last (array-Outcome (serialize_expressions-ItemsOutcome expressions))
  node_entries-Outcomes loc (Expr.method_constant value) =
      given (method_signature-IsDocument loc value) end
  node_entries-Outcomes loc (Expr.address_constant value) = given tt end
  node_entries-Outcomes loc (Expr.puya_lib_call func args) =
      given tt (last (array-Outcome (serialize_call_args-ItemsOutcome args)))

  serialize_expressions-ItemsOutcome :
      (es : Expressions) → ItemsOutcome (complete_all es) (serialize_expressions es)
  serialize_expressions-ItemsOutcome Expr.nil = no_more
  serialize_expressions-ItemsOutcome (Expr.cons e rest) =
      pushed (expression-Outcome e) (serialize_expressions-ItemsOutcome rest)

  serialize_call_args-ItemsOutcome :
      (args : CallArgs) → ItemsOutcome (complete_args args) (serialize_call_args args)
  serialize_call_args-ItemsOutcome no_args = no_more
  serialize_call_args-ItemsOutcome (Expr.arg name e rest) =
      pushed
        ((given (text_or_null-IsDocument name) (last (expression-Outcome e))).made no_members tt)
        (serialize_call_args-ItemsOutcome rest)

  serialize_values-MembersOutcome :
      (ms : Members) (vs : NamedValues)
      → AllKeyed ms
      → MembersOutcome (complete_values vs) (serialize_values ms vs)
  serialize_values-MembersOutcome ms no_values h = keyed h
  serialize_values-MembersOutcome ms (Expr.value k e rest) h =
      values_step (expression-Outcome e)
        λ j d. serialize_values-MembersOutcome (assign k j ms) rest (assign-AllKeyed k j ms d h)

-- An expression is serialised exactly where none of the pointers that the code follows with no
-- test is null and no negated constant overflows; the condition of an assertion and the index of a
-- transaction field may be null. No object of the document has a key twice, also where a box key
-- is written as a call of concat and where the type is taken out.
pub serialize_expression-Outcome : (e : Expression) → Outcome (complete e) (serialize_expression e)
serialize_expression-Outcome e = expression-Outcome e
