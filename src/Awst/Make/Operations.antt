-- ===== src/Awst/Make/Operations.antt =====
-- Operators, comparisons, assertions, assignments and evaluation once (src/awst/Node.h).
use puya_sol.Prelude.{ℕ, ℤ, Bool, true, false, Option, none, some, String, if◌then◌else◌}
use puya_sol.Awst.Location.{SourceLocation}
use puya_sol.Awst.Operators.{
  UInt64BinaryOperator, BigUIntBinaryOperator, BytesBinaryOperator, NumericComparison, lt,
  EqualityComparison, BinaryBooleanOperator,
}
use puya_sol.Awst.Expr.{
  Expression, null, node, integer_constant, bool_constant, bytes_constant, string_constant,
  var_expression, single_evaluation, uint64_binary_operation, big_uint_binary_operation,
  bytes_binary_operation, numeric_comparison_expression, bytes_comparison_expression,
  boolean_binary_operation, not_expression, assert_expression, assignment_expression,
  conditional_expression,
}
use puya_sol.Awst.Stmt.{Statement, assignment_statement}
use puya_sol.Awst.Session.{Build, pure, ◌>>=◌, ◌>>◌, next_single_eval_id, log_error}
use puya_sol.Awst.Make.Constants.{
  Ty, uint64_t, biguint_t, bool_t, void_t, bytes_t, wtype_of, is_constant_expression,
  make_integer_of,
}

abbrev pub make_uint64_bin_op :
    Expression → UInt64BinaryOperator → Expression → SourceLocation → Expression
make_uint64_bin_op left op right loc = node loc uint64_t (uint64_binary_operation left op right)

abbrev pub make_big_uint_bin_op :
    Expression → BigUIntBinaryOperator → Expression → SourceLocation → Expression
make_big_uint_bin_op left op right loc =
    node loc biguint_t (big_uint_binary_operation left op right)

abbrev pub make_bytes_bin_op :
    Expression → BytesBinaryOperator → Expression → SourceLocation → Expression
make_bytes_bin_op left op right loc = node loc bytes_t (bytes_binary_operation left op right)

abbrev pub make_numeric_compare :
    Expression → NumericComparison → Expression → SourceLocation → Expression
make_numeric_compare lhs op rhs loc = node loc bool_t (numeric_comparison_expression lhs op rhs)

abbrev pub make_bytes_comparison :
    Expression → EqualityComparison → Expression → SourceLocation → Expression
make_bytes_comparison lhs op rhs loc = node loc bool_t (bytes_comparison_expression lhs op rhs)

abbrev pub make_bool_bin_op :
    Expression → BinaryBooleanOperator → Expression → SourceLocation → Expression
make_bool_bin_op left op right loc = node loc bool_t (boolean_binary_operation left op right)

abbrev pub make_not : Expression → SourceLocation → Expression
make_not e loc = node loc bool_t (not_expression e)

abbrev pub make_assert : Expression → SourceLocation → Option String → Ty → Expression
make_assert condition loc message wtype = node loc wtype (assert_expression condition message true)

abbrev pub make_enum_range_assert : Expression → ℕ → SourceLocation → String → Expression
make_enum_range_assert value num_members loc message =
    make_assert (make_numeric_compare value lt (make_integer_of num_members loc) loc) loc
      (some message) void_t

abbrev pub make_conditional :
    Expression → Expression → Expression → Ty → SourceLocation → Expression
make_conditional condition true_expr false_expr wtype loc =
    node loc wtype (conditional_expression condition true_expr false_expr)

abbrev assign_error : String
assign_error =
    "assignment target lowered to a constant — this write would be silently dropped. The left-hand side uses a construct the compiler could not resolve to a writable location (look for a preceding 'unsupported member access' warning)."

-- An error is logged and the node is built all the same.
unfoldable pub check_assignable_target : Expression → Build (Unit {0})
unfolding is_constant_expression log_error
check_assignable_target target s =
    if is_constant_expression target then log_error assign_error s else (tt, s)

abbrev target_type : Ty → Expression → Ty
target_type (some t) target = some t
target_type none target = wtype_of target

unfoldable pub make_assignment_expression :
    Expression → Expression → SourceLocation → Ty → Build Expression
unfolding check_assignable_target
make_assignment_expression target value loc wtype = do
  check_assignable_target target
  pure (node loc (target_type wtype target) (assignment_expression target value))

unfoldable pub make_assignment_statement :
    Expression → Expression → SourceLocation → Build Statement
unfolding check_assignable_target
make_assignment_statement target value loc = do
  check_assignable_target target
  pure (assignment_statement loc target value)

abbrev pub make_single_evaluation : Expression → Ty → ℤ → SourceLocation → Expression
make_single_evaluation source wtype id loc = node loc wtype (single_evaluation source id)

-- The classes that makeEvalOnce passes through.
abbrev pub is_trivial_leaf : Expression → Bool
is_trivial_leaf null = true
is_trivial_leaf (node _ _ (single_evaluation _ _)) = true
is_trivial_leaf (node _ _ (var_expression _)) = true
is_trivial_leaf (node _ _ (integer_constant _)) = true
is_trivial_leaf (node _ _ (bool_constant _)) = true
is_trivial_leaf (node _ _ (bytes_constant _ _)) = true
is_trivial_leaf (node _ _ (string_constant _)) = true
is_trivial_leaf _ = false

unfoldable pub make_eval_once : Expression → SourceLocation → Build Expression
unfolding next_single_eval_id
make_eval_once e loc s =
    if is_trivial_leaf e
    then (e, s)
    else (do id ← next_single_eval_id; pure (make_single_evaluation e (wtype_of e) id loc)) s
