-- ===== src/Awst/Expr.antt =====
-- The expressions of src/awst/Node.h: one constructor of `ExprNode` for each class, with the fields in
-- the order of the class. What every class inherits (location and type) stands in `Expression`,
-- which is a pointer: `null` is `nullptr`, and so is `none` for a type.
use puya_sol.Prelude.{ℕ, ℤ, Bool, Option, List, String}
use puya_sol.Awst.WType.{WType}
use puya_sol.Awst.Location.{SourceLocation}
use puya_sol.Awst.Operators.{
  UInt64BinaryOperator, BigUIntBinaryOperator, BytesBinaryOperator, BytesUnaryOperator,
  NumericComparison, EqualityComparison, BinaryBooleanOperator, BytesEncoding, Immediate,
  SubroutineTarget,
}

mutual
  pub data Expression : Type 0 where
    null : Expression
    node : SourceLocation → Option WType → ExprNode → Expression

  pub data ExprNode : Type 0 where
    integer_constant : String → ExprNode
    bool_constant : Bool → ExprNode
    bytes_constant : List ℕ → BytesEncoding → ExprNode
    string_constant : String → ExprNode
    void_constant : ExprNode
    var_expression : String → ExprNode
    uint64_binary_operation : Expression → UInt64BinaryOperator → Expression → ExprNode
    big_uint_binary_operation : Expression → BigUIntBinaryOperator → Expression → ExprNode
    bytes_binary_operation : Expression → BytesBinaryOperator → Expression → ExprNode
    bytes_unary_operation : Expression → BytesUnaryOperator → ExprNode
    numeric_comparison_expression : Expression → NumericComparison → Expression → ExprNode
    bytes_comparison_expression : Expression → EqualityComparison → Expression → ExprNode
    boolean_binary_operation : Expression → BinaryBooleanOperator → Expression → ExprNode
    not_expression : Expression → ExprNode
    assert_expression : Expression → Option String → Bool → ExprNode
    assignment_expression : Expression → Expression → ExprNode
    conditional_expression : Expression → Expression → Expression → ExprNode
    subroutine_call_expression : SubroutineTarget → CallArgs → ExprNode
    intrinsic_call : String → List Immediate → Expressions → ExprNode
    field_expression : Expression → String → ExprNode
    index_expression : Expression → Expression → ExprNode
    tuple_expression : Expressions → ExprNode
    tuple_item_expression : Expression → ℤ → ExprNode
    arc4_encode : Expression → ExprNode
    arc4_decode : Expression → ExprNode
    arc4_from_bytes : Expression → Bool → ExprNode
    arc4_router : ExprNode
    reinterpret_cast : Expression → ExprNode
    template_var : String → ExprNode
    copy : Expression → ExprNode
    single_evaluation : Expression → ℤ → ExprNode
    checked_maybe : Expression → String → ExprNode
    emit : String → Expression → ExprNode
    new_array : Expressions → ExprNode
    array_length : Expression → ExprNode
    array_pop : Expression → ExprNode
    array_concat : Expression → Expression → ExprNode
    array_extend : Expression → Expression → ExprNode
    convert_array : Expression → ExprNode
    new_struct : NamedValues → ExprNode
    named_tuple_expression : NamedValues → ExprNode
    state_get : Expression → Expression → ExprNode
    state_exists : Expression → ExprNode
    state_delete : Expression → ExprNode
    state_get_ex : Expression → ExprNode
    app_state_expression : Expression → Option String → ExprNode
    app_account_state_expression : Expression → Expression → Option String → ExprNode
    box_prefixed_key_expression : Expression → Expression → ExprNode
    box_value_expression : Expression → Option String → ExprNode
    create_inner_transaction : NamedValues → ExprNode
    submit_inner_transaction : Expressions → ExprNode
    inner_transaction_field : Expression → String → Expression → ExprNode
    comma_expression : Expressions → ExprNode
    method_constant : String → ExprNode
    address_constant : String → ExprNode
    puya_lib_call : String → CallArgs → ExprNode

  -- `std::vector<std::shared_ptr<Expression>>`.
  pub data Expressions : Type 0 where
    nil : Expressions
    cons : Expression → Expressions → Expressions

  -- `std::vector<CallArg>`.
  pub data CallArgs : Type 0 where
    no_args : CallArgs
    arg : Option String → Expression → CallArgs → CallArgs

  -- `std::map<std::string, std::shared_ptr<Expression>>`, in the order of the keys.
  pub data NamedValues : Type 0 where
    no_values : NamedValues
    value : String → Expression → NamedValues → NamedValues

abbrev pub append_expression : Expressions → Expression → Expressions
append_expression nil e = cons e nil
append_expression (cons x xs) e = cons x (append_expression xs e)

abbrev pub append_arg : CallArgs → Option String → Expression → CallArgs
append_arg no_args n e = arg n e no_args
append_arg (arg m x xs) n e = arg m x (append_arg xs n e)
