-- ===== src/Json/Serializer/Texts.antt =====
-- The texts of enumerators in src/json/AWSTSerializer.cpp, and `nodeType()` of the expressions
-- of src/awst/Node.h.
use puya_sol.Prelude.{String}
use puya_sol.Awst.Operators.{
  UInt64BinaryOperator, BigUIntBinaryOperator, BytesBinaryOperator, NumericComparison,
  EqualityComparison, BinaryBooleanOperator, BytesEncoding, unknown, base16, base32, base64, utf8,
}
use puya_sol.Awst.Expr

abbrev pub bytes_encoding_to_string : BytesEncoding → String
bytes_encoding_to_string unknown = "unknown"
bytes_encoding_to_string base16 = "base16"
bytes_encoding_to_string base32 = "base32"
bytes_encoding_to_string base64 = "base64"
bytes_encoding_to_string utf8 = "utf8"

abbrev pub uint64_bin_op_to_string : UInt64BinaryOperator → String
uint64_bin_op_to_string UInt64BinaryOperator.add = "+"
uint64_bin_op_to_string UInt64BinaryOperator.sub = "-"
uint64_bin_op_to_string UInt64BinaryOperator.mult = "*"
uint64_bin_op_to_string UInt64BinaryOperator.floor_div = "//"
uint64_bin_op_to_string UInt64BinaryOperator.mod_op = "%"
uint64_bin_op_to_string UInt64BinaryOperator.pow = "**"
uint64_bin_op_to_string UInt64BinaryOperator.l_shift = "<<"
uint64_bin_op_to_string UInt64BinaryOperator.r_shift = ">>"
uint64_bin_op_to_string UInt64BinaryOperator.bit_or = "|"
uint64_bin_op_to_string UInt64BinaryOperator.bit_xor = "^"
uint64_bin_op_to_string UInt64BinaryOperator.bit_and = "&"

abbrev pub big_uint_bin_op_to_string : BigUIntBinaryOperator → String
big_uint_bin_op_to_string BigUIntBinaryOperator.add = "+"
big_uint_bin_op_to_string BigUIntBinaryOperator.sub = "-"
big_uint_bin_op_to_string BigUIntBinaryOperator.mult = "*"
big_uint_bin_op_to_string BigUIntBinaryOperator.floor_div = "//"
big_uint_bin_op_to_string BigUIntBinaryOperator.mod_op = "%"
big_uint_bin_op_to_string BigUIntBinaryOperator.bit_or = "|"
big_uint_bin_op_to_string BigUIntBinaryOperator.bit_xor = "^"
big_uint_bin_op_to_string BigUIntBinaryOperator.bit_and = "&"

abbrev pub numeric_comp_to_string : NumericComparison → String
numeric_comp_to_string NumericComparison.eq = "=="
numeric_comp_to_string NumericComparison.ne = "!="
numeric_comp_to_string NumericComparison.lt = "<"
numeric_comp_to_string NumericComparison.lte = "<="
numeric_comp_to_string NumericComparison.gt = ">"
numeric_comp_to_string NumericComparison.gte = ">="

abbrev pub equality_comp_to_string : EqualityComparison → String
equality_comp_to_string EqualityComparison.eq = "=="
equality_comp_to_string EqualityComparison.ne = "!="

abbrev pub bool_bin_op_to_string : BinaryBooleanOperator → String
bool_bin_op_to_string BinaryBooleanOperator.and = "and"
bool_bin_op_to_string BinaryBooleanOperator.or = "or"

abbrev pub bytes_bin_op_to_string : BytesBinaryOperator → String
bytes_bin_op_to_string BytesBinaryOperator.add = "+"
bytes_bin_op_to_string BytesBinaryOperator.bit_or = "|"
bytes_bin_op_to_string BytesBinaryOperator.bit_xor = "^"
bytes_bin_op_to_string BytesBinaryOperator.bit_and = "&"

-- `nodeType()` of an expression.
abbrev pub node_type : Expr.ExprNode → String
node_type (Expr.integer_constant _) = "IntegerConstant"
node_type (Expr.bool_constant _) = "BoolConstant"
node_type (Expr.bytes_constant _ _) = "BytesConstant"
node_type (Expr.string_constant _) = "StringConstant"
node_type Expr.void_constant = "VoidConstant"
node_type (Expr.var_expression _) = "VarExpression"
node_type (Expr.uint64_binary_operation _ _ _) = "UInt64BinaryOperation"
node_type (Expr.big_uint_binary_operation _ _ _) = "BigUIntBinaryOperation"
node_type (Expr.bytes_binary_operation _ _ _) = "BytesBinaryOperation"
node_type (Expr.bytes_unary_operation _ _) = "BytesUnaryOperation"
node_type (Expr.numeric_comparison_expression _ _ _) = "NumericComparisonExpression"
node_type (Expr.bytes_comparison_expression _ _ _) = "BytesComparisonExpression"
node_type (Expr.boolean_binary_operation _ _ _) = "BooleanBinaryOperation"
node_type (Expr.not_expression _) = "Not"
node_type (Expr.assert_expression _ _ _) = "AssertExpression"
node_type (Expr.assignment_expression _ _) = "AssignmentExpression"
node_type (Expr.conditional_expression _ _ _) = "ConditionalExpression"
node_type (Expr.subroutine_call_expression _ _) = "SubroutineCallExpression"
node_type (Expr.intrinsic_call _ _ _) = "IntrinsicCall"
node_type (Expr.field_expression _ _) = "FieldExpression"
node_type (Expr.index_expression _ _) = "IndexExpression"
node_type (Expr.tuple_expression _) = "TupleExpression"
node_type (Expr.tuple_item_expression _ _) = "TupleItemExpression"
node_type (Expr.arc4_encode _) = "ARC4Encode"
node_type (Expr.arc4_decode _) = "ARC4Decode"
node_type (Expr.arc4_from_bytes _ _) = "ARC4FromBytes"
node_type Expr.arc4_router = "ARC4Router"
node_type (Expr.reinterpret_cast _) = "ReinterpretCast"
node_type (Expr.template_var _) = "TemplateVar"
node_type (Expr.copy _) = "Copy"
node_type (Expr.single_evaluation _ _) = "SingleEvaluation"
node_type (Expr.checked_maybe _ _) = "CheckedMaybe"
node_type (Expr.emit _ _) = "Emit"
node_type (Expr.new_array _) = "NewArray"
node_type (Expr.array_length _) = "ArrayLength"
node_type (Expr.array_pop _) = "ArrayPop"
node_type (Expr.array_concat _ _) = "ArrayConcat"
node_type (Expr.array_extend _ _) = "ArrayExtend"
node_type (Expr.convert_array _) = "ConvertArray"
node_type (Expr.new_struct _) = "NewStruct"
node_type (Expr.named_tuple_expression _) = "NamedTupleExpression"
node_type (Expr.state_get _ _) = "StateGet"
node_type (Expr.state_exists _) = "StateExists"
node_type (Expr.state_delete _) = "StateDelete"
node_type (Expr.state_get_ex _) = "StateGetEx"
node_type (Expr.app_state_expression _ _) = "AppStateExpression"
node_type (Expr.app_account_state_expression _ _ _) = "AppAccountStateExpression"
node_type (Expr.box_prefixed_key_expression _ _) = "BoxPrefixedKeyExpression"
node_type (Expr.box_value_expression _ _) = "BoxValueExpression"
node_type (Expr.create_inner_transaction _) = "CreateInnerTransaction"
node_type (Expr.submit_inner_transaction _) = "SubmitInnerTransaction"
node_type (Expr.inner_transaction_field _ _ _) = "InnerTransactionField"
node_type (Expr.comma_expression _) = "CommaExpression"
node_type (Expr.method_constant _) = "MethodConstant"
node_type (Expr.address_constant _) = "AddressConstant"
node_type (Expr.puya_lib_call _ _) = "PuyaLibCall"
