-- ===== src/Awst/Make/Constants.antt =====
-- Constants, variables and the class tests of src/awst/Node.h.
use puya_sol.Prelude.{ℕ, Bool, true, false, Option, none, some, List, String, to_string}
use puya_sol.Awst.WType.{
  WType, basic, uint64_type, biguint_type, bool_type, arc4_bool_type, void_type, string_type,
  bytes_type,
}
use puya_sol.Awst.Location.{SourceLocation}
use puya_sol.Awst.Operators.{BytesEncoding}
use puya_sol.Awst.Expr.{
  Expression, null, node, integer_constant, bool_constant, bytes_constant, string_constant,
  void_constant, var_expression, method_constant, address_constant,
}

abbrev pub Ty : Type 0
Ty = Option WType

abbrev pub uint64_t : Ty
uint64_t = some (basic uint64_type)

abbrev pub biguint_t : Ty
biguint_t = some (basic biguint_type)

abbrev pub bool_t : Ty
bool_t = some (basic bool_type)

abbrev pub arc4_bool_t : Ty
arc4_bool_t = some (basic arc4_bool_type)

abbrev pub void_t : Ty
void_t = some (basic void_type)

abbrev pub bytes_t : Ty
bytes_t = some bytes_type

-- `e->wtype`; a null pointer has none.
abbrev pub wtype_of : Expression → Ty
wtype_of null = none
wtype_of (node _ t _) = t

abbrev pub make_integer_constant : String → SourceLocation → Ty → Expression
make_integer_constant value loc wtype = node loc wtype (integer_constant value)

-- The overload for a number.
abbrev pub make_integer_of : ℕ → SourceLocation → Expression
make_integer_of n loc = make_integer_constant (to_string n) loc uint64_t

abbrev pub make_biguint_constant : String → SourceLocation → Expression
make_biguint_constant value loc = make_integer_constant value loc biguint_t

abbrev pub make_zero : SourceLocation → Ty → Expression
make_zero loc wtype = make_integer_constant "0" loc wtype

abbrev pub make_one : SourceLocation → Ty → Expression
make_one loc wtype = make_integer_constant "1" loc wtype

abbrev pub make_bool_constant : Bool → SourceLocation → Ty → Expression
make_bool_constant value loc wtype = node loc wtype (bool_constant value)

abbrev pub make_true : SourceLocation → Expression
make_true loc = make_bool_constant true loc bool_t

abbrev pub make_false : SourceLocation → Expression
make_false loc = make_bool_constant false loc bool_t

abbrev pub make_bytes_constant : List ℕ → SourceLocation → BytesEncoding → Ty → Expression
make_bytes_constant value loc encoding wtype = node loc wtype (bytes_constant value encoding)

abbrev pub make_string_constant : String → SourceLocation → Expression
make_string_constant value loc = node loc (some (basic string_type)) (string_constant value)

abbrev pub make_void_constant : SourceLocation → Expression
make_void_constant loc = node loc void_t void_constant

abbrev pub make_var_expression : String → Ty → SourceLocation → Expression
make_var_expression name wtype loc = node loc wtype (var_expression name)

unfoldable pub is_constant_expression : Expression → Bool
is_constant_expression (node _ _ (integer_constant _)) = true
is_constant_expression (node _ _ (bool_constant _)) = true
is_constant_expression (node _ _ (bytes_constant _ _)) = true
is_constant_expression (node _ _ (string_constant _)) = true
is_constant_expression (node _ _ void_constant) = true
is_constant_expression (node _ _ (method_constant _)) = true
is_constant_expression (node _ _ (address_constant _)) = true
is_constant_expression _ = false
