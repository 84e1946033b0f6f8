-- ===== src/SolTypes/Coercion/Extend.antt =====
-- Sign extension and masking (src/builder/sol-types/TypeCoercion.cpp).
use puya_sol.Prelude.{
  ℕ, ◌+◌, ◌-◌, ◌^◌, ◌%◌, ◌&&◌, ◌||◌, Option, none, some, String, ◌<>◌, leb, ltb, ◌==◌, nat_eq,
  if◌then◌else◌, to_string,
}
use puya_sol.Awst.Location.{SourceLocation}
use puya_sol.Awst.Operators.{UInt64BinaryOperator, BigUIntBinaryOperator, gte}
use puya_sol.Awst.Expr.{Expression, node, comma_expression, nil, cons}
use puya_sol.Awst.Session.{Build, pure, ◌>>=◌, next_name}
use puya_sol.Awst.Make.Constants.{
  Ty, uint64_t, biguint_t, make_integer_constant, make_integer_of, make_var_expression,
}
use puya_sol.Awst.Make.Operations.{
  make_uint64_bin_op, make_big_uint_bin_op, make_numeric_compare, make_conditional,
  make_assignment_expression,
}
use puya_sol.SolTypes.IntType.{Solc, from_sol, pow2_n_and_half}
use puya_sol.SolTypes.Coercion.Implicit.{implicit_numeric_cast}

abbrev comma : Expression → Expression → Ty → SourceLocation → Expression
comma a b wtype loc = node loc wtype (comma_expression (cons a (cons b nil)))

-- `bind, temp >= threshold ? temp + offset : temp`, over a fresh temporary.
abbrev bound_extension : Expression → String → ℕ → ℕ → SourceLocation → Build Expression
bound_extension value temp_name threshold offset loc = do
  let temp = make_var_expression temp_name biguint_t loc
  bind ← make_assignment_expression temp value loc biguint_t
  let cond =
      make_numeric_compare temp gte (make_integer_constant (to_string threshold) loc biguint_t) loc
  let add =
      make_big_uint_bin_op temp BigUIntBinaryOperator.add
        (make_integer_constant (to_string offset) loc biguint_t) loc
  pure (comma bind (make_conditional cond add temp biguint_t loc) biguint_t loc)

-- `value & (2^bits - 1)`, below 256 bits.
abbrev mask_low : Expression → ℕ → SourceLocation → Expression
mask_low promoted bits loc =
    if ltb bits 256
    then make_big_uint_bin_op promoted BigUIntBinaryOperator.bit_and
        (make_integer_constant (to_string (2 ^ bits - 1)) loc biguint_t) loc
    else promoted

abbrev extend_promoted : Expression → ℕ → SourceLocation → Build Expression
extend_promoted promoted bits loc = do
  id ← next_name "TypeCoercion.s_signExtTempId"
  bound_extension (mask_low promoted bits loc) ("__signext_tmp_" <> to_string (id + 1))
      (2 ^ (bits - 1)) (2 ^ 256 - 2 ^ bits) loc

unfoldable pub sign_extend_to_uint256 : Expression → ℕ → SourceLocation → Build Expression
unfolding implicit_numeric_cast make_assignment_expression next_name
sign_extend_to_uint256 value bits loc = do
  promoted ← implicit_numeric_cast value biguint_t loc
  if bits == 256 then pure promoted else extend_promoted promoted bits loc

unfoldable pub sign_extend_to_uint64 : Expression → ℕ → SourceLocation → Build Expression
unfolding make_assignment_expression next_name
sign_extend_to_uint64 value bits loc = if bits == 0 || leb 64 bits then pure value else do
  id ← next_name "TypeCoercion.s_signExt64TempId"
  let temp = make_var_expression ("__signext64_tmp_" <> to_string (id + 1)) uint64_t loc
  let masked =
      make_uint64_bin_op value UInt64BinaryOperator.mod_op (make_integer_of (2 ^ bits) loc) loc
  bind ← make_assignment_expression temp masked loc uint64_t
  let cond = make_numeric_compare temp gte (make_integer_of (2 ^ (bits - 1)) loc) loc
  let extended =
      make_uint64_bin_op temp UInt64BinaryOperator.add (make_integer_of (2 ^ 64 - 2 ^ bits) loc) loc
  pure (comma bind (make_conditional cond extended temp uint64_t loc) uint64_t loc)

unfoldable pub mask_unsigned_to_width : Expression → ℕ → SourceLocation → Expression
mask_unsigned_to_width value bits loc =
    make_big_uint_bin_op value BigUIntBinaryOperator.mod_op
      (make_integer_constant (to_string (2 ^ bits % 2 ^ 256)) loc biguint_t) loc

unfoldable pub is_negative_signed : Expression → ℕ → SourceLocation → Expression
unfolding pow2_n_and_half
is_negative_signed value bits loc =
    make_numeric_compare value gte (make_integer_constant (pow2_n_and_half bits).1 loc biguint_t)
      loc

module _ (solc : Solc) where
  unfoldable pub sign_extend_signed_element :
      Expression → Option solc.SolType → SourceLocation → Build Expression
  unfolding sign_extend_to_uint256 from_sol
  sign_extend_signed_element value element loc = elim (from_sol solc element) [
    | none ↦ pure value
    | some t ↦
        if t.is_signed && ltb 64 t.bits && ltb t.bits 256
        then sign_extend_to_uint256 value t.bits loc
        else pure value
  ]
