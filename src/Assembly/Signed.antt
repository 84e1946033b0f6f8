-- ===== src/Assembly/Signed.antt =====
-- src/builder/assembly/SignedOps.cpp: arithmetic on words in two's complement.
use puya_sol.Prelude.{Bool, false, none, List, [], ◌∷◌, if◌then◌else◌, ◌==◌, string_eq}
use puya_sol.Awst.Location.{SourceLocation}
use puya_sol.Awst.Operators.{BinaryBooleanOperator, NumericComparison, add, sub, floor_div, mod_op}
use puya_sol.Awst.Expr.{Expression, node, integer_constant}
use puya_sol.Awst.Session.{Build, pure, ◌>>=◌}
use puya_sol.Awst.Make.Constants.{
  Ty, wtype_of, uint64_t, biguint_t, bool_t, make_integer_constant, make_biguint_constant,
}
use puya_sol.Awst.Make.Operations.{make_conditional, make_numeric_compare, make_bool_bin_op}
use puya_sol.Awst.Make.Casts.{same_type}
use puya_sol.SolTypes.Coercion.Extend.{is_negative_signed}
use puya_sol.Assembly.Words.{ensure_biguint, big_uint_bin_op, wrap_mod256}
use puya_sol.Assembly.Arguments.{argument, guarded, check_arity}

-- 2^256 - 1.
abbrev pub max_word : SourceLocation → Expression
max_word loc =
    make_biguint_constant
      "115792089237316195423570985008687907853269984665640564039457584007913129639935" loc

-- The threshold of the sign: bit 63 for an operand that was a uint64, else bit 255.
unfoldable pub is_negative256 : Expression → Ty → SourceLocation → Expression
unfolding is_negative_signed
is_negative256 value original loc =
    is_negative_signed value (if same_type original uint64_t then 64 else 256) loc

-- MAX - value + 1, wrapped for the value 0.
unfoldable pub negate256 : Expression → SourceLocation → Build Expression
unfolding big_uint_bin_op wrap_mod256
negate256 value loc = do
  complement ← big_uint_bin_op (max_word loc) sub value loc
  sum ← big_uint_bin_op complement add (make_biguint_constant "1" loc) loc
  wrap_mod256 sum loc

-- `isNegative256(x) ? negate256(x) : x`.
unfoldable pub absolute : Expression → SourceLocation → Build Expression
unfolding negate256 is_negative256
absolute x loc = do
  negated ← negate256 x loc
  pure (make_conditional (is_negative256 x none loc) negated x biguint_t loc)

-- `b != 0 ? result : 0`.
abbrev pub unless_zero : Expression → Expression → SourceLocation → Expression
unless_zero b result loc =
    make_conditional
      (make_numeric_compare b NumericComparison.ne (make_biguint_constant "0" loc) loc) result
      (make_biguint_constant "0" loc) biguint_t loc

abbrev pub is_literal_zero : Expression → Bool
is_literal_zero (node _ _ (integer_constant v)) = v == "0"
is_literal_zero _ = false

-- slt(0, x): 0 < x and the sign bit is not set.
abbrev pub positive : Expression → Ty → SourceLocation → Expression
positive b original loc =
    make_bool_bin_op
      (make_numeric_compare b NumericComparison.gt (make_biguint_constant "0" loc) loc)
      BinaryBooleanOperator.and
      (make_numeric_compare b NumericComparison.lt
        (make_integer_constant
          (if same_type original uint64_t
            then "9223372036854775808"
            else "57896044618658097711785492504343953926634992332820282019728792003956564819968")
          loc biguint_t)
        loc)
      loc

-- slt(a, b) for two operands: `a < b` where the signs are the same, else the sign of `a`.
unfoldable pub compare_signed :
    Expression → Ty → Expression → Ty → SourceLocation → Build Expression
unfolding ensure_biguint is_negative256
compare_signed a type_a b type_b loc = do
  sign_a ← ensure_biguint (is_negative256 a type_a loc) loc
  sign_b ← ensure_biguint (is_negative256 b type_b loc) loc
  ensure_biguint
      (make_conditional (make_numeric_compare sign_a NumericComparison.eq sign_b loc)
        (make_numeric_compare a NumericComparison.lt b loc) (is_negative256 a type_a loc) bool_t
        loc)
      loc

module _ (args : List Expression) (loc : SourceLocation) where
  unfoldable pub handle_sdiv : Build Expression
  unfolding check_arity ensure_biguint absolute big_uint_bin_op is_negative256 negate256
  handle_sdiv = guarded 2 "sdiv" args (do
    a ← ensure_biguint (argument args 0) loc
    b ← ensure_biguint (argument args 1) loc
    abs_a ← absolute a loc
    abs_b ← absolute b loc
    quotient ← big_uint_bin_op abs_a floor_div abs_b loc
    sign_a ← ensure_biguint (is_negative256 a none loc) loc
    sign_b ← ensure_biguint (is_negative256 b none loc) loc
    negated ← negate256 quotient loc
    pure (
        unless_zero b
          (make_conditional (make_numeric_compare sign_a NumericComparison.ne sign_b loc) negated
            quotient biguint_t loc)
          loc))

  unfoldable pub handle_smod : Build Expression
  unfolding check_arity ensure_biguint absolute big_uint_bin_op is_negative256 negate256
  handle_smod = guarded 2 "smod" args (do
    a ← ensure_biguint (argument args 0) loc
    b ← ensure_biguint (argument args 1) loc
    abs_a ← absolute a loc
    abs_b ← absolute b loc
    remainder ← big_uint_bin_op abs_a mod_op abs_b loc
    negated ← negate256 remainder loc
    pure (
        unless_zero b (make_conditional (is_negative256 a none loc) negated remainder biguint_t loc)
          loc))

  -- A comparison with the literal 0 has forms of its own.
  unfoldable pub handle_slt : Build Expression
  unfolding check_arity ensure_biguint is_negative256 compare_signed
  handle_slt =
      let type_a = wtype_of (argument args 0) in
      let type_b = wtype_of (argument args 1) in
      guarded 2 "slt" args (do
        a ← ensure_biguint (argument args 0) loc
        b ← ensure_biguint (argument args 1) loc
        if is_literal_zero b
            then ensure_biguint (is_negative256 a type_a loc) loc
            else if is_literal_zero a
            then ensure_biguint (positive b type_b loc) loc
            else compare_signed a type_a b type_b loc)

module _ (args : List Expression) (loc : SourceLocation) where
  unfoldable pub handle_sgt : Build Expression
  unfolding check_arity handle_slt
  handle_sgt = guarded 2 "sgt" args (handle_slt (argument args 1 ∷ argument args 0 ∷ []) loc)
