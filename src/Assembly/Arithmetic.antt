-- ===== src/Assembly/Arithmetic.antt =====
-- src/builder/assembly/ArithmeticOps.cpp: arithmetic without signs, comparisons and bits; division is in
-- BitwiseShiftOps.cpp.
use puya_sol.Prelude.{List, [], if◌then◌else◌}
use puya_sol.Awst.Location.{SourceLocation}
use puya_sol.Awst.Operators.{NumericComparison, add, sub, mult, floor_div, mod_op}
use puya_sol.Awst.Expr.{Expression, cons, nil}
use puya_sol.Awst.Session.{Build, pure, ◌>>=◌}
use puya_sol.Awst.Make.Constants.{wtype_of, bool_t, bytes_t, make_biguint_constant}
use puya_sol.Awst.Make.Operations.{make_numeric_compare, make_not}
use puya_sol.Awst.Make.Bytes.{make_intrinsic_call}
use puya_sol.Awst.Make.Casts.{same_type, make_as_biguint}
use puya_sol.Assembly.Words.{
  Wide, ensure_biguint, big_uint_bin_op, make_pow256, wrap_mod256, safe_div_mod, pad_to32_bytes,
}
use puya_sol.Assembly.Arguments.{argument, guarded, check_arity, make_yul_compare, make_yul_bitwise}

module _ (wide : Wide) (args : List Expression) (loc : SourceLocation) where
  unfoldable pub handle_mulmod : Build Expression
  unfolding check_arity big_uint_bin_op safe_div_mod
  handle_mulmod = guarded 3 "mulmod" args (do
    product ← big_uint_bin_op (argument args 0) mult (argument args 1) loc
    safe_div_mod wide product mod_op (argument args 2) loc)

  unfoldable pub handle_addmod : Build Expression
  unfolding check_arity big_uint_bin_op safe_div_mod
  handle_addmod = guarded 3 "addmod" args (do
    sum ← big_uint_bin_op (argument args 0) add (argument args 1) loc
    safe_div_mod wide sum mod_op (argument args 2) loc)

  unfoldable pub handle_mod : Build Expression
  unfolding check_arity safe_div_mod
  handle_mod =
      guarded 2 "mod" args (safe_div_mod wide (argument args 0) mod_op (argument args 1) loc)

  unfoldable pub handle_div : Build Expression
  unfolding check_arity ensure_biguint wrap_mod256 safe_div_mod
  handle_div = guarded 2 "div" args (do
    a ← ensure_biguint (argument args 0) loc
    dividend ← wrap_mod256 a loc
    b ← ensure_biguint (argument args 1) loc
    divisor ← wrap_mod256 b loc
    safe_div_mod wide dividend floor_div divisor loc)

module _ (args : List Expression) (loc : SourceLocation) where
  unfoldable pub handle_add : Build Expression
  unfolding check_arity big_uint_bin_op wrap_mod256
  handle_add =
      guarded 2 "add" args
        (do sum ← big_uint_bin_op (argument args 0) add (argument args 1) loc; wrap_mod256 sum loc)

  unfoldable pub handle_mul : Build Expression
  unfolding check_arity big_uint_bin_op wrap_mod256
  handle_mul = guarded 2 "mul" args (do
    product ← big_uint_bin_op (argument args 0) mult (argument args 1) loc
    wrap_mod256 product loc)

  -- (a + 2^256 - b) mod 2^256, without a difference below zero.
  unfoldable pub handle_sub : Build Expression
  unfolding check_arity big_uint_bin_op wrap_mod256
  handle_sub = guarded 2 "sub" args (do
    raised ← big_uint_bin_op (argument args 0) add (make_pow256 loc) loc
    difference ← big_uint_bin_op raised sub (argument args 1) loc
    wrap_mod256 difference loc)

  unfoldable pub handle_iszero : Build Expression
  unfolding check_arity ensure_biguint
  handle_iszero = guarded 1 "iszero" args (
      if same_type (wtype_of (argument args 0)) bool_t
      then pure (make_not (argument args 0) loc)
      else (do
        a ← ensure_biguint (argument args 0) loc
        pure (make_numeric_compare a NumericComparison.eq (make_biguint_constant "0" loc) loc)))

  unfoldable pub handle_eq : Build Expression
  unfolding make_yul_compare
  handle_eq = make_yul_compare args NumericComparison.eq "eq" loc

  unfoldable pub handle_lt : Build Expression
  unfolding make_yul_compare
  handle_lt = make_yul_compare args NumericComparison.lt "lt" loc

  unfoldable pub handle_gt : Build Expression
  unfolding make_yul_compare
  handle_gt = make_yul_compare args NumericComparison.gt "gt" loc

  unfoldable pub handle_and : Build Expression
  unfolding make_yul_bitwise
  handle_and = make_yul_bitwise "b&" args "and" loc

  unfoldable pub handle_or : Build Expression
  unfolding make_yul_bitwise
  handle_or = make_yul_bitwise "b|" args "or" loc

  unfoldable pub handle_xor : Build Expression
  unfolding make_yul_bitwise
  handle_xor = make_yul_bitwise "b^" args "xor" loc

  unfoldable pub handle_not : Build Expression
  unfolding check_arity ensure_biguint pad_to32_bytes
  handle_not = guarded 1 "not" args (do
    a ← ensure_biguint (argument args 0) loc
    padded ← pad_to32_bytes a loc
    pure (make_as_biguint (make_intrinsic_call "b~" bytes_t loc [] (cons padded nil)) loc))
