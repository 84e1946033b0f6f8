-- ===== src/Assembly/Shift.antt =====
-- src/builder/assembly/BitwiseShiftOps.cpp and `sar` of SignedOps.cpp: shifts, byte extraction and sign
-- extension.
use puya_sol.Prelude.{
  ℕ, ◌-◌, ◌*◌, none, Option, some, List, [], ◌∷◌, String, if◌then◌else◌, leb, to_string,
}
use puya_sol.Awst.Location.{SourceLocation}
use puya_sol.Awst.Operators.{UInt64BinaryOperator, NumericComparison, sub, mult, floor_div}
use puya_sol.Awst.Expr.{Expression, node, integer_constant}
use puya_sol.Awst.Session.{Build, pure, ◌>>=◌}
use puya_sol.Awst.Make.Constants.{
  wtype_of, uint64_t, biguint_t, make_integer_constant, make_biguint_constant, make_one,
}
use puya_sol.Awst.Make.Operations.{
  make_conditional, make_uint64_bin_op, make_numeric_compare, make_eval_once,
}
use puya_sol.Awst.Make.Bytes.{
  make_bytes_or, make_bzero_of, make_left_pad, make_extract_last_n, make_extract3, make_btoi,
  make_setbit,
}
use puya_sol.Awst.Make.Casts.{same_type, make_as_bytes, make_as_biguint}
use puya_sol.Assembly.Words.{
  ensure_biguint, big_uint_bin_op, wrap_mod256, safe_btoi, pad_to32_bytes,
}
use puya_sol.Assembly.Arguments.{argument, guarded, check_arity}
use puya_sol.Assembly.Signed.{is_negative256, max_word}

-- The low 8 bytes of a shift that is no uint64.
unfoldable pub shift_amount : Expression → SourceLocation → Build Expression
unfolding make_left_pad make_extract_last_n
shift_amount shift loc = if same_type (wtype_of shift) uint64_t then pure shift else (do
  low ← make_extract_last_n (make_left_pad (make_as_bytes shift loc) 8 loc) 8 loc
  pure (make_btoi low loc none))

-- AssemblyBuilder::buildPowerOf2: a one at bit 255 - shift of 32 zero bytes.
unfoldable pub build_power_of2 : Expression → SourceLocation → Build Expression
unfolding shift_amount
build_power_of2 shift loc = do
  amount ← shift_amount shift loc
  let clamped =
      make_uint64_bin_op amount UInt64BinaryOperator.mod_op
        (make_integer_constant "256" loc uint64_t) loc
  let index =
      make_uint64_bin_op (make_integer_constant "255" loc uint64_t) UInt64BinaryOperator.sub clamped
        loc
  pure (make_as_biguint (make_setbit (make_bzero_of 32 loc) index (make_one loc uint64_t) loc) loc)

-- `shift < 256 ? result : 0`.
abbrev pub below256 : Expression → Expression → SourceLocation → Expression
below256 shift result loc =
    make_conditional
      (make_numeric_compare shift NumericComparison.lt (make_integer_constant "256" loc biguint_t)
        loc)
      result (make_integer_constant "0" loc biguint_t) biguint_t loc

module _ (args : List Expression) (loc : SourceLocation) where
  unfoldable pub handle_shl : Build Expression
  unfolding check_arity ensure_biguint make_eval_once wrap_mod256 build_power_of2 big_uint_bin_op
  handle_shl = guarded 2 "shl" args (do
    amount ← ensure_biguint (argument args 0) loc
    shift ← make_eval_once amount loc
    raw ← ensure_biguint (argument args 1) loc
    value ← wrap_mod256 raw loc
    power ← build_power_of2 shift loc
    product ← big_uint_bin_op value mult power loc
    wrapped ← wrap_mod256 product loc
    pure (below256 shift wrapped loc))

  unfoldable pub handle_shr : Build Expression
  unfolding check_arity ensure_biguint make_eval_once wrap_mod256 build_power_of2 big_uint_bin_op
  handle_shr = guarded 2 "shr" args (do
    amount ← ensure_biguint (argument args 0) loc
    shift ← make_eval_once amount loc
    raw ← ensure_biguint (argument args 1) loc
    value ← wrap_mod256 raw loc
    power ← build_power_of2 shift loc
    quotient ← big_uint_bin_op value floor_div power loc
    pure (below256 shift quotient loc))

  unfoldable pub handle_byte : Build Expression
  unfolding check_arity ensure_biguint make_eval_once pad_to32_bytes safe_btoi
  handle_byte = guarded 2 "byte" args (do
    padded ← pad_to32_bytes (argument args 1) loc
    n ← ensure_biguint (argument args 0) loc
    index ← make_eval_once n loc
    let in_range =
        make_numeric_compare index NumericComparison.lt (make_integer_constant "32" loc biguint_t)
          loc
    let extracted =
        make_as_biguint
          (make_extract3 padded (safe_btoi index loc) (make_one loc uint64_t) loc none) loc
    pure (make_conditional in_range extracted (make_biguint_constant "0" loc) biguint_t loc))

module _ (args : List Expression) (loc : SourceLocation) where
  -- The shifted word, with the sign bits above it when the word is negative: MAX - shr(shift, MAX).
  unfoldable pub handle_sar : Build Expression
  unfolding check_arity ensure_biguint make_eval_once wrap_mod256 handle_shr is_negative256
      big_uint_bin_op
  handle_sar = guarded 2 "sar" args (do
    raw ← ensure_biguint (argument args 1) loc
    word ← wrap_mod256 raw loc
    value ← make_eval_once word loc
    shifted ← handle_shr (argument args 0 ∷ value ∷ []) loc
    mask ← handle_shr (argument args 0 ∷ max_word loc ∷ []) loc
    fill ← big_uint_bin_op (max_word loc) sub mask loc
    shifted_again ← handle_shr (argument args 0 ∷ value ∷ []) loc
    pure (
        make_conditional (is_negative256 value none loc)
          (make_as_biguint (make_bytes_or (make_as_bytes shifted loc) (make_as_bytes fill loc) loc)
            loc)
          shifted_again biguint_t loc))

-- `248 - 8 * min(b, 31)` of an operand.
unfoldable pub sign_shift : Expression → SourceLocation → Build Expression
unfolding ensure_biguint big_uint_bin_op
sign_shift b loc = do
  compared ← ensure_biguint b loc
  chosen ← ensure_biguint b loc
  let limit = make_integer_constant "31" loc biguint_t
  let lowest =
      make_conditional (make_numeric_compare compared NumericComparison.lt limit loc) chosen limit
        biguint_t loc
  bits ← big_uint_bin_op lowest mult (make_integer_constant "8" loc biguint_t) loc
  big_uint_bin_op (make_integer_constant "248" loc biguint_t) sub bits loc

-- sar(s, shl(s, x)): the sign bit of the field goes to bit 255 and is spread from there.
unfoldable pub spread_sign :
    Expression → Expression → Expression → SourceLocation → Build Expression
unfolding handle_shl handle_sar
spread_sign left x right loc = do
  shifted ← handle_shl (left ∷ x ∷ []) loc
  handle_sar (right ∷ shifted ∷ []) loc

-- `stoull` is std::stoull, for a text that it reads without an exception.
unfoldable pub handle_signextend :
    (String → ℕ) → List Expression → SourceLocation → Build Expression
unfolding check_arity ensure_biguint sign_shift spread_sign
handle_signextend stoull args loc = guarded 2 "signextend" args (do
  x ← ensure_biguint (argument args 1) loc
  elim (literal (argument args 0)) [
    | none ↦ (do
      left ← sign_shift (argument args 0) loc
      y ← ensure_biguint (argument args 1) loc
      shifted ← handle_shl (left ∷ y ∷ []) loc
      right ← sign_shift (argument args 0) loc
      handle_sar (right ∷ shifted ∷ []) loc)
    | some v ↦
        let s = make_integer_constant (to_string (248 - 8 * stoull v)) loc biguint_t in
        if leb 31 (stoull v) then pure x else spread_sign s x s loc
  ])
  where
    literal : Expression → Option String
    literal (node _ _ (integer_constant v)) = some v
    literal _ = none
