-- ===== src/Avm/Reference.antt =====
-- An evaluator for expressions without effects, over a fixed value for each variable: a machine that
-- meets the laws of Avm/Machine.
pub mod Numbers
pub mod Laws
use puya_sol.Prelude.{
  ℕ, ◌+◌, ◌-◌, ◌<◌, ℤ, pos, negsuc, Bool, true, false, Option, none, some, List, [], ◌∷◌, ◌++◌,
  String, ◌==◌, string_eq, if◌then◌else◌, length, take, drop, replicate, eqb, ltb, leb, ◌^◌,
}
use Prim.Native.Nat.{bit_or}
use puya_sol.Awst.WType.{WType, basic, biguint_type}
use puya_sol.Awst.Operators.{
  UInt64BinaryOperator, BigUIntBinaryOperator, NumericComparison, BinaryBooleanOperator, Immediate,
  number,
}
use puya_sol.Awst.Expr
use puya_sol.Awst.Expr.{Expression, null, node, ExprNode, Expressions}
use puya_sol.Awst.Make.Constants.{Ty, biguint_t}
use puya_sol.Awst.Make.Casts.{same_type}
use puya_sol.Avm.Decimal.{read}
use puya_sol.Avm.Digits.{be, num}
use puya_sol.Avm.Machine.{
  Value, uint, byte_string, truth, holds, uint_arithmetic, big_arithmetic, set_bit,
}
use puya_sol.Avm.Reference.Numbers.{to_bytes}

abbrev pub Result : Type 0
Result = Option Value

abbrev pub constant_value : Ty → ℕ → Result
constant_value t n =
    if same_type t biguint_t
    then (if ltb n (2 ^ 512) then some (byte_string (to_bytes n)) else none)
    else some (uint n)

abbrev pub choose : Result → Result → Result → Result
choose (some (uint n)) x y = if eqb n 0 then y else x
choose _ x y = none

abbrev pub compare_values : NumericComparison → Result → Result → Result
compare_values op (some (uint m)) (some (uint n)) = some (truth (holds op m n))
compare_values op (some (byte_string xs)) (some (byte_string ys)) =
    some (truth (holds op (num xs) (num ys)))
compare_values op _ _ = none

abbrev pub as_uint : Option ℕ → Result
as_uint (some n) = some (uint n)
as_uint none = none

abbrev pub as_big : Option ℕ → Result
as_big (some n) = some (byte_string (to_bytes n))
as_big none = none

abbrev pub uint_operation : UInt64BinaryOperator → Result → Result → Result
uint_operation op (some (uint m)) (some (uint n)) = as_uint (uint_arithmetic op m n)
uint_operation op _ _ = none

abbrev pub big_operation : BigUIntBinaryOperator → Result → Result → Result
big_operation op (some (byte_string xs)) (some (byte_string ys)) =
    as_big (big_arithmetic op (num xs) (num ys))
big_operation op _ _ = none

abbrev pub decode_bool_value : Result → Result
decode_bool_value (some (byte_string (b ∷ []))) = if eqb b 128 then some (uint 1) else some (uint 0)
decode_bool_value _ = none

abbrev pub encode_bool_value : Result → Result
encode_bool_value (some (uint n)) = some (byte_string ((if eqb n 0 then 0 else 128) ∷ []))
encode_bool_value _ = none

abbrev pub negate_value : Result → Result
negate_value (some (uint n)) = some (uint (if eqb n 0 then 1 else 0))
negate_value _ = none

abbrev pub both : Result → Result → Result
both (some (uint m)) (some (uint n)) = some (uint (if eqb m 0 then 0 else n))
both _ _ = none

abbrev pub run_subtract : List Result → Result
run_subtract (some (uint m) ∷ some (uint n) ∷ []) = if leb n m then some (uint (m - n)) else none
run_subtract _ = none

abbrev pub run_extract_uint64 : List Result → Result
run_extract_uint64 (some (byte_string bs) ∷ some (uint o) ∷ []) =
    some (uint (num (take 8 (drop o bs))))
run_extract_uint64 _ = none

abbrev pub run_itob : List Result → Result
run_itob (some (uint n) ∷ []) = some (byte_string (be 8 n))
run_itob _ = none

abbrev pub run_btoi : List Result → Result
run_btoi (some (byte_string bs) ∷ []) = some (uint (num bs))
run_btoi _ = none

abbrev pub run_len : List Result → Result
run_len (some (byte_string bs) ∷ []) = some (uint (length bs))
run_len _ = none

abbrev pub run_concat : List Result → Result
run_concat (some (byte_string xs) ∷ some (byte_string ys) ∷ []) = some (byte_string (xs ++ ys))
run_concat _ = none

abbrev pub run_extract : List Immediate → List Result → Result
run_extract (number (pos o) ∷ number (pos l) ∷ []) (some (byte_string bs) ∷ []) =
    some (byte_string (take l (drop o bs)))
run_extract _ _ = none

abbrev pub run_extract3 : List Result → Result
run_extract3 (some (byte_string bs) ∷ some (uint o) ∷ some (uint l) ∷ []) =
    some (byte_string (take l (drop o bs)))
run_extract3 _ = none

abbrev pub run_bzero : List Result → Result
run_bzero (some (uint n) ∷ []) = some (byte_string (replicate n 0))
run_bzero _ = none

abbrev pub run_setbit : List Result → Result
run_setbit (some (byte_string bs) ∷ some (uint k) ∷ some (uint v) ∷ []) =
    some (byte_string (set_bit bs k))
run_setbit _ = none

abbrev pub or_bytes : List ℕ → List ℕ → List ℕ
or_bytes (x ∷ xs) (y ∷ ys) = (if eqb x 0 then y else bit_or x y) ∷ or_bytes xs ys
or_bytes _ _ = []

-- Zeros in front, up to a length.
abbrev pub extend_to : ℕ → List ℕ → List ℕ
extend_to n bs = replicate (n - length bs) 0 ++ bs

abbrev pub run_or : List Result → Result
run_or (some (byte_string xs) ∷ some (byte_string ys) ∷ []) =
    some (byte_string (or_bytes (extend_to (length ys) xs) (extend_to (length xs) ys)))
run_or _ = none

pub intrinsic : String → List Immediate → List Result → Result
intrinsic op immediates args =
    if op == "-"
    then run_subtract args
    else if op == "extract_uint64"
    then run_extract_uint64 args
    else if op == "itob"
    then run_itob args
    else if op == "btoi"
    then run_btoi args
    else if op == "len"
    then run_len args
    else if op == "concat"
    then run_concat args
    else if op == "extract"
    then run_extract immediates args
    else if op == "extract3"
    then run_extract3 args
    else if op == "bzero"
    then run_bzero args
    else if op == "setbit"
    then run_setbit args
    else if op == "b|"
    then run_or args
    else none

module _ (variable : String → Option Value) where
  unfoldable mutual
    unfolding intrinsic

    pub evaluate : Expression → Result
    evaluate null = none
    evaluate (node _ t e) = evaluate_node t e

    pub evaluate_node : Ty → ExprNode → Result
    evaluate_node t (Expr.integer_constant value) = constant_value t (read value)
    evaluate_node t (Expr.var_expression name) = variable name
    evaluate_node t (Expr.single_evaluation e _) = evaluate e
    evaluate_node t (Expr.reinterpret_cast e) = evaluate e
    evaluate_node t (Expr.conditional_expression c a b) =
        choose (evaluate c) (evaluate a) (evaluate b)
    evaluate_node t (Expr.numeric_comparison_expression a op b) =
        compare_values op (evaluate a) (evaluate b)
    evaluate_node t (Expr.uint64_binary_operation a op b) =
        uint_operation op (evaluate a) (evaluate b)
    evaluate_node t (Expr.big_uint_binary_operation a op b) =
        big_operation op (evaluate a) (evaluate b)
    evaluate_node t (Expr.arc4_decode e) = decode_bool_value (evaluate e)
    evaluate_node t (Expr.arc4_encode e) = encode_bool_value (evaluate e)
    evaluate_node t (Expr.intrinsic_call op immediates args) =
        intrinsic op immediates (evaluate_all args)
    evaluate_node t (Expr.not_expression e) = negate_value (evaluate e)
    evaluate_node t (Expr.boolean_binary_operation a BinaryBooleanOperator.and b) =
        both (evaluate a) (evaluate b)
    evaluate_node t e = none

    pub evaluate_all : Expressions → List Result
    evaluate_all Expr.nil = []
    evaluate_all (Expr.cons e es) = evaluate e ∷ evaluate_all es
