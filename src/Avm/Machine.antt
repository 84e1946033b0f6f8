-- ===== src/Avm/Machine.antt =====
-- What the AVM operations that the builders emit compute. The AVM and the backend are no part of the
-- repository: `eval`, the value of an expression in a fixed state, is a parameter, and each law below
-- is the documented behaviour of one opcode or of one node without an opcode of its own.
use puya_sol.Prelude.{
  ◌*◌, ℕ, ◌+◌, ◌-◌, ◌/◌, ◌%◌, ◌<◌, ◌≤◌, ◌^◌, ◌≡◌, Bool, true, false, Option, none, some, List, [],
  ◌∷◌, ◌++◌, pos, length, replicate, All, if◌then◌else◌, ltb, leb, eqb, not, ◌&&◌, String,
}
use puya_sol.Awst.Location.{SourceLocation}
use puya_sol.Awst.Operators.{
  UInt64BinaryOperator, BigUIntBinaryOperator, NumericComparison, BinaryBooleanOperator,
}
use puya_sol.Awst.Expr.{Expression, node, arc4_encode, cons, nil}
use puya_sol.Awst.Make.Constants.{
  Ty, arc4_bool_t, bool_t, uint64_t, biguint_t, make_integer_constant,
}
use puya_sol.Awst.Make.Operations.{
  make_conditional, make_uint64_bin_op, make_big_uint_bin_op, make_numeric_compare, make_not,
  make_bool_bin_op, make_single_evaluation,
}
use puya_sol.Awst.Make.Bytes.{
  make_intrinsic_call, make_itob, make_btoi, make_extract, make_extract3, make_extract_uint64,
  make_len, make_concat, make_bzero_of, make_bytes_or, make_setbit,
}
use puya_sol.Awst.Make.Casts.{same_type, make_reinterpret_cast, make_arc4_decode}
use puya_sol.Avm.Decimal.{read, is_decimal}
use puya_sol.Avm.Digits.{be, num, IsByte}

-- The two kinds of values on the AVM stack.
pub data Value : Type 0 where
  uint : ℕ → Value
  byte_string : List ℕ → Value

-- How a truth value stands on the stack.
abbrev pub truth : Bool → Value
truth true = uint 1
truth false = uint 0

abbrev pub holds : NumericComparison → ℕ → ℕ → Bool
holds NumericComparison.eq a b = eqb a b
holds NumericComparison.ne a b = not (eqb a b)
holds NumericComparison.lt a b = ltb a b
holds NumericComparison.lte a b = leb a b
holds NumericComparison.gt a b = ltb b a
holds NumericComparison.gte a b = leb b a

-- Arithmetic of the AVM: a difference below zero and a division by zero end the program. The other
-- operators get no result here.
abbrev pub uint_arithmetic : UInt64BinaryOperator → ℕ → ℕ → Option ℕ
uint_arithmetic UInt64BinaryOperator.add a b = some (a + b)
uint_arithmetic UInt64BinaryOperator.sub a b = if leb b a then some (a - b) else none
uint_arithmetic UInt64BinaryOperator.mult a b = some (a * b)
uint_arithmetic UInt64BinaryOperator.floor_div a b = if eqb b 0 then none else some (a / b)
uint_arithmetic UInt64BinaryOperator.mod_op a b = if eqb b 0 then none else some (a % b)
uint_arithmetic _ a b = none

abbrev pub big_arithmetic : BigUIntBinaryOperator → ℕ → ℕ → Option ℕ
big_arithmetic BigUIntBinaryOperator.add a b = some (a + b)
big_arithmetic BigUIntBinaryOperator.sub a b = if leb b a then some (a - b) else none
big_arithmetic BigUIntBinaryOperator.mult a b = some (a * b)
big_arithmetic BigUIntBinaryOperator.floor_div a b = if eqb b 0 then none else some (a / b)
big_arithmetic BigUIntBinaryOperator.mod_op a b = if eqb b 0 then none else some (a % b)
big_arithmetic _ a b = none

-- `setbit` to 1: bit 0 is the highest of the first byte. For a bit that is 0.
abbrev pub set_bit : List ℕ → ℕ → List ℕ
set_bit [] i = []
set_bit (b ∷ bs) i = if ltb i 8 then (b + 2 ^ (7 - i)) ∷ bs else b ∷ set_bit bs (i - 8)

-- An expression whose value is the big-endian form of a number, of at most 64 bytes, as biguint
-- operations take it.
pub record Big (eval : Expression → Option Value) (e : Expression) (n : ℕ) : Type 0 where
  pub bytes : List ℕ
  pub evaluates : eval e ≡ some (byte_string bytes)
  pub value : num bytes ≡ n
  pub are_bytes : All IsByte bytes
  pub fits : length bytes ≤ 64

pub record Avm : Type 0 where
  pub eval : Expression → Option Value
  -- A constant is written in decimal: a biguint, or a number on the stack.
  pub constant :
      (s : String) (loc : SourceLocation) (t : Ty)
      → is_decimal s ≡ true
      → same_type t biguint_t ≡ false
      → read s < 2 ^ 64
      → eval (make_integer_constant s loc t) ≡ some (uint (read s))
  pub big_constant :
      (s : String) (loc : SourceLocation)
      → is_decimal s ≡ true
      → read s < 2 ^ 512
      → Big eval (make_integer_constant s loc biguint_t) (read s)
  -- Whatever its type, a constant that has a value has the one that it is written as.
  pub constant_value :
      (s : String) (loc : SourceLocation) (t : Ty) (n : ℕ)
      → is_decimal s ≡ true
      → eval (make_integer_constant s loc t) ≡ some (uint n)
      → n ≡ read s
  pub big_constant_value :
      (s : String) (loc : SourceLocation) (t : Ty) (n : ℕ)
      → is_decimal s ≡ true
      → Big eval (make_integer_constant s loc t) n
      → n ≡ read s
  pub uint_op :
      (a b : Expression) (op : UInt64BinaryOperator) (loc : SourceLocation) (m n k : ℕ)
      → eval a ≡ some (uint m)
      → eval b ≡ some (uint n)
      → uint_arithmetic op m n ≡ some k
      → k < 2 ^ 64
      → eval (make_uint64_bin_op a op b loc) ≡ some (uint k)
  pub big_op :
      (a b : Expression) (op : BigUIntBinaryOperator) (loc : SourceLocation) (m n k : ℕ)
      → Big eval a m
      → Big eval b n
      → big_arithmetic op m n ≡ some k
      → k < 2 ^ 512
      → Big eval (make_big_uint_bin_op a op b loc) k
  pub compare_uint :
      (a b : Expression) (op : NumericComparison) (loc : SourceLocation) (m n : ℕ)
      → eval a ≡ some (uint m)
      → eval b ≡ some (uint n)
      → eval (make_numeric_compare a op b loc) ≡ some (truth (holds op m n))
  pub compare_big :
      (a b : Expression) (op : NumericComparison) (loc : SourceLocation) (m n : ℕ)
      → Big eval a m
      → Big eval b n
      → eval (make_numeric_compare a op b loc) ≡ some (truth (holds op m n))
  pub itob :
      (e : Expression) (loc : SourceLocation) (n : ℕ)
      → eval e ≡ some (uint n)
      → n < 2 ^ 64
      → eval (make_itob e loc) ≡ some (byte_string (be 8 n))
  pub btoi :
      (e : Expression) (loc : SourceLocation) (t : Ty) (bs : List ℕ)
      → eval e ≡ some (byte_string bs)
      → length bs ≤ 8
      → eval (make_btoi e loc t) ≡ some (uint (num bs))
  pub len :
      (e : Expression) (loc : SourceLocation) (bs : List ℕ)
      → eval e ≡ some (byte_string bs)
      → eval (make_len e loc) ≡ some (uint (length bs))
  pub concat :
      (a b : Expression) (loc : SourceLocation) (xs ys : List ℕ)
      → eval a ≡ some (byte_string xs)
      → eval b ≡ some (byte_string ys)
      → length xs + length ys ≤ 4096
      → eval (make_concat a b loc) ≡ some (byte_string (xs ++ ys))
  pub extract :
      (e : Expression) (loc : SourceLocation) (xs ys zs : List ℕ)
      → eval e ≡ some (byte_string (xs ++ (ys ++ zs)))
      → length xs < 256
      → 0 < length ys
      → length ys < 256
      → eval (make_extract e (pos (length xs)) (pos (length ys)) loc) ≡ some (byte_string ys)
  pub extract3 :
      (e o l : Expression) (loc : SourceLocation) (t : Ty) (xs ys zs : List ℕ)
      → eval e ≡ some (byte_string (xs ++ (ys ++ zs)))
      → eval o ≡ some (uint (length xs))
      → eval l ≡ some (uint (length ys))
      → eval (make_extract3 e o l loc t) ≡ some (byte_string ys)
  pub bzero :
      (n : ℕ) (loc : SourceLocation)
      → n ≤ 4096
      → eval (make_bzero_of n loc) ≡ some (byte_string (replicate n 0))
  pub setbit :
      (e i v : Expression) (loc : SourceLocation) (k n : ℕ)
      → eval e ≡ some (byte_string (replicate n 0))
      → eval i ≡ some (uint k)
      → eval v ≡ some (uint 1)
      → k < 8 * n
      → eval (make_setbit e i v loc) ≡ some (byte_string (set_bit (replicate n 0) k))
  -- The shorter operand is extended by zeros on the left, and zero bytes change nothing.
  pub bytes_or :
      (a b : Expression) (loc : SourceLocation) (n : ℕ) (bs : List ℕ)
      → eval a ≡ some (byte_string (replicate n 0))
      → eval b ≡ some (byte_string bs)
      → length bs ≤ 64
      → eval (make_bytes_or a b loc) ≡ some (byte_string (replicate (n - length bs) 0 ++ bs))
  pub cast :
      (e : Expression) (t : Ty) (loc : SourceLocation) (v : Value)
      → eval e ≡ some v
      → eval (make_reinterpret_cast e t loc) ≡ some v
  -- An expression that is evaluated once has its value wherever it stands.
  pub once :
      (e : Expression) (t : Ty) (id : ℕ) (loc : SourceLocation) (v : Value)
      → eval e ≡ some v
      → eval (make_single_evaluation e t (pos id) loc) ≡ some v
  -- Only the branch that is taken is evaluated.
  pub conditional :
      (c a b : Expression) (t : Ty) (loc : SourceLocation) (test : Bool) (v : Value)
      → eval c ≡ some (truth test)
      → eval (if test then a else b) ≡ some v
      → eval (make_conditional c a b t loc) ≡ some v
  pub negation :
      (e : Expression) (loc : SourceLocation) (b : Bool)
      → eval e ≡ some (truth b)
      → eval (make_not e loc) ≡ some (truth (not b))
  pub conjunction :
      (a b : Expression) (loc : SourceLocation) (p q : Bool)
      → eval a ≡ some (truth p)
      → eval b ≡ some (truth q)
      → eval (make_bool_bin_op a BinaryBooleanOperator.and b loc) ≡ some (truth (p && q))
  pub subtract :
      (a b : Expression) (loc : SourceLocation) (m n : ℕ)
      → eval a ≡ some (uint m)
      → eval b ≡ some (uint n)
      → n ≤ m
      → eval (make_intrinsic_call "-" uint64_t loc [] (cons a (cons b nil))) ≡ some (uint (m - n))
  pub extract_uint64 :
      (e o : Expression) (loc : SourceLocation) (t : Ty) (xs ys zs : List ℕ)
      → eval e ≡ some (byte_string (xs ++ (ys ++ zs)))
      → eval o ≡ some (uint (length xs))
      → length ys ≡ 8
      → eval (make_extract_uint64 e o loc t) ≡ some (uint (num ys))
  -- ARC4 holds a Boolean in the high bit of a byte.
  pub decode_bool :
      (e : Expression) (loc : SourceLocation) (b : Bool)
      → eval e ≡ some (byte_string ((if b then 128 else 0) ∷ []))
      → eval (make_arc4_decode e bool_t loc) ≡ some (truth b)
  pub encode_bool :
      (e : Expression) (loc : SourceLocation) (b : Bool)
      → eval e ≡ some (truth b)
      → eval (node loc arc4_bool_t (arc4_encode e))
        ≡ some (byte_string ((if b then 128 else 0) ∷ []))
