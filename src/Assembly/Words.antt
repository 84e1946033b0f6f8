-- ===== src/Assembly/Words.antt =====
-- What the opcode handlers share (src/builder/assembly/AssemblyBuilder.cpp, MemoryHelpers.cpp): the
-- coercion of an operand to biguint, the wrap to a word, division that is 0 for the divisor 0. The
-- arguments of one call are built from left to right here; where the source leaves the order open,
-- only the order of logged errors depends on it. `Wide` is the map m_localWideConstants.
use puya_sol.Prelude.{
  ℕ, ◌^◌, Bool, true, false, ◌&&◌, ◌||◌, not, Option, none, some, List, [], ◌∷◌, String, ◌<>◌, ◌==◌,
  string_eq, eqb, leb, if◌then◌else◌, codes, to_string,
}
use puya_sol.Awst.WType.{name, bytes, arc4_uint_n}
use puya_sol.Awst.Location.{SourceLocation}
use puya_sol.Awst.Operators.{BigUIntBinaryOperator, NumericComparison, mod_op}
use puya_sol.Awst.Expr.{Expression, null, node, var_expression, integer_constant}
use puya_sol.Awst.Session.{Build, pure, ◌>>=◌, ◌>>◌, log_error}
use puya_sol.Awst.Make.Constants.{Ty, uint64_t, biguint_t, bool_t, make_biguint_constant}
use puya_sol.Awst.Make.Operations.{
  make_big_uint_bin_op, make_conditional, make_numeric_compare, make_eval_once,
}
use puya_sol.Awst.Make.Bytes.{make_itob, make_left_pad, make_extract_last_n}
use puya_sol.Awst.Make.Casts.{same_type, make_as_bytes, make_as_biguint, make_biguint_to_uint64}
use puya_sol.SolTypes.Coercion.Implicit.{account_t}

abbrev pub Wide : Type 0
Wide = List (String × String)

abbrev is_bytes : Ty → Bool
is_bytes (some (bytes _ _)) = true
is_bytes _ = false

abbrev is_uint_n : Ty → Bool
is_uint_n (some (arc4_uint_n _ _ _)) = true
is_uint_n _ = false

abbrev type_name : Ty → String
type_name none = ""
type_name (some w) = name w

abbrev no_value : Ty → String
no_value t =
    "cannot coerce non-scalar type '"
    <> (type_name t <> "' to biguint in assembly arithmetic — no integer value")

-- AssemblyBuilder::ensureBiguint. Every expression that reaches it has a type.
unfoldable pub ensure_biguint : Expression → SourceLocation → Build Expression
unfolding log_error
ensure_biguint null loc = pure null
ensure_biguint (node l t e) loc =
    let x = node l t e in
    if same_type t biguint_t
    then pure x
    else if same_type t bool_t
    then pure (
        make_conditional x (make_biguint_constant "1" loc) (make_biguint_constant "0" loc) biguint_t
          loc)
    else if same_type t uint64_t
    then pure (make_as_biguint (make_itob x loc) loc)
    else if is_bytes t
    then pure (make_as_biguint x loc)
    else if same_type t account_t || is_uint_n t
    then pure (make_as_biguint (make_as_bytes x loc) loc)
    else do log_error (no_value t); pure (make_biguint_constant "0" loc)

-- AssemblyBuilder::makeBigUIntBinOp.
unfoldable pub big_uint_bin_op :
    Expression → BigUIntBinaryOperator → Expression → SourceLocation → Build Expression
unfolding ensure_biguint
big_uint_bin_op left op right loc = do
  a ← ensure_biguint left loc
  b ← ensure_biguint right loc
  pure (make_big_uint_bin_op a op b loc)

-- makePow256 (src/builder/sol-types/TypeCoercion.h).
abbrev pub make_pow256 : SourceLocation → Expression
make_pow256 loc = make_biguint_constant (to_string (2 ^ 256)) loc

unfoldable pub wrap_mod256 : Expression → SourceLocation → Build Expression
unfolding big_uint_bin_op
wrap_mod256 e loc = big_uint_bin_op e mod_op (make_pow256 loc) loc

-- `std::string::find_first_not_of` on a set of characters: is there another one?
abbrev pub any_char : (ℕ → Bool) → List ℕ → Bool
any_char p [] = false
any_char p (c ∷ cs) = p c || any_char p cs

unfoldable pub is_non_zero_decimal : String → Bool
is_non_zero_decimal v =
    not (v == "")
    && not (any_char (λ c. not (leb 48 c && leb c 57)) (codes v))
    && any_char (λ c. not (eqb c 48)) (codes v)

abbrev pub find_wide : String → Wide → Option String
find_wide n [] = none
find_wide n ((m, v) ∷ rest) = if m == n then some v else find_wide n rest

abbrev pub known_text : Wide → Expression → Option String
known_text wide (node _ _ (var_expression n)) = find_wide n wide
known_text wide (node _ _ (integer_constant v)) = some v
known_text wide _ = none

unfoldable pub divisor_is_known_non_zero : Wide → Expression → Bool
unfolding is_non_zero_decimal
divisor_is_known_non_zero wide divisor = elim (known_text wide divisor) [
  | some v ↦ is_non_zero_decimal v
  | none ↦ false
]

-- `right != 0 ? left op right : 0`, over a divisor that is evaluated once.
unfoldable pub guarded_div_mod :
    Expression → BigUIntBinaryOperator → Expression → SourceLocation → Build Expression
unfolding ensure_biguint make_eval_once big_uint_bin_op
guarded_div_mod left op right loc = do
  divisor ← ensure_biguint right loc
  once ← make_eval_once divisor loc
  let test = make_numeric_compare once NumericComparison.ne (make_biguint_constant "0" loc) loc
  quotient ← big_uint_bin_op left op once loc
  pure (make_conditional test quotient (make_biguint_constant "0" loc) biguint_t loc)

unfoldable pub safe_div_mod :
    Wide → Expression → BigUIntBinaryOperator → Expression → SourceLocation → Build Expression
unfolding divisor_is_known_non_zero guarded_div_mod ensure_biguint big_uint_bin_op
safe_div_mod wide left op right loc =
    if divisor_is_known_non_zero wide right
    then (do divisor ← ensure_biguint right loc; big_uint_bin_op left op divisor loc)
    else guarded_div_mod left op right loc

unfoldable pub safe_btoi : Expression → SourceLocation → Expression
unfolding make_biguint_to_uint64
safe_btoi e loc = make_biguint_to_uint64 e loc

unfoldable pub pad_to32_bytes : Expression → SourceLocation → Build Expression
unfolding make_left_pad make_extract_last_n
pad_to32_bytes e loc = make_extract_last_n (make_left_pad (make_as_bytes e loc) 32 loc) 32 loc
