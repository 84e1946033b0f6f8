-- ===== src/SolTypes/Coercion/Implicit.antt =====
-- TypeCoercion::implicitNumericCast and stringToBytesN (src/builder/sol-types/TypeCoercion.cpp).
pub mod Types
pub mod LowBytes
pub mod Values
use puya_sol.Prelude.{
  ℕ, suc, ◌-◌, pos, Bool, ◌&&◌, ◌||◌, Option, none, some, List, ◌++◌, length, replicate, leb, ltb,
  if◌then◌else◌, utf8_bytes,
}
use puya_sol.Awst.WType.{basic, bytes, account_type, application_type}
use puya_sol.Awst.WType.Equivalence.{structurally_equivalent}
use puya_sol.Awst.Location.{SourceLocation}
use puya_sol.Awst.Operators.{base16}
use puya_sol.Awst.Expr.{Expression, null, node, bytes_constant, string_constant}
use puya_sol.Awst.Session.{Build, pure, ◌>>=◌}
use puya_sol.Awst.Make.Constants.{Ty, uint64_t, biguint_t, wtype_of, make_bytes_constant}
use puya_sol.Awst.Make.Bytes.{
  make_itob, make_btoi, make_left_pad, make_extract_last_n, make_left_pad_to_n,
}
use puya_sol.Awst.Make.Casts.{
  same_type, make_reinterpret_cast, make_as_bytes, make_as_biguint, make_as_uint64,
}

abbrev pub account_t : Ty
account_t = some (basic account_type)

abbrev pub application_t : Ty
application_t = some (basic application_type)

-- `val.resize(n, 0)` on a vector that is not longer.
abbrev pub resize : List ℕ → ℕ → List ℕ
resize bs n = bs ++ replicate (n - length bs) 0

abbrev padded_constant : List ℕ → ℕ → Ty → SourceLocation → Expression
padded_constant bs n target loc = make_bytes_constant (resize bs n) loc base16 target

unfoldable pub string_to_bytes_n : Expression → Ty → ℕ → SourceLocation → Option Expression
string_to_bytes_n (node _ _ (string_constant s)) target n loc =
    if leb n 0
    then none
    else if ltb n (length (utf8_bytes s))
    then none
    else some (padded_constant (utf8_bytes s) n target loc)
string_to_bytes_n _ target n loc = none

abbrev bytes_to_bytes_n : Expression → Ty → ℕ → SourceLocation → Option Expression
bytes_to_bytes_n (node _ _ (bytes_constant bs _)) target n loc =
    if leb (length bs) n then some (padded_constant bs n target loc) else none
bytes_to_bytes_n _ target n loc = none

-- A positive length of a sized bytes type.
abbrev sized : Ty → Option ℕ
sized (some (bytes _ (some (pos (suc n))))) = some (suc n)
sized _ = none

-- The last part of implicitNumericCast: constants and numbers to bytes[N].
abbrev to_sized : Expression → Ty → ℕ → SourceLocation → Build Expression
to_sized e target n loc s = elim (string_to_bytes_n e target n loc) [
  | some padded ↦ (padded, s)
  | none ↦ elim (bytes_to_bytes_n e target n loc) [
    | some padded ↦ (padded, s)
    | none ↦
        if same_type (wtype_of e) biguint_t
        then (do
          padded ← make_left_pad_to_n (make_as_bytes e loc) n loc
          pure (make_reinterpret_cast padded target loc))
            s
        else if same_type (wtype_of e) uint64_t
        then (do
          padded ← make_left_pad_to_n (make_itob e loc) n loc
          pure (make_reinterpret_cast padded target loc))
            s
        else (e, s)
  ]
]

abbrev number_bytes : Expression → SourceLocation → Expression
number_bytes e loc =
    if same_type (wtype_of e) uint64_t then make_itob e loc else make_as_bytes e loc

abbrev is_number : Expression → Bool
is_number e = same_type (wtype_of e) biguint_t || same_type (wtype_of e) uint64_t

unfoldable pub implicit_numeric_cast : Expression → Ty → SourceLocation → Build Expression
unfolding make_left_pad make_extract_last_n make_left_pad_to_n string_to_bytes_n
implicit_numeric_cast null target loc s = (null, s)
implicit_numeric_cast (node l t e) none loc s = (node l t e, s)
implicit_numeric_cast (node l t e) (some w) loc s =
    let x = node l t e in
    if structurally_equivalent t (some w)
    then (x, s)
    else if same_type (some w) account_t && same_type t application_t
    then (
      make_reinterpret_cast (make_left_pad (make_itob (make_as_uint64 x loc) loc) 24 loc) (some w)
          loc,
      s,
    )
    else if same_type (some w) account_t && is_number x
    then (do
      last ← make_extract_last_n (make_left_pad (number_bytes x loc) 32 loc) 32 loc
      pure (make_reinterpret_cast last account_t loc))
        s
    else if same_type t uint64_t && same_type (some w) biguint_t
    then (make_as_biguint (make_itob x loc) loc, s)
    else if same_type t biguint_t && same_type (some w) uint64_t
    then (do
      low ← make_extract_last_n (make_left_pad (make_as_bytes x loc) 8 loc) 8 loc
      pure (make_btoi low loc none))
        s
    else elim (sized (some w)) [ some n ↦ to_sized x (some w) n loc s | none ↦ (x, s) ]
