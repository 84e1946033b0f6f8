-- ===== src/Awst/Make/Casts.antt =====
-- Casts, ARC4 coding and storage keys (src/awst/Node.h).
use puya_sol.Prelude.{
  ℕ, ◌/◌, ◌%◌, pos, sub_ℕ, Bool, true, false, ◌&&◌, ◌||◌, Option, none, some, [], String, ltb, ◌==◌,
  nat_eq, if◌then◌else◌,
}
use text.Mathlib.Text.{starts_with}
use puya_sol.Awst.WType.{
  basic, account_type, application_type, string_type, box_key_type, arc4_uint_n, ptr_eq,
}
use puya_sol.Awst.Location.{SourceLocation}
use puya_sol.Awst.Expr.{
  Expression, null, node, reinterpret_cast, arc4_encode, arc4_decode, nil, cons,
}
use puya_sol.Awst.Session.{Build, pure, ◌>>=◌}
use puya_sol.Awst.Make.Constants.{Ty, uint64_t, biguint_t, bool_t, bytes_t, make_integer_constant}
use puya_sol.Awst.Make.Bytes.{
  make_intrinsic_call, make_itob, make_btoi, make_len, make_concat, make_extract, make_left_pad,
  make_extract_last_n, make_extract_uint64,
}

abbrev pub make_reinterpret_cast : Expression → Ty → SourceLocation → Expression
make_reinterpret_cast e target loc = node loc target (reinterpret_cast e)

abbrev pub make_as_bytes : Expression → SourceLocation → Expression
make_as_bytes e loc = make_reinterpret_cast e bytes_t loc

abbrev pub make_as_biguint : Expression → SourceLocation → Expression
make_as_biguint e loc = make_reinterpret_cast e biguint_t loc

abbrev pub make_as_account : Expression → SourceLocation → Expression
make_as_account e loc = make_reinterpret_cast e (some (basic account_type)) loc

abbrev pub make_as_application : Expression → SourceLocation → Expression
make_as_application e loc = make_reinterpret_cast e (some (basic application_type)) loc

abbrev pub make_as_uint64 : Expression → SourceLocation → Expression
make_as_uint64 e loc = make_reinterpret_cast e uint64_t loc

abbrev pub make_arc4_decode : Expression → Ty → SourceLocation → Expression
make_arc4_decode value wtype loc = node loc wtype (arc4_decode value)

-- Comparison of two pointers to types, null included.
abbrev pub same_type : Ty → Ty → Bool
same_type none none = true
same_type (some a) (some b) = ptr_eq a b
same_type none (some _) = false
same_type (some _) none = false

-- dynamic_cast to ARC4UIntN: the width and the alias.
abbrev pub as_uint_n : Ty → Option (ℕ × String)
as_uint_n (some (arc4_uint_n _ (pos n) alias)) = some (n, alias)
as_uint_n _ = none

-- The signed case: `arc4.intN` from a uint64.
abbrev signed_operand : Expression → ℕ → SourceLocation → Expression
signed_operand value n loc =
    if ltb n 64 && n % 8 == 0
    then make_as_biguint (make_extract (make_itob value loc) (sub_ℕ 8 (n / 8)) (pos (n / 8)) loc)
        loc
    else make_as_biguint (make_itob value loc) loc

abbrev from_uint64 : Expression → Ty → SourceLocation → Expression
from_uint64 null wtype loc = null
from_uint64 (node l t e) wtype loc =
    if same_type t uint64_t
    then elim (as_uint_n wtype) [
      | some w ↦ if starts_with w.1 "int" then signed_operand (node l t e) w.0 loc else node l t e
      | none ↦ node l t e
    ]
    else node l t e

-- The trimming of a biguint to the low bytes of a narrower type.
abbrev from_biguint : Expression → Ty → SourceLocation → Build Expression
from_biguint null wtype loc s = (null, s)
from_biguint (node l t e) wtype loc s =
    if same_type t biguint_t
    then elim (as_uint_n wtype) [
      | some w ↦
          if ltb w.0 256 && w.0 % 8 == 0
          then (do
            low ←
                make_extract_last_n (make_left_pad (make_as_bytes (node l t e) loc) (w.0 / 8) loc)
                  (w.0 / 8) loc
            pure (make_as_biguint low loc))
              s
          else (node l t e, s)
      | none ↦ (node l t e, s)
    ]
    else (node l t e, s)

unfoldable pub make_arc4_encode : Expression → Ty → SourceLocation → Build Expression
unfolding make_extract_last_n make_left_pad
make_arc4_encode value wtype loc = do
  operand ← from_biguint (from_uint64 value wtype loc) wtype loc
  pure (node loc wtype (arc4_encode operand))

unfoldable pub make_key_bytes : Expression → Ty → SourceLocation → Build Expression
unfolding make_extract_last_n make_left_pad
make_key_bytes value enc_type loc s =
    if same_type enc_type uint64_t
    then (make_itob value loc, s)
    else if same_type enc_type bool_t
    then (make_itob (make_as_uint64 value loc) loc, s)
    else if same_type enc_type biguint_t
    then make_extract_last_n (make_left_pad (make_reinterpret_cast value bytes_t loc) 32 loc) 32 loc
        s
    else if same_type enc_type (some (basic string_type)) || same_type enc_type bytes_t
    then (
      make_intrinsic_call "sha256" bytes_t loc []
          (cons (make_reinterpret_cast value bytes_t loc) nil),
      s,
    )
    else (make_reinterpret_cast value bytes_t loc, s)

unfoldable pub make_mapping_key_layer :
    Expression → Ty → Expression → SourceLocation → Build Expression
unfolding make_key_bytes
make_mapping_key_layer value enc_type prefix loc = do
  key_bytes ← make_key_bytes value enc_type loc
  pure (
      make_intrinsic_call "sha256" (some (basic box_key_type)) loc []
        (cons (make_concat key_bytes prefix loc) nil))

unfoldable pub make_biguint_to_uint64 : Expression → SourceLocation → Expression
unfolding make_left_pad
make_biguint_to_uint64 value loc =
    let cat = make_left_pad (make_reinterpret_cast value bytes_t loc) 8 loc in
    let start =
      make_intrinsic_call "-" uint64_t loc []
        (cons (make_len cat loc) (cons (make_integer_constant "8" loc uint64_t) nil)) in
    make_extract_uint64 cat start loc none

unfoldable pub make_word32_to_uint64 : Expression → SourceLocation → Expression
make_word32_to_uint64 word32 loc = make_btoi (make_extract word32 (pos 24) (pos 8) loc) loc none
