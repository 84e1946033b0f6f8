-- ===== src/Storage/SlotWord.antt =====
-- src/builder/storage/SlotWordCodec.cpp: a value and its bytes in a packed EVM slot. A window is at
-- most 32 bytes wide; where the source subtracts unsigned numbers for a pad it assumes so too.
pub mod Roundtrip
pub mod Support
pub mod Words
use puya_sol.Prelude.{
  ◌%◌, ℕ, ◌+◌, ◌-◌, ◌/◌, ◌^◌, ℤ, pos, negsuc, sub_ℕ, Bool, true, false, ◌&&◌, ◌||◌, not, Option,
  none, some, List, [], ◌∷◌, String, ◌<>◌, leb, ltb, ◌==◌, nat_eq, string_eq, int_eq, replicate,
  if◌then◌else◌, to_string,
}
use puya_sol.Awst.WType.{
  WType, basic, bytes, arc4_uint_n, arc4_static_array, uint64_type, bool_type, biguint_type,
  account_type, application_type, arc4_bool_type, name, kind, WTypeKind, bytes_kind,
  arc4_uint_n_kind,
}
use puya_sol.Awst.Location.{SourceLocation}
use puya_sol.Awst.Operators.{UInt64BinaryOperator, NumericComparison, gte, base16}
use puya_sol.Awst.Expr.{Expression, null, node}
use puya_sol.Awst.Session.{Build, pure, ◌>>=◌, ◌>>◌, log_error}
use puya_sol.Awst.Make.Constants.{
  Ty, arc4_bool_t, uint64_t, bool_t, biguint_t, make_integer_constant, make_integer_of,
  make_bytes_constant, bytes_t,
}
use puya_sol.Awst.Make.Operations.{make_conditional, make_uint64_bin_op, make_numeric_compare}
use puya_sol.Awst.Make.Bytes.{
  make_itob, make_btoi, make_extract, make_left_pad, make_concat, make_bzero_of,
  make_zero_extend_to_n,
}
use puya_sol.Awst.Make.Casts.{
  same_type, make_reinterpret_cast, make_as_bytes, make_as_biguint, make_as_account,
  make_arc4_decode, make_arc4_encode,
}
use puya_sol.SolTypes.IntType.{SolIntType, Solc, from_sol}
use puya_sol.SolTypes.Coercion.Implicit.{account_t, application_t}
use puya_sol.SolTypes.Coercion.Extend.{sign_extend_signed_element}

-- The length of a static array of bytes.
abbrev pub byte_array_size : Ty → Option ℤ
byte_array_size (some (arc4_static_array _ (arc4_uint_n _ n _) size _)) =
    if n == pos 8 then some size else none
byte_array_size _ = none

abbrev pub is_byte_array : Ty → ℕ → Bool
is_byte_array w size = elim (byte_array_size w) [ some k ↦ k == pos size | none ↦ false ]

-- The width k of a byte array with 0 < k < size, read as an `unsigned`.
abbrev pub narrow_of : Option ℤ → ℕ → Option ℕ
narrow_of (some (pos k)) size = if ltb 0 k && ltb (k % 2 ^ 32) size then some (k % 2 ^ 32) else none
narrow_of _ size = none

abbrev pub is_narrow_byte_array : Ty → ℕ → Option ℕ
is_narrow_byte_array w size = narrow_of (byte_array_size w) size

abbrev is_static_array : WType → Bool
is_static_array (arc4_static_array _ _ _ _) = true
is_static_array _ = false

abbrev pub is_arc4_address : Ty → ℕ → Bool
is_arc4_address none size = false
is_arc4_address (some w) size = name w == "address" && is_static_array w && leb size 32

-- The length of a sized bytes type that is shorter than the window.
abbrev pub short_bytes : Ty → ℕ → Option ℕ
short_bytes (some (bytes _ (some (pos k)))) size = if ltb k size then some k else none
short_bytes _ size = none

abbrev pub is_bytes : Ty → Bool
is_bytes (some (bytes _ _)) = true
is_bytes _ = false

-- The width in bits of an arc4.uintN.
abbrev pub uint_n_bits : Ty → Option ℕ
uint_n_bits (some (arc4_uint_n _ (pos n) _)) = some n
uint_n_bits _ = none

abbrev pub one_or_zero : Expression → SourceLocation → Expression
one_or_zero e loc =
    make_conditional e (make_integer_constant "1" loc uint64_t)
      (make_integer_constant "0" loc uint64_t) uint64_t loc

abbrev pub trailing32 : Expression → ℕ → SourceLocation → Expression
trailing32 e size loc = make_extract e (sub_ℕ 32 size) (pos size) loc

unfoldable pub pack_uint64 : Expression → ℕ → SourceLocation → Expression
unfolding make_left_pad
pack_uint64 u64 size loc =
    let itob = make_itob u64 loc in
    if size == 8
    then itob
    else if ltb 8 size
    then make_left_pad itob (size - 8) loc
    else make_extract itob (sub_ℕ 8 size) (pos size) loc

-- The application arm calls nativeToPackedBytes again, at uint64, which is this function's first arm.
unfoldable pub try_pack_scalar_word : Expression → Ty → ℕ → SourceLocation → Option Expression
unfolding pack_uint64 make_zero_extend_to_n
try_pack_scalar_word value w size loc =
    if same_type w uint64_t
    then some (pack_uint64 value size loc)
    else if same_type w bool_t
    then some (pack_uint64 (one_or_zero value loc) size loc)
    else if same_type w application_t
    then some (pack_uint64 (make_reinterpret_cast value uint64_t loc) size loc)
    else if same_type w biguint_t
    then some (trailing32 (make_zero_extend_to_n (make_as_bytes value loc) 32 loc) size loc)
    else if same_type w account_t
    then some (trailing32 (make_as_bytes value loc) size loc)
    else if same_type w arc4_bool_t
    then some (
        make_extract (make_itob (one_or_zero (make_arc4_decode value bool_t loc) loc) loc)
          (sub_ℕ 8 size) (pos size) loc)
    else elim (uint_n_bits w) [
      | some _ ↦ some (trailing32 (make_zero_extend_to_n (make_as_bytes value loc) 32 loc) size loc)
      | none ↦ none
    ]

abbrev pub pad_right : Expression → ℕ → ℕ → SourceLocation → Expression
pad_right value k size loc =
    make_concat (make_as_bytes value loc) (make_bzero_of (size - k) loc) loc

unfoldable pub try_pack_byte_shaped : Expression → Ty → ℕ → SourceLocation → Option Expression
try_pack_byte_shaped value w size loc = elim (short_bytes w size) [
  | some k ↦ some (pad_right value k size loc)
  | none ↦
      if is_bytes w || is_byte_array w size
      then some (make_as_bytes value loc)
      else elim (is_narrow_byte_array w size) [
        | some k ↦ some (pad_right value k size loc)
        | none ↦
            if is_arc4_address w size
            then some (trailing32 (make_as_bytes value loc) size loc)
            else none
      ]
]

abbrev type_name : Ty → String
type_name none = "<null>"
type_name (some w) = name w

abbrev pub unsupported : Ty → String
unsupported w = "unsupported type '" <> (type_name w <> "' in packed storage slot")

unfoldable pub native_to_packed_bytes : Expression → Ty → ℕ → SourceLocation → Build Expression
unfolding try_pack_scalar_word try_pack_byte_shaped log_error
native_to_packed_bytes value w size loc = elim (try_pack_scalar_word value w size loc) [
  | some packed ↦ pure packed
  | none ↦ elim (try_pack_byte_shaped value w size loc) [
    | some packed ↦ pure packed
    | none ↦ do
      log_error (unsupported w)
      pure (make_bytes_constant (replicate size 0) loc base16 bytes_t)
  ]
]

-- A BytesWType, and whether it has a length.
abbrev bytes_has_length : WType → Option Bool
bytes_has_length (bytes _ (some _)) = some true
bytes_has_length (bytes _ none) = some false
bytes_has_length _ = none

abbrev positive : Option ℤ → Bool
positive (some (pos k)) = ltb 0 k
positive _ = false

unfoldable pub is_byte_shaped : Ty → Bool
is_byte_shaped none = false
is_byte_shaped (some w) = elim (bytes_has_length w) [
  | some b ↦ b
  | none ↦ if name w == "address" then false else positive (byte_array_size (some w))
]

-- btoi of the window, or of its low 8 bytes.
unfoldable pub unpack_uint64 : Expression → ℕ → SourceLocation → Expression
unpack_uint64 raw size loc =
    if ltb 8 size
    then make_btoi (make_extract raw (sub_ℕ size 8) (pos 8) loc) loc none
    else make_btoi raw loc none

-- Two's complement of a sub-64 signed integer, from its width to 64 bits.
unfoldable pub extend_to64 : Expression → SolIntType → SourceLocation → Expression
extend_to64 u64 t loc =
    let is_neg = make_numeric_compare u64 gte (make_integer_of (2 ^ (t.bits - 1)) loc) loc in
    let extended =
      make_uint64_bin_op u64 UInt64BinaryOperator.add (make_integer_of (2 ^ 64 - 2 ^ t.bits) loc)
        loc in
    make_conditional is_neg extended u64 uint64_t loc

abbrev pub extend_for : Option SolIntType → Expression → SourceLocation → Expression
extend_for none u64 loc = u64
extend_for (some t) u64 loc = if t.is_signed && ltb t.bits 64 then extend_to64 u64 t loc else u64

module _ (solc : Solc) where
  open solc use {SolType}

  abbrev pub extend_signed : Expression → Option SolType → SourceLocation → Expression
  extend_signed u64 sol loc = extend_for (from_sol solc sol) u64 loc

  abbrev not_zero : Expression → SourceLocation → Expression
  not_zero e loc =
      make_numeric_compare e NumericComparison.ne (make_integer_constant "0" loc uint64_t) loc

  -- The backing bytes of an arc4.uintN, out of a window of another width.
  abbrev realign : Expression → ℕ → ℕ → SourceLocation → Expression
  realign raw backing size loc =
      if ltb size backing
      then make_left_pad raw (backing - size) loc
      else if ltb backing size
      then make_extract raw (sub_ℕ size backing) (pos backing) loc
      else raw

  unfoldable pub try_unpack_scalar_word :
      Expression → Ty → Option SolType → ℕ → SourceLocation → Option (Build Expression)
  unfolding unpack_uint64 extend_to64 make_left_pad make_arc4_encode sign_extend_signed_element
  try_unpack_scalar_word raw w sol size loc =
      if same_type w uint64_t
      then some (pure (extend_signed (unpack_uint64 raw size loc) sol loc))
      else if same_type w bool_t
      then some (pure (not_zero (unpack_uint64 raw size loc) loc))
      else if same_type w biguint_t
      then some (sign_extend_signed_element solc (make_as_biguint raw loc) sol loc)
      else if same_type w account_t
      then some (pure (make_as_account (make_left_pad raw (32 - size) loc) loc))
      else if same_type w application_t
      then some (pure (make_reinterpret_cast (unpack_uint64 raw size loc) application_t loc))
      else if same_type w arc4_bool_t
      then some (make_arc4_encode (not_zero (make_btoi raw loc none) loc) arc4_bool_t loc)
      else elim (uint_n_bits w) [
        | some n ↦ some (pure (make_reinterpret_cast (realign raw (n / 8) size loc) w loc))
        | none ↦ none
      ]

  unfoldable pub try_unpack_byte_shaped : Expression → Ty → ℕ → SourceLocation → Option Expression
  unfolding make_left_pad
  try_unpack_byte_shaped raw w size loc = elim (short_bytes w size) [
    | some k ↦ some (make_reinterpret_cast (make_extract raw (pos 0) (pos k) loc) w loc)
    | none ↦
        if is_bytes w || is_byte_array w size
        then some (make_reinterpret_cast raw w loc)
        else elim (is_narrow_byte_array w size) [
          | some k ↦ some (make_reinterpret_cast (make_extract raw (pos 0) (pos k) loc) w loc)
          | none ↦
              if is_arc4_address w size
              then some (make_reinterpret_cast (make_left_pad raw (32 - size) loc) w loc)
              else none
        ]
  ]

  unfoldable pub packed_bytes_to_native :
      Expression → Ty → Option SolType → ℕ → SourceLocation → Build Expression
  unfolding try_unpack_scalar_word try_unpack_byte_shaped log_error
  packed_bytes_to_native raw w sol size loc = elim (try_unpack_scalar_word raw w sol size loc) [
    | some native ↦ native
    | none ↦ elim (try_unpack_byte_shaped raw w size loc) [
      | some native ↦ pure native
      | none ↦ do log_error (unsupported w); pure null
    ]
  ]
