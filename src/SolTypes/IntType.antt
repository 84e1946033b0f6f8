-- ===== src/SolTypes/IntType.antt =====
-- src/builder/sol-types/SolIntType.h, SolIntType.cpp. The types of solc are a parameter: what the
-- source asks of them by dynamic_cast. `none` as a type is a null pointer.
use puya_sol.Prelude.{
  ℕ, ◌^◌, ◌-◌, pos, Bool, Option, none, some, String, ltb, eqb, if◌then◌else◌, to_string, ◌==◌,
  nat_eq,
}
use text.Mathlib.Text.{starts_with}
use puya_sol.Awst.WType.{WType, basic, uint64_type, biguint_type, arc4_uint_n}

pub record SolIntType : Type 0 where
  pub bits : ℕ
  pub is_signed : Bool

-- What libsolidity says of a type.
pub record Solc : Type 1 where
  pub SolType : Type 0
  pub underlying_type : SolType → Option SolType
  pub encoding_type : SolType → Option SolType
  pub integer_type : SolType → Option (ℕ × Bool)

unfoldable pub biguint_backed : SolIntType → Bool
biguint_backed t = ltb 64 t.bits

unfoldable pub native_wtype : SolIntType → WType
unfolding biguint_backed
native_wtype t = if biguint_backed t then basic biguint_type else basic uint64_type

-- TypeCoercion::pow2NAndHalf: 2^bits and 2^(bits - 1) in decimal. The source shifts in 256 bits,
-- where 2^256 does not fit, and has that case as two literals.
-- `u256(1) << bits`.
abbrev shifted_one : ℕ → ℕ
shifted_one bits = if ltb bits 256 then 2 ^ bits else 0

-- `bits - 1` of an `unsigned`.
abbrev one_less : ℕ → ℕ
one_less bits = if eqb bits 0 then 2 ^ 32 - 1 else bits - 1

unfoldable pub pow2_n_and_half : ℕ → String × String
pow2_n_and_half bits =
    if bits == 256
    then (to_string (2 ^ 256), to_string (2 ^ 255))
    else (to_string (shifted_one bits), to_string (shifted_one (one_less bits)))

module _ (solc : Solc) where
  open solc use {SolType, underlying_type, encoding_type, integer_type}

  abbrev int_type_of : Option (ℕ × Bool) → Option SolIntType
  int_type_of none = none
  int_type_of (some (bits, is_signed)) = some (record { bits = bits; is_signed = is_signed })

  abbrev unwrap : SolType → SolType
  unwrap t = elim (underlying_type t) [ none ↦ t | some u ↦ u ]

  abbrev enum_as_integer : SolType → SolType
  enum_as_integer t = elim (encoding_type t) [ none ↦ t | some u ↦ u ]

  unfoldable pub from_sol : Option SolType → Option SolIntType
  from_sol none = none
  from_sol (some t) = int_type_of (integer_type (unwrap t))

  unfoldable pub from_sol_or_enum : Option SolType → Option SolIntType
  unfolding from_sol
  from_sol_or_enum none = none
  from_sol_or_enum (some t) = from_sol (some (enum_as_integer (unwrap t)))

unfoldable pub from_arc4 : Option WType → Option SolIntType
from_arc4 (some (arc4_uint_n _ (pos n) alias)) =
    some (record { bits = n; is_signed = starts_with alias "int" })
from_arc4 _ = none
