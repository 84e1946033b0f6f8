-- ===== src/Examples/Words.antt =====
-- A type that the slot codec refuses, and one that it takes.
use puya_sol.Prelude.Text.{to_string}
use puya_sol.Prelude.{
  ℕ, ◌^◌, ltb→lt, arith, refl, ◌≡◌, false, true, suc, pos, ◌||◌, none, some, if◌then◌else◌,
}
use puya_sol.Awst.Location.{default_location}
use puya_sol.Awst.WType.{WType, basic, bytes, string_type}
use puya_sol.Awst.Session.{fresh_session}
use puya_sol.Awst.Make.Constants.{Ty, uint64_t, make_integer_of, wtype_of}
use puya_sol.SolTypes.IntType.{Solc, from_sol}
use puya_sol.SolTypes.Coercion.Implicit.{implicit_numeric_cast}
use puya_sol.SolTypes.Coercion.Implicit.Values.{
  Means, number, uint_bytes, implicit_numeric_cast-Means,
}
use puya_sol.Awst.Make.Casts.{same_type}
use puya_sol.Storage.SlotWord.{
  native_to_packed_bytes, packed_bytes_to_native, try_unpack_scalar_word, try_unpack_byte_shaped,
}
use puya_sol.Storage.SlotWord.Support.{
  is_some, is_word, is_byte_form, logged, native_to_packed_bytes-supported,
}
use puya_sol.Awst.Expr.{Expression}
use puya_sol.Avm.Decimal.{read_from}
use puya_sol.Avm.Machine.{Avm, uint}
use puya_sol.Avm.Reference.Laws.{reference}
use puya_sol.Storage.SlotWord.Words.{
  Fits, fits_uint64, IsUnsigned, packed_bytes_to_native-native_to_packed_bytes,
}

-- Types named by their width in bits, all unsigned.
abbrev unsigned_types : Solc
unsigned_types = record {
  SolType = ℕ;
  underlying_type = λ t. none;
  encoding_type = λ t. none;
  integer_type = λ t. some (t, false);
}

abbrev text_t : Ty
text_t = some (basic string_type)

abbrev five : Expression
five = make_integer_of 5 default_location

native_to_packed_bytes-supported_example :
    ((native_to_packed_bytes five text_t 8 default_location fresh_session).1 ≡ (
      if is_word text_t || is_byte_form text_t 8
      then fresh_session
      else logged text_t fresh_session))
    × ((is_some (try_unpack_scalar_word unsigned_types five text_t none 8 default_location)
          || is_some (try_unpack_byte_shaped unsigned_types five text_t 8 default_location))
        ≡ (is_word text_t || is_byte_form text_t 8))
native_to_packed_bytes-supported_example =
    native_to_packed_bytes-supported unsigned_types five five text_t none 8 default_location
      fresh_session

abbrev machine : Avm
machine = reference (λ x. none)

five-Fits : Fits uint64_t 4 (uint 5)
five-Fits =
    fits_uint64 5 (ltb→lt 5 (2 ^ 64) refl) (ltb→lt 5 (256 ^ 4) refl) (omega arith) (omega arith)

eval-five : machine.eval five ≡ some (uint 5)
unfolding to_string read_from
eval-five = machine.constant "5" default_location uint64_t refl refl (ltb→lt _ _ refl)

abbrev four_bytes : WType
four_bytes = bytes 40 (some (pos (suc 3)))

implicit_numeric_cast-Means_example :
    (same_type
        (wtype_of (implicit_numeric_cast five (some four_bytes) default_location fresh_session).0)
        (some four_bytes)
      ≡ true)
    × Means machine
        (implicit_numeric_cast five (some four_bytes) default_location fresh_session).0
        four_bytes
        (number 5)
implicit_numeric_cast-Means_example =
    implicit_numeric_cast-Means machine five four_bytes (number 5) default_location fresh_session
      (uint_bytes eval-five (ltb→lt 5 (2 ^ 64) refl) (omega arith) (omega arith) refl)

thirty_two-IsUnsigned : IsUnsigned (from_sol unsigned_types (some 32))
unfolding from_sol
thirty_two-IsUnsigned = refl

packed_bytes_to_native-native_to_packed_bytes_example :
    machine.eval
      (packed_bytes_to_native unsigned_types
        (native_to_packed_bytes five uint64_t 4 default_location fresh_session).0
        uint64_t
        (some 32)
        4
        default_location
        fresh_session).0
    ≡ some (uint 5)
packed_bytes_to_native-native_to_packed_bytes_example =
    packed_bytes_to_native-native_to_packed_bytes machine unsigned_types default_location five
      uint64_t (some 32) 4 (uint 5) fresh_session fresh_session thirty_two-IsUnsigned five-Fits
      eval-five
