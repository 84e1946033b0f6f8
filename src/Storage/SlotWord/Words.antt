-- ===== src/Storage/SlotWord/Words.antt =====
-- Words through the codec and back (src/builder/storage/SlotWordCodec.cpp).
use puya_sol.Prelude.{
  ℕ, ◌-◌, ◌<◌, ◌≤◌, ◌^◌, ◌≡◌, refl, false, Option, none, some, List, ◌++◌, length, replicate, arith,
}
use puya_sol.Awst.Location.{SourceLocation}
use puya_sol.Awst.Expr.{Expression}
use puya_sol.Awst.Session.{Session}
use puya_sol.Awst.Make.Constants.{Ty, uint64_t}
use puya_sol.Awst.Make.Casts.{make_as_bytes}
use puya_sol.SolTypes.IntType.{SolIntType, Solc, from_sol}
use puya_sol.SolTypes.Coercion.Implicit.{account_t, application_t}
use puya_sol.Storage.SlotWord.{
  extend_for, pack_uint64, unpack_uint64, native_to_packed_bytes, packed_bytes_to_native,
  try_pack_scalar_word, try_unpack_scalar_word,
}
use puya_sol.Avm.Digits.{length-replicate}
use puya_sol.Avm.Machine.{Value, uint, byte_string, Avm}
use puya_sol.Storage.SlotWord.Roundtrip.{
  eval-make_left_pad, eval-extract_tail, eval-pack_uint64, eval-unpack_uint64,
}

-- The values that fit a window: a number below 256 ^ size, a Boolean, an application by its id, and an
-- address with zeros before its last `size` bytes.
pub data Fits : Ty → ℕ → Value → Type 0 where
  fits_uint64 :
      {size : ℕ} (n : ℕ)
      → n < 2 ^ 64
      → n < 256 ^ size
      → 0 < size
      → size ≤ 32
      → Fits uint64_t size (uint n)
  fits_application :
      {size : ℕ} (n : ℕ)
      → n < 2 ^ 64
      → n < 256 ^ size
      → 0 < size
      → size ≤ 32
      → Fits application_t size (uint n)
  fits_account :
      (bs : List ℕ)
      → 0 < length bs
      → length bs ≤ 32
      → Fits account_t (length bs) (byte_string (replicate (32 - length bs) 0 ++ bs))

-- No integer type, or one without a sign.
abbrev pub IsUnsigned : Option SolIntType → Type 0
IsUnsigned none = Unit
IsUnsigned (some t) = t.is_signed ≡ false

extend_for-unsigned :
    (o : Option SolIntType) (u : Expression) (loc : SourceLocation)
    → IsUnsigned o
    → extend_for o u loc ≡ u
extend_for-unsigned none u loc h = refl
extend_for-unsigned (some t) u loc h = rw h refl

-- A uint64, an application id or an address that fits its window, packed and unpacked, has its
-- value again, whatever the sessions, for an unsigned integer of solc or a type that is none, over
-- any machine that meets the documented laws of the AVM opcodes.
pub packed_bytes_to_native-native_to_packed_bytes :
    (m : Avm) (solc : Solc) (loc : SourceLocation) (e : Expression) (w : Ty)
    (sol : Option solc.SolType) (size : ℕ) (v : Value) (s t : Session)
    → IsUnsigned (from_sol solc sol)
    → Fits w size v
    → m.eval e ≡ some v
    → m.eval
        (packed_bytes_to_native solc (native_to_packed_bytes e w size loc s).0 w sol size loc t).0
      ≡ some v
unfolding native_to_packed_bytes packed_bytes_to_native try_pack_scalar_word try_unpack_scalar_word
packed_bytes_to_native-native_to_packed_bytes m solc loc e w sol size v s t no_int
      (fits_uint64 n h k l u) ev =
    rw
      (extend_for-unsigned (from_sol solc sol) (unpack_uint64 (pack_uint64 e size loc) size loc) loc
        no_int)
      (eval-unpack_uint64 m loc (pack_uint64 e size loc) n size
        (eval-pack_uint64 m loc e n size ev h k l u) h k u)
packed_bytes_to_native-native_to_packed_bytes m solc loc e w sol size v s t no_int
      (fits_application n h k l u) ev =
    m.cast _ _ loc (uint n) (
      eval-unpack_uint64 m loc _ n size
        (eval-pack_uint64 m loc _ n size (m.cast e uint64_t loc (uint n) ev) h k l u) h k u)
packed_bytes_to_native-native_to_packed_bytes m solc loc e w sol size v s t no_int
      (fits_account bs h k) ev =
    m.cast _ _ loc _ (
      eval-make_left_pad m loc _ (32 - length bs) bs
        (eval-extract_tail m loc (make_as_bytes e loc) 32 (length bs) (replicate (32 - length bs) 0)
          bs (m.cast e _ loc _ ev) (length-replicate _ _) refl h k (omega arith))
        (omega arith) (omega arith))
