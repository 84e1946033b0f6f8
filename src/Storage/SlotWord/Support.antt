-- ===== src/Storage/SlotWord/Support.antt =====
-- Which types the codec takes (src/builder/storage/SlotWordCodec.cpp).
use puya_sol.Prelude.{
  ℕ, ◌≡◌, refl, ap₂, ◌∙◌, Bool, true, false, ◌||◌, Option, none, some, [], ◌∷◌, ◌++◌, if◌then◌else◌,
  arith,
}
use puya_sol.Awst.Location.{SourceLocation}
use puya_sol.Awst.WType.{bytes}
use puya_sol.Awst.Expr.{Expression}
use puya_sol.Awst.Session.{Session, Build, pure, log_error}
use puya_sol.Awst.Make.Constants.{Ty, arc4_bool_t, uint64_t, biguint_t, bool_t}
use puya_sol.Awst.Make.Casts.{same_type}
use puya_sol.SolTypes.IntType.{Solc}
use puya_sol.SolTypes.Coercion.Implicit.{account_t, application_t}
use puya_sol.Storage.SlotWord.{
  is_byte_array, is_narrow_byte_array, is_arc4_address, short_bytes, is_bytes, uint_n_bits,
  try_pack_scalar_word, try_pack_byte_shaped, unsupported, native_to_packed_bytes,
  try_unpack_scalar_word, try_unpack_byte_shaped,
}

abbrev pub is_some {ℓ} : {A : Type ℓ} → Option A → Bool
is_some none = false
is_some (some _) = true

-- The types that are one word, or bytes of an arc4.uintN.
abbrev pub is_word : Ty → Bool
is_word w =
    same_type w uint64_t
    || (same_type w bool_t
        || (same_type w biguint_t
            || (same_type w account_t
                || (same_type w application_t
                    || (same_type w arc4_bool_t || is_some (uint_n_bits w))))))

-- The types that are stored as their bytes in a window of the size.
abbrev pub is_byte_form : Ty → ℕ → Bool
is_byte_form w size =
    is_bytes w
    || (is_byte_array w size || (is_some (is_narrow_byte_array w size) || is_arc4_address w size))

abbrev pub logged : Ty → Session → Session
logged w s = record s { errors = s.errors ++ (unsupported w ∷ []) }

-- The arms of the two chains of tests over the word types.
arms {ℓ} :
    {A : Type ℓ} (p q r s t u : Bool) (o : Option ℕ) (x1 x2 x3 x4 x5 x6 : A) (f : ℕ → A)
    → is_some (
        if p
        then some x1
        else if q
        then some x2
        else if r
        then some x3
        else if s
        then some x4
        else if t
        then some x5
        else if u
        then some x6
        else elim o [ some n ↦ some (f n) | none ↦ none ])
      ≡ (p || (q || (r || (s || (t || (u || is_some o))))))
arms true q r s t u o x1 x2 x3 x4 x5 x6 f = refl
arms false true r s t u o x1 x2 x3 x4 x5 x6 f = refl
arms false false true s t u o x1 x2 x3 x4 x5 x6 f = refl
arms false false false true t u o x1 x2 x3 x4 x5 x6 f = refl
arms false false false false true u o x1 x2 x3 x4 x5 x6 f = refl
arms false false false false false true o x1 x2 x3 x4 x5 x6 f = refl
arms false false false false false false none x1 x2 x3 x4 x5 x6 f = refl
arms false false false false false false (some n) x1 x2 x3 x4 x5 x6 f = refl

swap :
    (a b c d e f : Bool)
    → (a || (b || (c || (d || (e || f))))) ≡ (a || (b || (d || (e || (c || f)))))
swap a b c d e f = ground arith

try_pack_scalar_word-is_word :
    (e : Expression) (w : Ty) (size : ℕ) (loc : SourceLocation)
    → is_some (try_pack_scalar_word e w size loc) ≡ is_word w
unfolding try_pack_scalar_word
try_pack_scalar_word-is_word e w size loc =
    arms (same_type w uint64_t) (same_type w bool_t) (same_type w application_t)
      (same_type w biguint_t) (same_type w account_t) (same_type w arc4_bool_t) (uint_n_bits w) _ _
      _ _ _ _ _
    ∙ swap (same_type w uint64_t) (same_type w bool_t) (same_type w application_t)
        (same_type w biguint_t) (same_type w account_t) _

try_unpack_scalar_word-is_word :
    (solc : Solc) (e : Expression) (w : Ty) (sol : Option solc.SolType) (size : ℕ)
    (loc : SourceLocation)
    → is_some (try_unpack_scalar_word solc e w sol size loc) ≡ is_word w
unfolding try_unpack_scalar_word
try_unpack_scalar_word-is_word solc e w sol size loc =
    arms (same_type w uint64_t) (same_type w bool_t) (same_type w biguint_t) (same_type w account_t)
      (same_type w application_t) (same_type w arc4_bool_t) (uint_n_bits w) _ _ _ _ _ _ _

-- The arms over the types that are bytes.
byte_arms :
    {A : Type 0} (o : Option ℕ) (p q r : Bool) (n : Option ℕ) (f g : ℕ → A) (x y : A)
    → is_some (elim o [
      | some k ↦ some (f k)
      | none ↦
          if p || q
          then some x
          else elim n [ some k ↦ some (g k) | none ↦ if r then some y else none ]
    ])
      ≡ (is_some o || (p || (q || (is_some n || r))))
byte_arms (some k) p q r n f g x y = refl
byte_arms none true q r n f g x y = refl
byte_arms none false true r n f g x y = refl
byte_arms none false false r (some k) f g x y = refl
byte_arms none false false true none f g x y = refl
byte_arms none false false false none f g x y = refl

or_true : (c : Bool) → (c || true) ≡ true
or_true true = refl
or_true false = refl

short_bytes-is_bytes :
    (w : Ty) (size : ℕ) (b : Bool)
    → (is_some (short_bytes w size) || (is_bytes w || b)) ≡ (is_bytes w || b)
short_bytes-is_bytes (some (bytes a n)) size b =
    or_true (is_some (short_bytes (some (bytes a n)) size))
short_bytes-is_bytes w size b = refl

try_pack_byte_shaped-is_byte_form :
    (e : Expression) (w : Ty) (size : ℕ) (loc : SourceLocation)
    → is_some (try_pack_byte_shaped e w size loc) ≡ is_byte_form w size
unfolding try_pack_byte_shaped
try_pack_byte_shaped-is_byte_form e w size loc =
    byte_arms (short_bytes w size) (is_bytes w) (is_byte_array w size) (is_arc4_address w size)
      (is_narrow_byte_array w size) _ _ _ _
    ∙ short_bytes-is_bytes w size _

try_unpack_byte_shaped-is_byte_form :
    (solc : Solc) (e : Expression) (w : Ty) (size : ℕ) (loc : SourceLocation)
    → is_some (try_unpack_byte_shaped solc e w size loc) ≡ is_byte_form w size
unfolding try_unpack_byte_shaped
try_unpack_byte_shaped-is_byte_form solc e w size loc =
    byte_arms (short_bytes w size) (is_bytes w) (is_byte_array w size) (is_arc4_address w size)
      (is_narrow_byte_array w size) _ _ _ _
    ∙ short_bytes-is_bytes w size _

-- The first arm that gives an expression is taken, and otherwise `refuse` is run.
abbrev first_arm : Option Expression → Option Expression → Build Expression → Build Expression
first_arm o p refuse = elim o [
  | some x ↦ pure x
  | none ↦ elim p [ some x ↦ pure x | none ↦ refuse ]
]

settled :
    (o p : Option Expression) (refuse : Build Expression) (s : Session)
    → (first_arm o p refuse s).1 ≡ (if is_some o || is_some p then s else (refuse s).1)
settled (some x) p refuse s = refl
settled none (some x) refuse s = refl
settled none none refuse s = refl

-- Packing a value of a type that the codec takes changes nothing in the session, and for any other
-- type it logs one error, with the name of the type. Unpacking has an arm for the same types in the
-- same windows: a word type, or bytes, a byte array that fits the window, or an address.
pub native_to_packed_bytes-supported :
    (solc : Solc) (e raw : Expression) (w : Ty) (sol : Option solc.SolType) (size : ℕ)
    (loc : SourceLocation) (s : Session)
    → ((native_to_packed_bytes e w size loc s).1
        ≡ (if is_word w || is_byte_form w size then s else logged w s))
      × ((is_some (try_unpack_scalar_word solc raw w sol size loc)
            || is_some (try_unpack_byte_shaped solc raw w size loc))
          ≡ (is_word w || is_byte_form w size))
unfolding native_to_packed_bytes log_error
native_to_packed_bytes-supported solc e raw w sol size loc s = (
  settled (try_pack_scalar_word e w size loc) (try_pack_byte_shaped e w size loc) _ s
      ∙ ap₂ (λ a b. if a || b then s else logged w s) (try_pack_scalar_word-is_word e w size loc)
          (try_pack_byte_shaped-is_byte_form e w size loc),
  ap₂ (λ a b. a || b) (try_unpack_scalar_word-is_word solc raw w sol size loc)
      (try_unpack_byte_shaped-is_byte_form solc raw w size loc),
)
