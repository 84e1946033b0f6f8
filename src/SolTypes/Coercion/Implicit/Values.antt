-- ===== src/SolTypes/Coercion/Implicit/Values.antt =====
-- The value of what TypeCoercion::implicitNumericCast gives
-- (src/builder/sol-types/TypeCoercion.cpp).
use puya_sol.Prelude.{
  ℕ, suc, le→leb, ◌-◌, ◌%◌, ◌<◌, ◌≤◌, ◌^◌, ◌≡◌, refl, ap, ◌∙◌, Bool, true, false, none, some, List,
  ◌++◌, pos, length, replicate, arith, inl, inr, Bool-cases, leb, ltb, eqb_iff, String, utf8_bytes,
  ◌==◌, nat_eq,
}
use puya_sol.Awst.Location.{SourceLocation}
use puya_sol.Awst.WType.{
  WType, basic, bytes, account_type, biguint_type, uint64_type, immutable, name,
}
use puya_sol.Awst.WType.Equivalence.{structurally_equivalent, equivalent_impl, enter, seen_pair}
use puya_sol.Awst.Expr.{Expression, node, ExprNode, string_constant, bytes_constant}
use puya_sol.Awst.Session.{Session}
use puya_sol.Awst.Operators.{base16, BytesEncoding}
use puya_sol.Awst.Make.Constants.{Ty, uint64_t, biguint_t, wtype_of, make_bytes_constant}
use puya_sol.Awst.Make.Bytes.{make_left_pad, make_extract_last_n, make_left_pad_to_n}
use puya_sol.Awst.Make.Casts.{same_type}
use puya_sol.Avm.Machine.{uint, Big, Avm}
use puya_sol.SolTypes.Coercion.Implicit.{
  application_t, string_to_bytes_n, bytes_to_bytes_n, to_sized, implicit_numeric_cast,
}
use puya_sol.SolTypes.Coercion.Implicit.LowBytes.{
  BytesOf, cast-BytesOf, uint-Big, uint_low, biguint_low, padded_id,
}

-- What is cast: a number, or the bytes of a literal.
pub data Content : Type 0 where
  number : ℕ → Content
  literal : List ℕ → Content

abbrev pub is_literal : ExprNode → Bool
is_literal (string_constant _) = true
is_literal (bytes_constant _ _) = true
is_literal _ = false

-- The casts that change an expression. Types other than the basic ones have addresses above 10.
pub data Cast (m : Avm) : Expression → WType → Content → Type 0 where
  widened :
      {l : SourceLocation} {x : ExprNode} {n : ℕ}
      → m.eval (node l uint64_t x) ≡ some (uint n)
      → n < 2 ^ 64
      → Cast m (node l uint64_t x) (basic biguint_type) (number n)
  narrowed :
      {l : SourceLocation} {x : ExprNode} {n : ℕ}
      → Big m.eval (node l biguint_t x) n
      → Cast m (node l biguint_t x) (basic uint64_type) (number n)
  application_address :
      {l : SourceLocation} {x : ExprNode} {n : ℕ}
      → m.eval (node l application_t x) ≡ some (uint n)
      → n < 2 ^ 64
      → Cast m (node l application_t x) (basic account_type) (number n)
  uint_address :
      {l : SourceLocation} {x : ExprNode} {n : ℕ}
      → m.eval (node l uint64_t x) ≡ some (uint n)
      → n < 2 ^ 64
      → Cast m (node l uint64_t x) (basic account_type) (number n)
  big_address :
      {l : SourceLocation} {x : ExprNode} {n : ℕ}
      → Big m.eval (node l biguint_t x) n
      → Cast m (node l biguint_t x) (basic account_type) (number n)
  uint_bytes :
      {l : SourceLocation} {x : ExprNode} {n a k : ℕ}
      → m.eval (node l uint64_t x) ≡ some (uint n)
      → n < 2 ^ 64
      → 10 < a
      → suc k ≤ 4000
      → is_literal x ≡ false
      → Cast m (node l uint64_t x) (bytes a (some (pos (suc k)))) (number n)
  big_bytes :
      {l : SourceLocation} {x : ExprNode} {n a k : ℕ}
      → Big m.eval (node l biguint_t x) n
      → 10 < a
      → suc k ≤ 4000
      → is_literal x ≡ false
      → Cast m (node l biguint_t x) (bytes a (some (pos (suc k)))) (number n)
  string_bytes :
      {l : SourceLocation} {t : Ty} {text : String} {a k : ℕ}
      → structurally_equivalent t (some (bytes a (some (pos (suc k))))) ≡ false
      → 10 < a
      → length (utf8_bytes text) ≤ suc k
      → Cast m
          (node l t (string_constant text))
          (bytes a (some (pos (suc k))))
          (literal (utf8_bytes text))
  bytes_bytes :
      {l : SourceLocation} {t : Ty} {bs : List ℕ} {encoding : BytesEncoding} {a k : ℕ}
      → structurally_equivalent t (some (bytes a (some (pos (suc k))))) ≡ false
      → 10 < a
      → length bs ≤ suc k
      → Cast m (node l t (bytes_constant bs encoding)) (bytes a (some (pos (suc k)))) (literal bs)

-- What the result stands for under the type that was asked for.
abbrev pub Means : Avm → Expression → WType → Content → Type 0
Means m r (basic uint64_type) (number n) = m.eval r ≡ some (uint (n % 2 ^ 64))
Means m r (basic biguint_type) (number n) = Big m.eval r n
Means m r (basic account_type) (number n) = BytesOf m r 32 n
Means m r (bytes a (some (pos k))) (number n) = BytesOf m r k n
Means m r (bytes a (some (pos k))) (literal bs) =
    (loc : SourceLocation) × (r
      ≡ make_bytes_constant (bs ++ replicate (k - length bs) 0) loc base16
          (some (bytes a (some (pos k)))))
Means m r _ _ = ⊥

far : (a c : ℕ) → 10 < a → c ≤ 10 → ((a == c) ≡ false) × ((c == a) ≡ false)
far a c h k = (ground arith, ground arith)

uint_not_bytes :
    (a k : ℕ)
    → 10 < a
    → structurally_equivalent uint64_t (some (bytes a (some (pos (suc k))))) ≡ false
unfolding structurally_equivalent equivalent_impl enter seen_pair immutable name
uint_not_bytes a k h =
    rw (structurally_equivalent, equivalent_impl, enter, (far a 2 h (omega arith)).1) refl

big_not_bytes :
    (a k : ℕ)
    → 10 < a
    → structurally_equivalent biguint_t (some (bytes a (some (pos (suc k))))) ≡ false
unfolding structurally_equivalent equivalent_impl enter seen_pair immutable name
big_not_bytes a k h =
    rw (structurally_equivalent, equivalent_impl, enter, (far a 3 h (omega arith)).1) refl

-- For a sized target that is none of the basic types, the last part of the cast is reached.
cast-to_sized :
    (l loc : SourceLocation) (t : Ty) (x : ExprNode) (a k : ℕ) (s : Session)
    → structurally_equivalent t (some (bytes a (some (pos (suc k))))) ≡ false
    → 10 < a
    → implicit_numeric_cast (node l t x) (some (bytes a (some (pos (suc k))))) loc s
      ≡ to_sized (node l t x) (some (bytes a (some (pos (suc k))))) (suc k) loc s
unfolding implicit_numeric_cast
cast-to_sized l loc t x a k s e h = elim (Bool-cases (same_type t uint64_t)) [
  | inl p ↦ elim (Bool-cases (same_type t biguint_t)) [
    | inl q ↦
        rw
          (
            e,
            (far a 5 h (omega arith)).0,
            (far a 3 h (omega arith)).0,
            (far a 2 h (omega arith)).0,
            p,
            q,
          )
          refl
    | inr q ↦ rw (e, (far a 5 h (omega arith)).0, (far a 3 h (omega arith)).0, p, q) refl
  ]
  | inr p ↦ elim (Bool-cases (same_type t biguint_t)) [
    | inl q ↦ rw (e, (far a 5 h (omega arith)).0, (far a 2 h (omega arith)).0, p, q) refl
    | inr q ↦ rw (e, (far a 5 h (omega arith)).0, p, q) refl
  ]
]

not_string :
    (l loc : SourceLocation) (t target : Ty) (x : ExprNode) (n : ℕ)
    → is_literal x ≡ false
    → string_to_bytes_n (node l t x) target n loc ≡ none
unfolding string_to_bytes_n
not_string l loc t target (string_constant _) n h = absurd (cc)
not_string l loc t target _ n h = refl

not_bytes :
    (l loc : SourceLocation) (t target : Ty) (x : ExprNode) (n : ℕ)
    → is_literal x ≡ false
    → bytes_to_bytes_n (node l t x) target n loc ≡ none
not_bytes l loc t target (bytes_constant _ _) n h = absurd (cc)
not_bytes l loc t target _ n h = refl

itself : (a : ℕ) → (a == a) ≡ true
itself a = (eqb_iff a a).1 refl

not_empty : (k : ℕ) → leb (suc k) 0 ≡ false
not_empty k = ground arith

too_long : (n k : ℕ) → n ≤ k → ltb k n ≡ false
too_long n k h = ground arith

-- Over any machine that meets the documented laws of the AVM opcodes: cast to biguint, a uint64
-- keeps its value; cast to uint64, a biguint gives its value modulo 2^64; cast to an account, an
-- application id, a uint64 or a biguint gives 32 bytes, and cast to bytes[k], k at most 4000, a
-- uint64 or a biguint that is no literal gives k bytes, the low ones of the number, big-endian; a
-- string or bytes literal of another type that is not longer than k gives the constant of its
-- bytes and zeros up to k. The result has the type that was asked for.
pub implicit_numeric_cast-Means :
    (m : Avm) (e : Expression) (w : WType) (c : Content) (loc : SourceLocation) (s : Session)
    → Cast m e w c
    → (same_type (wtype_of (implicit_numeric_cast e (some w) loc s).0) (some w) ≡ true)
      × Means m (implicit_numeric_cast e (some w) loc s).0 w c
unfolding implicit_numeric_cast structurally_equivalent equivalent_impl enter seen_pair immutable
    name make_left_pad string_to_bytes_n make_extract_last_n make_left_pad_to_n
implicit_numeric_cast-Means m e w c loc s (widened {l} {x} {n} h k) =
    (refl, uint-Big m _ n (m.cast _ _ loc _ (m.itob _ loc n h k)) k)
implicit_numeric_cast-Means m e w c loc s (narrowed {l} {x} {n} b) =
    let low = biguint_low m loc l x n 8 s b (omega arith) in
    (
      refl,
      m.btoi _ loc none low.byte_list low.evaluates (omega (arith, low.count))
          ∙ ap (λ k. some (uint k)) low.value,
    )
implicit_numeric_cast-Means m e w c loc s (application_address {l} {x} {n} h k) =
    (refl, cast-BytesOf m _ _ loc 32 n (padded_id m loc _ n (m.cast _ _ loc _ h) k))
implicit_numeric_cast-Means m e w c loc s (uint_address {l} {x} {n} h k) =
    (refl, cast-BytesOf m _ _ loc 32 n (uint_low m loc _ n 32 s h k (omega arith)))
implicit_numeric_cast-Means m e w c loc s (big_address {l} {x} {n} b) =
    (refl, cast-BytesOf m _ _ loc 32 n (biguint_low m loc l x n 32 s b (omega arith)))
implicit_numeric_cast-Means m e w c loc s (uint_bytes {l} {x} {n} {a} {k} h small other hk lit) =
    let target : Ty = some (bytes a (some (pos (suc k)))) in
    rw
      (
        cast-to_sized l loc uint64_t x a k s (uint_not_bytes a k other) other,
        to_sized,
        not_string l loc uint64_t target x (suc k) lit,
        not_bytes l loc uint64_t target x (suc k) lit,
      )
      (itself a, cast-BytesOf m _ _ loc (suc k) n (uint_low m loc _ n (suc k) s h small hk))
implicit_numeric_cast-Means m e w c loc s (big_bytes {l} {x} {n} {a} {k} b other hk lit) =
    let target : Ty = some (bytes a (some (pos (suc k)))) in
    rw
      (
        cast-to_sized l loc biguint_t x a k s (big_not_bytes a k other) other,
        to_sized,
        not_string l loc biguint_t target x (suc k) lit,
        not_bytes l loc biguint_t target x (suc k) lit,
      )
      (itself a, cast-BytesOf m _ _ loc (suc k) n (biguint_low m loc l x n (suc k) s b hk))
implicit_numeric_cast-Means m e w c loc s (string_bytes {l} {t} {text} {a} {k} differ other hk) =
    rw
      (
        cast-to_sized l loc t (string_constant text) a k s differ other,
        to_sized,
        string_to_bytes_n,
        not_empty k,
        too_long (length (utf8_bytes text)) (suc k) hk,
      )
      (itself a, (loc, refl))
implicit_numeric_cast-Means m e w c loc s
      (bytes_bytes {l} {t} {bs} {encoding} {a} {k} differ other hk) =
    rw
      (
        cast-to_sized l loc t (bytes_constant bs encoding) a k s differ other,
        to_sized,
        string_to_bytes_n,
        bytes_to_bytes_n,
        le→leb (length bs) (suc k) hk,
      )
      (itself a, (loc, refl))
