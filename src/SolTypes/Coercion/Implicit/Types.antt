-- ===== src/SolTypes/Coercion/Implicit/Types.antt =====
-- The type of what TypeCoercion::implicitNumericCast gives
-- (src/builder/sol-types/TypeCoercion.cpp).
use puya_sol.Prelude.{
  ℕ, ◌≡◌, refl, sym, ◌⊎◌, inl, inr, Bool, true, false, ◌&&◌, Option, none, some, nat_eq, ltb, leb,
  length, utf8_bytes, if◌then◌else◌, eqb_iff, arith,
}
use puya_sol.Awst.Location.{SourceLocation}
use puya_sol.Awst.WType.{WType, basic, account_type, biguint_type, uint64_type, addr}
use puya_sol.Awst.WType.Equivalence.{structurally_equivalent}
use puya_sol.Awst.Expr.{Expression, null, node, ExprNode, string_constant, bytes_constant}
use puya_sol.Awst.Session.{Session}
use puya_sol.Awst.Make.Constants.{Ty, uint64_t, biguint_t, wtype_of}
use puya_sol.Awst.Make.Casts.{same_type}
use puya_sol.SolTypes.Coercion.Implicit.{
  account_t, application_t, string_to_bytes_n, bytes_to_bytes_n, sized, to_sized, is_number,
  implicit_numeric_cast,
}

-- The result is the expression itself, or has the type that was asked for.
pub record IsCast (e : Expression) (w : WType) (r : Expression × Session) : Type 0 where
  pub outcome : (r.0 ≡ e) ⊎ (same_type (wtype_of r.0) (some w) ≡ true)

same_type_refl : (w : WType) → same_type (some w) (some w) ≡ true
same_type_refl w = (eqb_iff (addr w) (addr w)).1 refl

same_type_sym :
    (v w : WType) → same_type (some v) (some w) ≡ true → same_type (some w) (some v) ≡ true
same_type_sym v w h = (eqb_iff (addr w) (addr v)).1 (sym ((eqb_iff (addr v) (addr w)).0 h))

unchanged : {e : Expression} {w : WType} (s : Session) → IsCast e w (e, s)
unchanged s = record { outcome = inl refl }

converted :
    {e : Expression} {w : WType} (r : Expression × Session) → wtype_of r.0 ≡ some w → IsCast e w r
converted {w} r h = record { outcome = inr (rw h (same_type_refl w)) }

-- A result of the basic type `v` when the type asked for was found to be `v`.
basic_target :
    {e : Expression} (w : WType) (v : WType) (r : Expression × Session)
    → wtype_of r.0 ≡ some v
    → same_type (some w) (some v) ≡ true
    → IsCast e w r
basic_target w v r h k = record { outcome = inr (rw h (same_type_sym w v k)) }

by_test :
    {e : Expression} {w : WType} (b : Bool) (x y : Expression × Session)
    → (b ≡ true → IsCast e w x)
    → IsCast e w y
    → IsCast e w (if b then x else y)
by_test true x y h k = h refl
by_test false x y h k = k

-- An optional constant, and the type that it has if it is there.
abbrev Typed : Ty → Option Expression → Type 0
Typed t none = Unit
Typed t (some p) = wtype_of p ≡ t

test-Typed :
    (t : Ty) (b : Bool) (x y : Option Expression)
    → Typed t x
    → Typed t y
    → Typed t (if b then x else y)
test-Typed t true x y h k = h
test-Typed t false x y h k = k

string_to_bytes_n-Typed :
    (e : Expression) (t : Ty) (n : ℕ) (loc : SourceLocation) → Typed t (string_to_bytes_n e t n loc)
unfolding string_to_bytes_n
string_to_bytes_n-Typed (node _ _ (string_constant x)) t n loc =
    test-Typed _ (leb n 0) _ _ tt (test-Typed _ (ltb n (length (utf8_bytes x))) _ _ tt refl)
string_to_bytes_n-Typed e t n loc = tt

bytes_to_bytes_n-Typed :
    (e : Expression) (t : Ty) (n : ℕ) (loc : SourceLocation) → Typed t (bytes_to_bytes_n e t n loc)
bytes_to_bytes_n-Typed (node _ _ (bytes_constant x _)) t n loc =
    test-Typed _ (leb (length x) n) _ _ refl tt
bytes_to_bytes_n-Typed e t n loc = tt

by_constant :
    {e : Expression} {w : WType} (o : Option Expression) (s : Session) (y : Expression × Session)
    → Typed (some w) o
    → IsCast e w y
    → IsCast e w (elim o [ some p ↦ (p, s) | none ↦ y ])
by_constant (some p) s y h k = converted (p, s) h
by_constant none s y h k = k

by_size :
    {e : Expression} {w : WType} (o : Option ℕ) (y : Expression × Session)
    (f : ℕ → Expression × Session)
    → ((n : ℕ) → IsCast e w (f n))
    → IsCast e w y
    → IsCast e w (elim o [ some n ↦ f n | none ↦ y ])
by_size (some n) y f h k = h n
by_size none y f h k = k

to_sized-IsCast :
    (e : Expression) (w : WType) (n : ℕ) (loc : SourceLocation) (s : Session)
    → IsCast e w (to_sized e (some w) n loc s)
to_sized-IsCast e w n loc s =
    by_constant (string_to_bytes_n e (some w) n loc) s _ (string_to_bytes_n-Typed e (some w) n loc)
      (by_constant (bytes_to_bytes_n e (some w) n loc) s _ (bytes_to_bytes_n-Typed e (some w) n loc)
        (by_test (same_type (wtype_of e) biguint_t) _ _ (λ _. converted _ refl)
          (by_test (same_type (wtype_of e) uint64_t) _ _ (λ _. converted _ refl) (unchanged s))))

-- Of a conjunction.
left : (a b : Bool) → (a && b) ≡ true → a ≡ true
left a b h = ground arith

right : (a b : Bool) → (a && b) ≡ true → b ≡ true
right a b h = ground arith

implicit_numeric_cast-node :
    (l loc : SourceLocation) (t : Ty) (x : ExprNode) (w : WType) (s : Session)
    → IsCast (node l t x) w (implicit_numeric_cast (node l t x) (some w) loc s)
unfolding implicit_numeric_cast
implicit_numeric_cast-node l loc t x w s =
    by_test (structurally_equivalent t (some w)) _ _ (λ _. unchanged s)
      (by_test (same_type (some w) account_t && same_type t application_t) _ _
        (λ _. converted _ refl)
        (by_test (same_type (some w) account_t && is_number (node l t x)) _ _
          (λ h.
            basic_target w (basic account_type) _ refl
              (left (same_type (some w) account_t) (is_number (node l t x)) h))
          (by_test (same_type t uint64_t && same_type (some w) biguint_t) _ _
            (λ h.
              basic_target w (basic biguint_type) _ refl
                (right (same_type t uint64_t) (same_type (some w) biguint_t) h))
            (by_test (same_type t biguint_t && same_type (some w) uint64_t) _ _
              (λ h.
                basic_target w (basic uint64_type) _ refl
                  (right (same_type t biguint_t) (same_type (some w) uint64_t) h))
              (by_size (sized (some w)) _ (λ n. to_sized (node l t x) (some w) n loc s)
                (λ n. to_sized-IsCast (node l t x) w n loc s) (unchanged s))))))

-- A cast gives the expression itself, or an expression of the type that was asked for; the null
-- pointer, and any expression when no type is asked for, come back as they are.
pub implicit_numeric_cast-IsCast :
    (e : Expression) (w : WType) (loc : SourceLocation) (s : Session)
    → IsCast e w (implicit_numeric_cast e (some w) loc s)
      × (implicit_numeric_cast e none loc s ≡ (e, s))
unfolding implicit_numeric_cast
implicit_numeric_cast-IsCast null w loc s = (unchanged s, refl)
implicit_numeric_cast-IsCast (node l t x) w loc s = (implicit_numeric_cast-node l loc t x w s, refl)
