-- ===== src/Assembly/Operand.antt =====
-- The values of operands and results of the opcodes (src/builder/assembly): an operand stands for a
-- number, and a handler builds an expression in a session.
use puya_sol.Prelude.{
  ℕ, ◌+◌, ◌<◌, ◌≤◌, ◌^◌, ◌≡◌, refl, Bool, true, false, some, String, if◌then◌else◌, arith, ltb→lt,
  inl, inr, Bool-cases,
}
use puya_sol.Awst.Location.{SourceLocation}
use puya_sol.Awst.Operators.{BigUIntBinaryOperator}
use puya_sol.Awst.Expr.{Expression, null, node, ExprNode}
use puya_sol.Awst.Session.{Session, Build}
use puya_sol.Awst.Make.Constants.{
  Ty, wtype_of, uint64_t, biguint_t, bool_t, bytes_t, make_biguint_constant,
}
use puya_sol.Awst.Make.Operations.{make_conditional, make_eval_once, is_trivial_leaf}
use puya_sol.SolTypes.Coercion.Implicit.{account_t}
use puya_sol.Avm.Decimal.{read, read_from, is_decimal}
use puya_sol.Avm.Digits.{be, length-be, num-be}
use puya_sol.Avm.Machine.{Value, uint, byte_string, truth, big_arithmetic, Big, Avm}
use puya_sol.Avm.Reference.Numbers.{be-IsByte}
use puya_sol.Assembly.Words.{ensure_biguint, big_uint_bin_op}

-- A biguint with the value `n`.
pub record Holds (m : Avm) (e : Expression) (n : ℕ) : Type 0 where
  pub typed : wtype_of e ≡ biguint_t
  pub big : Big m.eval e n

-- An operand with the value `n`: a biguint, a uint64, a Boolean, or bytes or an
-- address as a big-endian number.
pub data Operand (m : Avm) : Expression → ℕ → Type 0 where
  word :
      {loc : SourceLocation} {x : ExprNode} {n : ℕ}
      → Big m.eval (node loc biguint_t x) n
      → Operand m (node loc biguint_t x) n
  stack_uint :
      {loc : SourceLocation} {x : ExprNode} {n : ℕ}
      → m.eval (node loc uint64_t x) ≡ some (uint n)
      → n < 2 ^ 64
      → Operand m (node loc uint64_t x) n
  flag :
      {loc : SourceLocation} {x : ExprNode} (b : Bool)
      → m.eval (node loc bool_t x) ≡ some (truth b)
      → Operand m (node loc bool_t x) (if b then 1 else 0)
  raw :
      {loc : SourceLocation} {x : ExprNode} {n : ℕ}
      → Big m.eval (node loc bytes_t x) n
      → Operand m (node loc bytes_t x) n
  address :
      {loc : SourceLocation} {x : ExprNode} {n : ℕ}
      → Big m.eval (node loc account_t x) n
      → Operand m (node loc account_t x) n

-- Built in any session, the expression is a biguint with the value `n`.
abbrev pub Computes : Avm → Build Expression → ℕ → Type 0
Computes m b n = (s : Session) → Holds m (b s).0 n

-- Built in any session, the expression is a Boolean with the value `t`.
abbrev pub Decides : Avm → Build Expression → Bool → Type 0
Decides m b t = (s : Session) → (wtype_of (b s).0 ≡ bool_t) × (m.eval (b s).0 ≡ some (truth t))

module _ (m : Avm) where
  pub as-Operand : {e : Expression} {n : ℕ} → Holds m e n → Operand m e n
  as-Operand {e} {n} h = go e n h.typed h.big
    where
      go : (e : Expression) (n : ℕ) → wtype_of e ≡ biguint_t → Big m.eval e n → Operand m e n
      go null n h b = absurd cc
      go (node l t x) n h b = rw h (word (rw h at b))

  pub constant-Holds :
      (v : String) (loc : SourceLocation)
      → is_decimal v ≡ true
      → read v < 2 ^ 512
      → Holds m (make_biguint_constant v loc) (read v)
  constant-Holds v loc d h = record { typed = refl; big = m.big_constant v loc d h }

  -- An expression whose value is a byte string is a number under any type.
  Big-cast :
      {e f : Expression} {n : ℕ}
      → ((v : Value) → m.eval e ≡ some v → m.eval f ≡ some v)
      → Big m.eval e n
      → Big m.eval f n
  Big-cast c b = record {
    bytes = b.bytes;
    evaluates = c (byte_string b.bytes) b.evaluates;
    value = b.value;
    are_bytes = b.are_bytes;
    fits = b.fits;
  }

  be-Big :
      (e : Expression) (k n : ℕ)
      → m.eval e ≡ some (byte_string (be k n))
      → n < 256 ^ k
      → k ≤ 64
      → Big m.eval e n
  be-Big e k n h b w = record {
    bytes = be k n;
    evaluates = h;
    value = num-be k n b;
    are_bytes = be-IsByte k n;
    fits = omega (arith, length-be k n);
  }

  bit-Holds :
      (b : Bool) (loc : SourceLocation)
      → Big m.eval
          (if b then make_biguint_constant "1" loc else make_biguint_constant "0" loc)
          (if b then 1 else 0)
  unfolding read_from
  bit-Holds true loc = (constant-Holds "1" loc refl (ltb→lt _ _ refl)).big
  bit-Holds false loc = (constant-Holds "0" loc refl (ltb→lt _ _ refl)).big

  pub conditional-Big :
      (c a b : Expression) (t : Ty) (loc : SourceLocation) (test : Bool) (n : ℕ)
      → m.eval c ≡ some (truth test)
      → Big m.eval (if test then a else b) n
      → Big m.eval (make_conditional c a b t loc) n
  conditional-Big c a b t loc test n h = Big-cast (λ v x. m.conditional c a b t loc test v h x)

  -- Coercing an operand that is a biguint, a uint64, a Boolean, bytes or an account gives, in any
  -- session, a biguint with the same value, over any machine that meets the documented laws of the
  -- AVM opcodes.
  pub ensure_biguint-Computes :
      (e : Expression) (n : ℕ) (loc : SourceLocation)
      → Operand m e n
      → Computes m (ensure_biguint e loc) n
  unfolding ensure_biguint
  ensure_biguint-Computes e n loc (word b) s = record { typed = refl; big = b }
  ensure_biguint-Computes e n loc (stack_uint h k) s = record {
    typed = refl;
    big = be-Big _ 8 n (m.cast _ _ loc _ (m.itob _ loc n h k)) (omega arith) (omega arith);
  }
  ensure_biguint-Computes e n loc (flag b h) s = record {
    typed = refl;
    big = conditional-Big _ _ _ biguint_t loc b _ h (bit-Holds b loc);
  }
  ensure_biguint-Computes e n loc (raw b) s = record {
    typed = refl;
    big = Big-cast (λ v x. m.cast _ _ loc v x) b;
  }
  ensure_biguint-Computes e n loc (address b) s = record {
    typed = refl;
    big = Big-cast (λ v x. m.cast _ _ loc v (m.cast _ bytes_t loc v x)) b;
  }

  pub big_uint_bin_op-Computes :
      (a b : Expression) (op : BigUIntBinaryOperator) (loc : SourceLocation) (x y k : ℕ)
      → Operand m a x
      → Operand m b y
      → big_arithmetic op x y ≡ some k
      → k < 2 ^ 512
      → Computes m (big_uint_bin_op a op b loc) k
  unfolding big_uint_bin_op
  big_uint_bin_op-Computes a b op loc x y k ha hb h small s =
      let first = ensure_biguint-Computes a x loc ha s in
      let second = ensure_biguint-Computes b y loc hb (ensure_biguint a loc s).1 in
      record { typed = refl; big = m.big_op _ _ op loc x y k first.big second.big h small }

  pub zero-Holds : (loc : SourceLocation) → Holds m (make_biguint_constant "0" loc) 0
  unfolding read_from
  zero-Holds loc = constant-Holds "0" loc refl (ltb→lt _ _ refl)

  -- An expression evaluated once keeps its type and its value.
  pub make_eval_once-Computes :
      (e : Expression) (n : ℕ) (loc : SourceLocation)
      → Holds m e n
      → Computes m (make_eval_once e loc) n
  unfolding make_eval_once
  make_eval_once-Computes e n loc h s = elim (Bool-cases (is_trivial_leaf e)) [
    | inl leaf ↦ rw leaf h
    | inr shared ↦ rw shared (record {
      typed = h.typed;
      big = Big-cast (λ v x. m.once e (wtype_of e) (s.single_eval_id + 1) loc v x) h.big;
    })
  ]

  pub either-Big :
      (test : Bool) (x y : Expression) (n k : ℕ)
      → Big m.eval x n
      → Big m.eval y k
      → Big m.eval (if test then x else y) (if test then n else k)
  either-Big true x y n k h g = h
  either-Big false x y n k h g = g
