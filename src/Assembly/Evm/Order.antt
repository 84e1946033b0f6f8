-- ===== src/Assembly/Evm/Order.antt =====
-- `slt` and `sgt` (src/builder/assembly/SignedOps.cpp) against the EVM.
use puya_sol.Prelude.{
  ℕ, ◌^◌, ◌<◌, ◌≡◌, refl, ap, ◌∙◌, Bool, true, false, not, ◌&&◌, some, [], ◌∷◌, if◌then◌else◌, eqb,
  ltb, ltb→lt, leb, String, ◌==◌, string_eq, ==_iff, arith, inl, inr, Bool-cases,
}
use mathlib.Core.Path.{subst}
use puya_sol.Prelude.Text.{to_string}
use puya_sol.Awst.Location.{SourceLocation}
use puya_sol.Awst.Operators.{NumericComparison}
use puya_sol.Awst.Expr.{Expression, node, integer_constant}
use puya_sol.Awst.Session.{Session}
use puya_sol.Awst.Make.Constants.{Ty, wtype_of, uint64_t, bool_t, make_biguint_constant}
use puya_sol.Awst.Make.Casts.{same_type}
use puya_sol.SolTypes.IntType.{pow2_n_and_half}
use puya_sol.SolTypes.Coercion.Extend.{is_negative_signed}
use puya_sol.Avm.Decimal.{read, read_from, is_decimal, read-to_string}
use puya_sol.Avm.Machine.{Avm, truth, Big}
use puya_sol.Assembly.Words.{ensure_biguint}
use puya_sol.Assembly.Arguments.{check_arity}
use puya_sol.Assembly.Signed.{
  is_negative256, is_literal_zero, positive, compare_signed, handle_slt, handle_sgt,
}
use puya_sol.Assembly.Operand.{
  Operand, flag, Holds, Computes, zero-Holds, constant-Holds, ensure_biguint-Computes,
}
use puya_sol.Assembly.Evm.{IsWord, is_negative, slt_word}
use puya_sol.Assembly.Evm.Signed.{half_word-Holds}

-- An operand that was a uint64 is read as a number of 64 bits in two's complement: here it has no
-- sign there either.
abbrev pub HasWordSign : Ty → ℕ → Type 0
HasWordSign t a = same_type t uint64_t ≡ true → a < 2 ^ 63

is_zero_text : (v : String) → (v == "0") ≡ true → (is_decimal v ≡ true) × (read v ≡ 0)
unfolding read_from
is_zero_text v h = rw ((==_iff v "0").0 h) (refl, refl)

abbrev bit : Bool → ℕ
bit b = if b then 1 else 0

half_long-IsDecimal : is_decimal (to_string (2 ^ 63)) ≡ true
unfolding to_string
half_long-IsDecimal = refl

module _ (m : Avm) (loc : SourceLocation) where
  half_long-Holds : Holds m (make_biguint_constant (to_string (2 ^ 63)) loc) (2 ^ 63)
  half_long-Holds =
      subst (λ n. Holds m (make_biguint_constant (to_string (2 ^ 63)) loc) n)
        (read-to_string (2 ^ 63))
        (constant-Holds m (to_string (2 ^ 63)) loc half_long-IsDecimal
          (omega (arith, read-to_string (2 ^ 63))))

  eval-sign :
      (e : Expression) (t : Ty) (a : ℕ)
      → HasWordSign t a
      → Big m.eval e a
      → m.eval (is_negative256 e t loc) ≡ some (truth (is_negative a))
  unfolding is_negative256 is_negative_signed pow2_n_and_half
  eval-sign e t a h b = elim (Bool-cases (same_type t uint64_t)) [
    | inl long ↦ rw long (
        m.compare_big e _ NumericComparison.gte loc a (2 ^ 63) b half_long-Holds.big
        ∙ ap (λ p. some (truth p)) (both_positive a (h long)))
    | inr wide ↦
        rw wide
          (m.compare_big e _ NumericComparison.gte loc a (2 ^ 255) b (half_word-Holds m loc).big)
  ]
    where
      both_positive : (a : ℕ) → a < 2 ^ 63 → leb (2 ^ 63) a ≡ is_negative a
      both_positive a h = ground arith

  either_truth :
      (test : Bool) (x y : Expression) (p q : Bool)
      → m.eval x ≡ some (truth p)
      → m.eval y ≡ some (truth q)
      → m.eval (if test then x else y) ≡ some (truth (if test then p else q))
  either_truth true x y p q h k = h
  either_truth false x y p q h k = k

  sign-Holds :
      (e : Expression) (t : Ty) (a : ℕ)
      → HasWordSign t a
      → Big m.eval e a
      → (s : Session)
      → Holds m (ensure_biguint (is_negative256 e t loc) loc s).0 (bit (is_negative a))
  unfolding is_negative256 is_negative_signed
  sign-Holds e t a h b s =
      ensure_biguint-Computes m _ _ loc (flag (is_negative a) (eval-sign e t a h b)) s

  literal_zero : (e : Expression) (a : ℕ) → Big m.eval e a → is_literal_zero e ≡ true → a ≡ 0
  literal_zero (node l t (integer_constant v)) a b h =
      m.big_constant_value v l t a (is_zero_text v h).0 b ∙ (is_zero_text v h).1
  literal_zero e a b h = absurd cc

  eval-positive :
      (e : Expression) (t : Ty) (a : ℕ)
      → HasWordSign t a
      → Big m.eval e a
      → m.eval (positive e t loc) ≡ some (truth (ltb 0 a && not (is_negative a)))
  unfolding read_from
  eval-positive e t a h b =
      m.conjunction _ _ loc (ltb 0 a) (not (is_negative a))
        (m.compare_big e _ NumericComparison.gt loc a 0 b (zero-Holds m loc).big)
        (elim (Bool-cases (same_type t uint64_t)) [
          | inl long ↦ rw long (
              m.compare_big e _ NumericComparison.lt loc a (2 ^ 63) b
                (m.big_constant "9223372036854775808" loc refl (ltb→lt _ _ refl))
              ∙ ap (λ p. some (truth p)) (below_long a (h long)))
          | inr wide ↦ rw wide (
              m.compare_big e _ NumericComparison.lt loc a (2 ^ 255) b (
                m.big_constant
                  "57896044618658097711785492504343953926634992332820282019728792003956564819968"
                  loc refl (ltb→lt _ _ refl))
              ∙ ap (λ p. some (truth p)) (below_word a))
        ])
    where
      below_long : (a : ℕ) → a < 2 ^ 63 → ltb a (2 ^ 63) ≡ not (is_negative a)
      below_long a h = ground arith

      below_word : (a : ℕ) → ltb a (2 ^ 255) ≡ not (is_negative a)
      below_word a = ground arith

  eval-compare_signed :
      (e f : Expression) (t u : Ty) (a b : ℕ) (s : Session)
      → HasWordSign t a
      → HasWordSign u b
      → IsWord a
      → IsWord b
      → Big m.eval e a
      → Big m.eval f b
      → Holds m (compare_signed e t f u loc s).0 (if slt_word a b then 1 else 0)
  unfolding compare_signed
  eval-compare_signed e f t u a b s ha hb wa wb he hf =
      let sa = ensure_biguint (is_negative256 e t loc) loc s in
      let sb = ensure_biguint (is_negative256 f u loc) loc sa.1 in
      ensure_biguint-Computes m _ _ loc
        (flag (slt_word a b) (
          m.conditional _ _ _ bool_t loc (eqb (bit (is_negative a)) (bit (is_negative b))) _
            (m.compare_big _ _ NumericComparison.eq loc _ _ (sign-Holds e t a ha he s).big
              (sign-Holds f u b hb hf sa.1).big)
            (either_truth (eqb (bit (is_negative a)) (bit (is_negative b))) _ _ _ _
                (m.compare_big e f NumericComparison.lt loc a b he hf) (eval-sign e t a ha he)
              ∙ ap (λ p. some (truth p)) (order a b wa wb))))
        sb.1
    where
      order :
          (a b : ℕ)
          → IsWord a
          → IsWord b
          → (if eqb (bit (is_negative a)) (bit (is_negative b)) then ltb a b else is_negative a)
            ≡ slt_word a b
      order a b h k = ground arith

  -- For two operands (biguint, uint64, Boolean, bytes or account) whose values are words, those of
  -- type uint64 with values below 2^63, the expression built for `slt` is, in any session, a
  -- biguint, 1 when the first stands for a smaller number in two's complement and 0 when not, also
  -- in the forms for a literal 0, over any machine that meets the documented laws of the AVM
  -- opcodes.
  pub handle_slt-Computes :
      (x y : Expression) (a b : ℕ)
      → Operand m x a
      → Operand m y b
      → HasWordSign (wtype_of x) a
      → HasWordSign (wtype_of y) b
      → IsWord a
      → IsWord b
      → Computes m (handle_slt (x ∷ y ∷ []) loc) (if slt_word a b then 1 else 0)
  unfolding handle_slt check_arity
  handle_slt-Computes x y a b hx hy sx sy wa wb s =
      let ea = ensure_biguint x loc s in
      let eb = ensure_biguint y loc ea.1 in
      let ha = (ensure_biguint-Computes m x a loc hx s).big in
      let hb = (ensure_biguint-Computes m y b loc hy ea.1).big in
      elim (Bool-cases (is_literal_zero eb.0)) [
        | inl z ↦ rw z (
            rw (literal_zero eb.0 b hb z, below_zero a wa)
              (sign-Holds ea.0 (wtype_of x) a sx ha eb.1))
        | inr z ↦ rw z (elim (Bool-cases (is_literal_zero ea.0)) [
          | inl w ↦ rw w (
              rw (literal_zero ea.0 a ha w, above_zero b wb)
                (ensure_biguint-Computes m _ _ loc
                  (flag _ (eval-positive eb.0 (wtype_of y) b sy hb)) eb.1))
          | inr w ↦
              rw w
                (eval-compare_signed ea.0 eb.0 (wtype_of x) (wtype_of y) a b eb.1 sx sy wa wb ha hb)
        ])
      ]
    where
      below_zero : (a : ℕ) → IsWord a → slt_word a 0 ≡ is_negative a
      below_zero a h = ground arith

      above_zero : (b : ℕ) → IsWord b → slt_word 0 b ≡ (ltb 0 b && not (is_negative b))
      above_zero b h = ground arith

  -- For two operands (biguint, uint64, Boolean, bytes or account) whose values are words, those of
  -- type uint64 with values below 2^63, the expression built for `sgt` is, in any session, a
  -- biguint, 1 when the second stands for a smaller number in two's complement and 0 when not,
  -- over any machine that meets the documented laws of the AVM opcodes.
  pub handle_sgt-Computes :
      (x y : Expression) (a b : ℕ)
      → Operand m x a
      → Operand m y b
      → HasWordSign (wtype_of x) a
      → HasWordSign (wtype_of y) b
      → IsWord a
      → IsWord b
      → Computes m (handle_sgt (x ∷ y ∷ []) loc) (if slt_word b a then 1 else 0)
  unfolding handle_sgt check_arity
  handle_sgt-Computes x y a b hx hy sx sy wa wb = handle_slt-Computes y x b a hy hx sy sx wb wa
