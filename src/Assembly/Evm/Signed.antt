-- ===== src/Assembly/Evm/Signed.antt =====
-- Division in two's complement (src/builder/assembly/SignedOps.cpp) against the EVM.
use mathlib.Core.Path.{subst}
use puya_sol.Prelude.{
  ℕ, ◌+◌, ◌-◌, ◌/◌, ◌%◌, ◌^◌, ◌≡◌, refl, ap, ◌∙◌, Bool, true, false, not, none, some, [], ◌∷◌,
  if◌then◌else◌, eqb, ltb→lt, arith, inl, inr, Bool-cases,
}
use puya_sol.Prelude.Text.{to_string}
use puya_sol.Awst.Location.{SourceLocation}
use puya_sol.Awst.Operators.{NumericComparison, add, sub, floor_div, mod_op}
use puya_sol.Awst.Expr.{Expression}
use puya_sol.Awst.Session.{Session}
use puya_sol.Awst.Make.Constants.{biguint_t, make_biguint_constant}
use puya_sol.SolTypes.IntType.{pow2_n_and_half}
use puya_sol.SolTypes.Coercion.Extend.{is_negative_signed}
use puya_sol.Avm.Decimal.{read_from, is_decimal, read-to_string}
use puya_sol.Avm.Machine.{Avm, truth, Big}
use puya_sol.Assembly.Words.{ensure_biguint, big_uint_bin_op}
use puya_sol.Assembly.Arguments.{check_arity}
use puya_sol.Assembly.Signed.{
  max_word, is_negative256, negate256, absolute, unless_zero, handle_sdiv, handle_smod,
}
use puya_sol.Assembly.Operand.{
  Operand, flag, Holds, Computes, as-Operand, zero-Holds, constant-Holds, conditional-Big,
  either-Big, ensure_biguint-Computes, big_uint_bin_op-Computes,
}
use puya_sol.Assembly.Evm.{IsWord, is_negative, magnitude, with_sign, differs, sdiv_word, smod_word}
use puya_sol.Assembly.Evm.Bounds.{quotient-IsWord, remainder-IsWord}
use puya_sol.Assembly.Evm.Division.{wrap_mod256-Computes}

half_word-IsDecimal : is_decimal (to_string (2 ^ 255)) ≡ true
unfolding to_string
half_word-IsDecimal = refl

magnitude-bound : (a : ℕ) → IsWord a → IsWord (magnitude a)
magnitude-bound a w = ground arith

magnitude-nonzero : (a : ℕ) → IsWord a → eqb a 0 ≡ false → eqb (magnitude a) 0 ≡ false
magnitude-nonzero a w h = ground arith

signs_differ :
    (p q : Bool) → truth (not (eqb (if p then 1 else 0) (if q then 1 else 0))) ≡ truth (differs p q)
signs_differ true true = refl
signs_differ true false = refl
signs_differ false true = refl
signs_differ false false = refl

module _ (m : Avm) (loc : SourceLocation) where
  pub half_word-Holds : Holds m (make_biguint_constant (to_string (2 ^ 255)) loc) (2 ^ 255)
  half_word-Holds =
      subst (λ n. Holds m (make_biguint_constant (to_string (2 ^ 255)) loc) n)
        (read-to_string (2 ^ 255))
        (constant-Holds m (to_string (2 ^ 255)) loc half_word-IsDecimal
          (omega (arith, read-to_string (2 ^ 255))))

  pub max_word-Holds : Holds m (max_word loc) (2 ^ 256 - 1)
  unfolding read_from
  max_word-Holds =
      constant-Holds m
        "115792089237316195423570985008687907853269984665640564039457584007913129639935" loc refl
        (ltb→lt _ _ refl)

  pub one-Holds : Holds m (make_biguint_constant "1" loc) 1
  unfolding read_from
  one-Holds = constant-Holds m "1" loc refl (ltb→lt _ _ refl)

  -- The sign bit of a word.
  pub eval-is_negative256 :
      (e : Expression) (a : ℕ)
      → Big m.eval e a
      → m.eval (is_negative256 e none loc) ≡ some (truth (is_negative a))
  unfolding is_negative256 is_negative_signed pow2_n_and_half
  eval-is_negative256 e a h =
      m.compare_big e _ NumericComparison.gte loc a (2 ^ 255) h half_word-Holds.big

  -- Two's complement: 2^256 - a, and 0 for 0.
  pub negate256-Computes :
      (e : Expression) (a : ℕ)
      → Operand m e a
      → IsWord a
      → Computes m (negate256 e loc) (with_sign true a)
  unfolding negate256
  negate256-Computes e a h w s =
      let b1 = big_uint_bin_op (max_word loc) sub e loc s in
      let complement =
        big_uint_bin_op-Computes m (max_word loc) e sub loc (2 ^ 256 - 1) a (2 ^ 256 - 1 - a)
          (as-Operand m max_word-Holds) h (ground arith) (omega arith) s in
      let sum =
        big_uint_bin_op-Computes m _ (make_biguint_constant "1" loc) add loc (2 ^ 256 - 1 - a) 1
          (2 ^ 256 - a) (as-Operand m complement) (as-Operand m one-Holds) (ap some (plus_one a w))
          (omega arith) b1.1 in
      wrap_mod256-Computes m _ loc (2 ^ 256 - a) (as-Operand m sum)
        (big_uint_bin_op b1.0 add (make_biguint_constant "1" loc) loc b1.1).1
    where
      plus_one : (a : ℕ) → IsWord a → 2 ^ 256 - 1 - a + 1 ≡ 2 ^ 256 - a
      plus_one a w = omega arith

  pub absolute-Computes :
      (e : Expression) (a : ℕ) → Holds m e a → IsWord a → Computes m (absolute e loc) (magnitude a)
  unfolding absolute
  absolute-Computes e a h w s = record {
    typed = refl;
    big =
        conditional-Big m _ _ _ biguint_t loc (is_negative a) (magnitude a)
          (eval-is_negative256 e a h.big)
          (subst (λ n. Big m.eval (if is_negative a then (negate256 e loc s).0 else e) n)
            (magnitude_lem a w)
            (either-Big m (is_negative a) _ e (with_sign true a) a
              (negate256-Computes e a (as-Operand m h) w s).big h.big));
  }
    where
      magnitude_lem :
          (a : ℕ) → IsWord a → (if is_negative a then with_sign true a else a) ≡ magnitude a
      magnitude_lem a w = ground arith

  -- `isNegative256`, coerced to a biguint.
  pub sign-Holds :
      (e : Expression) (a : ℕ) (s : Session)
      → Big m.eval e a
      → Holds m
          (ensure_biguint (is_negative256 e none loc) loc s).0
          (if is_negative a then 1 else 0)
  unfolding is_negative256 is_negative_signed
  sign-Holds e a s h =
      ensure_biguint-Computes m _ _ loc (flag (is_negative a) (eval-is_negative256 e a h)) s

  pub eval-unless_zero :
      (e x : Expression) (b n : ℕ)
      → Big m.eval e b
      → (eqb b 0 ≡ false → Big m.eval x n)
      → Big m.eval (unless_zero e x loc) (if eqb b 0 then 0 else n)
  eval-unless_zero e x b n he hx =
      conditional-Big m _ _ _ biguint_t loc (not (eqb b 0)) (if eqb b 0 then 0 else n)
        (m.compare_big _ _ NumericComparison.ne loc b 0 he (zero-Holds m loc).big)
        (elim (Bool-cases (eqb b 0)) [ inl z ↦ rw z (zero-Holds m loc).big | inr z ↦ rw z (hx z) ])

  -- For two operands (biguint, uint64, Boolean, bytes or account) whose values are words, the
  -- expression built for `sdiv` is, in any session, a biguint with the word of the quotient
  -- towards 0 of the numbers that the words stand for in two's complement, and 0 for the divisor
  -- 0, over any machine that meets the documented laws of the AVM opcodes.
  pub handle_sdiv-Computes :
      (x y : Expression) (a b : ℕ)
      → Operand m x a
      → Operand m y b
      → IsWord a
      → IsWord b
      → Computes m (handle_sdiv (x ∷ y ∷ []) loc) (sdiv_word a b)
  unfolding handle_sdiv check_arity
  handle_sdiv-Computes x y a b hx hy wa wb s =
      let ea = ensure_biguint x loc s in
      let eb = ensure_biguint y loc ea.1 in
      let aa = absolute ea.0 loc eb.1 in
      let ab = absolute eb.0 loc aa.1 in
      let q = big_uint_bin_op aa.0 floor_div ab.0 loc ab.1 in
      let sa = ensure_biguint (is_negative256 ea.0 none loc) loc q.1 in
      let sb = ensure_biguint (is_negative256 eb.0 none loc) loc sa.1 in
      let ha = ensure_biguint-Computes m x a loc hx s in
      let hb = ensure_biguint-Computes m y b loc hy ea.1 in
      record {
        typed = refl;
        big = eval-unless_zero eb.0 _ b _ hb.big (λ nonzero.
            let hq =
              big_uint_bin_op-Computes m aa.0 ab.0 floor_div loc (magnitude a) (magnitude b)
                (magnitude a / magnitude b) (as-Operand m (absolute-Computes ea.0 a ha wa eb.1))
                (as-Operand m (absolute-Computes eb.0 b hb wb aa.1))
                (rw (magnitude-nonzero b wb nonzero) refl)
                (omega (arith, quotient-IsWord (magnitude a) (magnitude b) (magnitude-bound a wa)))
                ab.1 in
            let small = quotient-IsWord (magnitude a) (magnitude b) (magnitude-bound a wa) in
            conditional-Big m _ _ _ biguint_t loc (differs (is_negative a) (is_negative b)) _
              (m.compare_big _ _ NumericComparison.ne loc _ _ (sign-Holds ea.0 a q.1 ha.big).big
                  (sign-Holds eb.0 b sa.1 hb.big).big
                ∙ ap some (signs_differ (is_negative a) (is_negative b)))
              (either-Big m (differs (is_negative a) (is_negative b)) _ _ _ _
                (negate256-Computes q.0 _ (as-Operand m hq) small sb.1).big hq.big));
      }

  -- For two operands (biguint, uint64, Boolean, bytes or account) whose values are words, the
  -- expression built for `smod` is, in any session, a biguint with the word of the remainder with
  -- the sign of the dividend, and 0 for the divisor 0, over any machine that meets the documented
  -- laws of the AVM opcodes.
  pub handle_smod-Computes :
      (x y : Expression) (a b : ℕ)
      → Operand m x a
      → Operand m y b
      → IsWord a
      → IsWord b
      → Computes m (handle_smod (x ∷ y ∷ []) loc) (smod_word a b)
  unfolding handle_smod check_arity
  handle_smod-Computes x y a b hx hy wa wb s =
      let ea = ensure_biguint x loc s in
      let eb = ensure_biguint y loc ea.1 in
      let aa = absolute ea.0 loc eb.1 in
      let ab = absolute eb.0 loc aa.1 in
      let r = big_uint_bin_op aa.0 mod_op ab.0 loc ab.1 in
      let ha = ensure_biguint-Computes m x a loc hx s in
      let hb = ensure_biguint-Computes m y b loc hy ea.1 in
      record {
        typed = refl;
        big = eval-unless_zero eb.0 _ b _ hb.big (λ nonzero.
            let small = remainder-IsWord (magnitude a) (magnitude b) (magnitude-bound a wa) in
            let hr =
              big_uint_bin_op-Computes m aa.0 ab.0 mod_op loc (magnitude a) (magnitude b)
                (magnitude a % magnitude b) (as-Operand m (absolute-Computes ea.0 a ha wa eb.1))
                (as-Operand m (absolute-Computes eb.0 b hb wb aa.1))
                (rw (magnitude-nonzero b wb nonzero) refl) (omega (arith, small)) ab.1 in
            conditional-Big m _ _ _ biguint_t loc (is_negative a) _
              (eval-is_negative256 ea.0 a ha.big)
              (either-Big m (is_negative a) _ _ _ _
                (negate256-Computes r.0 _ (as-Operand m hr) small r.1).big hr.big));
      }
