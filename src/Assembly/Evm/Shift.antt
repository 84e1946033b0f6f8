-- ===== src/Assembly/Evm/Shift.antt =====
-- `shl` and `shr` (src/builder/assembly/BitwiseShiftOps.cpp) against the EVM.
use native.Mathlib.Nat.{pow-suc, mul_assoc, mul-mod_left, pow-le-pow_right, div-eq_of_lt}
use puya_sol.Prelude.{
  ℕ, zero, suc, ◌+◌, ◌-◌, ◌*◌, ◌/◌, ◌%◌, ◌^◌, ◌<◌, ◌≤◌, ◌≡◌, refl, sym, ap, ◌∙◌, false, some, [],
  ◌∷◌, eqb, ltb, ltb→lt, arith, inl, inr, Bool-cases,
}
use mathlib.Core.Path.{subst}
use puya_sol.Awst.Location.{SourceLocation}
use puya_sol.Awst.Operators.{NumericComparison, mult, floor_div}
use puya_sol.Awst.Expr.{Expression}
use puya_sol.Awst.Make.Constants.{biguint_t}
use puya_sol.Awst.Make.Operations.{make_eval_once}
use puya_sol.Avm.Decimal.{read_from}
use puya_sol.Avm.Machine.{Avm, Big}
use puya_sol.Assembly.Words.{ensure_biguint, big_uint_bin_op, wrap_mod256}
use puya_sol.Assembly.Arguments.{check_arity}
use puya_sol.Assembly.Shift.{below256, build_power_of2, handle_shl, handle_shr}
use puya_sol.Assembly.Operand.{
  Operand, Computes, as-Operand, zero-Holds, conditional-Big, ensure_biguint-Computes,
  big_uint_bin_op-Computes, make_eval_once-Computes,
}
use puya_sol.Assembly.Evm.{IsWord, shl_word, shr_word}
use puya_sol.Assembly.Evm.Bounds.{product-bound, quotient-IsWord, word_mod}
use puya_sol.Assembly.Evm.Division.{wrap_mod256-Computes}
use puya_sol.Assembly.Evm.Power.{build_power_of2-Computes}

power-bound : (a : ℕ) → a < 256 → 2 ^ a < 2 ^ 256
power-bound a h =
    omega (arith, pow-le-pow_right {n = 2} (omega arith) {i = a} {j = 255} (omega arith))

power-positive : (a : ℕ) → 0 < 2 ^ a
power-positive a =
    omega (arith, pow-le-pow_right {n = 2} (omega arith) {i = 0} {j = a} (omega arith))

power-add : (k j : ℕ) → 2 ^ (k + j) ≡ 2 ^ k * 2 ^ j
power-add zero j = ap (λ (n : ℕ). 2 ^ n) (left j) ∙ one (2 ^ j)
  where
    left : (j : ℕ) → 0 + j ≡ j
    left j = omega arith

    one : (n : ℕ) → n ≡ 2 ^ 0 * n
    one n = omega arith
power-add (suc k) j =
    ap (λ (n : ℕ). 2 ^ n) (left k j)
    ∙ (pow-suc 2 (k + j)
        ∙ (ap (λ (n : ℕ). n * 2) (power-add k j) ∙ last (2 ^ k) (2 ^ j) (pow-suc 2 k)))
  where
    left : (k j : ℕ) → suc k + j ≡ suc (k + j)
    left k j = omega arith

    swap : (p q : ℕ) → p * q * 2 ≡ p * 2 * q
    swap p q = grind arith

    last : (p q : ℕ) {r : ℕ} → r ≡ p * 2 → p * q * 2 ≡ r * q
    last p q e = swap p q ∙ ap (λ (n : ℕ). n * q) (sym e)

shl_word-wide : (a b : ℕ) → 256 ≤ a → shl_word a b ≡ 0
shl_word-wide a b h =
    ap (λ (k : ℕ). b * 2 ^ k % 2 ^ 256) (split a h)
    ∙ (ap (λ (p : ℕ). b * p % 2 ^ 256) (power-add (a - 256) 256) ∙ multiple b (2 ^ (a - 256)))
  where
    split : (a : ℕ) → 256 ≤ a → a ≡ a - 256 + 256
    split a h = omega arith

    multiple : (b p : ℕ) → b * (p * 2 ^ 256) % 2 ^ 256 ≡ 0
    multiple b p = omega (
      arith,
      mul-mod_left (b * p) (2 ^ 256),
      ap (λ (n : ℕ). n % 2 ^ 256) (mul_assoc b p (2 ^ 256)),
    )

shr_word-wide : (a b : ℕ) → 256 ≤ a → IsWord b → shr_word a b ≡ 0
shr_word-wide a b h w =
    div-eq_of_lt (omega (arith, pow-le-pow_right {n = 2} (omega arith) {i = 256} {j = a} h))

module _ (m : Avm) (loc : SourceLocation) where
  -- `shift < 256 ? result : 0`.
  eval-below256 :
      (e x : Expression) (a n : ℕ)
      → Big m.eval e a
      → (a < 256 → Big m.eval x n)
      → (256 ≤ a → n ≡ 0)
      → Big m.eval (below256 e x loc) n
  unfolding read_from
  eval-below256 e x a n he hx wide =
      conditional-Big m _ _ _ biguint_t loc (ltb a 256) n
        (m.compare_big e _ NumericComparison.lt loc a 256 he
          (m.big_constant "256" loc refl (ltb→lt _ _ refl)))
        (elim (Bool-cases (ltb a 256)) [
          | inl h ↦ rw h (hx (ltb→lt a 256 h))
          | inr h ↦ rw h (rw (wide (ground arith)) (zero-Holds m loc).big)
        ])

  -- For a shift of any size and a word to shift, in operands that are biguint, uint64, Boolean,
  -- bytes or account, the expression built for `shl` is, in any session, a biguint with the word
  -- times the power of two, modulo 2^256, over any machine that meets the documented laws of the
  -- AVM opcodes.
  pub handle_shl-Computes :
      (x y : Expression) (a b : ℕ)
      → Operand m x a
      → Operand m y b
      → IsWord b
      → Computes m (handle_shl (x ∷ y ∷ []) loc) (shl_word a b)
  unfolding handle_shl check_arity
  handle_shl-Computes x y a b hx hy wb s =
      let amount = ensure_biguint x loc s in
      let shift = make_eval_once amount.0 loc amount.1 in
      let raw = ensure_biguint y loc shift.1 in
      let value = wrap_mod256 raw.0 loc raw.1 in
      let power = build_power_of2 shift.0 loc value.1 in
      let product = big_uint_bin_op value.0 mult power.0 loc power.1 in
      let hs =
        make_eval_once-Computes m amount.0 a loc (ensure_biguint-Computes m x a loc hx s)
          amount.1 in
      let hv =
        wrap_mod256-Computes m raw.0 loc b
          (as-Operand m (ensure_biguint-Computes m y b loc hy shift.1)) raw.1 in
      record {
        typed = refl;
        big =
            eval-below256 shift.0 _ a (shl_word a b) hs.big
              (λ small.
                let hp = build_power_of2-Computes m loc shift.0 a hs small value.1 in
                let hm =
                  big_uint_bin_op-Computes m value.0 power.0 mult loc (b % 2 ^ 256) (2 ^ a)
                    (b % 2 ^ 256 * 2 ^ a) (as-Operand m hv) (as-Operand m hp) refl
                    (product-bound (b % 2 ^ 256) (2 ^ a) (omega arith) (power-bound a small))
                    power.1 in
                subst
                  (λ (n : ℕ).
                    Big m.eval (wrap_mod256 product.0 loc product.1).0 (n * 2 ^ a % 2 ^ 256))
                  (word_mod b wb)
                  (wrap_mod256-Computes m product.0 loc (b % 2 ^ 256 * 2 ^ a) (as-Operand m hm)
                    product.1).big)
              (shl_word-wide a b);
      }

  -- For a shift of any size and a word to shift, in operands that are biguint, uint64, Boolean,
  -- bytes or account, the expression built for `shr` is, in any session, a biguint with the word
  -- divided by the power of two, over any machine that meets the documented laws of the AVM
  -- opcodes.
  pub handle_shr-Computes :
      (x y : Expression) (a b : ℕ)
      → Operand m x a
      → Operand m y b
      → IsWord b
      → Computes m (handle_shr (x ∷ y ∷ []) loc) (shr_word a b)
  unfolding handle_shr check_arity
  handle_shr-Computes x y a b hx hy wb s =
      let amount = ensure_biguint x loc s in
      let shift = make_eval_once amount.0 loc amount.1 in
      let raw = ensure_biguint y loc shift.1 in
      let value = wrap_mod256 raw.0 loc raw.1 in
      let power = build_power_of2 shift.0 loc value.1 in
      let hs =
        make_eval_once-Computes m amount.0 a loc (ensure_biguint-Computes m x a loc hx s)
          amount.1 in
      let hv =
        wrap_mod256-Computes m raw.0 loc b
          (as-Operand m (ensure_biguint-Computes m y b loc hy shift.1)) raw.1 in
      record {
        typed = refl;
        big =
            eval-below256 shift.0 _ a (shr_word a b) hs.big
              (λ small.
                let hp = build_power_of2-Computes m loc shift.0 a hs small value.1 in
                (big_uint_bin_op-Computes m value.0 power.0 floor_div loc (b % 2 ^ 256) (2 ^ a)
                  (shr_word a b) (as-Operand m hv) (as-Operand m hp)
                  (rw (not_zero (2 ^ a) (power-positive a))
                    (ap some (ap (λ (n : ℕ). n / 2 ^ a) (word_mod b wb))))
                  (omega (arith, quotient-IsWord b (2 ^ a) wb)) power.1).big)
              (λ wide. shr_word-wide a b wide wb);
      }
    where
      not_zero : (n : ℕ) → 0 < n → eqb n 0 ≡ false
      not_zero n h = ground arith
