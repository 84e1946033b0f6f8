-- ===== src/Assembly/Evm/Unsigned.antt =====
-- The handlers of src/builder/assembly/ArithmeticOps.cpp and `div` against the EVM.
use puya_sol.Prelude.{
  ℕ, ◌+◌, ◌-◌, ◌*◌, ◌/◌, ◌%◌, ◌^◌, ◌≡◌, refl, ◌∙◌, Bool, true, false, not, some, [], ◌∷◌,
  if◌then◌else◌, eqb, ltb, String, arith,
}
use mathlib.Core.Path.{subst, subst₂}
use puya_sol.Awst.Location.{SourceLocation}
use puya_sol.Awst.Operators.{NumericComparison, add, sub, mult, floor_div, mod_op}
use puya_sol.Awst.Expr.{Expression}
use puya_sol.Avm.Machine.{Avm, truth, holds}
use puya_sol.Assembly.Words.{Wide, ensure_biguint, big_uint_bin_op, wrap_mod256, make_pow256}
use puya_sol.Assembly.Arguments.{check_arity, make_yul_compare}
use puya_sol.Assembly.Arithmetic.{
  handle_add, handle_mul, handle_sub, handle_div, handle_mod, handle_addmod, handle_mulmod,
  handle_eq, handle_lt, handle_gt, handle_iszero,
}
use puya_sol.Assembly.Operand.{
  Operand, word, stack_uint, flag, raw, address, Holds, Computes, Decides, as-Operand, zero-Holds,
  ensure_biguint-Computes, big_uint_bin_op-Computes,
}
use puya_sol.Assembly.Evm.{IsWord, add_word, mul_word, sub_word, div_word, mod_word}
use puya_sol.Assembly.Evm.Bounds.{product-bound, quotient-bound, remainder-bound, word_mod}
use puya_sol.Assembly.Evm.Division.{
  Known, make_pow256-Holds, wrap_mod256-Computes, safe_div_mod-Computes,
}

module _ (m : Avm) (loc : SourceLocation) where
  -- For two operands (biguint, uint64, Boolean, bytes or account) whose values are words, the
  -- expression built for `add` is, in any session, a biguint with their sum modulo 2^256, over any
  -- machine that meets the documented laws of the AVM opcodes.
  pub handle_add-Computes :
      (x y : Expression) (a b : ℕ)
      → Operand m x a
      → Operand m y b
      → IsWord a
      → IsWord b
      → Computes m (handle_add (x ∷ y ∷ []) loc) (add_word a b)
  unfolding handle_add check_arity
  handle_add-Computes x y a b ha hb wa wb s =
      wrap_mod256-Computes m _ loc (a + b)
        (as-Operand m
          (big_uint_bin_op-Computes m x y add loc a b (a + b) ha hb refl (omega arith) s))
        (big_uint_bin_op x add y loc s).1

  -- For two operands (biguint, uint64, Boolean, bytes or account) whose values are words, the
  -- expression built for `mul` is, in any session, a biguint with their product modulo 2^256, over
  -- any machine that meets the documented laws of the AVM opcodes.
  pub handle_mul-Computes :
      (x y : Expression) (a b : ℕ)
      → Operand m x a
      → Operand m y b
      → IsWord a
      → IsWord b
      → Computes m (handle_mul (x ∷ y ∷ []) loc) (mul_word a b)
  unfolding handle_mul check_arity
  handle_mul-Computes x y a b ha hb wa wb s =
      wrap_mod256-Computes m _ loc (a * b)
        (as-Operand m (
          big_uint_bin_op-Computes m x y mult loc a b (a * b) ha hb refl (product-bound a b wa wb)
            s))
        (big_uint_bin_op x mult y loc s).1

  sub-word : (a b : ℕ) → IsWord a → IsWord b → (a + 2 ^ 256 - b) % 2 ^ 256 ≡ sub_word a b
  sub-word a b h k = ground arith

  -- For two operands (biguint, uint64, Boolean, bytes or account) whose values are words, the
  -- expression built for `sub` is, in any session, a biguint with their difference, or for a
  -- negative one with 2^256 less its size, over any machine that meets the documented laws of the
  -- AVM opcodes.
  pub handle_sub-Computes :
      (x y : Expression) (a b : ℕ)
      → Operand m x a
      → Operand m y b
      → IsWord a
      → IsWord b
      → Computes m (handle_sub (x ∷ y ∷ []) loc) (sub_word a b)
  unfolding handle_sub check_arity
  handle_sub-Computes x y a b ha hb wa wb s =
      let raised =
        big_uint_bin_op-Computes m x (make_pow256 loc) add loc a (2 ^ 256) (a + 2 ^ 256) ha
          (as-Operand m (make_pow256-Holds m loc)) refl (omega arith) s in
      let difference =
        big_uint_bin_op-Computes m _ y sub loc (a + 2 ^ 256) b (a + 2 ^ 256 - b)
          (as-Operand m raised) hb (ground arith) (omega arith)
          (big_uint_bin_op x add (make_pow256 loc) loc s).1 in
      subst (λ n. Holds m (handle_sub (x ∷ y ∷ []) loc s).0 n) (sub-word a b wa wb)
        (wrap_mod256-Computes m _ loc (a + 2 ^ 256 - b) (as-Operand m difference)
          (big_uint_bin_op (big_uint_bin_op x add (make_pow256 loc) loc s).0 sub y loc
            (big_uint_bin_op x add (make_pow256 loc) loc s).1).1)

  make_yul_compare-Decides :
      (x y : Expression) (op : NumericComparison) (name : String) (a b : ℕ)
      → Operand m x a
      → Operand m y b
      → Decides m (make_yul_compare (x ∷ y ∷ []) op name loc) (holds op a b)
  unfolding make_yul_compare check_arity
  make_yul_compare-Decides x y op name a b ha hb s = (
    refl,
    m.compare_big _ _ op loc a b (ensure_biguint-Computes m x a loc ha s).big
        (ensure_biguint-Computes m y b loc hb (ensure_biguint x loc s).1).big,
  )

  -- For two operands (biguint, uint64, Boolean, bytes or account), the expressions built for `eq`,
  -- `lt` and `gt` are, in any session, Booleans that tell whether the values are equal, the first
  -- smaller, the second smaller, over any machine that meets the documented laws of the AVM
  -- opcodes.
  pub handle_compare-Decides :
      (x y : Expression) (a b : ℕ)
      → Operand m x a
      → Operand m y b
      → Decides m (handle_eq (x ∷ y ∷ []) loc) (eqb a b)
        × Decides m (handle_lt (x ∷ y ∷ []) loc) (ltb a b)
        × Decides m (handle_gt (x ∷ y ∷ []) loc) (ltb b a)
  unfolding handle_eq handle_lt handle_gt
  handle_compare-Decides x y a b ha hb = (
    make_yul_compare-Decides x y NumericComparison.eq "eq" a b ha hb,
    make_yul_compare-Decides x y NumericComparison.lt "lt" a b ha hb,
    make_yul_compare-Decides x y NumericComparison.gt "gt" a b ha hb,
  )

  -- For an operand that is a biguint, a uint64, a Boolean, bytes or an account, the expression
  -- built for `iszero` is, in any session, a Boolean that tells whether the value is 0, over any
  -- machine that meets the documented laws of the AVM opcodes.
  pub handle_iszero-Decides :
      (x : Expression) (a : ℕ) → Operand m x a → Decides m (handle_iszero (x ∷ []) loc) (eqb a 0)
  unfolding handle_iszero check_arity ensure_biguint
  handle_iszero-Decides x a (word b) s =
      (refl, m.compare_big _ _ NumericComparison.eq loc a 0 b (zero-Holds m loc).big)
  handle_iszero-Decides x a (stack_uint h k) s = (
    refl,
    m.compare_big _ _ NumericComparison.eq loc a 0
        (ensure_biguint-Computes m x a loc (stack_uint h k) s).big (zero-Holds m loc).big,
  )
  handle_iszero-Decides x a (flag b h) s = (refl, m.negation x loc b h ∙ truth_lem b)
    where
      truth_lem : (b : Bool) → some (truth (not b)) ≡ some (truth (eqb (if b then 1 else 0) 0))
      truth_lem true = refl
      truth_lem false = refl
  handle_iszero-Decides x a (raw b) s = (
    refl,
    m.compare_big _ _ NumericComparison.eq loc a 0 (ensure_biguint-Computes m x a loc (raw b) s).big
        (zero-Holds m loc).big,
  )
  handle_iszero-Decides x a (address b) s = (
    refl,
    m.compare_big _ _ NumericComparison.eq loc a 0
        (ensure_biguint-Computes m x a loc (address b) s).big (zero-Holds m loc).big,
  )

module _ (m : Avm) (wide : Wide) (loc : SourceLocation) (known : Known m wide) where
  -- For two operands (biguint, uint64, Boolean, bytes or account) whose values are words, the
  -- expression built for `mod` is, in any session, a biguint with the remainder, and 0 for the
  -- divisor 0, where the recorded constants are the values of their locals, over any machine that
  -- meets the documented laws of the AVM opcodes.
  pub handle_mod-Computes :
      (x y : Expression) (a b : ℕ)
      → Operand m x a
      → Operand m y b
      → IsWord a
      → IsWord b
      → Computes m (handle_mod wide (x ∷ y ∷ []) loc) (mod_word a b)
  unfolding handle_mod check_arity
  handle_mod-Computes x y a b ha hb wa wb =
      safe_div_mod-Computes m wide x y mod_op loc a b (a % b) known ha hb (λ z. rw z refl)
        (grind arith)

  -- For two operands (biguint, uint64, Boolean, bytes or account) whose values are words, the
  -- expression built for `div` is, in any session, a biguint with their quotient, and 0 for the
  -- divisor 0, where the recorded constants are the values of their locals, over any machine that
  -- meets the documented laws of the AVM opcodes.
  pub handle_div-Computes :
      (x y : Expression) (a b : ℕ)
      → Operand m x a
      → Operand m y b
      → IsWord a
      → IsWord b
      → Computes m (handle_div wide (x ∷ y ∷ []) loc) (div_word a b)
  unfolding handle_div check_arity
  handle_div-Computes x y a b ha hb wa wb s =
      let s1 = (ensure_biguint x loc s).1 in
      let dividend =
        wrap_mod256-Computes m _ loc a (as-Operand m (ensure_biguint-Computes m x a loc ha s)) s1 in
      let s2 = (wrap_mod256 (ensure_biguint x loc s).0 loc s1).1 in
      let s3 = (ensure_biguint y loc s2).1 in
      let divisor =
        wrap_mod256-Computes m _ loc b (as-Operand m (ensure_biguint-Computes m y b loc hb s2))
          s3 in
      subst₂ (λ p q. Holds m (handle_div wide (x ∷ y ∷ []) loc s).0 (div_word p q)) (word_mod a wa)
        (word_mod b wb)
        (safe_div_mod-Computes m wide _ _ floor_div loc (a % 2 ^ 256) (b % 2 ^ 256)
          (a % 2 ^ 256 / (b % 2 ^ 256)) known (as-Operand m dividend) (as-Operand m divisor)
          (λ z. rw z refl) (quotient-bound _ _ (omega arith))
          (wrap_mod256 (ensure_biguint y loc s2).0 loc s3).1)

  -- For three operands (biguint, uint64, Boolean, bytes or account), the first two with words for
  -- values, the expression built for `addmod` is, in any session, a biguint with the unbounded sum
  -- modulo the third value, and 0 where that is 0, where the recorded constants are the values of
  -- their locals, over any machine that meets the documented laws of the AVM opcodes.
  pub handle_addmod-Computes :
      (x y z : Expression) (a b c : ℕ)
      → Operand m x a
      → Operand m y b
      → Operand m z c
      → IsWord a
      → IsWord b
      → Computes m (handle_addmod wide (x ∷ y ∷ z ∷ []) loc) (mod_word (a + b) c)
  unfolding handle_addmod check_arity
  handle_addmod-Computes x y z a b c ha hb hc wa wb s =
      safe_div_mod-Computes m wide _ z mod_op loc (a + b) c ((a + b) % c) known
        (as-Operand m
          (big_uint_bin_op-Computes m x y add loc a b (a + b) ha hb refl (omega arith) s))
        hc (λ z. rw z refl) (remainder-bound (a + b) c (omega arith))
        (big_uint_bin_op x add y loc s).1

  -- For three operands (biguint, uint64, Boolean, bytes or account), the first two with words for
  -- values, the expression built for `mulmod` is, in any session, a biguint with the unbounded
  -- product modulo the third value, and 0 where that is 0, where the recorded constants are the
  -- values of their locals, over any machine that meets the documented laws of the AVM opcodes.
  pub handle_mulmod-Computes :
      (x y z : Expression) (a b c : ℕ)
      → Operand m x a
      → Operand m y b
      → Operand m z c
      → IsWord a
      → IsWord b
      → Computes m (handle_mulmod wide (x ∷ y ∷ z ∷ []) loc) (mod_word (a * b) c)
  unfolding handle_mulmod check_arity
  handle_mulmod-Computes x y z a b c ha hb hc wa wb s =
      safe_div_mod-Computes m wide _ z mod_op loc (a * b) c ((a * b) % c) known
        (as-Operand m (
          big_uint_bin_op-Computes m x y mult loc a b (a * b) ha hb refl (product-bound a b wa wb)
            s))
        hc (λ z. rw z refl) (remainder-bound (a * b) c (product-bound a b wa wb))
        (big_uint_bin_op x mult y loc s).1
