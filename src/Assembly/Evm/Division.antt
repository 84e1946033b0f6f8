-- ===== src/Assembly/Evm/Division.antt =====
-- The wrap to a word, and division whose divisor may be 0.
use puya_sol.Prelude.{
  ℕ, ◌+◌, ◌*◌, ◌%◌, ◌^◌, ◌<◌, ◌≡◌, refl, sym, ap, ◌∙◌, Bool, true, false, not, ◌&&◌, Option, none,
  some, String, if◌then◌else◌, eqb, arith, inl, inr, Bool-cases, and-true, codes, List, [], ◌∷◌,
  leb, string_eq,
}
use mathlib.Core.Path.{subst}
use puya_sol.Prelude.Text.{to_string}
use puya_sol.Awst.Location.{SourceLocation}
use puya_sol.Awst.Operators.{BigUIntBinaryOperator, NumericComparison, mod_op}
use puya_sol.Awst.Expr.{Expression, node, var_expression, integer_constant}
use puya_sol.Awst.Make.Constants.{Ty, biguint_t}
use puya_sol.Avm.Decimal.{read, read_from, is_decimal, all_digits, read-to_string}
use puya_sol.Avm.Machine.{Avm, big_arithmetic}
use puya_sol.Assembly.Words.{
  Wide, find_wide, known_text, is_non_zero_decimal, any_char, divisor_is_known_non_zero,
  guarded_div_mod, safe_div_mod, wrap_mod256, make_pow256, ensure_biguint,
}
use puya_sol.Assembly.Operand.{
  Operand, word, stack_uint, flag, raw, address, Holds, Computes, as-Operand, constant-Holds,
  conditional-Big, ensure_biguint-Computes, big_uint_bin_op-Computes, zero-Holds,
  make_eval_once-Computes,
}

-- What is recorded about a local is what it holds.
abbrev pub Known : Avm → Wide → Type 0
Known m wide =
    (x v : String) (loc : SourceLocation) (t : Ty) (n : ℕ)
    → find_wide x wide ≡ some v
    → Operand m (node loc t (var_expression x)) n
    → n ≡ read v

read_from-positive : (cs : List ℕ) (acc : ℕ) → 0 < acc → 0 < read_from acc cs
unfolding read_from
read_from-positive [] acc h = h
read_from-positive (c ∷ cs) acc h = read_from-positive cs (acc * 10 + _) (omega arith)

other_digits :
    (cs : List ℕ) → any_char (λ c. not (leb 48 c && leb c 57)) cs ≡ false → all_digits cs ≡ true
other_digits [] h = refl
other_digits (c ∷ cs) h = ground (arith, other_digits cs)

digits-positive :
    (cs : List ℕ) (acc : ℕ)
    → all_digits cs ≡ true
    → any_char (λ c. not (eqb c 48)) cs ≡ true
    → 0 < read_from acc cs
unfolding read_from
digits-positive [] acc d h = absurd cc
digits-positive (c ∷ cs) acc d h = elim (Bool-cases (eqb c 48)) [
  | inl e ↦ digits-positive cs _ (and-true (leb 48 c && leb c 57) _ d).1 (rw e at h)
  | inr e ↦ read_from-positive cs _ (ground arith)
]

-- A text that the test accepts is a decimal number and no zero.
pub is_non_zero_decimal-positive :
    (v : String) → is_non_zero_decimal v ≡ true → (is_decimal v ≡ true) × (0 < read v)
unfolding is_non_zero_decimal
is_non_zero_decimal-positive v h =
    let parts = and-true _ _ h in
    let inner = and-true _ _ parts.0 in
    let d = other_digits (codes v) (not-true _ inner.1) in
    (d, digits-positive (codes v) 0 d parts.1)
  where
    not-true : (b : Bool) → not b ≡ true → b ≡ false
    not-true b h = ground arith

two_pow256-IsDecimal : is_decimal (to_string (2 ^ 256)) ≡ true
unfolding to_string
two_pow256-IsDecimal = refl

module _ (m : Avm) where
  pub make_pow256-Holds : (loc : SourceLocation) → Holds m (make_pow256 loc) (2 ^ 256)
  make_pow256-Holds loc =
      subst (λ n. Holds m (make_pow256 loc) n) (read-to_string (2 ^ 256))
        (constant-Holds m (to_string (2 ^ 256)) loc two_pow256-IsDecimal
          (omega (arith, read-to_string (2 ^ 256))))

  pub wrap_mod256-Computes :
      (e : Expression) (loc : SourceLocation) (n : ℕ)
      → Operand m e n
      → Computes m (wrap_mod256 e loc) (n % 2 ^ 256)
  unfolding wrap_mod256
  wrap_mod256-Computes e loc n h =
      big_uint_bin_op-Computes m e (make_pow256 loc) mod_op loc n (2 ^ 256) (n % 2 ^ 256) h
        (as-Operand m (make_pow256-Holds loc)) refl (omega arith)

  same_text : (u v : String) → some u ≡ some v → u ≡ v
  same_text u v h = cc

  constant-value :
      (l : SourceLocation) (t : Ty) (u : String) (n : ℕ)
      → is_decimal u ≡ true
      → Operand m (node l t (integer_constant u)) n
      → n ≡ read u
  constant-value l t u n d (word b) = m.big_constant_value u l t n d b
  constant-value l t u n d (stack_uint h k) = m.constant_value u l t n d h
  constant-value l t u n d (flag true h) = m.constant_value u l t 1 d h
  constant-value l t u n d (flag false h) = m.constant_value u l t 0 d h
  constant-value l t u n d (raw b) = m.big_constant_value u l t n d b
  constant-value l t u n d (address b) = m.big_constant_value u l t n d b

  known_text-value :
      (wide : Wide) (e : Expression) (n : ℕ) (v : String)
      → Known m wide
      → known_text wide e ≡ some v
      → is_decimal v ≡ true
      → Operand m e n
      → n ≡ read v
  known_text-value wide (node l t (var_expression x)) n v k h d o = k x v l t n h o
  known_text-value wide (node l t (integer_constant u)) n v k h d o =
      constant-value l t u n (subst (λ w. is_decimal w ≡ true) (sym (same_text u v h)) d) o
      ∙ ap read (same_text u v h)
  known_text-value wide e n v k h d o = absurd cc

  pub divisor_is_known_non_zero-positive :
      (wide : Wide) (e : Expression) (n : ℕ)
      → Known m wide
      → divisor_is_known_non_zero wide e ≡ true
      → Operand m e n
      → 0 < n
  unfolding divisor_is_known_non_zero
  divisor_is_known_non_zero-positive wide e n k h o = go (known_text wide e) refl h
    where
      go :
          (t : Option String)
          → known_text wide e ≡ t
          → (elim t [ some v ↦ is_non_zero_decimal v | none ↦ false ]) ≡ true
          → 0 < n
      go none unknown h = absurd cc
      go (some v) found h =
          let r = is_non_zero_decimal-positive v h in
          omega (arith, r.1, known_text-value wide e n v k found r.0 o)

  -- `right != 0 ? left op right : 0`.
  pub guarded_div_mod-Computes :
      (left right : Expression) (op : BigUIntBinaryOperator) (loc : SourceLocation) (a b q : ℕ)
      → Operand m left a
      → Operand m right b
      → (eqb b 0 ≡ false → big_arithmetic op a b ≡ some q)
      → q < 2 ^ 512
      → Computes m (guarded_div_mod left op right loc) (if eqb b 0 then 0 else q)
  unfolding guarded_div_mod
  guarded_div_mod-Computes left right op loc a b q ha hb h small s =
      let divisor = ensure_biguint-Computes m right b loc hb s in
      let once = make_eval_once-Computes m _ b loc divisor (ensure_biguint right loc s).1 in
      record {
        typed = refl;
        big =
            conditional-Big m _ _ _ biguint_t loc (not (eqb b 0)) (if eqb b 0 then 0 else q)
              (m.compare_big _ _ NumericComparison.ne loc b 0 once.big (zero-Holds m loc).big)
              (elim (Bool-cases (eqb b 0)) [
                | inl z ↦ rw z ((zero-Holds m loc).big)
                | inr z ↦ rw z (
                    (big_uint_bin_op-Computes m left _ op loc a b q ha (as-Operand m once) (h z)
                      small _).big)
              ]);
      }

  pub safe_div_mod-Computes :
      (wide : Wide) (left right : Expression) (op : BigUIntBinaryOperator) (loc : SourceLocation)
      (a b q : ℕ)
      → Known m wide
      → Operand m left a
      → Operand m right b
      → (eqb b 0 ≡ false → big_arithmetic op a b ≡ some q)
      → q < 2 ^ 512
      → Computes m (safe_div_mod wide left op right loc) (if eqb b 0 then 0 else q)
  unfolding safe_div_mod
  safe_div_mod-Computes wide left right op loc a b q k ha hb h small =
      elim (Bool-cases (divisor_is_known_non_zero wide right)) [
        | inl known ↦ rw known (
            let nonzero = not_zero b (divisor_is_known_non_zero-positive wide right b k known hb) in
            rw nonzero (λ s.
              big_uint_bin_op-Computes m left _ op loc a b q ha
                (as-Operand m (ensure_biguint-Computes m right b loc hb s)) (h nonzero) small _))
        | inr unknown ↦ rw unknown (guarded_div_mod-Computes left right op loc a b q ha hb h small)
      ]
    where
      not_zero : (b : ℕ) → 0 < b → eqb b 0 ≡ false
      not_zero b h = ground arith
