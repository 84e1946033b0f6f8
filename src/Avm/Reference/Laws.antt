-- ===== src/Avm/Reference/Laws.antt =====
-- The evaluator as a machine: a value for each law.
use puya_sol.Prelude.{
  ℕ, zero, suc, ◌+◌, ◌-◌, ◌^◌, ◌<◌, ◌≡◌, refl, sym, ap, ap₂, ◌∙◌, Bool, true, false, Option, none,
  some, List, [], ◌∷◌, ◌++◌, String, if◌then◌else◌, length, length-append, take, drop, replicate,
  arith, pos, not, ◌&&◌, le→leb, ltb, ltb→lt, lt→ltb,
}
use puya_sol.Awst.Location.{SourceLocation}
use puya_sol.Awst.Operators.{BigUIntBinaryOperator, NumericComparison, number}
use puya_sol.Awst.Expr.{Expression}
use puya_sol.Awst.Make.Constants.{Ty, biguint_t, make_integer_constant}
use puya_sol.Awst.Make.Casts.{same_type}
use puya_sol.Awst.Make.Operations.{make_big_uint_bin_op, make_numeric_compare}
use puya_sol.Avm.Decimal.{read, read-to_string}
use puya_sol.Avm.Digits.{num, length-replicate}
use puya_sol.Avm.Machine.{Value, uint, byte_string, truth, holds, big_arithmetic, Big, Avm}
use puya_sol.Avm.Reference.{
  evaluate, choose, compare_values, as_uint, as_big, uint_operation, big_operation, negate_value,
  both, run_subtract, run_extract_uint64, decode_bool_value, encode_bool_value, run_itob, run_btoi,
  run_len, run_concat, run_extract, run_extract3, run_setbit, run_or, or_bytes, extend_to,
}
use puya_sol.Avm.Reference.Numbers.{to_bytes, num-to_bytes, length-to_bytes, to_bytes-IsByte}

drop-append : (xs ys : List ℕ) → drop (length xs) (xs ++ ys) ≡ ys
drop-append [] ys = refl
drop-append (x ∷ xs) ys = drop-append xs ys

take-append : (xs ys : List ℕ) → take (length xs) (xs ++ ys) ≡ xs
take-append [] ys = refl
take-append (x ∷ xs) ys = ap (λ l. x ∷ l) (take-append xs ys)

pub slice_middle : (xs ys zs : List ℕ) → take (length ys) (drop (length xs) (xs ++ (ys ++ zs))) ≡ ys
slice_middle xs ys zs = ap (take (length ys)) (drop-append xs (ys ++ zs)) ∙ take-append ys zs

replicate-add : (j k b : ℕ) → replicate j b ++ replicate k b ≡ replicate (j + k) b
replicate-add zero k b = ap (λ n. replicate n b) (omega arith)
replicate-add (suc j) k b =
    ap (λ l. b ∷ l) (replicate-add j k b) ∙ ap (λ n. replicate n b) (more j k)
  where
    more : (j k : ℕ) → suc (j + k) ≡ suc j + k
    more j k = omega arith

or_bytes-zeros : (ys : List ℕ) → or_bytes (replicate (length ys) 0) ys ≡ ys
or_bytes-zeros [] = refl
or_bytes-zeros (y ∷ ys) = ap (λ l. y ∷ l) (or_bytes-zeros ys)

pub or_lem :
    (n : ℕ) (bs : List ℕ)
    → or_bytes
        (extend_to (length bs) (replicate n 0))
        (extend_to (length (replicate {A = ℕ} n 0)) bs)
      ≡ replicate (n - length bs) 0 ++ bs
or_lem n bs =
    ap₂ (λ xs ys. or_bytes xs ys)
      (replicate-add (length bs - length (replicate {A = ℕ} n 0)) n 0
        ∙ ap (λ (k : ℕ). replicate k 0) (omega (arith, width, size)))
      (ap (λ (k : ℕ). replicate (k - length bs) 0 ++ bs) (length-replicate n 0))
    ∙ or_bytes-zeros (replicate (n - length bs) 0 ++ bs)
  where
    width : length (replicate {A = ℕ} n 0) ≡ n
    width = length-replicate n 0

    size : length (replicate {A = ℕ} (n - length bs) 0 ++ bs) ≡ n - length bs + length bs
    size =
        length-append (replicate (n - length bs) 0) bs
        ∙ ap (λ (k : ℕ). k + length bs) (length-replicate _ 0)

uint_bytes : {n : ℕ} {bs : List ℕ} → some (uint n) ≡ some (byte_string bs) → ⊥
uint_bytes e = cc

none_bytes : {bs : List ℕ} → some (byte_string bs) ≡ none → ⊥
none_bytes e = cc

not_uint :
    (c : Bool) (bs : List ℕ) (n : ℕ)
    → (if c then some (byte_string bs) else none) ≡ some (uint n)
    → ⊥
not_uint true bs n e = cc
not_uint false bs n e = cc

same_bytes : {xs ys : List ℕ} → some (byte_string xs) ≡ some (byte_string ys) → xs ≡ ys
same_bytes e = cc

bounded :
    (c : Bool) (k n : ℕ) (bs : List ℕ)
    → (c ≡ true → k < 2 ^ 512)
    → (if c then some (byte_string (to_bytes k)) else none) ≡ some (byte_string bs)
    → num bs ≡ n
    → n ≡ k
bounded true k n bs h e v =
    sym v ∙ (ap num (sym (same_bytes e)) ∙ num-to_bytes k (omega (arith, h refl)))
bounded false k n bs h e v = absurd (none_bytes (sym e))

module _ (variable : String → Option Value) where
  pub Big-result :
      (e : Expression) (n : ℕ)
      → evaluate variable e ≡ some (byte_string (to_bytes n))
      → n < 2 ^ 512
      → Big (evaluate variable) e n
  Big-result e n h k = record {
    bytes = to_bytes n;
    evaluates = h;
    value = num-to_bytes n (omega arith);
    are_bytes = to_bytes-IsByte n;
    fits = length-to_bytes n (omega arith);
  }

  pub constant_lem :
      (s : String) (loc : SourceLocation) (t : Ty)
      → same_type t biguint_t ≡ false
      → evaluate variable (make_integer_constant s loc t) ≡ some (uint (read s))
  unfolding evaluate
  constant_lem s loc t h = rw h refl

  pub constant_value_lem :
      (s : String) (loc : SourceLocation) (t : Ty) (n : ℕ)
      → evaluate variable (make_integer_constant s loc t) ≡ some (uint n)
      → n ≡ read s
  unfolding evaluate
  constant_value_lem s loc t n h = which (same_type t biguint_t) (read s) n h
    where
      which :
          (b : Bool) (k n : ℕ)
          → (if b
              then (if ltb k (2 ^ 512) then some (byte_string (to_bytes k)) else none)
              else some (uint k))
            ≡ some (uint n)
          → n ≡ k
      which true k n e = absurd (not_uint (ltb k (2 ^ 512)) (to_bytes k) n e)
      which false k n e = cc

  pub big_constant_value_lem :
      (s : String) (loc : SourceLocation) (t : Ty) (n : ℕ)
      → Big (evaluate variable) (make_integer_constant s loc t) n
      → n ≡ read s
  unfolding evaluate
  big_constant_value_lem s loc t n b =
      which (same_type t biguint_t) (read s) n b.bytes b.evaluates b.value
    where
      which :
          (c : Bool) (k n : ℕ) (bs : List ℕ)
          → (if c
              then (if ltb k (2 ^ 512) then some (byte_string (to_bytes k)) else none)
              else some (uint k))
            ≡ some (byte_string bs)
          → num bs ≡ n
          → n ≡ k
      which true k n bs e v = bounded (ltb k (2 ^ 512)) k n bs (ltb→lt k (2 ^ 512)) e v
      which false k n bs e v = absurd (uint_bytes e)

  pub big_op_lem :
      (a b : Expression) (op : BigUIntBinaryOperator) (loc : SourceLocation) (m n k : ℕ)
      → Big (evaluate variable) a m
      → Big (evaluate variable) b n
      → big_arithmetic op m n ≡ some k
      → k < 2 ^ 512
      → Big (evaluate variable) (make_big_uint_bin_op a op b loc) k
  unfolding evaluate
  big_op_lem a b op loc m n k x y h small =
      Big-result _ k
        (ap₂ (λ u v. big_operation op u v) x.evaluates y.evaluates
          ∙ (ap₂ (λ u v. as_big (big_arithmetic op u v)) x.value y.value ∙ ap as_big h))
        small

  pub compare_big_lem :
      (a b : Expression) (op : NumericComparison) (loc : SourceLocation) (m n : ℕ)
      → Big (evaluate variable) a m
      → Big (evaluate variable) b n
      → evaluate variable (make_numeric_compare a op b loc) ≡ some (truth (holds op m n))
  unfolding evaluate
  compare_big_lem a b op loc m n x y =
      ap₂ (λ u v. compare_values op u v) x.evaluates y.evaluates
      ∙ ap₂ (λ u v. some (truth (holds op u v))) x.value y.value

  pub conditional_lem :
      (test : Bool) (x y : Option Value) (v : Value)
      → (if test then x else y) ≡ some v
      → choose (some (truth test)) x y ≡ some v
  conditional_lem true x y v h = h
  conditional_lem false x y v h = h

  pub if_ap :
      (test : Bool) (a b : Expression)
      → evaluate variable (if test then a else b)
        ≡ (if test then evaluate variable a else evaluate variable b)
  if_ap true a b = refl
  if_ap false a b = refl

  pub decode_lem :
      (b : Bool)
      → decode_bool_value (some (byte_string ((if b then 128 else 0) ∷ []))) ≡ some (truth b)
  decode_lem true = refl
  decode_lem false = refl

  pub encode_lem :
      (b : Bool)
      → encode_bool_value (some (truth b)) ≡ some (byte_string ((if b then 128 else 0) ∷ []))
  encode_lem true = refl
  encode_lem false = refl

  pub negate_lem : (b : Bool) → negate_value (some (truth b)) ≡ some (truth (not b))
  negate_lem true = refl
  negate_lem false = refl

  pub both_lem : (p q : Bool) → both (some (truth p)) (some (truth q)) ≡ some (truth (p && q))
  both_lem true true = refl
  both_lem true false = refl
  both_lem false true = refl
  both_lem false false = refl

  abbrev pub reference : Avm
  unfolding evaluate
  reference = record {
    eval = evaluate variable;
    constant = λ s loc t d h k. constant_lem s loc t h;
    big_constant = λ s loc d k. Big-result _ (read s) (rw (lt→ltb (read s) (2 ^ 512) k) refl) k;
    constant_value = λ s loc t n d h. constant_value_lem s loc t n h;
    big_constant_value = λ s loc t n d h. big_constant_value_lem s loc t n h;
    uint_op = λ a b op loc m n k x y h small. ap₂ (λ u v. uint_operation op u v) x y ∙ ap as_uint h;
    big_op = big_op_lem;
    compare_uint = λ a b op loc m n x y. ap₂ (λ u v. compare_values op u v) x y;
    compare_big = compare_big_lem;
    itob = λ e loc n x h. ap (λ u. run_itob (u ∷ [])) x;
    btoi = λ e loc t bs x h. ap (λ u. run_btoi (u ∷ [])) x;
    len = λ e loc bs x. ap (λ u. run_len (u ∷ [])) x;
    concat = λ a b loc xs ys x y h. ap₂ (λ u v. run_concat (u ∷ v ∷ [])) x y;
    extract = λ e loc xs ys zs x h k l.
        ap (λ u. run_extract (number (pos (length xs)) ∷ number (pos (length ys)) ∷ []) (u ∷ [])) x
        ∙ ap (λ u. some (byte_string u)) (slice_middle xs ys zs);
    extract3 = λ e o l loc t xs ys zs x y z.
        ap (λ u. run_extract3 (u ∷ evaluate variable o ∷ evaluate variable l ∷ [])) x
        ∙ (ap₂ (λ u v. run_extract3 (some (byte_string (xs ++ (ys ++ zs))) ∷ u ∷ v ∷ [])) y z
            ∙ ap (λ u. some (byte_string u)) (slice_middle xs ys zs));
    bzero = λ n loc h. ap (λ m. some (byte_string (replicate m 0))) (read-to_string n);
    setbit = λ e i v loc k n x y z h.
        ap (λ u. run_setbit (u ∷ evaluate variable i ∷ evaluate variable v ∷ [])) x
        ∙ ap₂ (λ u w. run_setbit (some (byte_string (replicate n 0)) ∷ u ∷ w ∷ [])) y z;
    bytes_or = λ a b loc n bs x y h.
        ap₂ (λ u v. run_or (u ∷ v ∷ [])) x y ∙ ap (λ u. some (byte_string u)) (or_lem n bs);
    cast = λ e t loc v x. x;
    once = λ e t id loc v x. x;
    conditional = λ c a b t loc test v x y.
        ap (λ u. choose u (evaluate variable a) (evaluate variable b)) x
        ∙ conditional_lem test _ _ v (sym (if_ap test a b) ∙ y);
    negation = λ e loc b x. ap negate_value x ∙ negate_lem b;
    conjunction = λ a b loc p q x y. ap₂ (λ u v. both u v) x y ∙ both_lem p q;
    subtract =
        λ a b loc m n x y h. ap₂ (λ u v. run_subtract (u ∷ v ∷ [])) x y ∙ rw (le→leb n m h) refl;
    extract_uint64 = λ e o loc t xs ys zs x y h.
        ap₂ (λ u v. run_extract_uint64 (u ∷ v ∷ [])) x y
        ∙ (ap (λ (k : ℕ). some (uint (num (take k (drop (length xs) (xs ++ (ys ++ zs))))))) (sym h)
            ∙ ap (λ u. some (uint (num u))) (slice_middle xs ys zs));
    decode_bool = λ e loc b x. ap decode_bool_value x ∙ decode_lem b;
    encode_bool = λ e loc b x. ap encode_bool_value x ∙ encode_lem b;
  }
