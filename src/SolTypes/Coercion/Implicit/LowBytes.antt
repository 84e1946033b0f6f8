-- ===== src/SolTypes/Coercion/Implicit/LowBytes.antt =====
-- The low bytes of a number, as TypeCoercion::implicitNumericCast builds them
-- (src/builder/sol-types/TypeCoercion.cpp): zeros in front, and then the last bytes.
use mathlib.Core.Path.{subst}
use native.Mathlib.Nat.{mod-eq_of_lt, mul-add-mod_self_right}
use mathlib.Core.List.{append-nil}
use puya_sol.Prelude.Text.{to_string}
use puya_sol.Prelude.{
  ℕ, zero, suc, length-append, le→leb, ◌-◌, ◌%◌, ◌<◌, ◌≤◌, ◌^◌, ◌≡◌, refl, sym, ap, ap₂, ◌∙◌, none,
  some, List, [], ◌∷◌, ◌++◌, All, length, replicate, arith, inl, inr, Bool-cases, nat_eq,
}
use puya_sol.Awst.Location.{SourceLocation}
use puya_sol.Awst.Expr.{Expression, node, ExprNode}
use puya_sol.Awst.Session.{Session}
use puya_sol.Awst.Operators.{sub}
use puya_sol.Awst.Make.Constants.{Ty, uint64_t, biguint_t, make_integer_of}
use puya_sol.Awst.Make.Operations.{make_eval_once, is_trivial_leaf}
use puya_sol.Awst.Make.Bytes.{make_left_pad, last_n, make_itob}
use puya_sol.Awst.Make.Casts.{make_as_bytes, make_reinterpret_cast}
use puya_sol.Avm.Decimal.{read-to_string, to_string-is_decimal}
use puya_sol.Avm.Digits.{
  be, num, IsByte, length-be, length-replicate, num-be, num-replicate_zero, num-append, num-bound,
}
use puya_sol.Avm.Reference.Numbers.{be-IsByte}
use puya_sol.Avm.Machine.{Value, uint, byte_string, Big, Avm}

-- Byte strings that are cut in two.
record Cut (j : ℕ) (zs : List ℕ) : Type 0 where
  front : List ℕ
  back : List ℕ
  joined : zs ≡ front ++ back
  front_length : length front ≡ j
  back_bytes : All IsByte back

cut : (j : ℕ) (zs : List ℕ) → j ≤ length zs → All IsByte zs → Cut j zs
cut zero zs h b = record {
  front = [];
  back = zs;
  joined = refl;
  front_length = refl;
  back_bytes = b;
}
cut (suc j) [] h b = absurd (omega arith)
cut (suc j) (z ∷ zs) h b =
    let c = cut j zs (omega arith) b.1 in
    record {
      front = z ∷ c.front;
      back = c.back;
      joined = ap (λ l. z ∷ l) c.joined;
      front_length = ap suc c.front_length;
      back_bytes = c.back_bytes;
    }

zeros-IsByte : (k : ℕ) (bs : List ℕ) → All IsByte bs → All IsByte (replicate k 0 ++ bs)
zeros-IsByte zero bs h = h
zeros-IsByte (suc k) bs h = (omega arith, zeros-IsByte k bs h)

-- An expression whose value is the low `k` bytes of a number.
pub record BytesOf (m : Avm) (e : Expression) (k n : ℕ) : Type 0 where
  pub byte_list : List ℕ
  pub evaluates : m.eval e ≡ some (byte_string byte_list)
  pub count : length byte_list ≡ k
  pub are_bytes : All IsByte byte_list
  pub value : num byte_list ≡ n % 256 ^ k

module _ (m : Avm) (loc : SourceLocation) where
  eval-make_integer_of : (n : ℕ) → n < 2 ^ 64 → m.eval (make_integer_of n loc) ≡ some (uint n)
  eval-make_integer_of n h =
      m.constant (to_string n) loc uint64_t (to_string-is_decimal n) refl (rw (read-to_string n) h)
      ∙ ap (λ k. some (uint k)) (read-to_string n)

  eval-make_eval_once :
      (e : Expression) (s : Session) (v : Value)
      → m.eval e ≡ some v
      → m.eval (make_eval_once e loc s).0 ≡ some v
  unfolding make_eval_once
  eval-make_eval_once e s v h = elim (Bool-cases (is_trivial_leaf e)) [
    | inl p ↦ rw p h
    | inr p ↦ rw p (m.once e _ _ loc v h)
  ]

  eval-last_n :
      (e : Expression) (k : ℕ) (bs : List ℕ)
      → m.eval e ≡ some (byte_string bs)
      → All IsByte bs
      → k ≤ length bs
      → length bs < 2 ^ 64
      → BytesOf m (last_n e k loc) k (num bs)
  eval-last_n e k bs h b hk hl =
      let c = cut (length bs - k) bs (omega arith) b in
      let count : length c.back ≡ k =
        omega (arith, ap length c.joined, length-append c.front c.back, c.front_length) in
      record {
        byte_list = c.back;
        evaluates =
            m.extract3 e _ _ loc none c.front c.back []
              (h
                ∙ ap (λ l. some (byte_string l))
                    (c.joined ∙ ap (λ l. c.front ++ l) (sym (append-nil c.back))))
              (m.uint_op _ _ sub loc (length bs) k (length bs - k) (m.len e loc bs h)
                  (eval-make_integer_of k (omega arith)) (rw (le→leb k (length bs) hk) refl)
                  (omega arith)
                ∙ ap (λ n. some (uint n)) (sym c.front_length))
              (eval-make_integer_of k (omega arith) ∙ ap (λ n. some (uint n)) (sym count));
        count = count;
        are_bytes = c.back_bytes;
        value =
            sym (mod-eq_of_lt (num-bound c.back c.back_bytes))
            ∙ (sym (mul-add-mod_self_right (num c.front) (256 ^ length c.back) (num c.back))
                ∙ ap₂ (λ n j. n % 256 ^ j) (sym (num-append c.front c.back) ∙ ap num (sym c.joined))
                    count);
      }

  -- Zeros in front, and then the last bytes.
  eval-padded :
      (e : Expression) (k : ℕ) (bs : List ℕ)
      → m.eval e ≡ some (byte_string bs)
      → k ≤ 4000
      → length bs ≤ 64
      → m.eval (make_left_pad e k loc) ≡ some (byte_string (replicate k 0 ++ bs))
  unfolding make_left_pad
  eval-padded e k bs h hk hb =
      m.concat _ e loc (replicate k 0) bs (m.bzero k loc (omega arith)) h
        (omega (arith, length-replicate k 0))

  low_bytes :
      (e : Expression) (k : ℕ) (bs : List ℕ) (s : Session)
      → m.eval e ≡ some (byte_string bs)
      → All IsByte bs
      → k ≤ 4000
      → length bs ≤ 64
      → BytesOf m (last_n (make_eval_once (make_left_pad e k loc) loc s).0 k loc) k (num bs)
  low_bytes e k bs s h b hk hb = rw (num-replicate_zero k bs) at (
      eval-last_n _ k (replicate k 0 ++ bs) (eval-make_eval_once _ s _ (eval-padded e k bs h hk hb))
        (zeros-IsByte k bs b)
        (omega (arith, length-append (replicate k 0) bs, length-replicate k 0))
        (omega (arith, length-append (replicate k 0) bs, length-replicate k 0)))

pub cast-BytesOf :
    (m : Avm) (e : Expression) (t : Ty) (loc : SourceLocation) (k n : ℕ)
    → BytesOf m e k n
    → BytesOf m (make_reinterpret_cast e t loc) k n
cast-BytesOf m e t loc k n b = record {
  byte_list = b.byte_list;
  evaluates = m.cast e t loc _ b.evaluates;
  count = b.count;
  are_bytes = b.are_bytes;
  value = b.value;
}

pub uint-Big :
    (m : Avm) (e : Expression) (n : ℕ)
    → m.eval e ≡ some (byte_string (be 8 n))
    → n < 2 ^ 64
    → Big m.eval e n
uint-Big m e n h k = record {
  bytes = be 8 n;
  evaluates = h;
  value = num-be 8 n (omega arith);
  are_bytes = be-IsByte 8 n;
  fits = omega (arith, length-be 8 n);
}

module _ (m : Avm) (loc : SourceLocation) where
  pub uint_low :
      (e : Expression) (n k : ℕ) (s : Session)
      → m.eval e ≡ some (uint n)
      → n < 2 ^ 64
      → k ≤ 4000
      → BytesOf m
          (last_n (make_eval_once (make_left_pad (make_itob e loc) k loc) loc s).0 k loc)
          k
          n
  uint_low e n k s h small hk =
      subst
        (λ j.
          BytesOf m (last_n (make_eval_once (make_left_pad (make_itob e loc) k loc) loc s).0 k loc)
            k j)
        (num-be 8 n (omega arith))
        (low_bytes m loc (make_itob e loc) k (be 8 n) s (m.itob e loc n h small) (be-IsByte 8 n) hk
          (omega (arith, length-be 8 n)))

  pub biguint_low :
      (l : SourceLocation) (x : ExprNode) (n k : ℕ) (s : Session)
      → Big m.eval (node l biguint_t x) n
      → k ≤ 4000
      → BytesOf m
          (last_n
            (make_eval_once (make_left_pad (make_as_bytes (node l biguint_t x) loc) k loc) loc s).0
            k
            loc)
          k
          n
  biguint_low l x n k s b hk =
      subst
        (λ j.
          BytesOf m
            (last_n
              (make_eval_once (make_left_pad (make_as_bytes (node l biguint_t x) loc) k loc) loc
                s).0
              k loc)
            k j)
        b.value
        (low_bytes m loc (make_as_bytes (node l biguint_t x) loc) k b.bytes s
          (m.cast _ _ loc _ b.evaluates) b.are_bytes hk b.fits)

  pub padded_id :
      (e : Expression) (n : ℕ)
      → m.eval e ≡ some (uint n)
      → n < 2 ^ 64
      → BytesOf m (make_left_pad (make_itob e loc) 24 loc) 32 n
  padded_id e n h k = record {
    byte_list = replicate 24 0 ++ be 8 n;
    evaluates =
        eval-padded m loc (make_itob e loc) 24 (be 8 n) (m.itob e loc n h k) (omega arith)
          (omega (arith, length-be 8 n));
    count =
        omega
          (arith, length-append (replicate 24 0) (be 8 n), length-be 8 n, length-replicate 24 0);
    are_bytes = zeros-IsByte 24 (be 8 n) (be-IsByte 8 n);
    value = num-replicate_zero 24 (be 8 n) ∙ (num-be 8 n (omega arith) ∙ omega arith);
  }
