-- ===== src/Assembly/Evm/Power.antt =====
-- A shift amount as a number on the stack, and the power of two of buildPowerOf2
-- (src/builder/assembly/BitwiseShiftOps.cpp).
use native.Mathlib.Nat.{mod-eq_of_lt, mul-add-mod_self_right}
use mathlib.Core.List.{append-nil}
use puya_sol.Prelude.{
  ℕ, zero, suc, ◌+◌, ◌-◌, ◌*◌, ◌%◌, ◌^◌, ◌<◌, ◌≤◌, ◌≡◌, refl, sym, ap, ◌∙◌, Bool, true, ◌&&◌, none,
  some, List, [], ◌∷◌, ◌++◌, eqb, eqb_iff, ltb, ltb→lt, leb, leb→le, le→leb, length, length-append,
  take, drop, replicate, All, arith, inl, inr, Bool-cases, and-true, all_below, all_below-at,
}
use mathlib.Core.Path.{subst}
use puya_sol.Prelude.Text.{to_string}
use puya_sol.Awst.Location.{SourceLocation}
use puya_sol.Awst.Operators.{UInt64BinaryOperator}
use puya_sol.Awst.Expr.{Expression}
use puya_sol.Awst.Session.{Session}
use puya_sol.Awst.Make.Constants.{wtype_of, uint64_t, make_integer_of}
use puya_sol.Awst.Make.Operations.{make_eval_once, is_trivial_leaf}
use puya_sol.Awst.Make.Bytes.{make_extract_last_n}
use puya_sol.Storage.SlotWord.Roundtrip.{eval-make_left_pad}
use puya_sol.Avm.Decimal.{read_from, is_decimal, read-to_string}
use puya_sol.Avm.Digits.{num, num_from, IsByte, num-append, num-bound, num-replicate_zero}
use puya_sol.Avm.Machine.{Avm, Value, uint, byte_string, set_bit}
use puya_sol.Assembly.Shift.{shift_amount, build_power_of2}
use puya_sol.Assembly.Operand.{Holds, Computes}

take-drop : (k : ℕ) (bs : List ℕ) → take k bs ++ drop k bs ≡ bs
take-drop zero bs = refl
take-drop (suc k) [] = refl
take-drop (suc k) (b ∷ bs) = ap (λ l. b ∷ l) (take-drop k bs)

length-take : (k : ℕ) (bs : List ℕ) → k ≤ length bs → length (take k bs) ≡ k
length-take zero bs h = refl
length-take (suc k) [] h = absurd (omega arith)
length-take (suc k) (b ∷ bs) h = ap suc (length-take k bs (omega arith))

All-drop : (k : ℕ) (bs : List ℕ) → All IsByte bs → All IsByte (drop k bs)
All-drop zero bs h = h
All-drop (suc k) [] h = h
All-drop (suc k) (b ∷ bs) h = All-drop k bs h.1

length-drop : (k : ℕ) (bs : List ℕ) → k ≤ length bs → length (drop k bs) ≡ length bs - k
length-drop k bs h =
    omega
      (arith, length-append (take k bs) (drop k bs), ap length (take-drop k bs), length-take k bs h)

remainder : (n d q r : ℕ) → n ≡ q * d + r → r < d → r ≡ n % d
remainder n d q r h k =
    sym (mod-eq_of_lt k) ∙ (sym (mul-add-mod_self_right q d r) ∙ ap (λ (x : ℕ). x % d) (sym h))

-- The last n bytes hold the number modulo 256 ^ n.
pub num-drop :
    (bs : List ℕ) (n : ℕ)
    → n ≤ length bs
    → All IsByte bs
    → num (drop (length bs - n) bs) ≡ num bs % 256 ^ n
num-drop bs n h k =
    let low = drop (length bs - n) bs in
    let width = length-drop (length bs - n) bs (omega arith) in
    remainder (num bs) (256 ^ n) (num (take (length bs - n) bs)) (num low)
      (ap num (sym (take-drop (length bs - n) bs))
        ∙ (num-append (take (length bs - n) bs) low
            ∙ ap (λ (w : ℕ). num (take (length bs - n) bs) * 256 ^ w + num low)
                (same_width (length bs) n h width)))
      (subst (λ (w : ℕ). num low < 256 ^ w) (same_width (length bs) n h width)
        (num-bound low (All-drop (length bs - n) bs k)))
  where
    same_width : (l n : ℕ) {w : ℕ} → n ≤ l → w ≡ l - (l - n) → w ≡ n
    same_width l n h e = omega arith

abbrev all_small : List ℕ → Bool
all_small [] = true
all_small (b ∷ bs) = ltb b 256 && all_small bs

all_small-IsByte : (bs : List ℕ) → all_small bs ≡ true → All IsByte bs
all_small-IsByte [] h = tt
all_small-IsByte (b ∷ bs) h =
    (ltb→lt b 256 (and-true _ _ h).0, all_small-IsByte bs (and-true (ltb b 256) _ h).1)

-- Bit 255 - k of 32 zero bytes, for every k.
abbrev is_power : ℕ → Bool
is_power k =
    let bs = set_bit (replicate 32 0) (255 - k) in
    eqb (num bs) (2 ^ k) && (all_small bs && leb (length bs) 64)

all_powers : all_below 256 is_power ≡ true
unfolding num_from
all_powers = refl

module _ (m : Avm) (loc : SourceLocation) where
  pub eval-make_eval_once :
      (e : Expression) (v : Value) (s : Session)
      → m.eval e ≡ some v
      → m.eval (make_eval_once e loc s).0 ≡ some v
  unfolding make_eval_once
  eval-make_eval_once e v s h = elim (Bool-cases (is_trivial_leaf e)) [
    | inl leaf ↦ rw leaf h
    | inr shared ↦ rw shared (m.once e (wtype_of e) (s.single_eval_id + 1) loc v h)
  ]

  pub eval-make_extract_last_n :
      (e : Expression) (n : ℕ) (bs : List ℕ) (s : Session)
      → m.eval e ≡ some (byte_string bs)
      → n ≤ length bs
      → length bs < 2 ^ 64
      → m.eval (make_integer_of n loc) ≡ some (uint n)
      → m.eval (make_extract_last_n e n loc s).0 ≡ some (byte_string (drop (length bs - n) bs))
  unfolding make_extract_last_n
  eval-make_extract_last_n e n bs s h k small size =
      let once = eval-make_eval_once e (byte_string bs) s h in
      let width = length-take (length bs - n) bs (omega arith) in
      let split = take-drop (length bs - n) bs in
      let front = drop (length bs - n) bs in
      m.extract3 _ _ _ loc none (take (length bs - n) bs) front []
        (once
          ∙ ap (λ l. some (byte_string l))
              (sym split ∙ ap (λ l. take (length bs - n) bs ++ l) (sym (append-nil front))))
        (m.uint_op _ _ UInt64BinaryOperator.sub loc (length bs) n (length (take (length bs - n) bs))
          (m.len _ loc bs once) size (rw (le→leb n (length bs) k) (ap some (sym width)))
          (omega (arith, width)))
        (size
          ∙ ap (λ (x : ℕ). some (uint x))
              (back (length bs) k (length-drop (length bs - n) bs (omega arith))))
    where
      back : (l : ℕ) {x : ℕ} → n ≤ l → x ≡ l - (l - n) → n ≡ x
      back l k e = omega arith

  small_constant :
      (n : ℕ)
      → is_decimal (to_string n) ≡ true
      → n < 2 ^ 64
      → m.eval (make_integer_of n loc) ≡ some (uint n)
  small_constant n d h =
      m.constant (to_string n) loc uint64_t d refl (omega (arith, read-to_string n))
      ∙ ap (λ (x : ℕ). some (uint x)) (read-to_string n)

  eight_IsDecimal : is_decimal (to_string 8) ≡ true
  unfolding to_string
  eight_IsDecimal = refl

  -- The low 8 bytes of a word that is a shift.
  pub eval-shift_amount :
      (e : Expression) (a : ℕ) (s : Session)
      → Holds m e a
      → m.eval (shift_amount e loc s).0 ≡ some (uint (a % 2 ^ 64))
  unfolding shift_amount
  eval-shift_amount e a s h = rw h.typed (
      let bs = replicate 8 0 ++ h.big.bytes in
      let width = length-append (replicate 8 0) h.big.bytes in
      m.btoi _ loc none (drop (length bs - 8) bs)
        (eval-make_extract_last_n _ 8 bs s
          (eval-make_left_pad m loc _ 8 h.big.bytes (m.cast e _ loc _ h.big.evaluates) (omega arith)
            h.big.fits)
          (omega (arith, width)) (omega (arith, width, h.big.fits))
          (small_constant 8 eight_IsDecimal (omega arith)))
        (omega (arith, length-drop (length bs - 8) bs (omega arith), width))
      ∙ ap (λ (x : ℕ). some (uint x))
          (num-drop bs 8 (omega (arith, width)) (zeros_first 8 h.big.bytes h.big.are_bytes)
            ∙ ap (λ (x : ℕ). x % 2 ^ 64) (num-replicate_zero 8 h.big.bytes ∙ h.big.value)))
    where
      zeros_first : (k : ℕ) (bs : List ℕ) → All IsByte bs → All IsByte (replicate k 0 ++ bs)
      zeros_first zero bs h = h
      zeros_first (suc k) bs h = (omega arith, zeros_first k bs h)

  -- A power of two, for a shift below 256.
  pub build_power_of2-Computes :
      (e : Expression) (a : ℕ) → Holds m e a → a < 256 → Computes m (build_power_of2 e loc) (2 ^ a)
  unfolding build_power_of2 read_from
  build_power_of2-Computes e a h small s =
      let bs = set_bit (replicate 32 0) (255 - a) in
      let checked = and-true _ _ (all_below-at 256 is_power a all_powers small) in
      let shaped = and-true _ _ checked.1 in
      record {
        typed = refl;
        big = record {
          bytes = bs;
          evaluates = m.cast _ _ loc _ (
              m.setbit _ _ _ loc (255 - a) 32 (m.bzero 32 loc (omega arith))
                (m.uint_op _ _ UInt64BinaryOperator.sub loc 255 a (255 - a)
                  (m.constant "255" loc uint64_t refl refl (ltb→lt _ _ refl))
                  (m.uint_op _ _ UInt64BinaryOperator.mod_op loc (a % 2 ^ 64) 256 a
                    (eval-shift_amount e a s h)
                    (m.constant "256" loc uint64_t refl refl (ltb→lt _ _ refl))
                    (ap some (same a small)) (omega arith))
                  (rw (le→leb a 255 (omega arith)) refl) (omega arith))
                (m.constant "1" loc uint64_t refl refl (ltb→lt _ _ refl)) (omega arith));
          value = (eqb_iff (num bs) (2 ^ a)).0 checked.0;
          are_bytes = all_small-IsByte bs shaped.0;
          fits = leb→le (length bs) 64 shaped.1;
        };
      }
    where
      same : (a : ℕ) → a < 256 → a % 2 ^ 64 % 256 ≡ a
      same a h = omega arith
