-- ===== src/Avm/Decimal.antt =====
-- Reading a number back from the text of an integer constant (`IntegerConstant::value` in
-- src/awst/Node.h), which std::to_string or a literal of the source wrote.
use puya_sol.Prelude.{
  ℕ, zero, suc, ◌+◌, ◌-◌, ◌*◌, ◌/◌, ◌%◌, ◌<◌, ◌≡◌, refl, ap, ◌∙◌, Bool, true, ◌&&◌, List, [], ◌∷◌,
  ◌++◌, String, ◌<>◌, and-true, all_below, all_below-at, codes, ltb, leb, ltb→lt, length, eqb,
  eqb_iff, arith, inl, inr, Bool-cases,
}
use text.Mathlib.TextLemmas.{nil-append, cons-append}
use Prim.Native.Char.{code}
use puya_sol.Prelude.Text.{to_string, digit, decimal_loop}

-- Horner's rule on the characters.
unfoldable pub read_from : ℕ → List ℕ → ℕ
read_from acc [] = acc
read_from acc (c ∷ cs) = read_from (acc * 10 + (c - 48)) cs

abbrev pub read : String → ℕ
read s = read_from 0 (codes s)

abbrev pub all_digits : List ℕ → Bool
all_digits [] = true
all_digits (c ∷ cs) = leb 48 c && leb c 57 && all_digits cs

-- Decimal digits and nothing else.
abbrev pub is_decimal : String → Bool
is_decimal s = all_digits (codes s)

pub codes-append : (s t : String) → codes (s <> t) ≡ codes s ++ codes t
codes-append String.[] t = ap codes (nil-append t)
codes-append (String.◌∷◌ c s) t =
    ap codes (cons-append c s t) ∙ ap (λ l. code c ∷ l) (codes-append s t)

read_from-append :
    (acc : ℕ) (xs ys : List ℕ) → read_from acc (xs ++ ys) ≡ read_from (read_from acc xs) ys
unfolding read_from
read_from-append acc [] ys = refl
read_from-append acc (x ∷ xs) ys = read_from-append (acc * 10 + (x - 48)) xs ys

-- The ten digits, by evaluation.
digit_reads : ℕ → Bool
digit_reads d = eqb (read (digit d)) d && eqb (length (codes (digit d))) 1

ten_digits : all_below 10 digit_reads ≡ true
unfolding read_from digit_reads
ten_digits = refl

read-digit : (d : ℕ) → d < 10 → (read (digit d) ≡ d) × (length (codes (digit d)) ≡ 1)
unfolding digit_reads
read-digit d h =
    let (p, q) = and-true _ _ (all_below-at 10 digit_reads d ten_digits h) in
    ((eqb_iff _ d).0 p, (eqb_iff _ 1).0 q)

-- One character, whatever stands before it.
read_from-one :
    (acc : ℕ) (cs : List ℕ) → length cs ≡ 1 → read_from acc cs ≡ acc * 10 + read_from 0 cs
unfolding read_from
read_from-one acc [] h = absurd (omega arith)
read_from-one acc (c ∷ []) h = omega arith
read_from-one acc (c ∷ d ∷ cs) h = absurd (omega arith)

read_from-digit : (acc d : ℕ) → d < 10 → read_from acc (codes (digit d)) ≡ acc * 10 + d
read_from-digit acc d h =
    read_from-one acc (codes (digit d)) (read-digit d h).1
    ∙ ap (λ (m : ℕ). acc * 10 + m) (read-digit d h).0

read-decimal_loop : (fuel n : ℕ) → n < fuel → read (decimal_loop fuel n) ≡ n
unfolding decimal_loop
read-decimal_loop zero n h = absurd (omega arith)
read-decimal_loop (suc fuel) n h = elim (Bool-cases (ltb n 10)) [
  | inl e ↦ rw e ((read-digit n (ltb→lt n 10 e)).0)
  | inr e ↦ rw e (
      ap (read_from 0) (codes-append (decimal_loop fuel (n / 10)) (digit (n % 10)))
      ∙ (read_from-append 0 (codes (decimal_loop fuel (n / 10))) (codes (digit (n % 10)))
          ∙ (read_from-digit _ (n % 10) (omega arith)
              ∙ (ap (λ (m : ℕ). m * 10 + n % 10) (read-decimal_loop fuel (n / 10) (ground arith))
                  ∙ omega arith))))
]

pub read-to_string : (n : ℕ) → read (to_string n) ≡ n
unfolding to_string
read-to_string n = read-decimal_loop (n + 1) n (omega arith)

all_digits-append :
    (xs ys : List ℕ) → all_digits xs ≡ true → all_digits ys ≡ true → all_digits (xs ++ ys) ≡ true
all_digits-append [] ys p q = q
all_digits-append (x ∷ xs) ys p q =
    let (a, b) = and-true (leb 48 x && leb x 57) (all_digits xs) p in
    rw (a, all_digits-append xs ys b q) refl

digit_is_digit : ℕ → Bool
digit_is_digit d = all_digits (codes (digit d))

ten_are_digits : all_below 10 digit_is_digit ≡ true
unfolding digit_is_digit
ten_are_digits = refl

is_decimal-digit : (d : ℕ) → d < 10 → all_digits (codes (digit d)) ≡ true
unfolding digit_is_digit
is_decimal-digit d h = all_below-at 10 digit_is_digit d ten_are_digits h

is_decimal-decimal_loop : (fuel n : ℕ) → all_digits (codes (decimal_loop fuel n)) ≡ true
unfolding decimal_loop
is_decimal-decimal_loop zero n = refl
is_decimal-decimal_loop (suc fuel) n = elim (Bool-cases (ltb n 10)) [
  | inl e ↦ rw e (is_decimal-digit n (ltb→lt n 10 e))
  | inr e ↦ rw e (
      ap all_digits (codes-append (decimal_loop fuel (n / 10)) (digit (n % 10)))
      ∙ all_digits-append (codes (decimal_loop fuel (n / 10))) (codes (digit (n % 10)))
          (is_decimal-decimal_loop fuel (n / 10)) (is_decimal-digit (n % 10) (omega arith)))
]

pub to_string-is_decimal : (n : ℕ) → is_decimal (to_string n) ≡ true
unfolding to_string
to_string-is_decimal n = is_decimal-decimal_loop (n + 1) n
