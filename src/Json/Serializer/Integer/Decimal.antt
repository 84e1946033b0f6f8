-- ===== src/Json/Serializer/Integer/Decimal.antt =====
-- The repeated division by ten in serializeExpression (src/json/AWSTSerializer.cpp) against the decimal
-- notation of the number that the hexadecimal digits stand for.
use puya_sol.Prelude.{
  ℕ, zero, suc, ◌+◌, ◌*◌, ◌/◌, ◌%◌, ◌<◌, ◌≡◌, refl, ap, ap₂, ◌∙◌, true, false, List, [], ◌∷◌, ◌++◌,
  ◌<>◌, eqb, ltb, int_eq, arith, ◌⊎◌, inl, inr, Bool-cases, length,
}
use puya_sol.Prelude.Text.{to_string, decimal_loop, digit}
use package.text.Mathlib.TextLemmas.{nil-append}
use puya_sol.Json.Value.{text}
use puya_sol.Json.Serializer.Integer.{
  push_quotient, divide, decimal_digits, digits_number, reversed_text, hex_to_decimal, hex_digits,
}

digits_number-append :
    (acc : ℕ) (xs : List ℕ) (d : ℕ)
    → digits_number acc (xs ++ (d ∷ [])) ≡ digits_number acc xs * 16 + d
unfolding digits_number
digits_number-append acc [] d = refl
digits_number-append acc (x ∷ xs) d = digits_number-append (acc * 16 + x) xs d

digits_number-push :
    (q : ℕ) (next : List ℕ) → digits_number 0 (push_quotient q next) ≡ digits_number 0 next * 16 + q
unfolding digits_number
digits_number-push q [] = ground arith
digits_number-push q (x ∷ xs) = digits_number-append 0 (x ∷ xs) q

-- No digits, or a number above 0: no zeros in front.
IsTrimmed : List ℕ → Type 0
IsTrimmed ds = (ds ≡ []) ⊎ (0 < digits_number 0 ds)

push_quotient-IsTrimmed :
    (q : ℕ) (next : List ℕ) → IsTrimmed next → IsTrimmed (push_quotient q next)
unfolding IsTrimmed digits_number
push_quotient-IsTrimmed q [] h = elim (Bool-cases (eqb q 0)) [
  | inl e ↦ rw e (inl refl)
  | inr e ↦ rw e (inr (ground arith))
]
push_quotient-IsTrimmed q (x ∷ xs) (inl e) = absurd (cc)
push_quotient-IsTrimmed q (x ∷ xs) (inr p) = inr (omega (arith, digits_number-append 0 (x ∷ xs) q))

-- The quotient and the remainder of the number that `next`, `rem` and the digits to come make.
divide_lem :
    (rem : ℕ) (next ds : List ℕ)
    → rem < 10
    → IsTrimmed next
    → (digits_number (digits_number 0 next * 10 + rem) ds
        ≡ digits_number 0 (divide rem next ds).0 * 10 + (divide rem next ds).1)
      × ((divide rem next ds).1 < 10)
      × IsTrimmed (divide rem next ds).0
unfolding divide digits_number
divide_lem rem next [] h t = (refl, h, t)
divide_lem rem next (d ∷ ds) h t =
    let (p, q, r) =
      divide_lem ((rem * 16 + d) % 10) (push_quotient ((rem * 16 + d) / 10) next) ds (omega arith)
        (push_quotient-IsTrimmed ((rem * 16 + d) / 10) next t) in
    (
      ap (λ m. digits_number m ds) (omega (arith, digits_number-push ((rem * 16 + d) / 10) next))
          ∙ p,
      q,
      r,
    )

-- What one round of the loop adds, given the text of the quotient.
round_text :
    (fuel n rem : ℕ) (next : List ℕ)
    → n ≡ digits_number 0 next * 10 + rem
    → rem < 10
    → IsTrimmed next
    → (0 < digits_number 0 next
        → reversed_text (decimal_digits fuel next) ≡ decimal_loop fuel (digits_number 0 next))
    → reversed_text (rem ∷ decimal_digits fuel next) ≡ decimal_loop (suc fuel) n
unfolding decimal_digits reversed_text decimal_loop digits_number IsTrimmed
round_text zero n rem [] e h t k =
    let q : ltb n 10 ≡ true = ground arith in
    let r : rem ≡ n = omega arith in rw q (nil-append (digit rem) ∙ ap digit r)
round_text (suc fuel) n rem [] e h t k =
    let q : ltb n 10 ≡ true = ground arith in
    let r : rem ≡ n = omega arith in rw q (nil-append (digit rem) ∙ ap digit r)
round_text fuel n rem (x ∷ xs) e h (inl p) k = absurd (cc)
round_text fuel n rem (x ∷ xs) e h (inr p) k =
    let q : ltb n 10 ≡ false = ground arith in
    let r : rem ≡ n % 10 = omega arith in
    let m : digits_number 0 (x ∷ xs) ≡ n / 10 = omega arith in
    rw q (ap₂ (λ a b. a <> digit b) (k p ∙ ap (decimal_loop fuel) m) r)

decimal_digits-decimal_loop :
    (fuel : ℕ) (ds : List ℕ)
    → digits_number 0 ds < fuel
    → (0 < digits_number 0 ds) ⊎ (0 < length ds)
    → reversed_text (decimal_digits fuel ds) ≡ decimal_loop fuel (digits_number 0 ds)
unfolding decimal_digits digits_number IsTrimmed
decimal_digits-decimal_loop zero ds h k = absurd (omega arith)
decimal_digits-decimal_loop (suc fuel) [] h (inl k) = absurd (omega arith)
decimal_digits-decimal_loop (suc fuel) [] h (inr k) = absurd (omega arith)
decimal_digits-decimal_loop (suc fuel) (d ∷ ds) h k =
    let (p, q, r) = divide_lem 0 [] (d ∷ ds) (omega arith) (inl refl) in
    round_text fuel (digits_number 0 (d ∷ ds)) (divide 0 [] (d ∷ ds)).1 (divide 0 [] (d ∷ ds)).0 p q
      r λ z. decimal_digits-decimal_loop fuel (divide 0 [] (d ∷ ds)).0 (omega arith) (inl z)

pub hex_to_decimal-to_string :
    (cs : List ℕ) (d : ℕ) (ds : List ℕ)
    → hex_digits [] cs ≡ d ∷ ds
    → hex_to_decimal cs ≡ to_string (digits_number 0 (d ∷ ds))
unfolding hex_to_decimal to_string
hex_to_decimal-to_string cs d ds h =
    rw (hex_to_decimal, h)
      (decimal_digits-decimal_loop (digits_number 0 (d ∷ ds) + 1) (d ∷ ds) (omega arith)
        (inr (omega arith)))
