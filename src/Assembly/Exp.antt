-- ===== src/Assembly/Exp.antt =====
-- The constant case of handleExp (src/builder/assembly/ArithmeticOps.cpp): square and multiply over
-- boost::multiprecision::cpp_int, which is no part of the repository: how it reads a text is a
-- parameter. The loop runs on fuel; an exponent of `e` needs no more than `e` rounds.
use native.Mathlib.Nat.{
  mul-add-mod_self_right, div-add-mod', pow-zero, pow-suc, mul_assoc, mul_comm, mod-eq_of_lt,
}
use puya_sol.Prelude.{
  ℕ, zero, suc, ◌+◌, ◌-◌, ◌*◌, ◌/◌, ◌%◌, ◌^◌, ◌<◌, ◌≤◌, ◌≡◌, sym, ap, ◌∙◌, true, false, String, ℤ,
  pos, negsuc, if◌then◌else◌, eqb, eqb_iff, to_string, inl, inr, Bool-cases, arith,
}

unfoldable pub exp_loop : ℕ → ℕ → ℕ → ℕ → ℕ
exp_loop zero base result e = result
exp_loop (suc fuel) base result e =
    let rest =
      exp_loop fuel (base * base % 2 ^ 256)
        (if eqb (e % 2) 0 then result else result * base % 2 ^ 256) (e / 2) in
    if eqb e 0 then result else rest

-- `base %= mod; if (base < 0) base += mod;`, where the remainder has the sign of the base.
abbrev pub reduce_base : ℤ → ℕ
reduce_base (pos b) = b % 2 ^ 256
reduce_base (negsuc n) = if eqb (suc n % 2 ^ 256) 0 then 0 else 2 ^ 256 - suc n % 2 ^ 256

abbrev pub run_exp : ℕ → ℤ → ℕ
unfolding exp_loop
run_exp base (pos e) = exp_loop e base 1 e
run_exp base (negsuc _) = 1

unfoldable pub fold_exp : (String → ℤ) → String → String → String
unfolding run_exp
fold_exp cpp_int base e = to_string (run_exp (reduce_base (cpp_int base)) (cpp_int e))

mod-mul_left : (a b : ℕ) → a % 2 ^ 256 * b % 2 ^ 256 ≡ a * b % 2 ^ 256
mod-mul_left a b =
    sym (mul-add-mod_self_right (a / 2 ^ 256 * b) (2 ^ 256) (a % 2 ^ 256 * b))
    ∙ ap (λ (n : ℕ). n % 2 ^ 256)
        (split (a / 2 ^ 256) b (2 ^ 256) (a % 2 ^ 256)
          ∙ ap (λ (n : ℕ). n * b) (div-add-mod' a (2 ^ 256)))
  where
    split : (q b w r : ℕ) → q * b * w + r * b ≡ (q * w + r) * b
    split q b w r = grind arith

mod-mul_right : (a b : ℕ) → a * (b % 2 ^ 256) % 2 ^ 256 ≡ a * b % 2 ^ 256
mod-mul_right a b =
    ap (λ (n : ℕ). n % 2 ^ 256) (mul_comm a (b % 2 ^ 256))
    ∙ (mod-mul_left b a ∙ ap (λ (n : ℕ). n % 2 ^ 256) (mul_comm b a))

mod-pow : (a k : ℕ) → (a % 2 ^ 256) ^ k % 2 ^ 256 ≡ a ^ k % 2 ^ 256
mod-pow a zero = ap (λ (n : ℕ). n % 2 ^ 256) (pow-zero (a % 2 ^ 256) ∙ sym (pow-zero a))
mod-pow a (suc k) =
    ap (λ (n : ℕ). n % 2 ^ 256) (pow-suc (a % 2 ^ 256) k)
    ∙ (mod-mul_right ((a % 2 ^ 256) ^ k) a
        ∙ (sym (mod-mul_left ((a % 2 ^ 256) ^ k) a)
            ∙ (ap (λ (n : ℕ). n * a % 2 ^ 256) (mod-pow a k)
                ∙ (mod-mul_left (a ^ k) a ∙ ap (λ (n : ℕ). n % 2 ^ 256) (sym (pow-suc a k))))))

pow-square : (a k : ℕ) → (a * a) ^ k ≡ a ^ (k + k)
pow-square a zero = pow-zero (a * a) ∙ sym (pow-zero a)
pow-square a (suc k) =
    pow-suc (a * a) k
    ∙ (ap (λ (n : ℕ). n * (a * a)) (pow-square a k)
        ∙ (sym (mul_assoc (a ^ (k + k)) a a)
            ∙ (ap (λ (n : ℕ). n * a) (sym (pow-suc a (k + k)))
                ∙ (sym (pow-suc a (suc (k + k))) ∙ ap (λ (n : ℕ). a ^ n) (twice k)))))
  where
    twice : (k : ℕ) → suc (suc (k + k)) ≡ suc k + suc k
    twice k = omega arith

even_power : (a e : ℕ) → eqb (e % 2) 0 ≡ true → (a * a) ^ (e / 2) ≡ a ^ e
even_power a e h = pow-square a (e / 2) ∙ ap (λ (n : ℕ). a ^ n) (halves e ((eqb_iff (e % 2) 0).0 h))
  where
    halves : (e : ℕ) → e % 2 ≡ 0 → e / 2 + e / 2 ≡ e
    halves e h = omega arith

odd_power : (a e : ℕ) → eqb (e % 2) 0 ≡ false → (a * a) ^ (e / 2) * a ≡ a ^ e
odd_power a e h =
    ap (λ (n : ℕ). n * a) (pow-square a (e / 2))
    ∙ (sym (pow-suc a (e / 2 + e / 2)) ∙ ap (λ (n : ℕ). a ^ n) (halves e (ground arith)))
  where
    halves : (e : ℕ) → e % 2 ≡ 1 → suc (e / 2 + e / 2) ≡ e
    halves e h = omega arith

exponent_zero :
    (base result e : ℕ) → e ≡ 0 → result < 2 ^ 256 → result ≡ result * base ^ e % 2 ^ 256
exponent_zero base result e z k =
    sym (mod-eq_of_lt k)
    ∙ ap (λ (n : ℕ). n % 2 ^ 256)
        (one result
          ∙ ap (λ (n : ℕ). result * n) (sym (pow-zero base) ∙ ap (λ (n : ℕ). base ^ n) (sym z)))
  where
    one : (n : ℕ) → n ≡ n * 1
    one n = omega arith

exp_loop-power :
    (fuel base result e : ℕ)
    → e ≤ fuel
    → result < 2 ^ 256
    → exp_loop fuel base result e ≡ result * base ^ e % 2 ^ 256
unfolding exp_loop
exp_loop-power zero base result e h k = exponent_zero base result e (omega arith) k
exp_loop-power (suc fuel) base result e h k = elim (Bool-cases (eqb e 0)) [
  | inl z ↦ rw z (exponent_zero base result e ((eqb_iff e 0).0 z) k)
  | inr more ↦ rw more (elim (Bool-cases (eqb (e % 2) 0)) [
    | inl even ↦ rw even (
        exp_loop-power fuel (base * base % 2 ^ 256) result (e / 2) (ground arith) k
        ∙ (squared result ∙ ap (λ (n : ℕ). result * n % 2 ^ 256) (even_power base e even)))
    | inr odd ↦ rw odd (
        exp_loop-power fuel (base * base % 2 ^ 256) (result * base % 2 ^ 256) (e / 2) (ground arith)
          (omega arith)
        ∙ (squared (result * base % 2 ^ 256)
            ∙ (mod-mul_left (result * base) ((base * base) ^ (e / 2))
                ∙ ap (λ (n : ℕ). n % 2 ^ 256)
                    (swap result base ((base * base) ^ (e / 2))
                      ∙ ap (λ (n : ℕ). result * n) (odd_power base e odd)))))
  ])
]
  where
    squared :
        (r : ℕ)
        → r * (base * base % 2 ^ 256) ^ (e / 2) % 2 ^ 256 ≡ r * (base * base) ^ (e / 2) % 2 ^ 256
    squared r =
        sym (mod-mul_right r ((base * base % 2 ^ 256) ^ (e / 2)))
        ∙ (ap (λ (n : ℕ). r * n % 2 ^ 256) (mod-pow (base * base) (e / 2))
            ∙ mod-mul_right r ((base * base) ^ (e / 2)))

    swap : (r b p : ℕ) → r * b * p ≡ r * (p * b)
    swap r b p = grind arith

-- Folding `exp`, with as many rounds of its loop as the exponent, gives the power modulo 2^256,
-- for a base and an exponent that cpp_int reads as numbers without a sign.
pub fold_exp-power :
    (cpp_int : String → ℤ) (base exponent : String) (b e : ℕ)
    → cpp_int base ≡ pos b
    → cpp_int exponent ≡ pos e
    → fold_exp cpp_int base exponent ≡ to_string (b ^ e % 2 ^ 256)
unfolding fold_exp run_exp
fold_exp-power cpp_int base exponent b e hb he =
    rw (hb, he)
      (ap to_string (
        exp_loop-power e (b % 2 ^ 256) 1 e (omega arith) (omega arith)
        ∙ (ap (λ (n : ℕ). n % 2 ^ 256) (one ((b % 2 ^ 256) ^ e)) ∙ mod-pow b e)))
  where
    one : (n : ℕ) → 1 * n ≡ n
    one n = omega arith
