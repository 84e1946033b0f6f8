-- ===== src/Avm/Digits.antt =====
-- Big-endian bytes of a number, for the byte operations that the builders emit.
use native.Mathlib.Nat.{div-div-eq-div-mul, pow-suc, div-eq_of_lt}
use mathlib.Core.Path.{subst}
use mathlib.Core.List.{append_assoc, append-nil}
use puya_sol.Prelude.{
  ℕ, zero, suc, ◌+◌, ◌*◌, ◌/◌, ◌%◌, ◌^◌, ◌<◌, ◌≡◌, refl, sym, ap, ◌∙◌, List, [], ◌∷◌, ◌++◌, length,
  replicate, length-append, arith, All,
}

-- The low `k` bytes of `n`, the most significant first.
unfoldable pub be : ℕ → ℕ → List ℕ
be zero n = []
be (suc k) n = be k (n / 256) ++ (n % 256 ∷ [])

unfoldable pub num_from : ℕ → List ℕ → ℕ
num_from acc [] = acc
num_from acc (b ∷ bs) = num_from (acc * 256 + b) bs

-- The number that bytes stand for.
abbrev pub num : List ℕ → ℕ
num bs = num_from 0 bs

pub length-be : (k n : ℕ) → length (be k n) ≡ k
unfolding be
length-be zero n = refl
length-be (suc k) n =
    omega (arith, length-append (be k (n / 256)) (n % 256 ∷ []), length-be k (n / 256))

pub length-replicate : (k b : ℕ) → length (replicate k b) ≡ k
length-replicate zero b = refl
length-replicate (suc k) b = ap suc (length-replicate k b)

num_from-append :
    (acc : ℕ) (xs ys : List ℕ) → num_from acc (xs ++ ys) ≡ num_from (num_from acc xs) ys
unfolding num_from
num_from-append acc [] ys = refl
num_from-append acc (x ∷ xs) ys = num_from-append (acc * 256 + x) xs ys

pub num-replicate_zero : (k : ℕ) (bs : List ℕ) → num (replicate k 0 ++ bs) ≡ num bs
unfolding num_from
num-replicate_zero zero bs = refl
num-replicate_zero (suc k) bs = num-replicate_zero k bs

-- The value of the bytes of a number that fits.
pub num-be : (k n : ℕ) → n < 256 ^ k → num (be k n) ≡ n
unfolding num_from be
num-be zero n h = omega arith
num-be (suc k) n h =
    num_from-append 0 (be k (n / 256)) (n % 256 ∷ [])
    ∙ (ap (λ (x : ℕ). x * 256 + n % 256) (num-be k (n / 256) (lower k n h)) ∙ omega arith)
  where
    lower : (k n : ℕ) → n < 256 ^ suc k → n / 256 < 256 ^ k
    lower k n h = omega (arith, pow-suc 256 k)

replicate_last : (k b : ℕ) → replicate k b ++ (b ∷ []) ≡ b ∷ replicate k b
replicate_last zero b = refl
replicate_last (suc k) b = ap (λ l. b ∷ l) (replicate_last k b)

pub be_zero : (k : ℕ) → be k 0 ≡ replicate k 0
unfolding be
be_zero zero = refl
be_zero (suc k) = ap (λ l. l ++ (0 ∷ [])) (be_zero k) ∙ replicate_last k 0

-- The bytes of a wide number: those above, and the low `k`.
pub be-append : (j k n : ℕ) → be (j + k) n ≡ be j (n / 256 ^ k) ++ be k n
unfolding be
be-append j zero n =
    let e : j + 0 ≡ j = omega arith in
    let q : n / 256 ^ 0 ≡ n = omega arith in rw (e, q) (sym (append-nil (be j n)))
be-append j (suc k) n =
    let e : j + suc k ≡ suc (j + k) = omega arith in
    let q : n / 256 / 256 ^ k ≡ n / 256 ^ suc k =
      div-div-eq-div-mul n 256 (256 ^ k) ∙ ap (λ m. n / m) (power k) in
    rw e (
      ap (λ l. l ++ (n % 256 ∷ [])) (be-append j k (n / 256))
      ∙ (append_assoc (be j (n / 256 / 256 ^ k)) (be k (n / 256)) (n % 256 ∷ [])
          ∙ ap (λ m. be j m ++ (be k (n / 256) ++ (n % 256 ∷ []))) q))
  where
    power : (k : ℕ) → 256 * 256 ^ k ≡ 256 ^ suc k
    power k = omega (arith, pow-suc 256 k)

-- A number that fits in `k` bytes has zeros above them.
pub be_wide : (j k n : ℕ) → n < 256 ^ k → be (j + k) n ≡ replicate j 0 ++ be k n
be_wide j k n h = be-append j k n ∙ ap (λ l. l ++ be k n) (ap (be j) (div-eq_of_lt h) ∙ be_zero j)

abbrev pub IsByte : ℕ → Type 0
IsByte b = b < 256

-- One more byte in front of `n`, with `p` the weight of the bytes behind it.
weigh :
    (acc b p q n : ℕ) → q ≡ p * 256 → (acc * 256 + b) * p + n ≡ acc * q + ((0 * 256 + b) * p + n)
weigh acc b p q n h = rw h (grind arith)

num_from-value : (acc : ℕ) (bs : List ℕ) → num_from acc bs ≡ acc * 256 ^ length bs + num_from 0 bs
unfolding num_from
num_from-value acc [] = omega arith
num_from-value acc (b ∷ bs) =
    num_from-value (acc * 256 + b) bs
    ∙ (weigh acc b (256 ^ length bs) _ (num_from 0 bs) (pow-suc 256 (length bs))
        ∙ ap (λ (m : ℕ). acc * 256 ^ suc (length bs) + m) (sym (num_from-value (0 * 256 + b) bs)))

pub num-append : (xs ys : List ℕ) → num (xs ++ ys) ≡ num xs * 256 ^ length ys + num ys
num-append xs ys = num_from-append 0 xs ys ∙ num_from-value (num xs) ys

below_weight : (b p q n : ℕ) → q ≡ p * 256 → b < 256 → n < p → (0 * 256 + b) * p + n < q
below_weight b p q n h k l = rw h (grind arith)

pub num-bound : (bs : List ℕ) → All IsByte bs → num bs < 256 ^ length bs
unfolding num_from
num-bound [] h = omega arith
num-bound (b ∷ bs) h =
    subst (λ m. m < 256 ^ suc (length bs)) (sym (num_from-value (0 * 256 + b) bs))
      (below_weight b (256 ^ length bs) _ (num_from 0 bs) (pow-suc 256 (length bs)) h.0
        (num-bound bs h.1))
