-- ===== src/Assembly/Evm/Bounds.antt =====
-- Bounds on what words of 256 bits give.
use native.Mathlib.Nat.{mod-le, div-le_self}
use puya_sol.Prelude.{ℕ, ◌*◌, ◌/◌, ◌%◌, ◌^◌, ◌<◌, ◌≡◌, arith}
use puya_sol.Assembly.Evm.{IsWord}

pub product-bound : (a b : ℕ) → IsWord a → IsWord b → a * b < 2 ^ 512
product-bound a b h k = grind arith

pub quotient-bound : (a b : ℕ) → IsWord a → a / b < 2 ^ 512
quotient-bound a b h = grind arith

pub remainder-bound : (a b : ℕ) → a < 2 ^ 512 → a % b < 2 ^ 512
remainder-bound a b h = omega (arith, mod-le a b)

pub quotient-IsWord : (a b : ℕ) → IsWord a → IsWord (a / b)
quotient-IsWord a b w = omega (arith, div-le_self a b)

pub remainder-IsWord : (a b : ℕ) → IsWord a → IsWord (a % b)
remainder-IsWord a b w = omega (arith, mod-le a b)

pub word_mod : (n : ℕ) → IsWord n → n % 2 ^ 256 ≡ n
word_mod n h = omega arith
