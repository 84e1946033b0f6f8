-- ===== src/Assembly/Evm.antt =====
-- What the EVM computes on words of 256 bits: the description that the opcode handlers are held
-- against. A word in two's complement is a sign and a magnitude.
pub mod Bounds
pub mod Division
pub mod Unsigned
pub mod Signed
pub mod Order
pub mod Power
pub mod Shift
pub mod Refinement
use puya_sol.Prelude.{
  ℕ, ◌+◌, ◌-◌, ◌*◌, ◌/◌, ◌%◌, ◌^◌, ◌<◌, Bool, true, false, if◌then◌else◌, eqb, ltb, leb, not,
}

abbrev pub IsWord : ℕ → Type 0
IsWord n = n < 2 ^ 256

abbrev pub add_word : ℕ → ℕ → ℕ
add_word a b = (a + b) % 2 ^ 256

abbrev pub mul_word : ℕ → ℕ → ℕ
mul_word a b = (a * b) % 2 ^ 256

abbrev pub sub_word : ℕ → ℕ → ℕ
sub_word a b = if leb b a then a - b else 2 ^ 256 - (b - a)

-- A quotient, a remainder or a sum or product in a modulus: 0 for the divisor 0.
abbrev pub div_word : ℕ → ℕ → ℕ
div_word a b = if eqb b 0 then 0 else a / b

abbrev pub mod_word : ℕ → ℕ → ℕ
mod_word a b = if eqb b 0 then 0 else a % b

abbrev pub is_negative : ℕ → Bool
is_negative a = leb (2 ^ 255) a

abbrev pub magnitude : ℕ → ℕ
magnitude a = if is_negative a then 2 ^ 256 - a else a

-- The word of a sign and a magnitude.
abbrev pub with_sign : Bool → ℕ → ℕ
with_sign negative n = if negative then (2 ^ 256 - n) % 2 ^ 256 else n

abbrev pub differs : Bool → Bool → Bool
differs true b = not b
differs false b = b

-- Division towards 0.
abbrev pub sdiv_word : ℕ → ℕ → ℕ
sdiv_word a b =
    if eqb b 0
    then 0
    else with_sign (differs (is_negative a) (is_negative b)) (magnitude a / magnitude b)

abbrev pub smod_word : ℕ → ℕ → ℕ
smod_word a b = if eqb b 0 then 0 else with_sign (is_negative a) (magnitude a % magnitude b)

-- Adding 2^255 puts the words in the order of the numbers they stand for.
abbrev pub slt_word : ℕ → ℕ → Bool
slt_word a b = ltb ((a + 2 ^ 255) % 2 ^ 256) ((b + 2 ^ 255) % 2 ^ 256)

abbrev pub shl_word : ℕ → ℕ → ℕ
shl_word shift value = (value * 2 ^ shift) % 2 ^ 256

abbrev pub shr_word : ℕ → ℕ → ℕ
shr_word shift value = value / 2 ^ shift
