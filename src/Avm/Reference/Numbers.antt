-- ===== src/Avm/Reference/Numbers.antt =====
-- The shortest big-endian form of a number, for numbers of at most 64 bytes.
use native.Mathlib.Nat.{pow-suc}
use puya_sol.Prelude.{
  ℕ, zero, suc, ◌/◌, ◌^◌, ◌<◌, ◌≤◌, ◌≡◌, List, [], ◌∷◌, ◌++◌, length, All, if◌then◌else◌, eqb,
  Bool-cases, inl, inr, arith,
}
use puya_sol.Avm.Digits.{be, num, IsByte, length-be, num-be}

byte_count : ℕ → ℕ → ℕ
byte_count zero n = 0
byte_count (suc fuel) n = let rest = byte_count fuel (n / 256) in if eqb n 0 then 0 else suc rest

unfoldable pub to_bytes : ℕ → List ℕ
unfolding byte_count
to_bytes n = be (byte_count 64 n) n

byte_count-bounds :
    (fuel n : ℕ) → n < 256 ^ fuel → (n < 256 ^ byte_count fuel n) × (byte_count fuel n ≤ fuel)
unfolding byte_count
byte_count-bounds zero n h = (h, omega arith)
byte_count-bounds (suc fuel) n h = elim (Bool-cases (eqb n 0)) [
  | inl e ↦ rw e (ground arith, omega arith)
  | inr e ↦ rw e (
      let r = byte_count-bounds fuel (n / 256) (omega (arith, pow-suc 256 fuel)) in
      (omega (arith, pow-suc 256 (byte_count fuel (n / 256)), r.0), omega (arith, r.1)))
]

All-append : (xs ys : List ℕ) → All IsByte xs → All IsByte ys → All IsByte (xs ++ ys)
All-append [] ys h k = k
All-append (x ∷ xs) ys h k = (h.0, All-append xs ys h.1 k)

pub be-IsByte : (k n : ℕ) → All IsByte (be k n)
unfolding be
be-IsByte zero n = tt
be-IsByte (suc k) n = All-append (be k (n / 256)) _ (be-IsByte k (n / 256)) (omega arith, tt)

pub num-to_bytes : (n : ℕ) → n < 256 ^ 64 → num (to_bytes n) ≡ n
unfolding to_bytes
num-to_bytes n h = num-be (byte_count 64 n) n (byte_count-bounds 64 n h).0

pub length-to_bytes : (n : ℕ) → n < 256 ^ 64 → length (to_bytes n) ≤ 64
unfolding to_bytes
length-to_bytes n h =
    let c = (byte_count-bounds 64 n h).1 in omega (arith, length-be (byte_count 64 n) n)

pub to_bytes-IsByte : (n : ℕ) → All IsByte (to_bytes n)
unfolding to_bytes
to_bytes-IsByte n = be-IsByte (byte_count 64 n) n
