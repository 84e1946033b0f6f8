-- ===== src/Json/Serializer/Integer.antt =====
-- The value of an `IntegerConstant` in serializeExpression (src/json/AWSTSerializer.cpp), on the
-- character codes of its text. `std::stoll` is the C++ library's: `none` where it throws.
pub mod Decimal
pub mod Value
use puya_sol.Prelude.{
  ℕ, zero, suc, ◌+◌, ◌-◌, ◌*◌, ◌/◌, ◌%◌, ◌^◌, Bool, true, false, ◌&&◌, ◌||◌, Option, none, some,
  List, [], ◌∷◌, ◌++◌, String, ◌<>◌, ℤ, pos, negsuc, eqb, ltb, leb, if◌then◌else◌, ◌==◌, int_eq,
  codes, digit,
}
use puya_sol.Json.Value.{Json, number, text}

-- The value of a hexadecimal digit.
unfoldable pub hex_digit : ℕ → Option ℕ
hex_digit c =
    if leb 48 c && leb c 57
    then some (c - 48)
    else if leb 97 c && leb c 102
    then some (10 + (c - 97))
    else if leb 65 c && leb c 70
    then some (10 + (c - 65))
    else none

-- The digits that `std::stoll` reads in a base of at most 16; `none` when there is none.
unfoldable pub read_digits : ℕ → Bool → ℕ → List ℕ → Option ℕ
unfolding hex_digit
read_digits base seen acc [] = if seen then some acc else none
read_digits base seen acc (c ∷ cs) = elim (hex_digit c) [
  | none ↦ if seen then some acc else none
  | some d ↦
      let rest = read_digits base true (acc * base + d) cs in
      if ltb d base then rest else if seen then some acc else none
]

unfoldable pub is_space : ℕ → Bool
is_space c = eqb c 32 || (leb 9 c && leb c 13)

unfoldable pub skip_spaces : List ℕ → List ℕ
unfolding is_space
skip_spaces [] = []
skip_spaces (c ∷ cs) = let rest = skip_spaces cs in if is_space c then rest else c ∷ cs

-- A sign, and whether it is `-`.
unfoldable pub read_sign : List ℕ → Bool × List ℕ
read_sign [] = (false, [])
read_sign (c ∷ cs) =
    if eqb c 45 then (true, cs) else if eqb c 43 then (false, cs) else (false, c ∷ cs)

-- `0x` in front of a hexadecimal digit, which base 16 allows.
unfoldable pub skip_prefix : ℕ → List ℕ → List ℕ
unfolding hex_digit
skip_prefix base (a ∷ x ∷ c ∷ cs) = elim (hex_digit c) [
  | none ↦ a ∷ x ∷ c ∷ cs
  | some _ ↦ if eqb base 16 && (eqb a 48 && (eqb x 120 || eqb x 88)) then c ∷ cs else a ∷ x ∷ c ∷ cs
]
skip_prefix base cs = cs

abbrev pub int64_of : Bool → ℕ → Option ℤ
int64_of false n = if ltb n (2 ^ 63) then some (pos n) else none
int64_of true zero = some (pos 0)
int64_of true (suc n) = if ltb n (2 ^ 63) then some (negsuc n) else none

abbrev pub in_range : Bool → Option ℕ → Option ℤ
in_range neg none = none
in_range neg (some n) = int64_of neg n

unfoldable pub stoll : ℕ → List ℕ → Option ℤ
unfolding read_digits skip_spaces read_sign skip_prefix
stoll base cs =
    let signed = read_sign (skip_spaces cs) in
    in_range signed.0 (read_digits base false 0 (skip_prefix base signed.1))

-- `-val`; the least `long long` has no negative.
abbrev pub negated : ℤ → Option ℤ
negated (pos zero) = some (pos 0)
negated (pos (suc n)) = some (negsuc n)
negated (negsuc n) = if eqb (n + 1) (2 ^ 63) then none else some (pos (n + 1))

-- The loop over `hex`: a character that is no digit clears what was read.
unfoldable pub hex_digits : List ℕ → List ℕ → List ℕ
unfolding hex_digit
hex_digits digits [] = digits
hex_digits digits (c ∷ cs) = elim (hex_digit c) [
  | none ↦ []
  | some d ↦ hex_digits (digits ++ (d ∷ [])) cs
]

-- `if (!next.empty() || q) next.push_back(q)`.
abbrev pub push_quotient : ℕ → List ℕ → List ℕ
push_quotient q [] = if eqb q 0 then [] else q ∷ []
push_quotient q (x ∷ xs) = (x ∷ xs) ++ (q ∷ [])

-- One division by ten: the quotient's digits and the remainder.
unfoldable pub divide : ℕ → List ℕ → List ℕ → List ℕ × ℕ
divide rem next [] = (next, rem)
divide rem next (d ∷ ds) =
    divide ((rem * 16 + d) % 10) (push_quotient ((rem * 16 + d) / 10) next) ds

-- The `while` loop: the digits in the order in which `dec` receives them.
unfoldable pub decimal_digits : ℕ → List ℕ → List ℕ
unfolding divide
decimal_digits zero ds = []
decimal_digits (suc fuel) [] = []
decimal_digits (suc fuel) (d ∷ ds) = let r = divide 0 [] (d ∷ ds) in r.1 ∷ decimal_digits fuel r.0

-- The number of hexadecimal digits, which bounds the rounds of the loop.
unfoldable pub digits_number : ℕ → List ℕ → ℕ
digits_number acc [] = acc
digits_number acc (d ∷ ds) = digits_number (acc * 16 + d) ds

-- The reversal of `dec`, as text.
unfoldable pub reversed_text : List ℕ → String
reversed_text [] = ""
reversed_text (d ∷ ds) = reversed_text ds <> digit d

unfoldable pub hex_to_decimal : List ℕ → String
unfolding hex_digits decimal_digits digits_number reversed_text
hex_to_decimal hex = elim (hex_digits [] hex) [
  | [] ↦ "0"
  | d ∷ ds ↦ reversed_text (decimal_digits (digits_number 0 (d ∷ ds) + 1) (d ∷ ds))
]

abbrev pub signed_text : Bool → String → String
signed_text neg s = if neg then "-" <> s else s

-- The text behind `0x`, when the rest of the constant starts with it and goes on.
abbrev pub hex_part : List ℕ → Option (List ℕ)
hex_part (a ∷ x ∷ c ∷ cs) = if eqb a 48 && (eqb x 120 || eqb x 88) then some (c ∷ cs) else none
hex_part _ = none

abbrev pub starts_with_minus : List ℕ → Bool
starts_with_minus [] = false
starts_with_minus (c ∷ _) = eqb c 45

abbrev pub behind_minus : List ℕ → List ℕ
behind_minus [] = []
behind_minus (c ∷ cs) = if eqb c 45 then cs else c ∷ cs

abbrev pub some_number : Option ℤ → Option Json
some_number none = none
some_number (some z) = some (number z)

-- `none` where the negation overflows.
abbrev pub hex_result : Bool → String → Option ℤ → Option Json
hex_result neg decimal none = some (text (signed_text neg decimal))
hex_result true decimal (some z) = some_number (negated z)
hex_result false decimal (some z) = some (number z)

unfoldable pub hex_value : Bool → List ℕ → Option Json
unfolding stoll hex_to_decimal
hex_value neg hex = hex_result neg (hex_to_decimal hex) (stoll 16 hex)

abbrev pub decimal_result : String → Option ℤ → Option Json
decimal_result s none = some (text s)
decimal_result s (some z) = some (number z)

abbrev pub value_of : String → List ℕ → Option (List ℕ) → Option Json
unfolding hex_value stoll
value_of s cs none = decimal_result s (stoll 10 cs)
value_of s cs (some hex) = hex_value (starts_with_minus cs) hex

unfoldable pub integer_value : String → Option Json
unfolding stoll hex_value
integer_value s = value_of s (codes s) (hex_part (behind_minus (codes s)))
