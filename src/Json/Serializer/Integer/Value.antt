-- ===== src/Json/Serializer/Integer/Value.antt =====
-- What serializeExpression (src/json/AWSTSerializer.cpp) makes of the text of an integer constant.
use puya_sol.Prelude.{
  ℕ, zero, suc, ◌+◌, ◌*◌, ◌^◌, ◌<◌, ◌≡◌, refl, sym, ap, ◌∙◌, Bool, true, false, ◌&&◌, ◌||◌, Option,
  none, some, List, [], ◌∷◌, ◌++◌, String, ℤ, pos, negsuc, eqb, ltb, if◌then◌else◌, codes, arith,
  inl, inr, Bool-cases, and-true, map, lt→ltb,
}
use puya_sol.Prelude.Text.{to_string}
use mathlib.Core.List.{append_assoc, append-nil}
use puya_sol.Json.Value.{Json, number, text}
use puya_sol.Json.Serializer.Integer.{
  digits_number, hex_to_decimal, hex_digits, hex_digit, read_digits, skip_spaces, read_sign,
  skip_prefix, stoll, int64_of, integer_value, hex_value, signed_text, is_space, hex_part, in_range,
  hex_result, value_of, behind_minus,
}
use puya_sol.Json.Serializer.Integer.Decimal.{hex_to_decimal-to_string}

abbrev weight_of : Option ℕ → ℕ
weight_of none = 0
weight_of (some d) = d

-- A hexadecimal digit's value; 0 for any other character.
hex_weight : ℕ → ℕ
unfolding hex_digit
hex_weight c = weight_of (hex_digit c)

abbrev is_some : Option ℕ → Bool
is_some none = false
is_some (some _) = true

unfoldable is_hex : ℕ → Bool
unfolding hex_digit
is_hex c = is_some (hex_digit c)

-- Hexadecimal digits and nothing else.
unfoldable pub all_hex : List ℕ → Bool
unfolding is_hex
all_hex [] = true
all_hex (c ∷ cs) = is_hex c && all_hex cs

-- The number that hexadecimal digits write.
unfoldable pub hex_number : List ℕ → ℕ
unfolding digits_number hex_weight
hex_number cs = digits_number 0 (map hex_weight cs)

some_weight : (o : Option ℕ) → is_some o ≡ true → o ≡ some (weight_of o)
some_weight none h = absurd (cc)
some_weight (some d) h = refl

hex_digit-hex_weight : (c : ℕ) → is_hex c ≡ true → hex_digit c ≡ some (hex_weight c)
unfolding hex_weight is_hex
hex_digit-hex_weight c h = some_weight (hex_digit c) h

hex_digit-lt : (c d : ℕ) → hex_digit c ≡ some d → d < 16
unfolding hex_digit
hex_digit-lt c d h = ground arith

first-hex : (c : ℕ) (cs : List ℕ) → all_hex (c ∷ cs) ≡ true → is_hex c ≡ true
unfolding all_hex
first-hex c cs h = (and-true (is_hex c) (all_hex cs) h).0

rest-hex : (c : ℕ) (cs : List ℕ) → all_hex (c ∷ cs) ≡ true → all_hex cs ≡ true
unfolding all_hex
rest-hex c cs h = (and-true (is_hex c) (all_hex cs) h).1

hex_digits-some :
    (ds : List ℕ) (c d : ℕ) (cs : List ℕ)
    → hex_digit c ≡ some d
    → hex_digits ds (c ∷ cs) ≡ hex_digits (ds ++ (d ∷ [])) cs
unfolding hex_digits
hex_digits-some ds c d cs e = rw (hex_digits, e) refl

hex_digits-map : (ds cs : List ℕ) → all_hex cs ≡ true → hex_digits ds cs ≡ ds ++ map hex_weight cs
unfolding hex_digits
hex_digits-map ds [] h = sym (append-nil ds)
hex_digits-map ds (c ∷ cs) h =
    hex_digits-some ds c (hex_weight c) cs (hex_digit-hex_weight c (first-hex c cs h))
    ∙ (hex_digits-map (ds ++ (hex_weight c ∷ [])) cs (rest-hex c cs h)
        ∙ append_assoc ds (hex_weight c ∷ []) (map hex_weight cs))

read_digits-some :
    (seen : Bool) (acc c d : ℕ) (cs : List ℕ)
    → hex_digit c ≡ some d
    → read_digits 16 seen acc (c ∷ cs) ≡ read_digits 16 true (acc * 16 + d) cs
unfolding read_digits
read_digits-some seen acc c d cs e =
    let l : ltb d 16 ≡ true = lt→ltb d 16 (hex_digit-lt c d e) in rw (read_digits, e, l) refl

read_digits-hex :
    (acc : ℕ) (cs : List ℕ)
    → all_hex cs ≡ true
    → read_digits 16 true acc cs ≡ some (digits_number acc (map hex_weight cs))
unfolding read_digits digits_number
read_digits-hex acc [] h = refl
read_digits-hex acc (c ∷ cs) h =
    read_digits-some true acc c (hex_weight c) cs (hex_digit-hex_weight c (first-hex c cs h))
    ∙ read_digits-hex (acc * 16 + hex_weight c) cs (rest-hex c cs h)

read_digits-first :
    (c : ℕ) (cs : List ℕ)
    → all_hex (c ∷ cs) ≡ true
    → read_digits 16 false 0 (c ∷ cs) ≡ some (hex_number (c ∷ cs))
unfolding digits_number hex_number
read_digits-first c cs h =
    read_digits-some false 0 c (hex_weight c) cs (hex_digit-hex_weight c (first-hex c cs h))
    ∙ read_digits-hex (0 * 16 + hex_weight c) cs (rest-hex c cs h)

not_space : (c : ℕ) → is_hex c ≡ true → is_space c ≡ false
unfolding hex_digit is_hex is_space
not_space c h = ground arith

no_space : (c : ℕ) (cs : List ℕ) → is_hex c ≡ true → skip_spaces (c ∷ cs) ≡ c ∷ cs
unfolding skip_spaces
no_space c cs h = rw (skip_spaces, not_space c h) refl

no_sign : (c : ℕ) (cs : List ℕ) → is_hex c ≡ true → read_sign (c ∷ cs) ≡ (false, c ∷ cs)
unfolding hex_digit read_sign is_hex
no_sign c cs h =
    let p : eqb c 45 ≡ false = ground arith in
    let q : eqb c 43 ≡ false = ground arith in rw (p, q) refl

no_x : (x : ℕ) → is_hex x ≡ true → (eqb x 120 || eqb x 88) ≡ false
unfolding hex_digit is_hex
no_x x h = ground arith

no_zero : (b : Bool) (l r : List ℕ) → (if b && false then l else r) ≡ r
no_zero true l r = refl
no_zero false l r = refl

no_prefix : (cs : List ℕ) → all_hex cs ≡ true → skip_prefix 16 cs ≡ cs
unfolding skip_prefix
no_prefix [] h = refl
no_prefix (a ∷ []) h = refl
no_prefix (a ∷ b ∷ []) h = refl
no_prefix (a ∷ x ∷ c ∷ cs) h =
    let q = rest-hex a (x ∷ c ∷ cs) h in
    let e = hex_digit-hex_weight c (first-hex c cs (rest-hex x (c ∷ cs) q)) in
    rw (skip_prefix, e, no_x x (first-hex x (c ∷ cs) q))
      (no_zero (eqb a 48) (c ∷ cs) (a ∷ x ∷ c ∷ cs))

-- `stoll` behind the sign and the spaces.
stoll-parts :
    (signed rest : List ℕ) (neg : Bool) (n : ℕ) (cs : List ℕ)
    → skip_spaces cs ≡ signed
    → read_sign signed ≡ (neg, rest)
    → read_digits 16 false 0 (skip_prefix 16 rest) ≡ some n
    → stoll 16 cs ≡ int64_of neg n
unfolding stoll
stoll-parts signed rest neg n cs h k l =
    let e : read_sign (skip_spaces cs) ≡ (neg, rest) = ap read_sign h ∙ k in
    ap (λ (r : Bool × List ℕ). in_range r.0 (read_digits 16 false 0 (skip_prefix 16 r.1))) e
    ∙ ap (in_range neg) l

stoll-hex :
    (c : ℕ) (cs : List ℕ)
    → all_hex (c ∷ cs) ≡ true
    → stoll 16 (c ∷ cs) ≡ int64_of false (hex_number (c ∷ cs))
stoll-hex c cs h =
    let p = first-hex c cs h in
    stoll-parts (c ∷ cs) (c ∷ cs) false (hex_number (c ∷ cs)) (c ∷ cs) (no_space c cs p)
      (no_sign c cs p)
      (ap (read_digits 16 false 0) (no_prefix (c ∷ cs) h) ∙ read_digits-first c cs h)

-- The number `n` or `-n`.
abbrev signed_int : Bool → ℕ → ℤ
signed_int true (suc n) = negsuc n
signed_int _ n = pos n

-- A JSON number below 2 ^ 63, and decimal notation from there on.
unfoldable pub integer_json : Bool → ℕ → Json
unfolding to_string
integer_json neg n =
    if ltb n (2 ^ 63) then number (signed_int neg n) else text (signed_text neg (to_string n))

-- The codes of a constant with or without `-`.
abbrev pub sign_codes : Bool → List ℕ → List ℕ
sign_codes true cs = 45 ∷ cs
sign_codes false cs = cs

-- The answer from what `stoll` gave and from the decimal notation.
hex_result-integer_json :
    (neg : Bool) (n : ℕ) (decimal : String)
    → decimal ≡ to_string n
    → hex_result neg decimal (int64_of false n) ≡ some (integer_json neg n)
unfolding integer_json
hex_result-integer_json neg n decimal h = elim (Bool-cases (ltb n (2 ^ 63))) [
  | inl p ↦ rw p (small neg n)
  | inr p ↦ rw (p, h) refl
]
  where
    small :
        (neg : Bool) (n : ℕ)
        → hex_result neg decimal (some (pos n)) ≡ some (number (signed_int neg n))
    small true zero = refl
    small true (suc n) = refl
    small false n = refl

hex_value-integer_json :
    (neg : Bool) (c : ℕ) (cs : List ℕ)
    → all_hex (c ∷ cs) ≡ true
    → hex_value neg (c ∷ cs) ≡ some (integer_json neg (hex_number (c ∷ cs)))
unfolding hex_value hex_number
hex_value-integer_json neg c cs h =
    ap (hex_result neg (hex_to_decimal (c ∷ cs))) (stoll-hex c cs h)
    ∙ hex_result-integer_json neg (hex_number (c ∷ cs)) (hex_to_decimal (c ∷ cs)) (
        hex_to_decimal-to_string (c ∷ cs) (hex_weight c) (map hex_weight cs)
          (hex_digits-map [] (c ∷ cs) h))

-- A constant written as 0x or 0X and hexadecimal digits, with or without a minus, is written as a
-- JSON number where its magnitude is below 2^63, and from there on as the text of its decimal
-- notation; the loop that divides by ten gives that notation.
pub integer_value-hex :
    (s : String) (neg : Bool) (x c : ℕ) (cs : List ℕ)
    → codes s ≡ sign_codes neg (48 ∷ x ∷ c ∷ cs)
    → (eqb x 120 || eqb x 88) ≡ true
    → all_hex (c ∷ cs) ≡ true
    → integer_value s ≡ some (integer_json neg (hex_number (c ∷ cs)))
unfolding integer_value
integer_value-hex s true x c cs e h k =
    ap (λ l. value_of s l (hex_part (behind_minus l))) e
    ∙ (rw h (hex_value-integer_json true c cs k))
integer_value-hex s false x c cs e h k =
    ap (λ l. value_of s l (hex_part (behind_minus l))) e
    ∙ (rw h (hex_value-integer_json false c cs k))
