-- ===== src/Json/Base85/Roundtrip.antt =====
-- Decoding undoes encoding (src/json/Base85.hpp).
use puya_sol.Prelude.{
  ℕ, zero, suc, ◌+◌, ◌*◌, ◌/◌, ◌%◌, ◌^◌, ◌<◌, ◌≡◌, ◌≢◌, refl, sym, ap, ap₂, ◌∙◌, Bool, true, false,
  ◌&&◌, some, List, [], ◌∷◌, ◌++◌, length, take, map, All, if◌then◌else◌, arith,
}
use mathlib.Core.Path.{subst}
use puya_sol.Json.Base85.{alphabet, char_at, char_index, chunk, group, pad, gather, base85_encode}
use puya_sol.Json.Base85.Decode.{digits, value, four_bytes, bytes_of, decode}
use puya_sol.Prelude.{eqb, eqb_iff, ◌==◌, ==_iff, nat_eq, option_eq, Bool-cases, inl, inr}

-- The five digits of a number.
abbrev five : ℕ → List ℕ
five n =
    n / 85 / 85 / 85 / 85 % 85
    ∷ n / 85 / 85 / 85 % 85
    ∷ n / 85 / 85 % 85
    ∷ n / 85 % 85
    ∷ n % 85
    ∷ []

-- The digits that the code writes.
unfoldable written : List ℕ → List ℕ
written [] = []
written (a ∷ []) = take 2 (five (pad 3 (gather 0 (a ∷ []))))
written (a ∷ b ∷ []) = take 3 (five (pad 2 (gather 0 (a ∷ b ∷ []))))
written (a ∷ b ∷ c ∷ []) = take 4 (five (pad 1 (gather 0 (a ∷ b ∷ c ∷ []))))
written (a ∷ b ∷ c ∷ d ∷ rest) = five (group a b c d) ++ written rest

base85_encode-written : (bs : List ℕ) → base85_encode bs ≡ map (char_at alphabet) (written bs)
unfolding base85_encode written
base85_encode-written [] = refl
base85_encode-written (a ∷ []) = refl
base85_encode-written (a ∷ b ∷ []) = refl
base85_encode-written (a ∷ b ∷ c ∷ []) = refl
base85_encode-written (a ∷ b ∷ c ∷ d ∷ rest) =
    ap (λ l. chunk (group a b c d) ++ l) (base85_encode-written rest)

abbrev IsDigit : ℕ → Type 0
IsDigit d = d < 85

below_85 : (n : ℕ) → n % 85 < 85
below_85 n = omega arith

written-IsDigit : (bs : List ℕ) → All IsDigit (written bs)
unfolding written
written-IsDigit [] = tt
written-IsDigit (a ∷ []) = (below_85 _, (below_85 _, tt))
written-IsDigit (a ∷ b ∷ []) = (below_85 _, (below_85 _, (below_85 _, tt)))
written-IsDigit (a ∷ b ∷ c ∷ []) = (below_85 _, (below_85 _, (below_85 _, (below_85 _, tt))))
written-IsDigit (a ∷ b ∷ c ∷ d ∷ rest) =
    (below_85 _, (below_85 _, (below_85 _, (below_85 _, (below_85 _, written-IsDigit rest)))))

value-five :
    (n : ℕ)
    → n < 2 ^ 32
    → value
        (n / 85 / 85 / 85 / 85 % 85)
        (n / 85 / 85 / 85 % 85)
        (n / 85 / 85 % 85)
        (n / 85 % 85)
        (n % 85)
      ≡ n
value-five n h = omega arith

four_bytes-group :
    (a b c d : ℕ)
    → a < 256
    → b < 256
    → c < 256
    → d < 256
    → four_bytes (group a b c d) ≡ a ∷ b ∷ c ∷ d ∷ []
four_bytes-group a b c d ha hb hc hd =
    ap₂ (λ x y. x ∷ y) (omega arith)
      (ap₂ (λ x y. x ∷ y) (omega arith)
        (ap₂ (λ x y. x ∷ y) (omega arith) (ap (λ x. x ∷ []) (omega arith))))

and-true : (a b : Bool) → (a && b) ≡ true → (a ≡ true) × (b ≡ true)
and-true true b h = (refl, h)
and-true false b h = absurd (apart h)
  where
    apart : false ≢ true
    apart k = cc

abbrev reads_back : ℕ → Bool
reads_back n = char_index (char_at alphabet n) == some n

abbrev all_read_back : ℕ → Bool
all_read_back zero = true
all_read_back (suc n) = reads_back n && all_read_back n

all_read_back-below :
    (n d : ℕ) → all_read_back n ≡ true → d < n → char_index (char_at alphabet d) ≡ some d
all_read_back-below zero d h k = absurd (omega arith)
all_read_back-below (suc n) d h k = elim (Bool-cases (eqb d n)) [
  | inl e ↦
      subst (λ i. char_index (char_at alphabet i) ≡ some i) (sym ((eqb_iff d n).0 e))
        ((==_iff (char_index (char_at alphabet n)) (some n)).0 (and-true _ _ h).0)
  | inr e ↦ all_read_back-below n d (and-true _ _ h).1 (ground arith)
]

alphabet_read_back : all_read_back 85 ≡ true
unfolding char_index
alphabet_read_back = refl

char_index-char_at : (d : ℕ) → d < 85 → char_index (char_at alphabet d) ≡ some d
char_index-char_at d h = all_read_back-below 85 d alphabet_read_back h

digits-next :
    (c i : ℕ) (cs ds : List ℕ)
    → char_index c ≡ some i
    → digits cs ≡ some ds
    → digits (c ∷ cs) ≡ some (i ∷ ds)
unfolding digits
digits-next c i cs ds h k = rw (digits, h, k) refl

digits-map : (ds : List ℕ) → All IsDigit ds → digits (map (char_at alphabet) ds) ≡ some ds
unfolding digits
digits-map [] h = refl
digits-map (d ∷ ds) h = digits-next _ d _ ds (char_index-char_at d h.0) (digits-map ds h.1)

one_byte : (a : ℕ) → a < 256 → bytes_of (take 2 (five (pad 3 (gather 0 (a ∷ []))))) ≡ a ∷ []
unfolding bytes_of
one_byte a h = ap (λ x. x ∷ []) (omega arith)

two_bytes :
    (a b : ℕ)
    → a < 256
    → b < 256
    → bytes_of (take 3 (five (pad 2 (gather 0 (a ∷ b ∷ []))))) ≡ a ∷ b ∷ []
unfolding bytes_of
two_bytes a b h k = ap₂ (λ x y. x ∷ y ∷ []) (omega arith) (omega arith)

three_bytes :
    (a b c : ℕ)
    → a < 256
    → b < 256
    → c < 256
    → bytes_of (take 4 (five (pad 1 (gather 0 (a ∷ b ∷ c ∷ []))))) ≡ a ∷ b ∷ c ∷ []
unfolding bytes_of
three_bytes a b c h k l =
    ap₂ (λ x y. x ∷ y) (omega arith) (ap₂ (λ x y. x ∷ y ∷ []) (omega arith) (omega arith))

group-bound : (a b c d : ℕ) → a < 256 → b < 256 → c < 256 → d < 256 → group a b c d < 2 ^ 32
group-bound a b c d h k l m = omega arith

abbrev pub IsByte : ℕ → Type 0
IsByte b = b < 256

bytes_of-written : (bs : List ℕ) → All IsByte bs → bytes_of (written bs) ≡ bs
unfolding bytes_of written
bytes_of-written [] h = refl
bytes_of-written (a ∷ []) h = one_byte a h.0
bytes_of-written (a ∷ b ∷ []) h = two_bytes a b h.0 h.1.0
bytes_of-written (a ∷ b ∷ c ∷ []) h = three_bytes a b c h.0 h.1.0 h.1.1.0
bytes_of-written (a ∷ b ∷ c ∷ d ∷ rest) h =
    ap₂ (λ x y. x ++ y)
      (ap four_bytes (value-five (group a b c d) (group-bound a b c d h.0 h.1.0 h.1.1.0 h.1.1.1.0))
        ∙ four_bytes-group a b c d h.0 h.1.0 h.1.1.0 h.1.1.1.0)
      (bytes_of-written rest h.1.1.1.1)

-- Reading the text of a byte vector gives the bytes back, whatever its length; bytes are below 256.
pub decode-base85_encode : (bs : List ℕ) → All IsByte bs → decode (base85_encode bs) ≡ some bs
unfolding decode
decode-base85_encode bs h =
    let read =
      ap digits (base85_encode-written bs) ∙ digits-map (written bs) (written-IsDigit bs) in
    rw (decode, read) (ap some (bytes_of-written bs h))

abbrev text_length : ℕ → ℕ
text_length n = 5 * (n / 4) + (n % 4 + (if eqb (n % 4) 0 then 0 else 1))

more :
    (m n : ℕ)
    → n ≡ text_length m
    → suc (suc (suc (suc (suc n)))) ≡ text_length (suc (suc (suc (suc m))))
more m n h = rw same (omega (arith, h, quotient))
  where
    same : suc (suc (suc (suc m))) % 4 ≡ m % 4
    same = omega arith

    quotient : suc (suc (suc (suc m))) / 4 ≡ suc (m / 4)
    quotient = omega arith

-- Four bytes take five characters, and one to three bytes behind them take one character more than
-- they are.
pub length-base85_encode :
    (bs : List ℕ)
    → length (base85_encode bs)
      ≡ 5 * (length bs / 4) + (length bs % 4 + (if eqb (length bs % 4) 0 then 0 else 1))
unfolding base85_encode
length-base85_encode [] = refl
length-base85_encode (a ∷ []) = refl
length-base85_encode (a ∷ b ∷ []) = refl
length-base85_encode (a ∷ b ∷ c ∷ []) = refl
length-base85_encode (a ∷ b ∷ c ∷ d ∷ rest) =
    more (length rest) (length (base85_encode rest)) (length-base85_encode rest)
