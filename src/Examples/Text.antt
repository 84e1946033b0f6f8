-- ===== src/Examples/Text.antt =====
-- A payload of one full group and two more bytes.
use puya_sol.Prelude.{
  ℕ, ◌≡◌, ◌+◌, ◌*◌, ◌/◌, ◌%◌, some, List, [], ◌∷◌, All, if◌then◌else◌, eqb, length, arith,
}
use puya_sol.Json.Base85.{base85_encode}
use puya_sol.Json.Base85.Decode.{decode}
use puya_sol.Json.Base85.Roundtrip.{IsByte, decode-base85_encode, length-base85_encode}

abbrev payload : List ℕ
payload = 255 ∷ 0 ∷ 17 ∷ 128 ∷ 9 ∷ 254 ∷ []

abbrev payload-IsByte : All IsByte payload
payload-IsByte =
    (omega arith, (omega arith, (omega arith, (omega arith, (omega arith, (omega arith, tt))))))

decode-base85_encode_example : decode (base85_encode payload) ≡ some payload
decode-base85_encode_example = decode-base85_encode payload payload-IsByte

length-base85_encode_example :
    length (base85_encode payload)
    ≡ 5 * (length payload / 4)
      + (length payload % 4 + (if eqb (length payload % 4) 0 then 0 else 1))
length-base85_encode_example = length-base85_encode payload
