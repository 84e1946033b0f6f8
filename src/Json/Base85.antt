-- ===== src/Json/Base85.antt =====
-- src/json/Base85.hpp: byte payloads as base85 text (RFC 1924). A byte and a character are numbers
-- below 256. The bits that the source joins by `|` are disjoint then, and the joined number is a
-- sum; `acc` is a `uint32_t`, so what a shift moves out at the top is lost.
pub mod Decode
pub mod Roundtrip
use puya_sol.Prelude.{
  ℕ, zero, suc, ◌+◌, ◌-◌, ◌*◌, ◌/◌, ◌%◌, ◌^◌, Option, none, some, List, [], ◌∷◌, ◌++◌, String, eqb,
  if◌then◌else◌, length, take, codes,
}

abbrev pub alphabet : List ℕ
alphabet =
    codes "0123456789ABCDEFGHIJKLMNOPQRSTUVWXYZabcdefghijklmnopqrstuvwxyz!#$%&()*+-;<=>?@^_`{|}~"

-- `ALPHABET[i]`; behind the last character stands the 0 that ends a C string.
abbrev pub char_at : List ℕ → ℕ → ℕ
char_at [] i = 0
char_at (c ∷ cs) zero = c
char_at (c ∷ cs) (suc i) = char_at cs i

abbrev pub position : List ℕ → ℕ → Option ℕ
position [] c = none
position (x ∷ xs) c =
    let rest = position xs c in
    if eqb x c then some 0 else elim rest [ none ↦ none | some i ↦ some (suc i) ]

-- `none` where the source throws.
unfoldable pub char_index : ℕ → Option ℕ
char_index c = position alphabet c

-- The loop that fills `chunk` from its end: `n` characters before `rest`.
abbrev pub chunk_from : ℕ → ℕ → List ℕ → List ℕ
chunk_from zero acc rest = rest
chunk_from (suc n) acc rest = chunk_from n (acc / 85) (char_at alphabet (acc % 85) ∷ rest)

abbrev pub chunk : ℕ → List ℕ
chunk acc = chunk_from 5 acc []

abbrev pub group : ℕ → ℕ → ℕ → ℕ → ℕ
group a b c d = a * 2 ^ 24 + b * 2 ^ 16 + c * 2 ^ 8 + d

abbrev pub shift : ℕ → ℕ
shift acc = acc * 2 ^ 8 % 2 ^ 32

abbrev pub gather : ℕ → List ℕ → ℕ
gather acc [] = acc
gather acc (b ∷ bs) = gather (shift acc + b) bs

abbrev pub pad : ℕ → ℕ → ℕ
pad zero acc = acc
pad (suc n) acc = pad n (shift acc)

-- The one to three bytes behind the last full group.
abbrev pub encode_remaining : List ℕ → List ℕ
encode_remaining bs = take (length bs + 1) (chunk (pad (4 - length bs) (gather 0 bs)))

unfoldable pub base85_encode : List ℕ → List ℕ
base85_encode [] = []
base85_encode (a ∷ []) = encode_remaining (a ∷ [])
base85_encode (a ∷ b ∷ []) = encode_remaining (a ∷ b ∷ [])
base85_encode (a ∷ b ∷ c ∷ []) = encode_remaining (a ∷ b ∷ c ∷ [])
base85_encode (a ∷ b ∷ c ∷ d ∷ rest) = chunk (group a b c d) ++ base85_encode rest
