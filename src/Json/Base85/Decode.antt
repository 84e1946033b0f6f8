-- ===== src/Json/Base85/Decode.antt =====
-- How base85 text is read, as RFC 1924 and the reader of the serialised tree have it: five
-- characters are a number in base 85, which is four bytes; a shorter last group is filled up with
-- the last character and gives one byte less than it has characters.
use puya_sol.Prelude.{ℕ, ◌+◌, ◌*◌, ◌/◌, ◌%◌, ◌^◌, Option, none, some, List, [], ◌∷◌, ◌++◌, take}
use puya_sol.Json.Base85.{char_index}

-- The digits that the characters stand for; `none` for any other character.
unfoldable pub digits : List ℕ → Option (List ℕ)
digits [] = some []
digits (c ∷ cs) = elim (char_index c) [
  | none ↦ none
  | some i ↦ elim (digits cs) [ none ↦ none | some ds ↦ some (i ∷ ds) ]
]

abbrev pub value : ℕ → ℕ → ℕ → ℕ → ℕ → ℕ
value a b c d e = (((a * 85 + b) * 85 + c) * 85 + d) * 85 + e

abbrev pub four_bytes : ℕ → List ℕ
four_bytes v = v / 2 ^ 24 ∷ v / 2 ^ 16 % 256 ∷ v / 2 ^ 8 % 256 ∷ v % 256 ∷ []

unfoldable pub bytes_of : List ℕ → List ℕ
bytes_of [] = []
bytes_of (a ∷ []) = []
bytes_of (a ∷ b ∷ []) = take 1 (four_bytes (value a b 84 84 84))
bytes_of (a ∷ b ∷ c ∷ []) = take 2 (four_bytes (value a b c 84 84))
bytes_of (a ∷ b ∷ c ∷ d ∷ []) = take 3 (four_bytes (value a b c d 84))
bytes_of (a ∷ b ∷ c ∷ d ∷ e ∷ rest) = four_bytes (value a b c d e) ++ bytes_of rest

unfoldable pub decode : List ℕ → Option (List ℕ)
unfolding digits bytes_of
decode cs = elim (digits cs) [ none ↦ none | some ds ↦ some (bytes_of ds) ]
