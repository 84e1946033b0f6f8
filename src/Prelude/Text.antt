-- ===== src/Prelude/Text.antt =====
-- `std::to_string` and the joining of texts.
use Prim.Native.Nat.{ℕ, zero, suc, ◌+◌, ◌/◌, ◌%◌}
use Prim.Native.String.{String, slice}
use Prim.Native.String.{◌++◌ as append}
use Prim.Native.Char.{code}
use mathlib.Core.List.{List, [], ◌∷◌, ◌++◌}
use puya_sol.Prelude.Tests.{ltb, if◌then◌else◌}
use puya_sol.Prelude.Classes.{ℤ, pos, negsuc}

infixr 65 ◌<>◌
abbrev pub ◌<>◌ : String → String → String
a <> b = append a b

abbrev pub digit : ℕ → String
digit d = slice "0123456789" d (d + 1)

-- Decimal notation; `n + 1` rounds are more than the digits of `n`.
unfoldable pub decimal_loop : ℕ → ℕ → String
decimal_loop zero n = ""
decimal_loop (suc fuel) n =
    let front = decimal_loop fuel (n / 10) in if ltb n 10 then digit n else front <> digit (n % 10)

unfoldable pub to_string : ℕ → String
unfolding decimal_loop
to_string n = decimal_loop (n + 1) n

unfoldable pub int_to_string : ℤ → String
int_to_string (pos n) = to_string n
int_to_string (negsuc n) = "-" <> to_string (n + 1)

-- The character codes of a text; of an ASCII text, its bytes.
abbrev pub codes : String → List ℕ
codes String.[] = []
codes (String.◌∷◌ c s) = code c ∷ codes s

-- A character in UTF-8.
abbrev pub utf8 : ℕ → List ℕ
utf8 c =
    if ltb c 128
    then c ∷ []
    else if ltb c 2048
    then (192 + c / 64) ∷ (128 + c % 64) ∷ []
    else if ltb c 65536
    then (224 + c / 4096) ∷ (128 + c / 64 % 64) ∷ (128 + c % 64) ∷ []
    else (240 + c / 262144) ∷ (128 + c / 4096 % 64) ∷ (128 + c / 64 % 64) ∷ (128 + c % 64) ∷ []

-- The bytes that a `std::string` has for a text.
abbrev pub utf8_bytes : String → List ℕ
utf8_bytes String.[] = []
utf8_bytes (String.◌∷◌ c s) = utf8 (code c) ++ utf8_bytes s
