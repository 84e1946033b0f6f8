-- ===== src/Json/Value.antt =====
-- The values of `nlohmann::ordered_json`, as src/json/AWSTSerializer.cpp builds them: an object keeps its
-- members in the order in which they were assigned.
pub mod Outcome
use puya_sol.Prelude.{
  ℕ, ◌-◌, ◌+◌, Bool, Option, none, some, List, [], ◌∷◌, map, String, ◌<>◌, ℤ, ◌==◌, string_eq,
  if◌then◌else◌, true, false, ◌||◌, ◌≡◌,
}
use Prim.Native.String.{slice}

mutual
  pub data Json : Type 0 where
    json_null : Json
    boolean : Bool → Json
    number : ℤ → Json
    text : String → Json
    array : Items → Json
    object : Members → Json

  pub data Items : Type 0 where
    no_items : Items
    item : Json → Items → Items

  pub data Members : Type 0 where
    no_members : Members
    member : String → Json → Members → Members

-- `j[k] = v`: a new value for a key that is there, and a new last member otherwise.
unfoldable pub assign : String → Json → Members → Members
assign k v no_members = member k v no_members
assign k v (member j w rest) =
    let below = assign k v rest in if j == k then member j v rest else member j w below

-- `j.erase(k)`.
unfoldable pub erase : String → Members → Members
erase k no_members = no_members
erase k (member j w rest) = let below = erase k rest in if j == k then rest else member j w below

-- A run of assignments.
unfoldable pub assign_all : Members → List (String × Json) → Members
unfolding assign
assign_all ms [] = ms
assign_all ms ((k, v) ∷ rest) = assign_all (assign k v ms) rest

-- A run of assignments whose right sides may follow a null pointer, which is `none`.
unfoldable pub try_assign_all : Members → List (String × Option Json) → Option Members
unfolding assign
try_assign_all ms [] = some ms
try_assign_all ms ((k, none) ∷ rest) = none
try_assign_all ms ((k, some v) ∷ rest) = try_assign_all (assign k v ms) rest

abbrev pub as_object : Option Members → Option Json
as_object none = none
as_object (some ms) = some (object ms)

-- A value that is null until its first member is assigned.
abbrev pub implicit_object : Members → Json
implicit_object no_members = json_null
implicit_object (member k v rest) = object (member k v rest)

-- `push_back` of a value in front of the values that follow.
abbrev pub push : Option Json → Option Items → Option Items
push none rest = none
push (some j) none = none
push (some j) (some rest) = some (item j rest)

abbrev pub as_array : Option Items → Option Json
as_array none = none
as_array (some xs) = some (array xs)

abbrev pub as_implicit_object : Option Members → Option Json
as_implicit_object none = none
as_implicit_object (some ms) = some (implicit_object ms)

abbrev pub text_or_null : Option String → Json
text_or_null none = json_null
text_or_null (some s) = text s

abbrev pub number_or_null : Option ℤ → Json
number_or_null none = json_null
number_or_null (some n) = number n

abbrev pub boolean_or_null : Option Bool → Json
boolean_or_null none = json_null
boolean_or_null (some b) = boolean b

-- `s.empty() ? njson(nullptr) : njson(s)`.
abbrev pub nonempty_or_null : String → Json
nonempty_or_null s = if s == "" then json_null else text s

abbrev pub text_items : List String → Items
text_items [] = no_items
text_items (s ∷ rest) = item (text s) (text_items rest)

abbrev pub number_items : List ℤ → Items
number_items [] = no_items
number_items (n ∷ rest) = item (number n) (number_items rest)

-- The characters 32 to 126.
abbrev printable : String
printable =
    " !\"#$%&'()*+,-./0123456789:;<=>?@ABCDEFGHIJKLMNOPQRSTUVWXYZ[\\]^_`abcdefghijklmnopqrstuvwxyz{|}~"

-- The text of printable character codes.
unfoldable pub from_codes : List ℕ → String
from_codes [] = ""
from_codes (c ∷ cs) = slice printable (c - 32) (c - 32 + 1) <> from_codes cs

unfoldable pub has_key : String → Members → Bool
has_key k no_members = false
has_key k (member j w rest) = j == k || has_key k rest

-- No object at any depth has a key twice.
unfoldable mutual
  unfolding has_key

  pub IsDocument : Json → Type 0
  IsDocument json_null = Unit
  IsDocument (boolean _) = Unit
  IsDocument (number _) = Unit
  IsDocument (text _) = Unit
  IsDocument (array xs) = AllDocuments xs
  IsDocument (object ms) = AllKeyed ms

  pub AllDocuments : Items → Type 0
  AllDocuments no_items = Unit
  AllDocuments (item x xs) = IsDocument x × AllDocuments xs

  pub AllKeyed : Members → Type 0
  AllKeyed no_members = Unit
  AllKeyed (member k v rest) = (has_key k rest ≡ false) × IsDocument v × AllKeyed rest
