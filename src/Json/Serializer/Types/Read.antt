-- ===== src/Json/Serializer/Types/Read.antt =====
-- Reading a serialised type back: what serializeWType (src/json/AWSTSerializer.cpp) keeps of a type.
use puya_sol.Prelude.{
  Option, none, some, List, [], ◌∷◌, String, ℤ, pos, ◌==◌, string_eq, if◌then◌else◌, Bool, true,
  false, ◌≡◌, refl, ap, ap₂, ◌∙◌, sym, inl, inr, Bool-cases, ==_iff,
}
use puya_sol.Awst.WType.{
  void_type, WType, basic, bytes, arc4_uint_n, arc4_ufixed_nxm, arc4_tuple, arc4_dynamic_array,
  arc4_static_array, arc4_struct, reference_array, w_tuple, w_inner_transaction_fields,
  w_inner_transaction, WTypes, nil, cons, StructFields, no_fields, field, name, immutable,
}
use puya_sol.Awst.WType.Canon.{canon, canon_types, canon_fields, canon_txn, int_of, read_basic}
use puya_sol.Json.Value.{
  Json, json_null, boolean, number, text, array, object, Items, no_items, item, Members, no_members,
  member, assign, assign_all, number_or_null, nonempty_or_null, text_items,
}
use puya_sol.Json.Serializer.Types.{
  type_document, type_members, serialize_types, serialize_fields, serialize_type, serialize_wtype,
}
use puya_sol.Awst.WType.Equivalence.{structurally_equivalent}
use puya_sol.Awst.WType.Equivalence.Memory.{Memory, Lives}
use puya_sol.Awst.WType.Equivalence.Correct.{structurally_equivalent_iff}

abbrev read_text : Json → String
read_text (text s) = s
read_text _ = ""

abbrev read_number : Json → Option ℤ
read_number (number n) = some n
read_number _ = none

abbrev read_boolean : Json → Bool
read_boolean (boolean b) = b
read_boolean _ = false

abbrev read_int : Json → ℤ
read_int (number n) = n
read_int _ = pos 0

abbrev read_text_items : Items → List String
read_text_items no_items = []
read_text_items (item j rest) = read_text j ∷ read_text_items rest

abbrev read_names : Json → Option (List String)
read_names (array xs) = some (read_text_items xs)
read_names _ = none

-- The value of the i-th member of an object.
abbrev first : Members → Json
first no_members = json_null
first (member _ v _) = v

abbrev behind : Members → Members
behind no_members = no_members
behind (member _ _ rest) = rest

-- A type whose members were read; `none` where one of its parts is no type.
abbrev read_basic_type : String → Option WType
read_basic_type n = elim (read_basic n) [ none ↦ none | some b ↦ some (basic b) ]

abbrev some_tuple : Option WTypes → Option WType
some_tuple none = none
some_tuple (some ts) = some (arc4_tuple 0 ts)

abbrev some_w_tuple : Option WTypes → Option (List String) → String → Option WType
some_w_tuple none names n = none
some_w_tuple (some ts) names n = some (w_tuple 0 ts names n)

abbrev some_struct : String → Option StructFields → Bool → Option WType
some_struct n none frozen = none
some_struct n (some fs) frozen = some (arc4_struct 0 n fs frozen)

abbrev some_dynamic : Option WType → String → Option WType
some_dynamic none alias = none
some_dynamic (some t) alias = some (arc4_dynamic_array 0 t alias)

abbrev some_static : Option WType → ℤ → String → Option WType
some_static none n alias = none
some_static (some t) n alias = some (arc4_static_array 0 t n alias)

abbrev some_reference : Option WType → Bool → Option ℤ → Option WType
some_reference none im size = none
some_reference (some t) im size = some (reference_array 0 t im size)

abbrev some_cons : Option WType → Option WTypes → Option WTypes
some_cons (some t) (some ts) = some (cons t ts)
some_cons _ _ = none

abbrev some_field : String → Option WType → Option StructFields → Option StructFields
some_field k (some t) (some fs) = some (field k t fs)
some_field k _ _ = none

-- The type that the kind, the name, the flag and the other members tell.
abbrev build :
    String
    → String
    → Bool
    → Json
    → Members
    → Option WType
    → Option WTypes
    → Option StructFields
    → Option WType
build kind n im v rest element types fields =
    if kind == "ARC4Type"
    then read_basic_type n
    else if kind == "BytesWType"
    then some (bytes 0 (read_number v))
    else if kind == "ARC4UIntN"
    then some (arc4_uint_n 0 (read_int v) (read_text (first rest)))
    else if kind == "ARC4UFixedNxM"
    then some (arc4_ufixed_nxm 0 (read_int v) (read_int (first rest)))
    else if kind == "ARC4Tuple"
    then some_tuple types
    else if kind == "ARC4DynamicArray"
    then some_dynamic element (read_text (first rest))
    else if kind == "ARC4StaticArray"
    then some_static element (read_int (first rest)) (read_text (first (behind rest)))
    else if kind == "ARC4Struct"
    then some_struct n fields (read_boolean (first rest))
    else if kind == "ReferenceArray"
    then some_reference element im (read_number (first rest))
    else if kind == "WTuple"
    then some_w_tuple types (read_names (first rest)) n
    else if kind == "WInnerTransactionFields"
    then some (w_inner_transaction_fields 0 (int_of (canon_txn (read_number v))))
    else if kind == "WInnerTransaction"
    then some (w_inner_transaction 0 (int_of (canon_txn (read_number v))))
    else none

unfoldable mutual
  pub read_type : Json → Option WType
  read_type (object ms) = read_kind ms
  read_type _ = none

  read_kind : Members → Option WType
  read_kind no_members = none
  read_kind (member _ v rest) = read_name (read_text v) rest

  read_name : String → Members → Option WType
  read_name kind no_members = none
  read_name kind (member _ v rest) = read_immutable kind (read_text v) rest

  read_immutable : String → String → Members → Option WType
  read_immutable kind n no_members = none
  read_immutable kind n (member _ v rest) = read_members kind n (read_boolean v) rest

  read_members : String → String → Bool → Members → Option WType
  read_members kind n im no_members = if kind == "WType" then read_basic_type n else none
  read_members kind n im (member _ v rest) =
      build kind n im v rest (read_type v) (read_types v) (read_fields v)

  read_types : Json → Option WTypes
  read_types (array xs) = read_type_items xs
  read_types _ = none

  read_type_items : Items → Option WTypes
  read_type_items no_items = some nil
  read_type_items (item j rest) = some_cons (read_type j) (read_type_items rest)

  read_fields : Json → Option StructFields
  read_fields (array xs) = read_field_items xs
  read_fields _ = none

  read_field_items : Items → Option StructFields
  read_field_items no_items = some no_fields
  read_field_items (item j rest) =
      some_field (read_key j) (read_field_type j) (read_field_items rest)

  read_key : Json → String
  read_key (object ms) = read_text (first ms)
  read_key _ = ""

  read_field_type : Json → Option WType
  read_field_type (object ms) = read_second ms
  read_field_type _ = none

  read_second : Members → Option WType
  read_second no_members = none
  read_second (member _ _ rest) = read_first rest

  read_first : Members → Option WType
  read_first no_members = none
  read_first (member _ v _) = read_type v

read-nonempty_or_null : (s : String) → read_text (nonempty_or_null s) ≡ s
read-nonempty_or_null s = elim (Bool-cases (s == "")) [
  | inl p ↦ rw p (sym ((==_iff s "").0 p))
  | inr p ↦ rw p refl
]

read-number_or_null : (n : Option ℤ) → read_number (number_or_null n) ≡ n
read-number_or_null none = refl
read-number_or_null (some n) = refl

read_text_items-text_items : (names : List String) → read_text_items (text_items names) ≡ names
read_text_items-text_items [] = refl
read_text_items-text_items (s ∷ rest) = ap (λ l. s ∷ l) (read_text_items-text_items rest)

mutual
  unfolding canon type_members type_document assign_all assign read_type name immutable

  read_type-serialize_type : (t : WType) → read_type (serialize_type t) ≡ some (canon t)
  read_type-serialize_type (basic void_type) = refl
  read_type-serialize_type (basic b) = refl
  read_type-serialize_type (bytes _ n) = ap (λ x. some (bytes 0 x)) (read-number_or_null n)
  read_type-serialize_type (arc4_uint_n _ n alias) =
      ap (λ x. some (arc4_uint_n 0 n x)) (read-nonempty_or_null alias)
  read_type-serialize_type (arc4_ufixed_nxm _ n m) = refl
  read_type-serialize_type (arc4_tuple _ ts) = ap some_tuple (read_type_items-serialize_types ts)
  read_type-serialize_type (arc4_dynamic_array _ t alias) =
      ap₂ some_dynamic (read_type-serialize_type t) (read-nonempty_or_null alias)
  read_type-serialize_type (arc4_static_array _ t n alias) =
      ap₂ (λ x y. some_static x n y) (read_type-serialize_type t) (read-nonempty_or_null alias)
  read_type-serialize_type (arc4_struct _ n fs frozen) =
      ap (λ x. some_struct n x frozen) (read_field_items-serialize_fields fs)
  read_type-serialize_type (reference_array _ t flag size) =
      ap₂ (λ x y. some_reference x flag y) (read_type-serialize_type t) (read-number_or_null size)
  read_type-serialize_type (w_tuple _ ts none n) =
      ap (λ x. some_w_tuple x none n) (read_type_items-serialize_types ts)
  read_type-serialize_type (w_tuple _ ts (some names) n) =
      ap₂ (λ x y. some_w_tuple x (some y) n) (read_type_items-serialize_types ts)
        (read_text_items-text_items names)
  read_type-serialize_type (w_inner_transaction_fields _ t) =
      ap (λ x. some (w_inner_transaction_fields 0 (int_of (canon_txn x)))) (read-number_or_null t)
  read_type-serialize_type (w_inner_transaction _ t) =
      ap (λ x. some (w_inner_transaction 0 (int_of (canon_txn x)))) (read-number_or_null t)

  read_type_items-serialize_types :
      (ts : WTypes) → read_type_items (serialize_types ts) ≡ some (canon_types ts)
  read_type_items-serialize_types nil = refl
  read_type_items-serialize_types (cons t ts) =
      ap₂ some_cons (read_type-serialize_type t) (read_type_items-serialize_types ts)

  read_field_items-serialize_fields :
      (fs : StructFields) → read_field_items (serialize_fields fs) ≡ some (canon_fields fs)
  read_field_items-serialize_fields no_fields = refl
  read_field_items-serialize_fields (field k t fs) =
      ap₂ (some_field k) (read_type-serialize_type t) (read_field_items-serialize_fields fs)

-- Reading the document of a type by the positions of its members gives back the content of the
-- type: all but the addresses of its objects, and a transaction type as far as its name tells it
-- apart.
pub read_type-serialize_wtype : (t : WType) → read_type (serialize_wtype (some t)) ≡ some (canon t)
unfolding type_members
read_type-serialize_wtype t = read_type-serialize_type t

-- Two types in one memory whose documents are equal are structurally equivalent: the documents
-- keep apart all types that the compiler keeps apart.
pub serialize_wtype-equivalent :
    (mem : Memory) (l r : WType)
    → Lives mem l
    → Lives mem r
    → serialize_wtype (some l) ≡ serialize_wtype (some r)
    → structurally_equivalent (some l) (some r) ≡ true
unfolding type_members
serialize_wtype-equivalent mem l r hl hr h =
    let e : some (canon l) ≡ some (canon r) =
      sym (read_type-serialize_type l) ∙ (ap read_type h ∙ read_type-serialize_type r) in
    (structurally_equivalent_iff mem l r hl hr).0.1 (cc e)
