-- ===== src/Json/Serializer/Types.antt =====
-- serializeSourceLocation and serializeWType of src/json/AWSTSerializer.cpp. What is assigned in every
-- case stands in front of the `switch`, as in the source.
pub mod Read
pub mod Documents
use puya_sol.Prelude.{
  Option, none, some, List, [], ◌∷◌, String, ℤ, pos, negsuc, ltb, if◌then◌else◌, ◌==◌, string_eq,
}
use puya_sol.Awst.Location.{SourceLocation}
use puya_sol.Awst.WType.{
  BasicType, arc4_bool_type, WType, basic, bytes, arc4_uint_n, arc4_ufixed_nxm, arc4_tuple,
  arc4_dynamic_array, arc4_static_array, arc4_struct, reference_array, w_tuple,
  w_inner_transaction_fields, w_inner_transaction, WTypes, nil, cons, StructFields, no_fields,
  field, name, immutable,
}
use puya_sol.Json.Value.{
  Json, json_null, boolean, number, text, array, object, Items, no_items, item, Members, no_members,
  assign_all, implicit_object, text_or_null, number_or_null, nonempty_or_null, text_items,
}

-- `std::max(n, 1)`.
abbrev at_least_one : ℤ → ℤ
at_least_one (pos n) = if ltb n 1 then pos 1 else pos n
at_least_one (negsuc _) = pos 1

abbrev pub location_members : SourceLocation → List (String × Json)
location_members loc =
    ("file", nonempty_or_null loc.file)
    ∷ ("line", number (at_least_one loc.line))
    ∷ ("end_line", number (at_least_one loc.end_line))
    ∷ ("comment_lines", number loc.comment_lines)
    ∷ ("column", number_or_null loc.column)
    ∷ ("end_column", number_or_null loc.end_column)
    ∷ []

unfoldable pub serialize_source_location : SourceLocation → Json
unfolding assign_all
serialize_source_location loc = object (assign_all no_members (location_members loc))

-- `jsonType()`.
abbrev pub json_type : WType → String
json_type (basic arc4_bool_type) = "ARC4Type"
json_type (basic _) = "WType"
json_type (bytes _ _) = "BytesWType"
json_type (arc4_uint_n _ _ _) = "ARC4UIntN"
json_type (arc4_ufixed_nxm _ _ _) = "ARC4UFixedNxM"
json_type (arc4_tuple _ _) = "ARC4Tuple"
json_type (arc4_dynamic_array _ _ _) = "ARC4DynamicArray"
json_type (arc4_static_array _ _ _ _) = "ARC4StaticArray"
json_type (arc4_struct _ _ _ _) = "ARC4Struct"
json_type (reference_array _ _ _ _) = "ReferenceArray"
json_type (w_tuple _ _ _ _) = "WTuple"
json_type (w_inner_transaction_fields _ _) = "WInnerTransactionFields"
json_type (w_inner_transaction _ _) = "WInnerTransaction"

abbrev pub type_header : WType → List (String × Json)
type_header t =
    ("_type", text (json_type t))
    ∷ ("name", text (name t))
    ∷ ("immutable", boolean (immutable t))
    ∷ []

abbrev names_or_null : Option (List String) → Json
names_or_null none = json_null
names_or_null (some names) = array (text_items names)

-- The `default` of the `switch`.
abbrev basic_members : String → List (String × Json)
basic_members kind =
    if kind == "ARC4Type"
    then ("arc4_alias", json_null) ∷ ("source_location", json_null) ∷ []
    else []

-- The document: what precedes the `switch`, and what the `switch` assigns.
unfoldable pub type_document : WType → List (String × Json) → Json
unfolding name immutable assign_all
type_document t entries = object (assign_all (assign_all no_members (type_header t)) entries)

unfoldable mutual
  unfolding type_document assign_all

  -- The `switch`.
  pub type_members : WType → List (String × Json)
  type_members (basic b) = basic_members (json_type (basic b))
  type_members (bytes _ n) = ("length", number_or_null n) ∷ []
  type_members (arc4_uint_n _ n alias) =
      ("n", number n) ∷ ("arc4_alias", nonempty_or_null alias) ∷ ("source_location", json_null) ∷ []
  type_members (arc4_ufixed_nxm _ n m) =
      ("n", number n)
      ∷ ("m", number m)
      ∷ ("arc4_alias", json_null)
      ∷ ("source_location", json_null)
      ∷ []
  type_members (arc4_tuple _ ts) =
      ("types", array (serialize_types ts))
      ∷ ("arc4_alias", json_null)
      ∷ ("source_location", json_null)
      ∷ []
  type_members (arc4_dynamic_array _ t alias) =
      ("element_type", type_document t (type_members t))
      ∷ ("arc4_alias", nonempty_or_null alias)
      ∷ ("source_location", json_null)
      ∷ []
  type_members (arc4_static_array _ t n alias) =
      ("element_type", type_document t (type_members t))
      ∷ ("array_size", number n)
      ∷ ("arc4_alias", nonempty_or_null alias)
      ∷ ("source_location", json_null)
      ∷ []
  type_members (arc4_struct _ _ fields frozen) =
      ("fields", array (serialize_fields fields))
      ∷ ("frozen", boolean frozen)
      ∷ ("arc4_alias", json_null)
      ∷ ("source_location", json_null)
      ∷ ("desc", json_null)
      ∷ []
  type_members (reference_array _ t _ size) =
      ("element_type", type_document t (type_members t))
      ∷ ("array_size", number_or_null size)
      ∷ ("source_location", json_null)
      ∷ []
  type_members (w_tuple _ ts names _) =
      ("types", array (serialize_types ts))
      ∷ ("names", names_or_null names)
      ∷ ("source_location", json_null)
      ∷ []
  type_members (w_inner_transaction_fields _ t) = ("transaction_type", number_or_null t) ∷ []
  type_members (w_inner_transaction _ t) = ("transaction_type", number_or_null t) ∷ []

  pub serialize_types : WTypes → Items
  serialize_types nil = no_items
  serialize_types (cons t ts) = item (type_document t (type_members t)) (serialize_types ts)

  -- The loop over the fields of a struct.
  pub serialize_fields : StructFields → Items
  serialize_fields no_fields = no_items
  serialize_fields (field k t rest) =
      item
        (object (
          assign_all no_members (
            ("name", text k)
            ∷ ("wtype", type_document t (type_members t))
            ∷ ("description", json_null)
            ∷ [])))
        (serialize_fields rest)

-- A pointer that is not null.
abbrev pub serialize_type : WType → Json
unfolding type_members
serialize_type t = type_document t (type_members t)

abbrev pub serialize_wtype : Option WType → Json
unfolding type_members
serialize_wtype none = json_null
serialize_wtype (some t) = serialize_type t
