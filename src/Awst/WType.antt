-- ===== src/Awst/WType.antt =====
-- src/awst/WType.h, src/awst/WType.cpp: the type system of AWST.
-- A `WType` value is an object in memory: what the source compares by pointer is compared here by
-- `addr`. The ten basic singletons are constructors of `BasicType`, and `bytesType()` is the
-- `BytesWType` at address 10; every other object carries its own address. `m_immutable`
-- is what the constructors set: `forceImmutable` would change it, and nothing in the source calls it.
pub mod Canon
pub mod Equivalence
use puya_sol.Prelude.{
  ℕ, ◌≡◌, refl, Bool, true, false, ◌&&◌, ◌||◌, Option, none, some, List, [], ◌∷◌, String, ◌<>◌, ℤ,
  pos, int_to_string, ◌==◌, if◌then◌else◌, int_eq, string_eq, nat_eq,
}

pub data WTypeKind : Type 0 where
  basic_kind bytes_kind arc4_uint_n_kind arc4_ufixed_nxm_kind arc4_tuple_kind : WTypeKind
  arc4_dynamic_array_kind arc4_static_array_kind arc4_struct_kind reference_array_kind : WTypeKind
  w_tuple_kind w_group_transaction_kind w_inner_transaction_fields_kind : WTypeKind
  w_inner_transaction_kind : WTypeKind

pub data BasicType : Type 0 where
  void_type bool_type uint64_type biguint_type string_type account_type : BasicType
  application_type state_key_type box_key_type arc4_bool_type : BasicType

mutual
  pub data WType : Type 0 where
    basic : BasicType → WType
    bytes : ℕ → Option ℤ → WType
    arc4_uint_n : ℕ → ℤ → String → WType
    arc4_ufixed_nxm : ℕ → ℤ → ℤ → WType
    arc4_tuple : ℕ → WTypes → WType
    arc4_dynamic_array : ℕ → WType → String → WType
    arc4_static_array : ℕ → WType → ℤ → String → WType
    arc4_struct : ℕ → String → StructFields → Bool → WType
    reference_array : ℕ → WType → Bool → Option ℤ → WType
    w_tuple : ℕ → WTypes → Option (List String) → String → WType
    w_inner_transaction_fields : ℕ → Option ℤ → WType
    w_inner_transaction : ℕ → Option ℤ → WType

  pub data WTypes : Type 0 where
    nil : WTypes
    cons : WType → WTypes → WTypes

  pub data StructFields : Type 0 where
    no_fields : StructFields
    field : String → WType → StructFields → StructFields

abbrev pub basic_addr : BasicType → ℕ
basic_addr void_type = 0
basic_addr bool_type = 1
basic_addr uint64_type = 2
basic_addr biguint_type = 3
basic_addr string_type = 4
basic_addr account_type = 5
basic_addr application_type = 6
basic_addr state_key_type = 7
basic_addr box_key_type = 8
basic_addr arc4_bool_type = 9

abbrev pub bytes_type : WType
bytes_type = bytes 10 none

abbrev pub addr : WType → ℕ
addr (basic b) = basic_addr b
addr (bytes a _) = a
addr (arc4_uint_n a _ _) = a
addr (arc4_ufixed_nxm a _ _) = a
addr (arc4_tuple a _) = a
addr (arc4_dynamic_array a _ _) = a
addr (arc4_static_array a _ _ _) = a
addr (arc4_struct a _ _ _) = a
addr (reference_array a _ _ _) = a
addr (w_tuple a _ _ _) = a
addr (w_inner_transaction_fields a _) = a
addr (w_inner_transaction a _) = a

-- `lhs == rhs` on pointers.
abbrev pub ptr_eq : WType → WType → Bool
ptr_eq a b = addr a == addr b

abbrev pub kind : WType → WTypeKind
kind (basic _) = basic_kind
kind (bytes _ _) = bytes_kind
kind (arc4_uint_n _ _ _) = arc4_uint_n_kind
kind (arc4_ufixed_nxm _ _ _) = arc4_ufixed_nxm_kind
kind (arc4_tuple _ _) = arc4_tuple_kind
kind (arc4_dynamic_array _ _ _) = arc4_dynamic_array_kind
kind (arc4_static_array _ _ _ _) = arc4_static_array_kind
kind (arc4_struct _ _ _ _) = arc4_struct_kind
kind (reference_array _ _ _ _) = reference_array_kind
kind (w_tuple _ _ _ _) = w_tuple_kind
kind (w_inner_transaction_fields _ _) = w_inner_transaction_fields_kind
kind (w_inner_transaction _ _) = w_inner_transaction_kind

-- `m_immutable`, as each constructor sets it.
unfoldable mutual
  pub immutable : WType → Bool
  immutable (basic _) = true
  immutable (bytes _ _) = true
  immutable (arc4_uint_n _ _ _) = true
  immutable (arc4_ufixed_nxm _ _ _) = true
  immutable (arc4_tuple _ _) = true
  immutable (arc4_dynamic_array _ _ _) = false
  immutable (arc4_static_array _ _ _ _) = false
  immutable (arc4_struct _ _ fields frozen) = frozen && all_immutable fields
  immutable (reference_array _ _ flag _) = flag
  immutable (w_tuple _ _ _ _) = true
  immutable (w_inner_transaction_fields _ _) = true
  immutable (w_inner_transaction _ _) = true

  pub all_immutable : StructFields → Bool
  all_immutable no_fields = true
  all_immutable (field _ t rest) = immutable t && all_immutable rest

abbrev pub basic_name : BasicType → String
basic_name void_type = "void"
basic_name bool_type = "bool"
basic_name uint64_type = "uint64"
basic_name biguint_type = "biguint"
basic_name string_type = "string"
basic_name account_type = "account"
basic_name application_type = "application"
basic_name state_key_type = "state_key"
basic_name box_key_type = "box_key"
basic_name arc4_bool_type = "arc4.bool"

abbrev pub txn_type_suffix : ℤ → String
txn_type_suffix t =
    if t == pos 1
    then "pay"
    else if t == pos 2
    then "keyreg"
    else if t == pos 3
    then "acfg"
    else if t == pos 4
    then "axfer"
    else if t == pos 5
    then "afrz"
    else if t == pos 6
    then "appl"
    else "unknown"

abbrev pub txn_name : String → Option ℤ → String
txn_name prefix none = prefix
txn_name prefix (some t) = prefix <> ("_" <> txn_type_suffix t)

-- The name of an array alias, or the name built from the element.
abbrev alias_or : String → String → String
alias_or alias name = if alias == "" then name else alias

unfoldable pub name : WType → String
name (basic b) = basic_name b
name (bytes _ none) = "bytes"
name (bytes _ (some n)) = "bytes[" <> (int_to_string n <> "]")
name (arc4_uint_n _ n alias) =
    if alias == "" then "arc4.uint" <> int_to_string n else "arc4." <> alias
name (arc4_ufixed_nxm _ n m) = "arc4.ufixed" <> (int_to_string n <> ("x" <> int_to_string m))
name (arc4_tuple _ _) = "arc4.tuple"
name (arc4_dynamic_array _ element alias) =
    alias_or alias ("arc4.dynamic_array<" <> (name element <> ">"))
name (arc4_static_array _ element size alias) =
    alias_or alias ("arc4.static_array<" <> (name element <> (", " <> (int_to_string size <> ">"))))
name (arc4_struct _ n _ _) = n
name (reference_array _ element _ none) = "array<" <> (name element <> ">")
name (reference_array _ element _ (some size)) =
    "array<" <> (name element <> (", " <> (int_to_string size <> ">")))
name (w_tuple _ _ _ n) = n
name (w_inner_transaction_fields _ t) = txn_name "inner_transaction_fields" t
name (w_inner_transaction _ t) = txn_name "inner_transaction" t

-- The element type of an array; `none` stands for `nullptr`.
abbrev pub array_element_type : WType → Option WType
array_element_type (arc4_dynamic_array _ element _) = some element
array_element_type (arc4_static_array _ element _ _) = some element
array_element_type (reference_array _ element _ _) = some element
array_element_type _ = none

unfoldable pub find_field : String → StructFields → Option WType
find_field wanted no_fields = none
find_field wanted (field n t rest) = if n == wanted then some t else find_field wanted rest

abbrev pub struct_field_type : WType → String → Option WType
struct_field_type (arc4_struct _ _ fields _) wanted = find_field wanted fields
struct_field_type _ wanted = none

abbrev pub fixed_bytes_length : WType → Option ℤ
fixed_bytes_length (bytes _ n) = n
fixed_bytes_length _ = none

abbrev pub is_dynamic_bytes : WType → Bool
is_dynamic_bytes (bytes _ none) = true
is_dynamic_bytes _ = false

abbrev pub is_numeric_wtype : Option WType → Bool
is_numeric_wtype none = false
is_numeric_wtype (some t) = ptr_eq t (basic uint64_type) || ptr_eq t (basic biguint_type)
