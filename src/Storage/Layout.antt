-- ===== src/Storage/Layout.antt =====
-- src/builder/storage/StorageLayout.h and StorageLayout.cpp: the slots that solc assigned to the state
-- variables, indexed by declaration and by slot. A std::map is an association list with the newest
-- entry first. What solc says of a declaration is a record here.
pub mod Slots
pub mod Lookup
pub mod Refinement
pub mod Expected
use puya_sol.Prelude.{
  ℕ, zero, suc, ◌+◌, ◌-◌, ◌*◌, ◌%◌, ◌^◌, ◌<◌, Bool, true, false, ◌||◌, Option, none, some, List, [],
  ◌∷◌, ◌++◌, String, ℤ, int_eq, nat_eq, ◌==◌, Comparable, if◌then◌else◌, length, ltb, eqb, leb,
}
use puya_sol.Awst.Make.Constants.{Ty}

-- An entry of `linearizedStateVariables` with what computeLayout reads of its declaration.
pub record Declared : Type 0 where
  pub name : String
  pub id : ℤ
  pub slot : ℕ
  pub offset : ℕ
  pub storage_bytes : ℕ
  pub storage_size : ℕ
  pub mapped : Ty
  pub is_mapping_or_dynamic_array : Bool

pub record SlotVariable : Type 0 where
  pub name : String
  pub slot : ℕ
  pub byte_offset : ℕ
  pub byte_size : ℕ
  pub wtype : Ty
  pub is_full_slot : Bool
  pub decl_id : ℤ

pub record SlotInfo : Type 0 where
  pub slot_number : ℕ
  pub variable_indices : List ℕ
  pub bytes_used : ℕ
  pub is_dynamic : Bool

pub record StorageLayout : Type 0 where
  pub variables : List SlotVariable
  pub slots : List SlotInfo
  pub var_by_id : List (ℤ × ℕ)
  pub slot_by_number : List (ℕ × ℕ)
  pub total_slots : ℕ

-- The value of a key, if there is one.
abbrev pub find {ℓ κ} : {K : Type ℓ} {A : Type κ} ⦃c : Comparable K⦄ → K → List (K × A) → Option A
find k [] = none
find k ((j, a) ∷ rest) = if k == j then some a else find k rest

abbrev pub get_elem? {ℓ} : {A : Type ℓ} → List A → ℕ → Option A
get_elem? [] i = none
get_elem? (x ∷ xs) zero = some x
get_elem? (x ∷ xs) (suc i) = get_elem? xs i

abbrev pub modify {ℓ} : {A : Type ℓ} → ℕ → (A → A) → List A → List A
modify i f [] = []
modify zero f (x ∷ xs) = f x ∷ xs
modify (suc i) f (x ∷ xs) = x ∷ modify i f xs

abbrev pub larger : ℕ → ℕ → ℕ
larger a b = if ltb a b then b else a

abbrev pub empty_layout : StorageLayout
empty_layout = record {
  variables = [];
  slots = [];
  var_by_id = [];
  slot_by_number = [];
  total_slots = 0;
}

abbrev pub to_variable : Declared → SlotVariable
to_variable d = record {
  name = d.name;
  slot = d.slot;
  byte_offset = d.offset;
  byte_size = d.storage_bytes;
  wtype = d.mapped;
  is_full_slot = eqb d.storage_bytes 32 || ltb 1 d.storage_size;
  decl_id = d.id;
}

abbrev pub new_slot : Declared → SlotInfo
new_slot d = record {
  slot_number = d.slot;
  variable_indices = [];
  bytes_used = 0;
  is_dynamic = d.is_mapping_or_dynamic_array;
}

-- A slot takes one more variable. `unsigned` has 32 bits.
abbrev pub extend_slot : ℕ → Declared → SlotInfo → SlotInfo
extend_slot index d info = record info {
  variable_indices = info.variable_indices ++ (index ∷ []);
  bytes_used = larger info.bytes_used ((d.offset + d.storage_bytes) % 2 ^ 32);
}

-- The slot after the last one of a variable, counted from the base, in 256 bits.
abbrev pub slot_end : ℕ → Declared → ℕ
slot_end base d =
    (d.slot + (if ltb 1 d.storage_size then d.storage_size else 1) + (2 ^ 256 - base)) % 2 ^ 256

abbrev pub grow_total : ℕ → ℕ → ℕ
grow_total end total =
    if ltb total end then (if ltb (2 ^ 32 - 1) end then 2 ^ 32 - 1 else end) else total

-- `if (m_slotByNumber.find(sv.slot) == m_slotByNumber.end())` a new slot.
abbrev pub ensure_slot : Option ℕ → Declared → StorageLayout → StorageLayout
ensure_slot (some i) d layout = layout
ensure_slot none d layout = record layout {
  slot_by_number = (d.slot, length layout.slots) ∷ layout.slot_by_number;
  slots = layout.slots ++ (new_slot d ∷ []);
}

abbrev pub index_or_zero : Option ℕ → ℕ
index_or_zero none = 0
index_or_zero (some i) = i

-- The body of the loop.
unfoldable pub add_variable : ℕ → StorageLayout → Declared → StorageLayout
add_variable base layout d =
    let index = length layout.variables in
    let prepared = ensure_slot (find d.slot layout.slot_by_number) d layout in
    record prepared {
      variables = layout.variables ++ (to_variable d ∷ []);
      var_by_id = (d.id, index) ∷ layout.var_by_id;
      slots =
          modify (index_or_zero (find d.slot prepared.slot_by_number)) (extend_slot index d)
            prepared.slots;
      total_slots = grow_total (slot_end base d) layout.total_slots;
    }

-- The loop; an entry without a declaration or without a type is passed over.
unfoldable pub add_all : ℕ → StorageLayout → List (Option Declared) → StorageLayout
unfolding add_variable
add_all base layout [] = layout
add_all base layout (none ∷ rest) = add_all base layout rest
add_all base layout (some d ∷ rest) = add_all base (add_variable base layout d) rest

unfoldable pub compute_layout : ℕ → List (Option Declared) → StorageLayout
unfolding add_all
compute_layout base entries = add_all base empty_layout entries

abbrev pub at_index {ℓ} : {A : Type ℓ} → List A → Option ℕ → Option A
at_index xs none = none
at_index xs (some i) = get_elem? xs i

unfoldable pub get_var_info_by_id : StorageLayout → ℤ → Option SlotVariable
get_var_info_by_id layout id = at_index layout.variables (find id layout.var_by_id)

unfoldable pub get_slot_info : StorageLayout → ℕ → Option SlotInfo
get_slot_info layout number = at_index layout.slots (find number layout.slot_by_number)
