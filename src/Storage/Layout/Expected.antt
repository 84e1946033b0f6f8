-- ===== src/Storage/Layout/Expected.antt =====
-- What computeLayout (src/builder/storage/StorageLayout.cpp) answers, said of the list of declarations
-- and not of the steps of the loop.
use mathlib.Core.List.{append_assoc, append-nil}
use puya_sol.Prelude.{
  ℕ, suc, ◌+◌, ◌-◌, ◌%◌, ◌^◌, ◌<◌, ◌≡◌, refl, sym, ap, ap₂, ◌∙◌, Option, none, some, List, [], ◌∷◌,
  ◌++◌, map, eqb, eqb_iff, leb, ltb, if◌then◌else◌, arith, inl, inr, Bool-cases,
}
use puya_sol.Storage.Layout.{
  Declared, SlotInfo, new_slot, extend_slot, slot_end, larger, compute_layout, get_slot_info,
}
use puya_sol.Storage.Layout.Refinement.{
  slot_of, last_end, at_most, get_slot_info-slot_of, total_slots-last_end,
}

-- The variables of a slot, each with its position among the declarations that have a type.
abbrev pub variables_in : ℕ → ℕ → List (Option Declared) → List (ℕ × Declared)
variables_in number position [] = []
variables_in number position (none ∷ rest) = variables_in number position rest
variables_in number position (some d ∷ rest) =
    let others = variables_in number (suc position) rest in
    if eqb number d.slot then (position, d) ∷ others else others

abbrev pub maximum : ℕ → ℕ → ℕ
maximum a b = if leb b a then a else b

-- The largest end of a variable in its slot, in bytes and in 32 bits.
abbrev pub bytes_to_end : List (ℕ × Declared) → ℕ
bytes_to_end [] = 0
bytes_to_end ((_, d) ∷ rest) = maximum ((d.offset + d.storage_bytes) % 2 ^ 32) (bytes_to_end rest)

abbrev pub position_of : ℕ × Declared → ℕ
position_of (position, _) = position

-- The slot that holds some variables.
abbrev pub expected_slot : ℕ → List (ℕ × Declared) → Option SlotInfo
expected_slot number [] = none
expected_slot number ((position, d) ∷ rest) = some (record {
  slot_number = number;
  variable_indices = map position_of ((position, d) ∷ rest);
  bytes_used = bytes_to_end ((position, d) ∷ rest);
  is_dynamic = d.is_mapping_or_dynamic_array;
})

-- A slot that takes more variables.
with_variables : SlotInfo → List (ℕ × Declared) → SlotInfo
with_variables info vs = record {
  slot_number = info.slot_number;
  variable_indices = info.variable_indices ++ map position_of vs;
  bytes_used = maximum info.bytes_used (bytes_to_end vs);
  is_dynamic = info.is_dynamic;
}

maximum_assoc : (a b c : ℕ) → maximum (larger a b) c ≡ maximum a (maximum b c)
maximum_assoc a b c = ground arith

maximum_zero : (a : ℕ) → a ≡ maximum a 0
maximum_zero a = ground arith

larger_zero : (a : ℕ) → larger 0 a ≡ a
larger_zero a = ground arith

slot_of-some :
    (n position : ℕ) (info : SlotInfo) (entries : List (Option Declared))
    → slot_of n position (some info) entries
      ≡ some (with_variables info (variables_in n position entries))
unfolding with_variables
slot_of-some n position info [] =
    ap₂ (λ vs u. some (record info { variable_indices = vs; bytes_used = u }))
      (sym (append-nil info.variable_indices)) (maximum_zero info.bytes_used)
slot_of-some n position info (none ∷ rest) = slot_of-some n position info rest
slot_of-some n position info (some d ∷ rest) = elim (Bool-cases (eqb n d.slot)) [
  | inl p ↦ rw p (
      slot_of-some n (suc position) (extend_slot position d info) rest
      ∙ ap₂ (λ vs u. some (record info { variable_indices = vs; bytes_used = u }))
          (append_assoc info.variable_indices (position ∷ [])
            (map position_of (variables_in n (suc position) rest)))
          (maximum_assoc info.bytes_used ((d.offset + d.storage_bytes) % 2 ^ 32)
            (bytes_to_end (variables_in n (suc position) rest))))
  | inr p ↦ rw p (slot_of-some n (suc position) info rest)
]

slot_of-none :
    (n position : ℕ) (entries : List (Option Declared))
    → slot_of n position none entries ≡ expected_slot n (variables_in n position entries)
unfolding with_variables
slot_of-none n position [] = refl
slot_of-none n position (none ∷ rest) = slot_of-none n position rest
slot_of-none n position (some d ∷ rest) = elim (Bool-cases (eqb n d.slot)) [
  | inl p ↦ rw p (
      slot_of-some n (suc position) (extend_slot position d (new_slot d)) rest
      ∙ ap₂
          (λ k u. some (record {
            slot_number = k;
            variable_indices = position ∷ map position_of (variables_in n (suc position) rest);
            bytes_used = u;
            is_dynamic = d.is_mapping_or_dynamic_array;
          }))
          (sym ((eqb_iff n d.slot).0 p))
          (ap (λ u. maximum u (bytes_to_end (variables_in n (suc position) rest)))
            (larger_zero ((d.offset + d.storage_bytes) % 2 ^ 32))))
  | inr p ↦ rw p (slot_of-none n (suc position) rest)
]

-- The slot behind the last one of a variable.
abbrev pub next_slot : Declared → ℕ
next_slot d = d.slot + (if eqb d.storage_size 0 then 1 else d.storage_size)

-- How far it is from the base, going up and around the 2^256 slots.
abbrev pub distance : ℕ → ℕ → ℕ
distance base next = if leb base next then next - base else 2 ^ 256 - (base - next)

abbrev pub furthest : ℕ → List (Option Declared) → ℕ
furthest base [] = 0
furthest base (none ∷ rest) = furthest base rest
furthest base (some d ∷ rest) = maximum (distance base (next_slot d % 2 ^ 256)) (furthest base rest)

around : (b x : ℕ) → b < 2 ^ 256 → (x + (2 ^ 256 - b)) % 2 ^ 256 ≡ distance b (x % 2 ^ 256)
around b x h = ground arith

slot_end-distance :
    (base : ℕ) (d : Declared)
    → base < 2 ^ 256
    → slot_end base d ≡ distance base (next_slot d % 2 ^ 256)
slot_end-distance base d h =
    ap (λ n. (d.slot + n + (2 ^ 256 - base)) % 2 ^ 256) (span d.storage_size)
    ∙ around base (next_slot d) h
  where
    span : (n : ℕ) → (if ltb 1 n then n else 1) ≡ (if eqb n 0 then 1 else n)
    span n = ground arith

last_end-furthest :
    (base end : ℕ) (entries : List (Option Declared))
    → base < 2 ^ 256
    → last_end base end entries ≡ maximum end (furthest base entries)
last_end-furthest base end [] h = maximum_zero end
last_end-furthest base end (none ∷ rest) h = last_end-furthest base end rest h
last_end-furthest base end (some d ∷ rest) h =
    last_end-furthest base (larger end (slot_end base d)) rest h
    ∙ (maximum_assoc end (slot_end base d) (furthest base rest)
        ∙ ap (λ n. maximum end (maximum n (furthest base rest))) (slot_end-distance base d h))

-- For every slot number, the layout of a list of declarations answers with nothing when no
-- variable stands in the slot; else with the number, whether the first of its variables is
-- dynamic, the positions of its variables in order, and the largest end of one in bytes, in 32
-- bits.
pub get_slot_info-compute_layout :
    (base : ℕ) (entries : List (Option Declared)) (n : ℕ)
    → get_slot_info (compute_layout base entries) n ≡ expected_slot n (variables_in n 0 entries)
get_slot_info-compute_layout base entries n =
    get_slot_info-slot_of base entries n ∙ slot_of-none n 0 entries

-- For a base in 256 bits, the number of slots of a layout is the largest distance, going up from
-- the base and around the 2^256 slots, to the slot behind the last one of a variable, a variable
-- without a size taking one slot, or the largest number of 32 bits where that distance is larger.
pub total_slots-compute_layout :
    (base : ℕ) (entries : List (Option Declared))
    → base < 2 ^ 256
    → (compute_layout base entries).total_slots ≡ at_most (2 ^ 32 - 1) (furthest base entries)
total_slots-compute_layout base entries h =
    total_slots-last_end base entries
    ∙ ap (at_most (2 ^ 32 - 1))
        (last_end-furthest base 0 entries h ∙ zero_maximum (furthest base entries))
  where
    zero_maximum : (a : ℕ) → maximum 0 a ≡ a
    zero_maximum a = ground arith
