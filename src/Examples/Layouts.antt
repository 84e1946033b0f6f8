-- ===== src/Examples/Layouts.antt =====
-- Two variables packed in one slot and a mapping after them.
use puya_sol.Prelude.{
  ℕ, ◌-◌, ◌^◌, ◌≡◌, refl, ltb→lt, Bool, true, false, Option, none, some, List, [], ◌∷◌, String, pos,
}
use puya_sol.Awst.Make.Constants.{uint64_t}
use puya_sol.Storage.Layout.{Declared, compute_layout, get_slot_info, get_var_info_by_id}
use puya_sol.Storage.Layout.Refinement.{variable_of, at_most, get_var_info_by_id-compute_layout}
use puya_sol.Storage.Layout.Expected.{
  expected_slot, variables_in, furthest, get_slot_info-compute_layout, total_slots-compute_layout,
}

abbrev declared : String → ℕ → ℕ → ℕ → ℕ → Bool → Declared
declared n k slot offset bytes dynamic = record {
  name = n;
  id = pos k;
  slot = slot;
  offset = offset;
  storage_bytes = bytes;
  storage_size = 1;
  mapped = uint64_t;
  is_mapping_or_dynamic_array = dynamic;
}

abbrev token : List (Option Declared)
token =
    some (declared "paused" 7 0 0 1 false)
    ∷ some (declared "supply" 9 0 1 8 false)
    ∷ none
    ∷ some (declared "balances" 12 1 0 32 true)
    ∷ []

-- The same with a base.
abbrev based : List (Option Declared)
based = some (declared "paused" 7 1 0 1 false) ∷ some (declared "supply" 9 2 0 32 false) ∷ []

get_slot_info-compute_layout_example :
    get_slot_info (compute_layout 0 token) 0 ≡ expected_slot 0 (variables_in 0 0 token)
get_slot_info-compute_layout_example = get_slot_info-compute_layout 0 token 0

get_var_info_by_id-compute_layout_example :
    get_var_info_by_id (compute_layout 0 token) (pos 9) ≡ variable_of (pos 9) none token
get_var_info_by_id-compute_layout_example = get_var_info_by_id-compute_layout 0 token (pos 9)

total_slots-compute_layout_example :
    (compute_layout 1 based).total_slots ≡ at_most (2 ^ 32 - 1) (furthest 1 based)
total_slots-compute_layout_example = total_slots-compute_layout 1 based (ltb→lt 1 (2 ^ 256) refl)
