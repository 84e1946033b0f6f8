-- ===== src/Storage/Layout/Refinement.antt =====
-- The layout (src/builder/storage/StorageLayout.cpp) as one slot, one declaration and the size see it.
use puya_sol.Prelude.{
  ℕ, suc, ◌≡◌, ◌≢◌, refl, sym, ap, ap₂, ◌∙◌, true, false, Option, none, some, List, [], ◌∷◌, ◌++◌,
  length, length-append, arith, inl, inr, Bool-cases, eqb, eqb_iff, if◌then◌else◌, Option-cases,
  ◌==◌, nat_eq, int_eq, ℤ, ◌^◌, ◌-◌, ltb,
}
use puya_sol.Storage.Layout.{
  Declared, SlotInfo, SlotVariable, StorageLayout, find, get_elem?, modify, at_index, empty_layout,
  to_variable, new_slot, extend_slot, slot_end, grow_total, larger, ensure_slot, index_or_zero,
  add_variable, add_all, compute_layout, get_var_info_by_id, get_slot_info,
}
use puya_sol.Storage.Layout.Lookup.{get_elem?-append, get_elem?-last, get_elem?-modify}
use puya_sol.Storage.Layout.Slots.{
  Indexed, eqb_refl, append-Indexed, find-append, modify-Indexed, find-modify_other,
}

-- What one more variable does to the slot of a number.
abbrev pub slot_step : ℕ → ℕ → Declared → Option SlotInfo → Option SlotInfo
slot_step number index d none =
    if eqb number d.slot then some (extend_slot index d (new_slot d)) else none
slot_step number index d (some info) =
    if eqb number d.slot then some (extend_slot index d info) else some info

-- The steps of the loop that touch the slot of a number.
abbrev pub slot_of : ℕ → ℕ → Option SlotInfo → List (Option Declared) → Option SlotInfo
slot_of number index info [] = info
slot_of number index info (none ∷ rest) = slot_of number index info rest
slot_of number index info (some d ∷ rest) =
    slot_of number (suc index) (slot_step number index d info) rest

-- The last declaration with an id.
abbrev pub variable_of : ℤ → Option SlotVariable → List (Option Declared) → Option SlotVariable
variable_of id v [] = v
variable_of id v (none ∷ rest) = variable_of id v rest
variable_of id v (some d ∷ rest) =
    variable_of id (if id == d.id then some (to_variable d) else v) rest

-- The steps of the loop that touch the size.
abbrev pub last_end : ℕ → ℕ → List (Option Declared) → ℕ
last_end base end [] = end
last_end base end (none ∷ rest) = last_end base end rest
last_end base end (some d ∷ rest) = last_end base (larger end (slot_end base d)) rest

abbrev pub at_most : ℕ → ℕ → ℕ
at_most bound n = if ltb bound n then bound else n

record Consistent (layout : StorageLayout) : Type 0 where
  pub slots_indexed : Indexed layout.slots layout.slot_by_number
  pub ids_indexed :
      (id : ℤ) (i : ℕ)
      → find id layout.var_by_id ≡ some i
      → (v : SlotVariable) × (get_elem? layout.variables i ≡ some v)

same_index : {i j : ℕ} → some i ≡ some j → i ≡ j
same_index h = cc

module _ (base : ℕ) (layout : StorageLayout) (d : Declared) (h : Consistent layout) where
  add_variable-ids :
      (id : ℤ) (i : ℕ)
      → find id (add_variable base layout d).var_by_id ≡ some i
      → (v : SlotVariable) × (get_elem? (add_variable base layout d).variables i ≡ some v)
  unfolding add_variable
  add_variable-ids id i e = elim (Bool-cases (id == d.id)) [
    | inl same ↦ (
      to_variable d,
      ap (get_elem? (layout.variables ++ (to_variable d ∷ []))) (sym (same_index (rw same at e)))
          ∙ get_elem?-last layout.variables (to_variable d),
    )
    | inr other ↦
        let (v, found) = h.ids_indexed id i (rw other at e) in
        (v, get_elem?-append layout.variables (to_variable d ∷ []) i v found)
  ]

  -- The new variable is found by its id, the others as before.
  add_variable-variable :
      (id : ℤ)
      → get_var_info_by_id (add_variable base layout d) id
        ≡ (if id == d.id then some (to_variable d) else get_var_info_by_id layout id)
  unfolding add_variable get_var_info_by_id
  add_variable-variable id = elim (Bool-cases (id == d.id)) [
    | inl same ↦ rw same (get_elem?-last layout.variables (to_variable d))
    | inr other ↦ rw other (elim (Option-cases (find id layout.var_by_id)) [
      | inl missing ↦ rw missing refl
      | inr (i, e) ↦
          let (v, found) = h.ids_indexed id i e in
          rw e (get_elem?-append layout.variables (to_variable d ∷ []) i v found ∙ sym found)
    ])
  ]

  -- The two tables after the slot is prepared and extended.
  Placed : StorageLayout → Type 0
  Placed prepared =
      let slots =
        modify (index_or_zero (find d.slot prepared.slot_by_number))
          (extend_slot (length layout.variables) d) prepared.slots in
      Indexed slots prepared.slot_by_number
      × ((n : ℕ)
          → at_index slots (find n prepared.slot_by_number)
            ≡ slot_step n (length layout.variables) d (get_slot_info layout n))

  extended :
      (slots : List SlotInfo) (m : List (ℕ × ℕ)) (i : ℕ) (info : SlotInfo)
      → find d.slot m ≡ some i
      → get_elem? slots i ≡ some info
      → (n : ℕ) → eqb n d.slot ≡ true
      → at_index (modify i (extend_slot (length layout.variables) d) slots) (find n m)
        ≡ some (extend_slot (length layout.variables) d info)
  extended slots m i info e found n same =
      ap (λ k. at_index (modify i (extend_slot (length layout.variables) d) slots) (find k m))
        ((eqb_iff n d.slot).0 same)
      ∙ (ap (at_index (modify i (extend_slot (length layout.variables) d) slots)) e
          ∙ get_elem?-modify i (extend_slot (length layout.variables) d) slots info found)

  different : (n k : ℕ) → eqb n k ≡ false → n ≢ k
  different n k h = ground arith

  unchanged :
      (n : ℕ) (o : Option SlotInfo)
      → eqb n d.slot ≡ false
      → slot_step n (length layout.variables) d o ≡ o
  unchanged n none e = rw e refl
  unchanged n (some info) e = rw e refl

  place :
      (slots : List SlotInfo) (m : List (ℕ × ℕ)) (i : ℕ) (info : SlotInfo)
      → Indexed slots m
      → find d.slot m ≡ some i
      → get_elem? slots i ≡ some info
      → slot_step d.slot (length layout.variables) d (get_slot_info layout d.slot)
        ≡ some (extend_slot (length layout.variables) d info)
      → ((n : ℕ) → n ≢ d.slot → at_index slots (find n m) ≡ get_slot_info layout n)
      → Indexed (modify i (extend_slot (length layout.variables) d) slots) m
        × ((n : ℕ)
            → at_index (modify i (extend_slot (length layout.variables) d) slots) (find n m)
              ≡ slot_step n (length layout.variables) d (get_slot_info layout n))
  place slots m i info ix e found first others = (
    modify-Indexed slots m ix d.slot i e (extend_slot (length layout.variables) d) (λ s. refl),
    λ n. elim (Bool-cases (eqb n d.slot)) [
      | inl same ↦
          extended slots m i info e found n same
          ∙ sym (
              ap (λ k. slot_step k (length layout.variables) d (get_slot_info layout k))
                ((eqb_iff n d.slot).0 same)
              ∙ first)
      | inr other ↦
          find-modify_other slots m ix d.slot i e (extend_slot (length layout.variables) d)
            (λ s. refl) n (different n d.slot other)
          ∙ (others n (different n d.slot other) ∙ sym (unchanged n _ other))
    ],
  )

  placed : (o : Option ℕ) → find d.slot layout.slot_by_number ≡ o → Placed (ensure_slot o d layout)
  unfolding Placed get_slot_info
  placed (some i) e =
      let (info, (found, _)) = h.slots_indexed d.slot i e in
      rw e (
        place layout.slots layout.slot_by_number i info h.slots_indexed e found
          (ap (slot_step d.slot (length layout.variables) d) (ap (at_index layout.slots) e ∙ found)
            ∙ rw (eqb_refl d.slot) refl)
          (λ n k. refl))
  placed none e = rw (eqb_refl d.slot) (
      place (layout.slots ++ (new_slot d ∷ []))
        ((d.slot, length layout.slots) ∷ layout.slot_by_number) (length layout.slots) (new_slot d)
        (append-Indexed layout.slots layout.slot_by_number (new_slot d) h.slots_indexed)
        (rw (eqb_refl d.slot) refl) (get_elem?-last layout.slots (new_slot d))
        (ap (slot_step d.slot (length layout.variables) d) (ap (at_index layout.slots) e)
          ∙ rw (eqb_refl d.slot) refl)
        (λ n k. find-append layout.slots layout.slot_by_number (new_slot d) n h.slots_indexed k))

  add_variable-slots :
      Indexed (add_variable base layout d).slots (add_variable base layout d).slot_by_number
      × ((n : ℕ)
          → get_slot_info (add_variable base layout d) n
            ≡ slot_step n (length layout.variables) d (get_slot_info layout n))
  unfolding add_variable get_slot_info Placed
  add_variable-slots = placed (find d.slot layout.slot_by_number) refl

  add_variable-Consistent : Consistent (add_variable base layout d)
  add_variable-Consistent = record {
    slots_indexed = add_variable-slots.0;
    ids_indexed = add_variable-ids;
  }

  add_variable-length :
      length (add_variable base layout d).variables ≡ suc (length layout.variables)
  unfolding add_variable
  add_variable-length = length-append layout.variables (to_variable d ∷ []) ∙ omega arith

add_variable-total :
    (base : ℕ) (layout : StorageLayout) (d : Declared)
    → (add_variable base layout d).total_slots ≡ grow_total (slot_end base d) layout.total_slots
unfolding add_variable
add_variable-total base layout d = refl

empty-Consistent : Consistent empty_layout
empty-Consistent = record { slots_indexed = λ n i e. absurd cc; ids_indexed = λ id i e. absurd cc }

module _ (base : ℕ) where
  add_all-slot :
      (layout : StorageLayout) (entries : List (Option Declared)) (n : ℕ)
      → Consistent layout
      → get_slot_info (add_all base layout entries) n
        ≡ slot_of n (length layout.variables) (get_slot_info layout n) entries
  unfolding add_all
  add_all-slot layout [] n h = refl
  add_all-slot layout (none ∷ rest) n h = add_all-slot layout rest n h
  add_all-slot layout (some d ∷ rest) n h =
      add_all-slot (add_variable base layout d) rest n (add_variable-Consistent base layout d h)
      ∙ ap₂ (λ k o. slot_of n k o rest) (add_variable-length base layout d h)
          ((add_variable-slots base layout d h).1 n)

  add_all-variable :
      (layout : StorageLayout) (entries : List (Option Declared)) (id : ℤ)
      → Consistent layout
      → get_var_info_by_id (add_all base layout entries) id
        ≡ variable_of id (get_var_info_by_id layout id) entries
  unfolding add_all
  add_all-variable layout [] id h = refl
  add_all-variable layout (none ∷ rest) id h = add_all-variable layout rest id h
  add_all-variable layout (some d ∷ rest) id h =
      add_all-variable (add_variable base layout d) rest id
        (add_variable-Consistent base layout d h)
      ∙ ap (λ o. variable_of id o rest) (add_variable-variable base layout d h id)

  add_all-total :
      (layout : StorageLayout) (entries : List (Option Declared)) (end : ℕ)
      → layout.total_slots ≡ at_most (2 ^ 32 - 1) end
      → (add_all base layout entries).total_slots ≡ at_most (2 ^ 32 - 1) (last_end base end entries)
  unfolding add_all
  add_all-total layout [] end h = h
  add_all-total layout (none ∷ rest) end h = add_all-total layout rest end h
  add_all-total layout (some d ∷ rest) end h =
      add_all-total (add_variable base layout d) rest (larger end (slot_end base d)) (
        add_variable-total base layout d
        ∙ (ap (grow_total (slot_end base d)) h ∙ grown end (slot_end base d)))
    where
      grown : (a b : ℕ) → grow_total b (at_most (2 ^ 32 - 1) a) ≡ at_most (2 ^ 32 - 1) (larger a b)
      grown a b = ground arith

  pub get_slot_info-slot_of :
      (entries : List (Option Declared)) (n : ℕ)
      → get_slot_info (compute_layout base entries) n ≡ slot_of n 0 none entries
  unfolding compute_layout get_slot_info
  get_slot_info-slot_of entries n = add_all-slot empty_layout entries n empty-Consistent

  -- For every id, the layout of a list of declarations answers with the variable of the last
  -- declaration that has the id, and with nothing where none has.
  pub get_var_info_by_id-compute_layout :
      (entries : List (Option Declared)) (id : ℤ)
      → get_var_info_by_id (compute_layout base entries) id ≡ variable_of id none entries
  unfolding compute_layout get_var_info_by_id
  get_var_info_by_id-compute_layout entries id =
      add_all-variable empty_layout entries id empty-Consistent

  pub total_slots-last_end :
      (entries : List (Option Declared))
      → (compute_layout base entries).total_slots ≡ at_most (2 ^ 32 - 1) (last_end base 0 entries)
  unfolding compute_layout
  total_slots-last_end entries = add_all-total empty_layout entries 0 refl
