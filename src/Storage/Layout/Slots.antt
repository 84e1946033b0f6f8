-- ===== src/Storage/Layout/Slots.antt =====
-- A list of slots with a map from slot numbers to its indexes
-- (`m_slots` and `m_slotByNumber` of src/builder/storage/StorageLayout.h).
use puya_sol.Prelude.{
  ℕ, ◌≡◌, ◌≢◌, refl, sym, ap, ◌∙◌, true, false, some, List, [], ◌∷◌, ◌++◌, length, arith, inl, inr,
  Bool-cases, eqb, eqb_iff, Option-cases, nat_eq,
}
use puya_sol.Storage.Layout.{SlotInfo, find, get_elem?, modify, at_index}
use puya_sol.Storage.Layout.Lookup.{
  get_elem?-append, get_elem?-last, get_elem?-modify, get_elem?-modify_other,
}

-- Every entry of the map leads to the slot of that number.
abbrev pub Indexed : List SlotInfo → List (ℕ × ℕ) → Type 0
Indexed slots m =
    (n i : ℕ)
    → find n m ≡ some i
    → (info : SlotInfo) × ((get_elem? slots i ≡ some info) × (info.slot_number ≡ n))

same_some : {i j : ℕ} → some i ≡ some j → i ≡ j
same_some h = cc

pub eqb_refl : (n : ℕ) → eqb n n ≡ true
eqb_refl n = (eqb_iff n n).1 refl

pub eqb-distinct : (n k : ℕ) → n ≢ k → eqb n k ≡ false
eqb-distinct n k h = ground arith

pub append-Indexed :
    (slots : List SlotInfo) (m : List (ℕ × ℕ)) (x : SlotInfo)
    → Indexed slots m
    → Indexed (slots ++ (x ∷ [])) ((x.slot_number, length slots) ∷ m)
append-Indexed slots m x h n i e = elim (Bool-cases (eqb n x.slot_number)) [
  | inl same ↦ (
    x,
    (
      ap (get_elem? (slots ++ (x ∷ []))) (sym (same_some (rw same at e))) ∙ get_elem?-last slots x,
      sym ((eqb_iff n x.slot_number).0 same),
    ),
  )
  | inr other ↦
      let (info, (found, number)) = h n i (rw other at e) in
      (info, (get_elem?-append slots (x ∷ []) i info found, number))
]

-- The other slots are read as before.
pub find-append :
    (slots : List SlotInfo) (m : List (ℕ × ℕ)) (x : SlotInfo) (n : ℕ)
    → Indexed slots m
    → n ≢ x.slot_number
    → at_index (slots ++ (x ∷ [])) (find n ((x.slot_number, length slots) ∷ m))
      ≡ at_index slots (find n m)
find-append slots m x n h k = rw (eqb-distinct n x.slot_number k) (elim (Option-cases (find n m)) [
  | inl missing ↦ rw missing refl
  | inr (i, e) ↦
      let (info, (found, _)) = h n i e in
      rw e (get_elem?-append slots (x ∷ []) i info found ∙ sym found)
])

module _ (slots : List SlotInfo) (m : List (ℕ × ℕ)) (h : Indexed slots m) (k i : ℕ)
    (e : find k m ≡ some i) (f : SlotInfo → SlotInfo)
    (keeps : (s : SlotInfo) → (f s).slot_number ≡ s.slot_number) where
  -- Two numbers do not share an index.
  distinct : (n j : ℕ) → find n m ≡ some j → n ≢ k → i ≢ j
  distinct n j g d eq =
      let (p, (hp, np)) = h n j g in
      let (q, (hq, nq)) = h k i e in
      d (
        sym np
        ∙ (ap (λ s. s.slot_number) (same_info (sym hp ∙ (ap (get_elem? slots) (sym eq) ∙ hq)))
            ∙ nq))
    where
      same_info : {s t : SlotInfo} → some s ≡ some t → s ≡ t
      same_info h = cc

  pub modify-Indexed : Indexed (modify i f slots) m
  modify-Indexed n j g = elim (Bool-cases (eqb n k)) [
    | inl same ↦
        let (info, (found, number)) = h n j g in
        let at = same_some (sym e ∙ (ap (λ x. find x m) (sym ((eqb_iff n k).0 same)) ∙ g)) in
        (
          f info,
          (
            ap (get_elem? (modify i f slots)) (sym at)
                ∙ get_elem?-modify i f slots info (ap (get_elem? slots) at ∙ found),
            keeps info ∙ number,
          ),
        )
    | inr other ↦
        let (info, (found, number)) = h n j g in
        (
          info,
          (get_elem?-modify_other i j f slots (distinct n j g (unequal n k other)) ∙ found, number),
        )
  ]
    where
      unequal : (n k : ℕ) → eqb n k ≡ false → n ≢ k
      unequal n k h = ground arith

  pub find-modify_other :
      (n : ℕ) → n ≢ k → at_index (modify i f slots) (find n m) ≡ at_index slots (find n m)
  find-modify_other n d = elim (Option-cases (find n m)) [
    | inl missing ↦ rw missing refl
    | inr (j, g) ↦ rw g (get_elem?-modify_other i j f slots (distinct n j g d))
  ]
