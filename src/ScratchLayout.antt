-- ===== src/ScratchLayout.antt =====
-- src/builder/ScratchLayout.h: which scratch slots hold the EVM memory, the transient blob and the group
-- scratch.
use mathlib.Core.Path.{subst}
use puya_sol.Prelude.{
  ℕ, zero, suc, ◌+◌, ◌-◌, ◌<◌, ◌≤◌, ◌≡◌, sym, ap, ap₂, ◌∙◌, ◌||◌, Option, none, some, List, [], ◌∷◌,
  ◌++◌, All, ltb, if◌then◌else◌, inl, inr, Bool-cases, arith,
}

abbrev pub flash_slot_count : ℕ
flash_slot_count = 10

abbrev pub max_memory_slots : ℕ
max_memory_slots = 88

pub record ScratchLayout : Type 0 where
  pub memory_count : ℕ

-- The constructor; an exception is none. A negative count is refused like 0.
unfoldable pub make_scratch_layout : ℕ → Option ScratchLayout
make_scratch_layout n =
    if ltb n 1 || ltb max_memory_slots n then none else some (record { memory_count = n })

-- `for (int slot = first; slot <= last; ++slot) result.push_back(slot);`, by the number of rounds.
abbrev pub count_up : ℕ → ℕ → List ℕ
count_up first zero = []
count_up first (suc n) = first ∷ count_up (suc first) n

module _ (layout : ScratchLayout) where
  open layout use {memory_count}

  abbrev pub memory_last : ℕ
  memory_last = memory_count - 1

  abbrev pub transient_slot : ℕ
  transient_slot = memory_count

  abbrev pub flash_first : ℕ
  flash_first = memory_count + 1

  abbrev pub flash_last : ℕ
  flash_last = memory_count + flash_slot_count

  unfoldable pub memory_slots : List ℕ
  memory_slots = count_up 0 (memory_last + 1)

  unfoldable pub reserved_slots : List ℕ
  unfolding memory_slots
  reserved_slots =
      memory_slots ++ ((transient_slot ∷ []) ++ count_up flash_first (flash_last + 1 - flash_first))

count_up-append :
    (first n k : ℕ) → count_up first n ++ count_up (first + n) k ≡ count_up first (n + k)
count_up-append first zero k = ap₂ (λ a b. count_up a b) (right first) (left k)
  where
    right : (a : ℕ) → a + 0 ≡ a
    right a = omega arith

    left : (a : ℕ) → a ≡ 0 + a
    left a = omega arith
count_up-append first (suc n) k =
    ap (λ l. first ∷ l)
      (ap (λ a. count_up (suc first) n ++ count_up a k) (shift first n)
        ∙ count_up-append (suc first) n k)
    ∙ ap (count_up first) (more n k)
  where
    shift : (a n : ℕ) → a + suc n ≡ suc a + n
    shift a n = omega arith

    more : (n k : ℕ) → suc (n + k) ≡ suc n + k
    more n k = omega arith

count_up-below : (first n bound : ℕ) → first + n ≤ bound → All (λ s. s < bound) (count_up first n)
count_up-below first zero bound h = tt
count_up-below first (suc n) bound h =
    (omega arith, count_up-below (suc first) n bound (omega arith))

accepted :
    (n : ℕ) (layout : ScratchLayout)
    → make_scratch_layout n ≡ some layout
    → (0 < n) × (n < 89) × (layout.memory_count ≡ n)
unfolding make_scratch_layout
accepted n layout h = elim (Bool-cases (ltb n 1 || ltb max_memory_slots n)) [
  | inl refused ↦ absurd (none_some (rw refused at h))
  | inr taken ↦ (ground arith, ground arith, same_count (rw taken at h))
]
  where
    none_some : {l : ScratchLayout} → none ≡ some l → ⊥
    none_some e = cc

    same_count : {l k : ScratchLayout} → some l ≡ some k → k.memory_count ≡ l.memory_count
    same_count e = cc

-- For a count of memory slots that the constructor takes, the reserved slots are the numbers from
-- 0 on, each once and in order, eleven more than the memory slots, and all below 100; such a count
-- is from 1 to 88.
pub reserved_slots-contiguous :
    (n : ℕ) (layout : ScratchLayout)
    → make_scratch_layout n ≡ some layout
    → (reserved_slots layout ≡ count_up 0 (n + 11))
      × All (λ s. s < 100) (reserved_slots layout)
      × (0 < n)
      × (n < 89)
unfolding reserved_slots memory_slots
reserved_slots-contiguous n layout h =
    let (low, high, count) = accepted n layout h in
    let same =
      ap₂ (λ a b. a ++ b) (ap (count_up 0) (positive layout.memory_count (omega arith)))
        (behind layout.memory_count)
      ∙ (count_up-append 0 layout.memory_count 11 ∙ ap (λ (k : ℕ). count_up 0 (k + 11)) count) in
    (
      same,
      subst (λ l. All (λ s. s < 100) l) (sym same) (count_up-below 0 (n + 11) 100 (omega arith)),
      low,
      high,
    )
  where
    positive : (k : ℕ) → 0 < k → k - 1 + 1 ≡ k
    positive k h = omega arith

    zero_left : (k : ℕ) → k ≡ 0 + k
    zero_left k = omega arith

    next : (k : ℕ) → k + 1 ≡ suc (0 + k)
    next k = omega arith

    ten : (k : ℕ) → k + 10 + 1 - (k + 1) ≡ 10
    ten k = omega arith

    behind :
        (k : ℕ)
        → (k ∷ []) ++ count_up (k + 1) (k + flash_slot_count + 1 - (k + 1)) ≡ count_up (0 + k) 11
    behind k = ap₂ (λ a l. a ∷ l) (zero_left k) (ap₂ (λ a b. count_up a b) (next k) (ten k))
