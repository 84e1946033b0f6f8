-- ===== src/Awst/WType/Equivalence/Memory.antt =====
-- Objects in memory, and the invariant of the set of visited pairs (src/awst/WType.cpp).
use puya_sol.Prelude.{
  ℕ, suc, ◌+◌, ◌<◌, ◌≡◌, refl, sym, ap, ◌∙◌, ◌⊎◌, inl, inr, Bool, true, false, [], ◌∷◌, ◌==◌, not,
  ◌||◌, if◌then◌else◌, arith, All, All-map, Bool-cases, eqb_iff, nat_eq, bool_eq, bool_beq_iff,
}
use puya_sol.Awst.WType.{
  WTypeKind, basic_kind, bytes_kind, arc4_uint_n_kind, arc4_ufixed_nxm_kind, arc4_tuple_kind,
  arc4_dynamic_array_kind, arc4_static_array_kind, arc4_struct_kind, reference_array_kind,
  w_tuple_kind, w_group_transaction_kind, w_inner_transaction_fields_kind, w_inner_transaction_kind,
  WType, basic, arc4_tuple, arc4_dynamic_array, arc4_static_array, arc4_struct, reference_array,
  w_tuple, WTypes, nil, cons, StructFields, no_fields, field, kind, immutable, addr,
}
use puya_sol.Awst.WType.Canon.{canon, kind-canon, immutable-canon}
use puya_sol.Awst.WType.Equivalence.{kind_index, Seen, seen_pair, Answer, enter}

-- What stands at each address.
abbrev pub Memory : Type 0
Memory = ℕ → WType

-- The object and all that it points to stand in memory.
unfoldable mutual
  pub Lives : Memory → WType → Type 0
  Lives mem (arc4_tuple a ts) = (mem a ≡ arc4_tuple a ts) × LivesAll mem ts
  Lives mem (arc4_dynamic_array a t s) = (mem a ≡ arc4_dynamic_array a t s) × Lives mem t
  Lives mem (arc4_static_array a t n s) = (mem a ≡ arc4_static_array a t n s) × Lives mem t
  Lives mem (arc4_struct a n fs z) = (mem a ≡ arc4_struct a n fs z) × LivesFields mem fs
  Lives mem (reference_array a t z n) = (mem a ≡ reference_array a t z n) × Lives mem t
  Lives mem (w_tuple a ts ns n) = (mem a ≡ w_tuple a ts ns n) × LivesAll mem ts
  Lives mem t = (mem (addr t) ≡ t) × Unit {0}

  pub LivesAll : Memory → WTypes → Type 0
  LivesAll mem nil = Unit
  LivesAll mem (cons t ts) = Lives mem t × LivesAll mem ts

  pub LivesFields : Memory → StructFields → Type 0
  LivesFields mem no_fields = Unit
  LivesFields mem (field n t fs) = Lives mem t × LivesFields mem fs

unfoldable mutual
  pub size : WType → ℕ
  size (arc4_tuple a ts) = suc (size_types ts)
  size (arc4_dynamic_array a t s) = suc (size t)
  size (arc4_static_array a t n s) = suc (size t)
  size (arc4_struct a n fs z) = suc (size_fields fs)
  size (reference_array a t z n) = suc (size t)
  size (w_tuple a ts ns n) = suc (size_types ts)
  size t = 0

  pub size_types : WTypes → ℕ
  size_types nil = 0
  size_types (cons t ts) = size t + size_types ts

  pub size_fields : StructFields → ℕ
  size_fields no_fields = 0
  size_fields (field n t fs) = size t + size_fields fs

pub at-addr : (mem : Memory) (t : WType) → Lives mem t → mem (addr t) ≡ t
unfolding Lives
at-addr mem (basic _) h = h.0
at-addr mem _ h = h.0

kind_of_index : ℕ → WTypeKind
kind_of_index n =
    if n == 0
    then basic_kind
    else if n == 1
    then bytes_kind
    else if n == 2
    then arc4_uint_n_kind
    else if n == 3
    then arc4_ufixed_nxm_kind
    else if n == 4
    then arc4_tuple_kind
    else if n == 5
    then arc4_dynamic_array_kind
    else if n == 6
    then arc4_static_array_kind
    else if n == 7
    then arc4_struct_kind
    else if n == 8
    then reference_array_kind
    else if n == 9
    then w_tuple_kind
    else if n == 10
    then w_group_transaction_kind
    else if n == 11
    then w_inner_transaction_fields_kind
    else w_inner_transaction_kind

kind_of_index-kind_index : (k : WTypeKind) → kind_of_index (kind_index k) ≡ k
unfolding kind_of_index
kind_of_index-kind_index basic_kind = refl
kind_of_index-kind_index _ = refl

kind_index_injective : (j k : WTypeKind) → kind_index j ≡ kind_index k → j ≡ k
kind_index_injective j k h =
    sym (kind_of_index-kind_index j) ∙ (ap kind_of_index h ∙ kind_of_index-kind_index k)

-- The pairs that are still being compared, further up in the recursion.
abbrev pub Open : Type 1
Open = ℕ × ℕ → Type 0

abbrev pub Equal : Memory → ℕ × ℕ → Type 0
Equal mem p = canon (mem p.0) ≡ canon (mem p.1)

-- Each visited pair holds equal types, or its comparison is not finished.
abbrev pub Sound : Memory → Open → Seen → Type 0
Sound mem open_pair = All (λ p. Equal mem p ⊎ open_pair p)

-- The answer decides the equality of the contents, and `true` keeps the set sound.
abbrev pub Decides : Memory → Open → Type 0 → Answer → Type 0
Decides mem open_pair Goal ans =
    (ans.0 ≡ true → Goal × Sound mem open_pair ans.1) × (Goal → ans.0 ≡ true)

abbrev pub Extend : Open → ℕ × ℕ → Open
Extend open_pair q p = open_pair p ⊎ (p ≡ q)

-- Only larger types are being compared.
abbrev pub Above : Memory → Open → ℕ → Type 0
Above mem open_pair n = (p : ℕ × ℕ) → open_pair p → n < size (mem p.0)

module _ (mem : Memory) where
  seen_pair-Sound :
      (open_pair : Open) (a b : ℕ) (seen : Seen)
      → Sound mem open_pair seen
      → seen_pair a b seen ≡ true
      → Equal mem (a, b) ⊎ open_pair (a, b)
  unfolding seen_pair
  seen_pair-Sound open_pair a b [] h e = cc
  seen_pair-Sound open_pair a b ((c, d) ∷ rest) h e = elim (Bool-cases (a == c)) [
    | inl ac ↦ elim (Bool-cases (b == d)) [
      | inl bd ↦ rw ((eqb_iff a c).0 ac, (eqb_iff b d).0 bd) h.0
      | inr bd ↦ seen_pair-Sound open_pair a b rest h.1 (rw (ac, bd) at e)
    ]
    | inr ac ↦ seen_pair-Sound open_pair a b rest h.1 (rw ac at e)
  ]

  close :
      (open_pair : Open) (q : ℕ × ℕ) (seen : Seen)
      → Equal mem q
      → Sound mem (Extend open_pair q) seen
      → Sound mem open_pair seen
  close open_pair q seen eq h = All-map shut seen h
    where
      shut : (p : ℕ × ℕ) → Equal mem p ⊎ Extend open_pair q p → Equal mem p ⊎ open_pair p
      shut p (inl e) = inl e
      shut p (inr (inl o)) = inr o
      shut p (inr (inr e)) = inl (rw e eq)

  same_kind : (l r : WType) → canon l ≡ canon r → kind l ≡ kind r
  same_kind l r h = sym (kind-canon l) ∙ (ap (λ t. kind t) h ∙ kind-canon r)

  same_immutable : (l r : WType) → canon l ≡ canon r → immutable l ≡ immutable r
  same_immutable l r h = sym (immutable-canon l) ∙ (ap immutable h ∙ immutable-canon r)

  -- The four tests of `enter` as Booleans.
  gate-Decides :
      (open_pair : Open) (same_pointer same_kind same_flag visited : Bool) (Goal : Type 0)
      (seen : Seen) (ans : Answer)
      → Sound mem open_pair seen
      → (same_pointer ≡ true → Goal)
      → (Goal → same_kind ≡ true)
      → (Goal → same_flag ≡ true)
      → (visited ≡ true → Goal)
      → (same_kind ≡ true → same_flag ≡ true → Decides mem open_pair Goal ans)
      → Decides mem open_pair Goal (
          if same_pointer
          then (true, seen)
          else if not same_kind || not same_flag
          then (false, seen)
          else if visited
          then (true, seen)
          else ans)
  gate-Decides _ true _ _ _ Goal seen ans h hp hk hf hv d = (λ _. (hp refl, h), λ _. refl)
  gate-Decides _ false false _ _ Goal seen ans h hp hk hf hv d = (λ e. cc, hk)
  gate-Decides _ false true false _ Goal seen ans h hp hk hf hv d = (λ e. cc, hf)
  gate-Decides _ false true true true Goal seen ans h hp hk hf hv d = (λ _. (hv refl, h), λ _. refl)
  gate-Decides _ false true true false Goal seen ans h hp hk hf hv d = d refl refl

  module _ (open_pair : Open) (l r : WType) (above : Above mem open_pair (size l)) where
    abbrev here : ℕ × ℕ
    here = (addr l, addr r)

    module _ (hl : Lives mem l) (hr : Lives mem r) where
      here-Equal : canon l ≡ canon r → Equal mem here
      here-Equal h = rw (at-addr mem l hl, at-addr mem r hr) h

      Equal-here : Equal mem here → canon l ≡ canon r
      Equal-here h = rw (at-addr mem l hl, at-addr mem r hr) at h

      not_open : open_pair here → ⊥
      not_open o = let lt = above here o in absurd (omega (arith, ap size (at-addr mem l hl)))

      same_addr : addr l ≡ addr r → l ≡ r
      same_addr e = sym (at-addr mem l hl) ∙ (ap mem e ∙ at-addr mem r hr)

      pub enter-Decides :
          (seen : Seen) (k : Seen → Answer)
          → Sound mem open_pair seen
          → ((s : Seen)
              → kind l ≡ kind r
              → immutable l ≡ immutable r
              → Sound mem (Extend open_pair here) s
              → Decides mem (Extend open_pair here) (canon l ≡ canon r) (k s))
          → Decides mem open_pair (canon l ≡ canon r) (enter l r seen k)
      unfolding enter
      enter-Decides seen k h rec =
          gate-Decides open_pair _ _ _ _ (canon l ≡ canon r) seen (k (here ∷ seen)) h
            (λ e. ap canon (same_addr ((eqb_iff _ _).0 e)))
            (λ g. (eqb_iff _ _).1 (ap kind_index (same_kind l r g)))
            (λ g. (bool_beq_iff _ _).1 (same_immutable l r g))
            (λ e. already (seen_pair-Sound open_pair (addr l) (addr r) seen h e))
            (λ e f. finish _ (
              rec (here ∷ seen) (kind_index_injective _ _ ((eqb_iff _ _).0 e))
                ((bool_beq_iff _ _).0 f) (inr (inr refl), All-map weaken seen h)))
        where
          already : Equal mem here ⊎ open_pair here → canon l ≡ canon r
          already (inl e) = Equal-here e
          already (inr o) = absurd (not_open o)

          weaken : (p : ℕ × ℕ) → Equal mem p ⊎ open_pair p → Equal mem p ⊎ Extend open_pair here p
          weaken p (inl e) = inl e
          weaken p (inr o) = inr (inl o)

          finish :
              (ans : Answer)
              → Decides mem (Extend open_pair here) (canon l ≡ canon r) ans
              → Decides mem open_pair (canon l ≡ canon r) ans
          finish ans d =
              (λ e. let (g, s) = d.0 e in (g, close open_pair here ans.1 (here-Equal g) s), d.1)
