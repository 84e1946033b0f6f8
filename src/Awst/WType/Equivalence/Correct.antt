-- ===== src/Awst/WType/Equivalence/Correct.antt =====
-- structurallyEquivalent (src/awst/WType.cpp) against the contents of the two types.
use puya_sol.Prelude.{
  ◌≡◌, refl, ap, ap₂, ◌↔◌, true, false, none, some, [], arith, eqb_iff, nat_eq, bool_eq, int_eq,
  string_eq, option_eq, list_eq, ==_iff,
}
use puya_sol.Awst.WType.{
  WType, basic, bytes, arc4_uint_n, arc4_ufixed_nxm, arc4_tuple, arc4_dynamic_array,
  arc4_static_array, arc4_struct, reference_array, w_tuple, w_inner_transaction_fields,
  w_inner_transaction, WTypes, nil, cons, StructFields, no_fields, field, immutable, name,
  basic_name,
}
use puya_sol.Awst.WType.Canon.{
  canon, canon_types, canon_fields, basic_name_injective, txn_name_iff, int_of_injective, int_of,
}
use puya_sol.Awst.WType.Equivalence.{Seen, equivalent_impl, structurally_equivalent}
use puya_sol.Awst.WType.Equivalence.Memory.{
  Memory, Lives, size, size_types, size_fields, enter-Decides,
}
use puya_sol.Awst.WType.Equivalence.Steps.{
  basic_injective, and_iff, types_size_eq, fields_size_eq, Above-mono, Above-child, Decides-map,
  test-Decides, and_then-Decides, Correct, ItemsCorrect, FieldsCorrect,
}

module _ (mem : Memory) where
  mutual
    unfolding canon Lives size equivalent_impl name immutable

    equivalent_impl-Correct : (l r : WType) (seen : Seen) → Correct mem l r seen
    equivalent_impl-Correct (basic a) (basic b) seen o above hl hr h =
        enter-Decides mem o (basic a) (basic b) above hl hr seen _ h λ s e fl hs.
          test-Decides mem _ _ s hs (
            (λ t. ap basic (basic_name_injective a b ((==_iff _ _).0 t))),
            (λ g. (==_iff _ _).1 (ap basic_name (basic_injective a b g))),
          )
    equivalent_impl-Correct (basic a) r seen o above hl hr h =
        enter-Decides mem o (basic a) r above hl hr seen _ h λ s e fl hs. absurd (cc)
    equivalent_impl-Correct (bytes a n) (bytes b m) seen o above hl hr h =
        enter-Decides mem o (bytes a n) (bytes b m) above hl hr seen _ h λ s e fl hs.
          test-Decides mem _ _ s hs ((λ t. cc ((==_iff n m).0 t)), (λ t. (==_iff n m).1 (cc)))
    equivalent_impl-Correct (bytes a n) r seen o above hl hr h =
        enter-Decides mem o (bytes a n) r above hl hr seen _ h λ s e fl hs. absurd (cc)
    equivalent_impl-Correct (arc4_uint_n a n x) (arc4_uint_n b m y) seen o above hl hr h =
        enter-Decides mem o (arc4_uint_n a n x) (arc4_uint_n b m y) above hl hr seen _ h
          λ s e fl hs.
            Decides-map mem _ _ (λ (p, q). cc) (λ g. ((cc), (cc)))
              (test-Decides mem _ _ s hs (and_iff _ _ (==_iff n m) (==_iff x y)))
    equivalent_impl-Correct (arc4_uint_n a n x) r seen o above hl hr h =
        enter-Decides mem o (arc4_uint_n a n x) r above hl hr seen _ h λ s e fl hs. absurd (cc)
    equivalent_impl-Correct (arc4_ufixed_nxm a n x) (arc4_ufixed_nxm b m y) seen o above hl hr h =
        enter-Decides mem o (arc4_ufixed_nxm a n x) (arc4_ufixed_nxm b m y) above hl hr seen _ h
          λ s e fl hs.
            Decides-map mem _ _ (λ (p, q). cc) (λ g. ((cc), (cc)))
              (test-Decides mem _ _ s hs (and_iff _ _ (==_iff n m) (==_iff x y)))
    equivalent_impl-Correct (arc4_ufixed_nxm a n x) r seen o above hl hr h =
        enter-Decides mem o (arc4_ufixed_nxm a n x) r above hl hr seen _ h λ s e fl hs. absurd (cc)
    equivalent_impl-Correct (arc4_tuple a ts) (arc4_tuple b us) seen o above hl hr h =
        enter-Decides mem o (arc4_tuple a ts) (arc4_tuple b us) above hl hr seen _ h λ s e fl hs.
          Decides-map mem _ _ (λ (_, q). ap (arc4_tuple 0) q)
            (λ g. let q : canon_types ts ≡ canon_types us = cc in (types_size_eq ts us q, q))
            (and_then-Decides mem _ _ _ (test-Decides mem _ _ s hs (eqb_iff _ _)) λ s' q hs'.
              items_equal-Correct ts us s' _
                (Above-child mem o (arc4_tuple a ts) b (size_types ts) hl (omega arith) above) hl.1
                hr.1 hs' q)
    equivalent_impl-Correct (arc4_tuple a ts) r seen o above hl hr h =
        enter-Decides mem o (arc4_tuple a ts) r above hl hr seen _ h λ s e fl hs. absurd (cc)
    equivalent_impl-Correct (arc4_dynamic_array a t x) (arc4_dynamic_array b u y) seen o above hl hr
          h =
        enter-Decides mem o (arc4_dynamic_array a t x) (arc4_dynamic_array b u y) above hl hr seen _
          h
          λ s e fl hs.
            Decides-map mem _ _ (λ (p, q). cc) (λ g. ((cc), (cc)))
              (and_then-Decides mem _ _ _ (test-Decides mem _ _ s hs (==_iff x y)) λ s' q hs'.
                equivalent_impl-Correct t u s' _
                  (Above-child mem o (arc4_dynamic_array a t x) b (size t) hl (omega arith) above)
                  hl.1 hr.1 hs')
    equivalent_impl-Correct (arc4_dynamic_array a t x) r seen o above hl hr h =
        enter-Decides mem o (arc4_dynamic_array a t x) r above hl hr seen _ h
          λ s e fl hs. absurd (cc)
    equivalent_impl-Correct (arc4_static_array a t n x) (arc4_static_array b u m y) seen o above hl
          hr h =
        enter-Decides mem o (arc4_static_array a t n x) (arc4_static_array b u m y) above hl hr seen
          _ h
          λ s e fl hs.
            Decides-map mem _ _ (λ (p, q). cc) (λ g. (((cc), (cc)), (cc)))
              (and_then-Decides mem _ _ _
                (test-Decides mem _ _ s hs (and_iff _ _ (==_iff n m) (==_iff x y)))
                λ s' q hs'.
                  equivalent_impl-Correct t u s' _
                    (Above-child mem o (arc4_static_array a t n x) b (size t) hl (omega arith)
                      above)
                    hl.1 hr.1 hs')
    equivalent_impl-Correct (arc4_static_array a t n x) r seen o above hl hr h =
        enter-Decides mem o (arc4_static_array a t n x) r above hl hr seen _ h
          λ s e fl hs. absurd (cc)
    equivalent_impl-Correct (arc4_struct a n fs x) (arc4_struct b m gs y) seen o above hl hr h =
        enter-Decides mem o (arc4_struct a n fs x) (arc4_struct b m gs y) above hl hr seen _ h
          λ s e fl hs.
            Decides-map mem _ _ (λ (p, q). cc)
              (λ g.
                let q : canon_fields fs ≡ canon_fields gs = cc in
                ((((cc), (cc)), fields_size_eq fs gs q), q))
              (and_then-Decides mem _ _ _
                (test-Decides mem _ _ s hs
                  (and_iff _ _ (and_iff _ _ (==_iff n m) (==_iff x y)) (eqb_iff _ _)))
                λ s' q hs'.
                  fields_equal-Correct fs gs s' _
                    (Above-child mem o (arc4_struct a n fs x) b (size_fields fs) hl (omega arith)
                      above)
                    hl.1 hr.1 hs' q.1)
    equivalent_impl-Correct (arc4_struct a n fs x) r seen o above hl hr h =
        enter-Decides mem o (arc4_struct a n fs x) r above hl hr seen _ h λ s e fl hs. absurd (cc)
    equivalent_impl-Correct (reference_array a t x n) (reference_array b u y m) seen o above hl hr
          h =
        enter-Decides mem o (reference_array a t x n) (reference_array b u y m) above hl hr seen _ h
          λ s e fl hs.
            Decides-map mem _ _ (λ (p, q). cc fl) (λ g. ((cc), (cc)))
              (and_then-Decides mem _ _ _ (test-Decides mem _ _ s hs (==_iff n m)) λ s' q hs'.
                equivalent_impl-Correct t u s' _
                  (Above-child mem o (reference_array a t x n) b (size t) hl (omega arith) above)
                  hl.1 hr.1 hs')
    equivalent_impl-Correct (reference_array a t x n) r seen o above hl hr h =
        enter-Decides mem o (reference_array a t x n) r above hl hr seen _ h
          λ s e fl hs. absurd (cc)
    equivalent_impl-Correct (w_tuple a ts x n) (w_tuple b us y m) seen o above hl hr h =
        enter-Decides mem o (w_tuple a ts x n) (w_tuple b us y m) above hl hr seen _ h λ s e fl hs.
          Decides-map mem _ _ (λ (p, q). cc)
            (λ g.
              let q : canon_types ts ≡ canon_types us = cc in
              ((((cc), (cc)), types_size_eq ts us q), q))
            (and_then-Decides mem _ _ _
              (test-Decides mem _ _ s hs
                (and_iff _ _ (and_iff _ _ (==_iff n m) (==_iff x y)) (eqb_iff _ _)))
              λ s' q hs'.
                items_equal-Correct ts us s' _
                  (Above-child mem o (w_tuple a ts x n) b (size_types ts) hl (omega arith) above)
                  hl.1 hr.1 hs' q.1)
    equivalent_impl-Correct (w_tuple a ts x n) r seen o above hl hr h =
        enter-Decides mem o (w_tuple a ts x n) r above hl hr seen _ h λ s e fl hs. absurd (cc)
    equivalent_impl-Correct (w_inner_transaction_fields a t) (w_inner_transaction_fields b u) seen o
          above hl hr h =
        enter-Decides mem o (w_inner_transaction_fields a t) (w_inner_transaction_fields b u) above
          hl hr seen _ h
          λ s e fl hs. test-Decides mem _ _ s hs (
            (λ e.
                ap (λ x. w_inner_transaction_fields 0 (int_of x))
                  ((txn_name_iff true t u).0 ((==_iff _ _).0 e))),
            (λ g. (==_iff _ _).1 ((txn_name_iff true t u).1 (int_of_injective _ _ (cc)))),
          )
    equivalent_impl-Correct (w_inner_transaction_fields a t) r seen o above hl hr h =
        enter-Decides mem o (w_inner_transaction_fields a t) r above hl hr seen _ h
          λ s e fl hs. absurd (cc)
    equivalent_impl-Correct (w_inner_transaction a t) (w_inner_transaction b u) seen o above hl hr
          h =
        enter-Decides mem o (w_inner_transaction a t) (w_inner_transaction b u) above hl hr seen _ h
          λ s e fl hs. test-Decides mem _ _ s hs (
            (λ e.
                ap (λ x. w_inner_transaction 0 (int_of x))
                  ((txn_name_iff false t u).0 ((==_iff _ _).0 e))),
            (λ g. (==_iff _ _).1 ((txn_name_iff false t u).1 (int_of_injective _ _ (cc)))),
          )
    equivalent_impl-Correct (w_inner_transaction a t) r seen o above hl hr h =
        enter-Decides mem o (w_inner_transaction a t) r above hl hr seen _ h
          λ s e fl hs. absurd (cc)

    items_equal-Correct : (ts us : WTypes) (seen : Seen) → ItemsCorrect mem ts us seen
    items_equal-Correct nil nil seen o above hl hr h e = (λ _. (refl, h), λ _. refl)
    items_equal-Correct nil (cons u us) seen o above hl hr h e = absurd (omega arith)
    items_equal-Correct (cons t ts) nil seen o above hl hr h e = absurd (omega arith)
    items_equal-Correct (cons t ts) (cons u us) seen o above hl hr h e =
        Decides-map mem o _ (λ (p, q). ap₂ cons p q) (λ q. ((cc), (cc)))
          (and_then-Decides mem o _ _
            (equivalent_impl-Correct t u seen o (Above-mono mem o _ _ (omega arith) above) hl.0 hr.0
              h)
            λ s' q hs'.
              items_equal-Correct ts us s' o (Above-mono mem o _ _ (omega arith) above) hl.1 hr.1
                hs' (omega arith))

    fields_equal-Correct : (fs gs : StructFields) (seen : Seen) → FieldsCorrect mem fs gs seen
    fields_equal-Correct no_fields no_fields seen o above hl hr h e = (λ _. (refl, h), λ _. refl)
    fields_equal-Correct no_fields (field m u gs) seen o above hl hr h e = absurd (omega arith)
    fields_equal-Correct (field n t fs) no_fields seen o above hl hr h e = absurd (omega arith)
    fields_equal-Correct (field n t fs) (field m u gs) seen o above hl hr h e =
        Decides-map mem o _ (λ (p, q). cc) (λ q. (((cc), (cc)), (cc)))
          (and_then-Decides mem o _ _
            (and_then-Decides mem o _ _ (test-Decides mem o _ seen h (==_iff n m)) λ s' q hs'.
              equivalent_impl-Correct t u s' o (Above-mono mem o _ _ (omega arith) above) hl.0 hr.0
                hs')
            λ s' q hs'.
              fields_equal-Correct fs gs s' o (Above-mono mem o _ _ (omega arith) above) hl.1 hr.1
                hs' (omega arith))

-- For objects that stand in one memory, the code answers `true` exactly when the two types have the
-- same content, whatever their addresses; two null pointers are equivalent, and a null pointer is
-- equivalent to no object. The set of visited pairs changes no answer.
pub structurally_equivalent_iff :
    (mem : Memory) (l r : WType)
    → Lives mem l
    → Lives mem r
    → ((structurally_equivalent (some l) (some r) ≡ true) ↔ (canon l ≡ canon r))
      × (structurally_equivalent none none ≡ true)
      × (structurally_equivalent (some l) none ≡ false)
      × (structurally_equivalent none (some r) ≡ false)
unfolding structurally_equivalent
structurally_equivalent_iff mem l r hl hr =
    let d = equivalent_impl-Correct mem l r [] (λ _. ⊥) (λ p o. absurd o) hl hr tt in
    (((λ e. (d.0 e).0), d.1), refl, refl, refl)
