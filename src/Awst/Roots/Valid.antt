-- ===== src/Awst/Roots/Valid.antt =====
-- When the roots of a unit are valid (validateAwstRoots of src/builder/SubroutineRegistry.hpp).
use puya_sol.Prelude.{
  ◌≡◌, refl, sym, ap, ap₂, ◌∙◌, Bool, true, false, ◌&&◌, ◌||◌, not, List, [], ◌∷◌, String, ◌<>◌,
  ◌==◌, string_eq, ==_iff, if◌then◌else◌, inl, inr, Bool-cases, arith, and-true,
}
use puya_sol.Awst.Session.{Session}
use puya_sol.Awst.Program.{RootNode, subroutine, contract, logic_signature}
use puya_sol.Awst.Roots.{
  References, Registry, member, reject, add_root, add_roots, check_references, new_registry,
  validate_awst_roots,
}
use puya_sol.Awst.Roots.Calls.{
  all_of, distinct, root_id, root_calls, ids, all_calls, subroutine_ids, all_keys, all_of-append,
  all_of_same,
}
use puya_sol.Awst.Roots.Steps.{is_new, add_root-Added}

-- Every id is no empty text, none is one that was seen, and no two are the same.
abbrev fresh : List String → List String → Bool
fresh seen [] = true
fresh seen (id ∷ rest) = is_new id seen && fresh (if is_new id seen then id ∷ seen else seen) rest

record Collected (roots : List RootNode) (r r' : Registry) : Type 0 where
  pub references :
      (p : String → Bool)
      → all_keys p r'.references ≡ (all_keys p r.references && all_of p (all_calls roots))
  pub definitions :
      (k : String)
      → member k r'.definitions ≡ (member k (subroutine_ids roots) || member k r.definitions)
  pub valid : r'.valid ≡ (r.valid && fresh r.root_ids (ids roots))
  pub session : r'.valid ≡ true → r'.session ≡ r.session

add_roots-Collected : (roots : List RootNode) (r : Registry) → Collected roots r (add_roots roots r)
unfolding add_roots
add_roots-Collected [] r = record {
  references = λ p. unit (all_keys p r.references);
  definitions = λ k. refl;
  valid = unit r.valid;
  session = λ h. refl;
}
  where
    unit : (a : Bool) → a ≡ (a && true)
    unit a = ground arith
add_roots-Collected (root ∷ rest) r =
    let first = add_root-Added root r in
    let others = add_roots-Collected rest (add_root root r) in
    let valid =
      others.valid
      ∙ (ap₂ (λ b l. b && fresh l (ids rest)) first.valid first.root_ids
          ∙ shift r.valid (is_new (root_id root) r.root_ids) _) in
    record {
      references = λ p.
          others.references p
          ∙ rw (first.references p, all_of-append p (root_calls root) (all_calls rest))
              (shift (all_keys p r.references) (all_of p (root_calls root))
                (all_of p (all_calls rest)));
      definitions = λ k.
          others.definitions k
          ∙ (ap (λ b. member k (subroutine_ids rest) || b) (first.definitions k) ∙ ids_of root k);
      valid = valid;
      session = λ h. others.session h ∙ first.session (and-true _ _ (sym others.valid ∙ h)).0;
    }
  where
    shift : (a b c : Bool) → ((a && b) && c) ≡ (a && (b && c))
    shift a b c = ground arith

    ids_of :
        (root : RootNode) (k : String)
        → (member k (subroutine_ids rest)
            || (member k (subroutine_ids (root ∷ [])) || member k r.definitions))
          ≡ (member k (subroutine_ids (root ∷ rest)) || member k r.definitions)
    ids_of (subroutine s) k = ground arith
    ids_of (contract _ _ _ _ _ _) k = refl
    ids_of (logic_signature _ _ _ _) k = refl

check_references-valid :
    (refs : References) (r : Registry)
    → ((check_references refs r).valid ≡ (r.valid && all_keys (λ k. member k r.definitions) refs))
      × ((check_references refs r).valid ≡ true → (check_references refs r).session ≡ r.session)
unfolding check_references reject
check_references-valid [] r = (unit r.valid, λ h. refl)
  where
    unit : (a : Bool) → a ≡ (a && true)
    unit a = ground arith
check_references-valid ((id, loc) ∷ rest) r = elim (Bool-cases (member id r.definitions)) [
  | inl found ↦ rw (found, check_references) (check_references-valid rest r)
  | inr missing ↦
      rw (missing, check_references)
        (let h =
            check_references-valid rest
              (reject ("unresolved root subroutine id '" <> (id <> "'")) r) in
          (h.0 ∙ nothing r.valid, λ v. absurd (never (sym h.0 ∙ v))))
]
  where
    nothing : (a : Bool) → false ≡ (a && false)
    nothing a = ground arith

    never : false ≡ true → ⊥
    never h = cc

same_text_sym : (k j : String) → (k == j) ≡ (j == k)
same_text_sym k j =
    by_iff (k == j) (j == k) (λ h. (==_iff j k).1 (sym ((==_iff k j).0 h)))
      (λ h. (==_iff k j).1 (sym ((==_iff j k).0 h)))
  where
    by_iff : (a b : Bool) → (a ≡ true → b ≡ true) → (b ≡ true → a ≡ true) → a ≡ b
    by_iff true b f g = sym (f refl)
    by_iff false true f g = g refl
    by_iff false false f g = refl

all_new :
    (id : String) (seen rest : List String)
    → all_of (λ k. is_new k (id ∷ seen)) rest
      ≡ (all_of (λ k. is_new k seen) rest && not (member id rest))
all_new id seen [] = refl
all_new id seen (k ∷ rest) =
    ap₂ (λ a b. not (k == "" || (a || member k seen)) && b) (same_text_sym k id)
      (all_new id seen rest)
    ∙ algebra (k == "") (id == k) (member k seen) (all_of (λ j. is_new j seen) rest)
        (member id rest)
  where
    algebra :
        (e s m a r : Bool)
        → (not (e || (s || m)) && (a && not r)) ≡ ((not (e || m) && a) && not (s || r))
    algebra e s m a r = ground arith

fresh-distinct :
    (seen rest : List String)
    → fresh seen rest ≡ (all_of (λ k. is_new k seen) rest && distinct rest)
fresh-distinct seen [] = refl
fresh-distinct seen (id ∷ rest) = elim (Bool-cases (is_new id seen)) [
  | inl new ↦ rw new (
      fresh-distinct (id ∷ seen) rest
      ∙ (ap (λ b. b && distinct rest) (all_new id seen rest)
          ∙ shift (all_of (λ k. is_new k seen) rest) (not (member id rest)) (distinct rest)))
  | inr old ↦ rw old refl
]
  where
    shift : (a b c : Bool) → ((a && b) && c) ≡ (a && (b && c))
    shift a b c = ground arith

-- No id is empty, no two are the same, and every call is to a subroutine among the roots.
abbrev pub well_formed : List RootNode → Bool
well_formed roots =
    (all_of (λ k. not (k == "")) (ids roots) && distinct (ids roots))
    && all_of (λ k. member k (subroutine_ids roots)) (all_calls roots)

checked :
    (roots : List RootNode) (s : Session)
    → ((validate_awst_roots roots s).0 ≡ well_formed roots)
      × ((validate_awst_roots roots s).0 ≡ true → (validate_awst_roots roots s).1 ≡ s)
unfolding validate_awst_roots
checked roots s =
    let r = add_roots roots (new_registry s) in
    let h = add_roots-Collected roots (new_registry s) in
    let c = check_references-valid r.references r in
    let valid =
      c.0
      ∙ ap₂ (λ a b. a && b)
          (h.valid
            ∙ (fresh-distinct [] (ids roots)
                ∙ ap (λ b. b && distinct (ids roots))
                    (all_of_same _ _ (ids roots) (λ k. nothing_seen (k == "")))))
          (h.references (λ k. member k r.definitions)
            ∙ all_of_same _ _ (all_calls roots)
                (λ k. h.definitions k ∙ nothing_defined (member k (subroutine_ids roots)))) in
    (valid, λ w. c.1 w ∙ h.session (and-true _ _ (sym c.0 ∙ w)).0)
  where
    nothing_seen : (a : Bool) → not (a || false) ≡ not a
    nothing_seen a = ground arith

    nothing_defined : (a : Bool) → (a || false) ≡ a
    nothing_defined a = ground arith

-- The check of the roots of a unit answers true exactly when no root has an empty id, no two have
-- the same, and every subroutine that an expression in a body of theirs calls by id is one of the
-- subroutines among them.
pub validate_awst_roots-well_formed :
    (roots : List RootNode) (s : Session) → (validate_awst_roots roots s).0 ≡ well_formed roots
validate_awst_roots-well_formed roots s = (checked roots s).0

-- Where the check of the roots answers true, it has logged nothing: the session is as it was.
pub validate_awst_roots-silent :
    (roots : List RootNode) (s : Session)
    → (validate_awst_roots roots s).0 ≡ true
    → (validate_awst_roots roots s).1 ≡ s
validate_awst_roots-silent roots s = (checked roots s).1
