-- ===== src/Awst/Roots/Steps.antt =====
-- One root in the loop of validateAwstRoots (src/builder/SubroutineRegistry.hpp).
use puya_sol.Prelude.{
  ◌≡◌, refl, sym, ap, ◌∙◌, Bool, true, ◌&&◌, ◌||◌, not, none, some, List, [], ◌∷◌, ◌++◌, String,
  ◌==◌, string_eq, if◌then◌else◌, inl, inr, Bool-cases, arith,
}
use puya_sol.Awst.Program.{RootNode, subroutine, contract, logic_signature, ContractMethod}
use puya_sol.Awst.Roots.{Registry, member, reject, define, collect, collect_methods, add_root}
use puya_sol.Awst.Roots.Calls.{
  all_of, calls_in, method_calls, root_id, root_calls, subroutine_ids, all_keys, all_of-append,
  all_keys-collect_references, all_keys-collect_methods,
}

-- Collecting changes the references only.
pub record SameButReferences (r r' : Registry) : Type 0 where
  pub definitions : r'.definitions ≡ r.definitions
  pub root_ids : r'.root_ids ≡ r.root_ids
  pub valid : r'.valid ≡ r.valid
  pub session : r'.session ≡ r.session

pub collect_methods-same :
    (methods : List ContractMethod) (r : Registry) → SameButReferences r (collect_methods methods r)
unfolding collect_methods
collect_methods-same [] r = record {
  definitions = refl;
  root_ids = refl;
  valid = refl;
  session = refl;
}
collect_methods-same (method ∷ rest) r =
    let h = collect_methods-same rest (collect method.body r) in
    record {
      definitions = h.definitions;
      root_ids = h.root_ids;
      valid = h.valid;
      session = h.session;
    }

abbrev pub is_new : String → List String → Bool
is_new id seen = not (id == "" || member id seen)

-- What is defined by one root after the others.
pub record Added (root : RootNode) (r r' : Registry) : Type 0 where
  pub references :
      (p : String → Bool)
      → all_keys p r'.references ≡ (all_keys p r.references && all_of p (root_calls root))
  pub definitions :
      (k : String)
      → member k r'.definitions ≡ (member k (subroutine_ids (root ∷ [])) || member k r.definitions)
  pub root_ids :
      r'.root_ids
      ≡ (if is_new (root_id root) r.root_ids then root_id root ∷ r.root_ids else r.root_ids)
  pub valid : r'.valid ≡ (r.valid && is_new (root_id root) r.root_ids)
  pub session : r'.valid ≡ true → r'.session ≡ r.session

pub define-Added :
    (id : String) (r : Registry)
    → ((define id r).references ≡ r.references)
      × ((define id r).definitions ≡ r.definitions)
      × ((define id r).root_ids ≡ (if is_new id r.root_ids then id ∷ r.root_ids else r.root_ids))
      × ((define id r).valid ≡ (r.valid && is_new id r.root_ids))
      × ((define id r).valid ≡ true → (define id r).session ≡ r.session)
unfolding define reject
define-Added id r = elim (Bool-cases (id == "" || member id r.root_ids)) [
  | inl old ↦ rw old (refl, refl, refl, ground arith, λ h. absurd cc)
  | inr new ↦ rw new (refl, refl, refl, ground arith, λ h. refl)
]

pub add_root-Added : (root : RootNode) (r : Registry) → Added root r (add_root root r)
unfolding add_root
add_root-Added (subroutine s) r =
    let (refs, defs, known, ok, clean) = define-Added s.id r in
    record {
      references = λ p.
          all_keys-collect_references p s.body (define s.id r).references
          ∙ ap (λ l. all_keys p l && all_of p (calls_in s.body)) refs;
      definitions = λ k. ap (λ l. k == s.id || member k l) defs ∙ ground arith;
      root_ids = known;
      valid = ok;
      session = clean;
    }
add_root-Added (contract id name approval clear methods _) r =
    let (refs, defs, known, ok, clean) = define-Added id r in
    let inner = collect clear.body (collect approval.body (define id r)) in
    let same = collect_methods-same methods inner in
    record {
      references = λ p.
          all_keys-collect_methods p methods inner
          ∙ rw
              (
                all_keys-collect_references p clear.body
                    (collect approval.body (define id r)).references,
                all_keys-collect_references p approval.body (define id r).references,
                refs,
                all_of-append p (calls_in approval.body)
                    (calls_in clear.body ++ method_calls methods),
                all_of-append p (calls_in clear.body) (method_calls methods),
              )
              (shift (all_keys p r.references) (all_of p (calls_in approval.body))
                (all_of p (calls_in clear.body)) (all_of p (method_calls methods)));
      definitions = λ k. ap (member k) (same.definitions ∙ defs);
      root_ids = same.root_ids ∙ known;
      valid = same.valid ∙ ok;
      session = λ h. same.session ∙ clean (sym same.valid ∙ h);
    }
  where
    shift : (a b c d : Bool) → (((a && b) && c) && d) ≡ (a && (b && (c && d)))
    shift a b c d = ground arith
add_root-Added (logic_signature id name none _) r =
    let (refs, defs, known, ok, clean) = define-Added id r in
    record {
      references = λ p. ap (all_keys p) refs ∙ unit (all_keys p r.references);
      definitions = λ k. ap (member k) defs;
      root_ids = known;
      valid = ok;
      session = clean;
    }
  where
    unit : (a : Bool) → a ≡ (a && true)
    unit a = ground arith
add_root-Added (logic_signature id name (some program) _) r =
    let (refs, defs, known, ok, clean) = define-Added id r in
    record {
      references = λ p.
          all_keys-collect_references p program.body (define id r).references
          ∙ ap (λ l. all_keys p l && all_of p (calls_in program.body)) refs;
      definitions = λ k. ap (member k) defs;
      root_ids = known;
      valid = ok;
      session = clean;
    }
