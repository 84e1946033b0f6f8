-- ===== src/Awst/Roots/Calls.antt =====
-- The calls in the bodies of the roots, and the map that collectReferences
-- (src/builder/SubroutineRegistry.hpp) makes of them.
use puya_sol.Prelude.{
  ◌≡◌, refl, ap, ap₂, ◌∙◌, Bool, true, ◌&&◌, not, none, some, List, [], ◌∷◌, ◌++◌, String, ◌==◌,
  string_eq, ==_iff, inl, inr, Bool-cases, arith,
}
use puya_sol.Awst.Location.{SourceLocation}
use puya_sol.Awst.Operators.{subroutine_id}
use puya_sol.Awst.Expr.{Expression, node, subroutine_call_expression}
use puya_sol.Awst.Stmt.{BlockPtr, no_block, to_block, block_statement}
use puya_sol.Awst.Visit.Nodes.{Trace}
use puya_sol.Awst.Visit.Order.{run, requested, visit_expressions-run}
use puya_sol.Awst.Program.{RootNode, subroutine, contract, logic_signature, ContractMethod}
use puya_sol.Awst.Roots.{
  References, Registry, less_text, try_emplace, note_call, collect_references, member, collect,
  collect_methods,
}

abbrev pub all_of : (String → Bool) → List String → Bool
all_of p [] = true
all_of p (k ∷ rest) = p k && all_of p rest

abbrev pub distinct : List String → Bool
distinct [] = true
distinct (k ∷ rest) = not (member k rest) && distinct rest

-- The subroutines that expressions call by their id.
abbrev pub call_target : Expression → List String
call_target (node _ _ (subroutine_call_expression (subroutine_id target) _)) = target ∷ []
call_target _ = []

abbrev pub call_targets : Trace → List String
call_targets [] = []
call_targets (e ∷ rest) = call_target e ++ call_targets rest

abbrev pub calls_in : BlockPtr → List String
calls_in no_block = []
calls_in (to_block b) = call_targets (requested (block_statement b))

abbrev pub method_calls : List ContractMethod → List String
method_calls [] = []
method_calls (method ∷ rest) = calls_in method.body ++ method_calls rest

abbrev pub root_id : RootNode → String
root_id (subroutine s) = s.id
root_id (contract id _ _ _ _ _) = id
root_id (logic_signature id _ _ _) = id

abbrev pub root_calls : RootNode → List String
root_calls (subroutine s) = calls_in s.body
root_calls (contract _ _ approval clear methods _) =
    calls_in approval.body ++ (calls_in clear.body ++ method_calls methods)
root_calls (logic_signature _ _ none _) = []
root_calls (logic_signature _ _ (some program) _) = calls_in program.body

abbrev pub ids : List RootNode → List String
ids [] = []
ids (root ∷ rest) = root_id root ∷ ids rest

abbrev pub all_calls : List RootNode → List String
all_calls [] = []
all_calls (root ∷ rest) = root_calls root ++ all_calls rest

abbrev pub subroutine_ids : List RootNode → List String
subroutine_ids [] = []
subroutine_ids (subroutine s ∷ rest) = s.id ∷ subroutine_ids rest
subroutine_ids (contract _ _ _ _ _ _ ∷ rest) = subroutine_ids rest
subroutine_ids (logic_signature _ _ _ _ ∷ rest) = subroutine_ids rest

-- The keys of the map.
abbrev pub all_keys : (String → Bool) → References → Bool
all_keys p [] = true
all_keys p ((k, _) ∷ rest) = p k && all_keys p rest

pub all_of-append :
    (p : String → Bool) (xs ys : List String) → all_of p (xs ++ ys) ≡ (all_of p xs && all_of p ys)
all_of-append p [] ys = refl
all_of-append p (x ∷ xs) ys = rw (all_of-append p xs ys) (ground arith)

pub all_of_same :
    (p q : String → Bool) (xs : List String)
    → ((k : String) → p k ≡ q k)
    → all_of p xs ≡ all_of q xs
all_of_same p q [] h = refl
all_of_same p q (x ∷ xs) h = ap₂ (λ a b. a && b) (h x) (all_of_same p q xs h)

pub all_keys-try_emplace :
    (p : String → Bool) (k : String) (loc : SourceLocation) (refs : References)
    → all_keys p (try_emplace k loc refs) ≡ (all_keys p refs && p k)
unfolding try_emplace
all_keys-try_emplace p k loc [] = ground arith
all_keys-try_emplace p k loc ((j, l) ∷ rest) = elim (Bool-cases (k == j)) [
  | inl same ↦ rw same (rw ((==_iff k j).0 same) (twice (p j) (all_keys p rest)))
  | inr other ↦ rw other (elim (Bool-cases (less_text k j)) [
    | inl first ↦ rw first (swap (p k) (p j && all_keys p rest))
    | inr behind ↦
        rw behind (rw (all_keys-try_emplace p k loc rest) (shift (p j) (all_keys p rest) (p k)))
  ])
]
  where
    twice : (a b : Bool) → (a && b) ≡ ((a && b) && a)
    twice a b = ground arith

    swap : (a b : Bool) → (a && b) ≡ (b && a)
    swap a b = ground arith

    shift : (a b c : Bool) → (a && (b && c)) ≡ ((a && b) && c)
    shift a b c = ground arith

pub all_keys-note_call :
    (p : String → Bool) (e : Expression) (refs : References)
    → all_keys p (note_call e refs) ≡ (all_keys p refs && all_of p (call_target e))
unfolding note_call
all_keys-note_call p (node loc t (subroutine_call_expression (subroutine_id target) args)) refs =
    all_keys-try_emplace p target loc refs ∙ ground arith
all_keys-note_call p e refs = ground arith

pub all_keys-run :
    (p : String → Bool) (trace : Trace) (refs : References)
    → all_keys p (run note_call trace refs) ≡ (all_keys p refs && all_of p (call_targets trace))
unfolding run
all_keys-run p [] refs = ground arith
all_keys-run p (e ∷ rest) refs =
    all_keys-run p rest (note_call e refs)
    ∙ rw (all_keys-note_call p e refs, all_of-append p (call_target e) (call_targets rest))
        (ground arith)

pub all_keys-collect_references :
    (p : String → Bool) (body : BlockPtr) (refs : References)
    → all_keys p (collect_references body refs) ≡ (all_keys p refs && all_of p (calls_in body))
unfolding collect_references
all_keys-collect_references p no_block refs = ground arith
all_keys-collect_references p (to_block b) refs =
    ap (all_keys p) (visit_expressions-run note_call (block_statement b) refs)
    ∙ all_keys-run p (requested (block_statement b)) refs

pub all_keys-collect_methods :
    (p : String → Bool) (methods : List ContractMethod) (r : Registry)
    → all_keys p (collect_methods methods r).references
      ≡ (all_keys p r.references && all_of p (method_calls methods))
unfolding collect_methods
all_keys-collect_methods p [] r = ground arith
all_keys-collect_methods p (method ∷ rest) r =
    all_keys-collect_methods p rest (collect method.body r)
    ∙ rw
        (
          all_keys-collect_references p method.body r.references,
          all_of-append p (calls_in method.body) (method_calls rest),
        )
        (ground arith)
