-- ===== src/Awst/Roots.antt =====
-- validateAwstRoots of src/builder/SubroutineRegistry.hpp.
pub mod Calls
pub mod Steps
pub mod Valid
use puya_sol.Prelude.{
  ℕ, Bool, true, false, ◌&&◌, ◌||◌, not, Option, none, some, List, [], ◌∷◌, ◌++◌, String, ◌<>◌,
  ◌==◌, string_eq, codes, ltb, eqb, if◌then◌else◌,
}
use puya_sol.Awst.Location.{SourceLocation}
use puya_sol.Awst.Operators.{subroutine_id}
use puya_sol.Awst.Expr.{Expression, node, subroutine_call_expression}
use puya_sol.Awst.Stmt.{Block, BlockPtr, no_block, to_block, block_statement}
use puya_sol.Awst.Program.{
  ContractMethod, Subroutine, RootNode, subroutine, contract, logic_signature,
}
use puya_sol.Awst.Visit.{visit_expressions}
use puya_sol.Awst.Session.{Session, log_error}

-- `std::map<std::string, SourceLocation>`, in the order of its keys.
abbrev pub References : Type 0
References = List (String × SourceLocation)

abbrev less_codes : List ℕ → List ℕ → Bool
less_codes [] [] = false
less_codes [] (y ∷ ys) = true
less_codes (x ∷ xs) [] = false
less_codes (x ∷ xs) (y ∷ ys) = ltb x y || (eqb x y && less_codes xs ys)

-- `std::string::operator<`.
abbrev pub less_text : String → String → Bool
less_text a b = less_codes (codes a) (codes b)

unfoldable pub try_emplace : String → SourceLocation → References → References
try_emplace k loc [] = (k, loc) ∷ []
try_emplace k loc ((j, l) ∷ rest) =
    let below = try_emplace k loc rest in
    if k == j
    then (j, l) ∷ rest
    else if less_text k j
    then (k, loc) ∷ (j, l) ∷ rest
    else (j, l) ∷ below

-- The visitor of collectReferences.
unfoldable pub note_call : Expression → References → References
unfolding try_emplace
note_call (node loc _ (subroutine_call_expression (subroutine_id target) _)) refs =
    try_emplace target loc refs
note_call _ refs = refs

unfoldable pub collect_references : BlockPtr → References → References
unfolding note_call
collect_references no_block refs = refs
collect_references (to_block b) refs = visit_expressions note_call (block_statement b) refs

-- What the loop over the roots changes.
pub record Registry : Type 0 where
  pub definitions : List String
  pub references : References
  pub root_ids : List String
  pub valid : Bool
  pub session : Session

abbrev pub member : String → List String → Bool
member k [] = false
member k (j ∷ rest) = k == j || member k rest

unfoldable pub reject : String → Registry → Registry
unfolding log_error
reject message r = record r { valid = false; session = (log_error message r.session).1 }

-- The lambda `define`.
unfoldable pub define : String → Registry → Registry
unfolding reject
define id r =
    if id == "" || member id r.root_ids
    then reject ("empty or duplicate AWST root id '" <> (id <> "'")) r
    else record r { root_ids = id ∷ r.root_ids }

abbrev pub collect : BlockPtr → Registry → Registry
unfolding collect_references
collect body r = record r { references = collect_references body r.references }

unfoldable pub collect_methods : List ContractMethod → Registry → Registry
unfolding collect_references
collect_methods [] r = r
collect_methods (method ∷ rest) r = collect_methods rest (collect method.body r)

abbrev pub with_definition : String → Registry → Registry
with_definition id r = record r { definitions = id ∷ r.definitions }

-- The body of the loop over the roots.
unfoldable pub add_root : RootNode → Registry → Registry
unfolding define collect_references collect_methods
add_root (subroutine s) r = collect s.body (with_definition s.id (define s.id r))
add_root (contract id name approval clear methods _) r =
    collect_methods methods (collect clear.body (collect approval.body (define id r)))
add_root (logic_signature id name none _) r = define id r
add_root (logic_signature id name (some program) _) r = collect program.body (define id r)

unfoldable pub add_roots : List RootNode → Registry → Registry
unfolding add_root
add_roots [] r = r
add_roots (root ∷ rest) r = add_roots rest (add_root root r)

-- The loop over the references.
unfoldable pub check_references : References → Registry → Registry
unfolding reject
check_references [] r = r
check_references ((id, loc) ∷ rest) r = check_references rest (
    if member id r.definitions
    then r
    else reject ("unresolved root subroutine id '" <> (id <> "'")) r)

abbrev pub new_registry : Session → Registry
new_registry s = record {
  definitions = [];
  references = [];
  root_ids = [];
  valid = true;
  session = s;
}

unfoldable pub validate_awst_roots : List RootNode → Session → Bool × Session
unfolding add_roots check_references
validate_awst_roots roots s =
    let r = add_roots roots (new_registry s) in
    let checked = check_references r.references r in (checked.valid, checked.session)
