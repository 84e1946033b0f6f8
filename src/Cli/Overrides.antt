-- ===== src/Cli/Overrides.antt =====
-- applyInlineOverrides (src/cli/AwstPostPasses.cpp). A `std::set` of names is a list in the order of
-- `std::string::operator<`; of the options there are the two lists of names.
pub mod Sets
pub mod Effect
pub mod Reported
pub mod Logged
use puya_sol.Prelude.{
  ℕ, Bool, true, false, ◌&&◌, ◌||◌, not, Option, none, some, List, [], ◌∷◌, ◌++◌, String, ◌<>◌,
  ◌==◌, string_eq, if◌then◌else◌, length,
}
use puya_sol.Prelude.Text.{to_string}
use puya_sol.Awst.Program.{
  ContractMethod, Subroutine, RootNode, subroutine, contract, logic_signature,
}
use puya_sol.Awst.Roots.{member, less_text}

-- A line that is logged.
pub data LogLine : Type 0 where
  warning : String → LogLine
  info : String → LogLine

-- `std::set::insert`.
unfoldable pub insert_name : String → List String → List String
insert_name k [] = k ∷ []
insert_name k (j ∷ rest) =
    let below = insert_name k rest in
    if k == j then j ∷ rest else if less_text k j then k ∷ j ∷ rest else j ∷ below

-- A set made from a vector of names.
unfoldable pub name_set : List String → List String → List String
unfolding insert_name
name_set set [] = set
name_set set (k ∷ rest) = name_set (insert_name k set) rest

module _ (wanted : List String) (inline : Bool) where
  -- The loop over the methods of a contract, which adds to the set of names that were found.
  unfoldable pub override_methods :
      List ContractMethod → List String → List ContractMethod × List String
  unfolding insert_name
  override_methods [] hit = ([], hit)
  override_methods (m ∷ rest) hit =
      if member m.member_name wanted
      then (
        (record m { inline_opt = some inline })
            ∷ (override_methods rest (insert_name m.member_name hit)).0,
        (override_methods rest (insert_name m.member_name hit)).1,
      )
      else (m ∷ (override_methods rest hit).0, (override_methods rest hit).1)

  unfoldable pub override_root : RootNode → List String → RootNode × List String
  unfolding insert_name override_methods
  override_root (subroutine s) hit =
      if member s.name wanted
      then (subroutine (record s { inline_opt = some inline }), insert_name s.name hit)
      else (subroutine s, hit)
  override_root (contract id name approval clear methods fields) hit = (
    contract id name approval clear (override_methods methods hit).0 fields,
    (override_methods methods hit).1,
  )
  override_root (logic_signature id name program fields) hit =
      (logic_signature id name program fields, hit)

  unfoldable pub override_roots : List RootNode → List String → List RootNode × List String
  unfolding override_root
  override_roots [] hit = ([], hit)
  override_roots (root ∷ rest) hit =
      let first = override_root root hit in
      let others = override_roots rest first.1 in (first.0 ∷ others.0, others.1)

-- The names that were wanted and not found.
unfoldable pub missing : List String → List String → List String
missing hit [] = []
missing hit (k ∷ rest) = if member k hit then missing hit rest else k ∷ missing hit rest

abbrev pub not_found : String → List String → List LogLine
not_found option [] = []
not_found option (k ∷ rest) =
    warning (option <> (": '" <> (k <> "' not found as Subroutine or ContractMethod in any root")))
    ∷ not_found option rest

abbrev pub count_line : String → String → List String → List LogLine
unfolding to_string
count_line option action [] = []
count_line option action (k ∷ rest) =
    info (option <> (": marked " <> (to_string (length (k ∷ rest)) <> action))) ∷ []

-- The lambda `applyOverrides`.
unfoldable pub apply_overrides :
    List String
    → Bool
    → String
    → String
    → List RootNode
    → List LogLine
    → List RootNode × List LogLine
unfolding name_set override_roots missing count_line
apply_overrides [] inline option action roots log = (roots, log)
apply_overrides (k ∷ names) inline option action roots log =
    let wanted = name_set [] (k ∷ names) in
    let done = override_roots wanted inline roots [] in
    (done.0, log ++ (not_found option (missing done.1 wanted) ++ count_line option action done.1))

unfoldable pub apply_inline_overrides :
    List String → List String → List RootNode → List LogLine → List RootNode × List LogLine
unfolding apply_overrides
apply_inline_overrides inlined kept_out roots log =
    let marked =
      apply_overrides inlined true "--force-inline-sub" " node(s) for inlining" roots log in
    apply_overrides kept_out false "--force-no-inline-sub" " node(s) non-inline" marked.0 marked.1
