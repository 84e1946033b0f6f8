-- ===== src/Examples/Outputs.antt =====
-- Marks for inlining, the files of two targets, and the template of a child contract.
use puya_sol.Prelude.{
  ℕ, ◌≤◌, ◌<◌, ◌≡◌, refl, sym, Bool, true, false, not, ◌&&◌, ◌||◌, Option, none, some, List, [],
  ◌∷◌, String, leb, leb→le, if◌then◌else◌, map, length, All, ltb→lt, ◌<>◌,
}
use puya_sol.Awst.Roots.{member}
use puya_sol.Cli.Overrides.{apply_overrides, apply_inline_overrides}
use puya_sol.Cli.Overrides.Effect.{mark_root, apply_inline_overrides-marks}
use puya_sol.Cli.Overrides.Reported.{any_named}
use puya_sol.Cli.Overrides.Logged.{warns, complaint, apply_overrides-warns}
use puya_sol.Cli.Targets.{valid_artifact_stem, belongs_to_target, collect_stems}
use puya_sol.Cli.Targets.Names.{belongs_to_target-other}
use puya_sol.Cli.Targets.Accepted.{
  target_stems, all_valid, distinct_stems, accepted, collect_stems-accepted_iff,
}
use puya_sol.Cli.Targets.Stale.{prepare_backend_target_artifacts}
use puya_sol.Cli.Targets.Kept.{prepare_backend_target_artifacts-kept}
use puya_sol.Cli.Templates.{Outcome, made, failed, ChildTemplate, child_template}
use puya_sol.Cli.Templates.Pages.{IsTemplate, child_template-IsTemplate}
use puya_sol.Examples.Units.{unit}

apply_inline_overrides-marks_example :
    (apply_inline_overrides ("f" ∷ "g" ∷ []) ("g" ∷ []) unit []).0
    ≡ map (mark_root ("g" ∷ []) false) (map (mark_root ("f" ∷ "g" ∷ []) true) unit)
apply_inline_overrides-marks_example =
    apply_inline_overrides-marks ("f" ∷ "g" ∷ []) ("g" ∷ []) unit []

apply_overrides-warns_example :
    warns
      (complaint "--force-inline-sub" "h")
      (apply_overrides ("f" ∷ "h" ∷ []) true "--force-inline-sub" " node(s) for inlining" unit []).1
    ≡ (false || (member "h" ("f" ∷ "h" ∷ []) && not (any_named "h" unit)))
apply_overrides-warns_example =
    apply_overrides-warns ("f" ∷ "h" ∷ []) true "--force-inline-sub" " node(s) for inlining" unit []
      "h"

collect_stems-accepted_iff_example :
    accepted (collect_stems unit [])
    ≡ (all_valid (target_stems unit) && distinct_stems (target_stems unit))
collect_stems-accepted_iff_example = collect_stems-accepted_iff unit

valid_other : valid_artifact_stem "TokenSale" ≡ true
unfolding valid_artifact_stem
valid_other = refl

other_file : belongs_to_target "TokenSale.teal" "TokenSale" ≡ true
unfolding belongs_to_target
other_file = refl

valid_token : valid_artifact_stem "Token" ≡ true
unfolding valid_artifact_stem
valid_token = refl

belongs_to_target-other_example : belongs_to_target "TokenSale.teal" "Token" ≡ false
belongs_to_target-other_example =
    belongs_to_target-other "TokenSale.teal" "TokenSale" "Token" valid_other valid_token refl
      other_file

abbrev removable : String → Option String
removable file = none

abbrev directory : Option (List String)
directory = some ("Token.approval.bin" ∷ "TokenSale.teal" ∷ "notes.txt" ∷ [])

prepare_backend_target_artifacts-kept_example :
    member "TokenSale.teal"
      (prepare_backend_target_artifacts removable unit directory "no listing").removed
    ≡ false
prepare_backend_target_artifacts-kept_example =
    prepare_backend_target_artifacts-kept "TokenSale.teal" "TokenSale" valid_other other_file
      removable unit directory "no listing" refl

-- Every file holds two bytes.
abbrev read_two : String → ℕ → Outcome (List ℕ)
read_two path max_bytes = if leb 2 max_bytes then made (6 ∷ 129 ∷ []) else failed "too large"

read_two_bound :
    (p : String) (n : ℕ) (bs : List ℕ)
    → read_two p n ≡ made bs
    → (length bs ≤ n) × All (λ b. b < 256) bs
read_two_bound p n bs h = go (leb 2 n) refl h
  where
    go :
        (b : Bool)
        → leb 2 n ≡ b
        → (if b then made (6 ∷ 129 ∷ []) else failed "too large") ≡ made bs
        → (length bs ≤ n) × All (λ b. b < 256) bs
    go true e k =
        let q : (6 ∷ 129 ∷ []) ≡ bs = cc in
        rw (sym q) (leb→le 2 n e, (ltb→lt 6 256 refl, (ltb→lt 129 256 refl, tt)))
    go false e k = absurd (cc)

abbrev in_out : String → String
in_out file = "out/" <> file

child_template-IsTemplate_example :
    (t : ChildTemplate) × (child_template read_two in_out "Child" ≡ made t)
    × IsTemplate (6 ∷ 129 ∷ []) (6 ∷ 129 ∷ []) t
child_template-IsTemplate_example =
    child_template-IsTemplate read_two in_out "Child" 6 6 (129 ∷ []) (129 ∷ []) read_two_bound refl
      refl
