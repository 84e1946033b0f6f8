-- ===== src/Cli/Targets/Stale.antt =====
-- prepareBackendTargetArtifacts (src/cli/AwstPostPasses.cpp): the files of a former run that are removed. The
-- names in the output directory (`none` when they cannot be listed) and the answer of removeFileIfPresent to
-- each of them are parameters.
use puya_sol.Prelude.{
  Bool, false, ◌||◌, Option, none, some, List, [], ◌∷◌, String, string_eq, if◌then◌else◌,
}
use puya_sol.Awst.Program.{RootNode}
use puya_sol.Cli.Targets.{belongs_to_target, Stems, error, stems, collect_stems}

unfoldable pub belongs_to_any : String → List (String × String) → Bool
unfolding belongs_to_target
belongs_to_any file [] = false
belongs_to_any file ((stem, _) ∷ rest) = belongs_to_target file stem || belongs_to_any file rest

-- The loop over the directory.
unfoldable pub stale_paths : List (String × String) → List String → List String
unfolding belongs_to_any
stale_paths targets [] = []
stale_paths targets (file ∷ rest) =
    if belongs_to_any file targets
    then file ∷ stale_paths targets rest
    else stale_paths targets rest

-- What was removed, and the error that stopped it.
pub record Removal : Type 0 where
  pub removed : List String
  pub problem : Option String

-- One removal, in front of those that follow it unless it fails.
abbrev pub removal_step : String → Option String → Removal → Removal
removal_step file (some message) after = record { removed = []; problem = some message }
removal_step file none after = record { removed = file ∷ after.removed; problem = after.problem }

module _ (remove : String → Option String) where
  -- The loop over the stale paths.
  unfoldable pub remove_stale : List String → Removal
  remove_stale [] = record { removed = []; problem = none }
  remove_stale (file ∷ rest) = removal_step file (remove file) (remove_stale rest)

  -- What follows from the stems and the listing.
  unfoldable pub removal_of : Stems → Option (List String) → String → Removal
  unfolding stale_paths remove_stale
  removal_of (error message) listing unlisted = record { removed = []; problem = some message }
  removal_of (stems targets) none unlisted = record { removed = []; problem = some unlisted }
  removal_of (stems targets) (some files) unlisted = remove_stale (stale_paths targets files)

  -- `unlisted` is the message about a directory that cannot be listed.
  unfoldable pub prepare_backend_target_artifacts :
      List RootNode → Option (List String) → String → Removal
  unfolding collect_stems removal_of
  prepare_backend_target_artifacts roots listing unlisted =
      removal_of (collect_stems roots []) listing unlisted
