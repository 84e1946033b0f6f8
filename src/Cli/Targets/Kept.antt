-- ===== src/Cli/Targets/Kept.antt =====
-- What prepareBackendTargetArtifacts (src/cli/AwstPostPasses.cpp) leaves in the output directory.
use puya_sol.Prelude.{
  ◌≡◌, refl, ap, ◌∙◌, Bool, true, false, ◌||◌, not, Option, none, some, List, [], ◌∷◌, String, ◌==◌,
  string_eq, ==_iff, inl, inr, Bool-cases, Option-cases, arith,
}
use puya_sol.Awst.Program.{RootNode, subroutine, contract, logic_signature}
use puya_sol.Awst.Roots.{member}
use puya_sol.Cli.Targets.{
  belongs_to_target, valid_artifact_stem, Stems, error, stems, collect_stems, add_target, stem_id,
  backend_target,
}
use puya_sol.Cli.Targets.Accepted.{target_stems}
use puya_sol.Cli.Targets.Names.{belongs_to_target-other}
use puya_sol.Cli.Targets.Stale.{
  belongs_to_any, stale_paths, Removal, remove_stale, removal_of, removal_step,
  prepare_backend_target_artifacts,
}

or-false : (a b : Bool) → (a || b) ≡ false → (a ≡ false) × (b ≡ false)
or-false a b h = ground arith

module _ (file stem : String) (valid : valid_artifact_stem stem ≡ true)
    (own : belongs_to_target file stem ≡ true) where
  -- No stem that was collected claims the file.
  unclaimed : Stems → Bool
  unfolding belongs_to_any
  unclaimed (error _) = true
  unclaimed (stems targets) = not (belongs_to_any file targets)

  step_unclaimed :
      (name id : String) (sig : Bool) (rest : List RootNode) (seen : List (String × String))
      → (stem == name) ≡ false
      → belongs_to_any file seen ≡ false
      → (belongs_to_any file ((name, id) ∷ seen) ≡ false
          → unclaimed (collect_stems rest ((name, id) ∷ seen)) ≡ true)
      → unclaimed (elim (add_target (record { stem = name; id = id; logic_sig = sig }) seen) [
        | error message ↦ error message
        | stems more ↦ collect_stems rest more
      ])
        ≡ true
  unfolding add_target unclaimed belongs_to_any
  step_unclaimed name id sig rest seen h s ih = elim (Bool-cases (valid_artifact_stem name)) [
    | inr v ↦ rw v refl
    | inl v ↦ elim (Option-cases (stem_id name seen)) [
      | inl e ↦
          let b : belongs_to_target file name ≡ false =
            belongs_to_target-other file stem name valid v h own in
          rw (v, e) (ih (rw b s))
      | inr (first, e) ↦ rw (v, e) refl
    ]
  ]

  collect_stems-unclaimed :
      (roots : List RootNode) (seen : List (String × String))
      → member stem (target_stems roots) ≡ false
      → belongs_to_any file seen ≡ false
      → unclaimed (collect_stems roots seen) ≡ true
  unfolding collect_stems backend_target unclaimed belongs_to_any
  collect_stems-unclaimed [] seen h s = ap not s
  collect_stems-unclaimed (subroutine _ ∷ rest) seen h s = collect_stems-unclaimed rest seen h s
  collect_stems-unclaimed (contract id name _ _ _ _ ∷ rest) seen h s =
      let (p, q) = or-false (stem == name) (member stem (target_stems rest)) h in
      step_unclaimed name id false rest seen p s
        (collect_stems-unclaimed rest ((name, id) ∷ seen) q)
  collect_stems-unclaimed (logic_signature id name _ _ ∷ rest) seen h s =
      let (p, q) = or-false (stem == name) (member stem (target_stems rest)) h in
      step_unclaimed name id true rest seen p s (collect_stems-unclaimed rest ((name, id) ∷ seen) q)

  not_stale :
      (targets : List (String × String)) (files : List String)
      → belongs_to_any file targets ≡ false
      → member file (stale_paths targets files) ≡ false
  unfolding stale_paths
  not_stale targets [] h = refl
  not_stale targets (f ∷ rest) h = elim (Bool-cases (belongs_to_any f targets)) [
    | inr p ↦ rw p (not_stale targets rest h)
    | inl p ↦ elim (Bool-cases (file == f)) [
      | inl q ↦
          let e : belongs_to_any file targets ≡ true =
            ap (λ x. belongs_to_any x targets) ((==_iff file f).0 q) ∙ p in
          absurd (cc)
      | inr q ↦ rw (p, q) (not_stale targets rest h)
    ]
  ]

  removal_step-kept :
      (f : String) (answer : Option String) (after : Removal)
      → (file == f) ≡ false
      → member file after.removed ≡ false
      → member file (removal_step f answer after).removed ≡ false
  removal_step-kept f (some message) after p h = refl
  removal_step-kept f none after p h = rw p h

  remove_stale-kept :
      (remove : String → Option String) (paths : List String)
      → member file paths ≡ false
      → member file (remove_stale remove paths).removed ≡ false
  unfolding remove_stale
  remove_stale-kept remove [] h = refl
  remove_stale-kept remove (f ∷ rest) h =
      let (p, q) = or-false (file == f) (member file rest) h in
      removal_step-kept f (remove f) (remove_stale remove rest) p (remove_stale-kept remove rest q)

  answer_kept :
      (remove : String → Option String) (answer : Stems) (listing : Option (List String))
      (unlisted : String)
      → unclaimed answer ≡ true
      → member file (removal_of remove answer listing unlisted).removed ≡ false
  unfolding unclaimed removal_of
  answer_kept remove (error message) listing unlisted h = refl
  answer_kept remove (stems targets) none unlisted h = refl
  answer_kept remove (stems targets) (some files) unlisted h =
      remove_stale-kept remove (stale_paths targets files)
        (not_stale targets files (negated (belongs_to_any file targets) h))
    where
      negated : (b : Bool) → not b ≡ true → b ≡ false
      negated b h = ground arith

  -- Preparing the output directory never removes a file that belongs to a valid stem other than
  -- those of the targets at hand, whatever stands in the directory and whichever files can be
  -- removed.
  pub prepare_backend_target_artifacts-kept :
      (remove : String → Option String) (roots : List RootNode) (listing : Option (List String))
      (unlisted : String)
      → member stem (target_stems roots) ≡ false
      → member file (prepare_backend_target_artifacts remove roots listing unlisted).removed ≡ false
  unfolding prepare_backend_target_artifacts belongs_to_any
  prepare_backend_target_artifacts-kept remove roots listing unlisted h =
      answer_kept remove (collect_stems roots []) listing unlisted
        (collect_stems-unclaimed roots [] h refl)
