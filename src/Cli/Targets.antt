-- ===== src/Cli/Targets.antt =====
-- The targets of the backend and the files that belong to them (src/cli/AwstPostPasses.cpp). A name is held
-- against a pattern by its character codes; `std::isalpha` is that of the C locale. What the file system
-- answers is a parameter: the names in the output directory, and whether a file can be removed.
pub mod Names
pub mod Accepted
pub mod Stale
pub mod Kept
use puya_sol.Prelude.{
  ℕ, Bool, true, false, ◌&&◌, ◌||◌, not, Option, none, some, List, [], ◌∷◌, ◌++◌, String, ◌<>◌,
  ◌==◌, string_eq, list_eq, nat_eq, if◌then◌else◌, leb, eqb, codes, length,
}
use puya_sol.Awst.Program.{RootNode, subroutine, contract, logic_signature}

pub record BackendTarget : Type 0 where
  pub stem : String
  pub id : String
  pub logic_sig : Bool

unfoldable pub backend_target : RootNode → Option BackendTarget
backend_target (contract id name _ _ _ _) =
    some (record { stem = name; id = id; logic_sig = false })
backend_target (logic_signature id short_name _ _) =
    some (record { stem = short_name; id = id; logic_sig = true })
backend_target (subroutine _) = none

unfoldable pub is_alpha : ℕ → Bool
is_alpha c = (leb 65 c && leb c 90) || (leb 97 c && leb c 122)

unfoldable pub is_word_char : ℕ → Bool
unfolding is_alpha
is_word_char c = (is_alpha c || (leb 48 c && leb c 57)) || eqb c 95

unfoldable pub all_word_chars : List ℕ → Bool
unfolding is_word_char
all_word_chars [] = true
all_word_chars (c ∷ cs) = is_word_char c && all_word_chars cs

unfoldable pub valid_stem_codes : List ℕ → Bool
unfolding is_alpha all_word_chars
valid_stem_codes [] = false
valid_stem_codes (c ∷ cs) = (is_alpha c || eqb c 95) && all_word_chars cs

unfoldable pub valid_artifact_stem : String → Bool
unfolding valid_stem_codes
valid_artifact_stem stem = valid_stem_codes (codes stem)

-- `starts_with`.
unfoldable pub starts_with : List ℕ → List ℕ → Bool
starts_with [] text = true
starts_with (c ∷ cs) [] = false
starts_with (c ∷ cs) (d ∷ ds) = eqb c d && starts_with cs ds

-- `ends_with`.
unfoldable pub ends_with : List ℕ → List ℕ → Bool
ends_with [] suffix = suffix == []
ends_with (c ∷ cs) suffix = (c ∷ cs) == suffix || ends_with cs suffix

unfoldable pub target_suffix : List ℕ → Bool
unfolding ends_with
target_suffix file =
    ends_with file (codes ".bin")
    || (ends_with file (codes ".teal")
        || (ends_with file (codes ".arc32.json")
            || (ends_with file (codes ".arc56.json")
                || (ends_with file (codes ".stats.txt")
                    || (ends_with file (codes ".assembly-report")
                        || (ends_with file (codes ".puya.map")
                            || (ends_with file (codes ".ir") || ends_with file (codes ".mir"))))))))

unfoldable pub belongs_to_target : String → String → Bool
unfolding starts_with target_suffix
belongs_to_target file stem =
    if starts_with (codes (stem <> ".")) (codes file) then target_suffix (codes file) else false

unfoldable pub backend_role : String → String
unfolding ends_with
backend_role file =
    if ends_with (codes file) (codes ".bin")
    then "backend-bytecode"
    else if ends_with (codes file) (codes ".teal")
    then "backend-teal"
    else if ends_with (codes file) (codes ".arc56.json")
    then "backend-arc56"
    else if ends_with (codes file) (codes ".json")
    then "backend-json"
    else if ends_with (codes file) (codes ".ir") || ends_with (codes file) (codes ".mir")
    then "backend-ir"
    else "backend-output"

-- `stems.emplace`: the id that a stem has already, if any.
unfoldable pub stem_id : String → List (String × String) → Option String
stem_id k [] = none
stem_id k ((s, id) ∷ rest) = if s == k then some id else stem_id k rest

-- An error, or the stems with their ids.
pub data Stems : Type 0 where
  error : String → Stems
  stems : List (String × String) → Stems

abbrev pub collision : String → String → String → String
collision stem first second =
    "backend artifact name collision: "
    <> (stem <> (" (" <> (first <> (" and " <> (second <> ")")))))

-- What the loop body does with one target.
unfoldable pub add_target : BackendTarget → List (String × String) → Stems
unfolding valid_artifact_stem stem_id
add_target target seen =
    if valid_artifact_stem target.stem
    then elim (stem_id target.stem seen) [
      | none ↦ stems ((target.stem, target.id) ∷ seen)
      | some first ↦ error (collision target.stem first target.id)
    ]
    else error ("invalid backend artifact target name: " <> target.stem)

unfoldable pub collect_stems : List RootNode → List (String × String) → Stems
unfolding backend_target add_target
collect_stems [] seen = stems seen
collect_stems (root ∷ rest) seen = elim (backend_target root) [
  | none ↦ collect_stems rest seen
  | some target ↦ elim (add_target target seen) [
    | error message ↦ error message
    | stems more ↦ collect_stems rest more
  ]
]
