-- ===== src/Cli/Templates.antt =====
-- writeChildDeployTemplates (src/cli/AwstPostPasses.cpp): the programs of child contracts as hexadecimal pages. A
-- byte is a number below 256, and a text its character codes. readBinary (src/ArtifactIO.cpp), which reads a
-- file of a bounded size, and the path of a name in the output directory are parameters.
pub mod Pages
use puya_sol.Prelude.{
  ℕ, ◌+◌, ◌*◌, ◌/◌, ◌%◌, Bool, true, false, ◌||◌, Option, none, some, List, [], ◌∷◌, ◌++◌, String,
  ◌<>◌, if◌then◌else◌, ltb, length, take, drop, codes,
}
use puya_sol.Json.Base85.{char_at}

abbrev pub program_page_bytes : ℕ
program_page_bytes = 4096

abbrev pub approval_bytes : ℕ
approval_bytes = program_page_bytes * 2

abbrev pub hex_characters : List ℕ
hex_characters = codes "0123456789abcdef"

unfoldable pub to_hex : List ℕ → List ℕ
to_hex [] = []
to_hex (b ∷ bs) = char_at hex_characters (b / 16) ∷ char_at hex_characters (b % 16) ∷ to_hex bs

-- An error, or what was made.
pub data Outcome (A : Type 0) : Type 0 where
  failed : String → Outcome A
  made : A → Outcome A

-- The members of the template for one child.
pub record ChildTemplate : Type 0 where
  pub page0 : List ℕ
  pub page1 : List ℕ
  pub clear : List ℕ

abbrev pub nonempty : String → Outcome (List ℕ) → Outcome (List ℕ)
nonempty path (failed message) = failed message
nonempty path (made []) = failed ("child program is empty: " <> path)
nonempty path (made (b ∷ bs)) = made (b ∷ bs)

abbrev pub read_child_program : (String → ℕ → Outcome (List ℕ)) → String → ℕ → Outcome (List ℕ)
read_child_program read path max_bytes = nonempty path (read path max_bytes)

-- `page0` and `page1` with the test on their sizes.
unfoldable pub split_pages : String → List ℕ → List ℕ → Outcome ChildTemplate
split_pages child approval clear =
    let page_hex = program_page_bytes * 2 in
    let page0 = take page_hex approval in
    let page1 = if ltb page_hex (length approval) then drop page_hex approval else [] in
    if ltb page_hex (length page0) || ltb page_hex (length page1)
    then failed ("child approval program page exceeds 4096 bytes: " <> child)
    else made (record { page0 = page0; page1 = page1; clear = clear })

unfoldable pub with_programs : String → Outcome (List ℕ) → Outcome (List ℕ) → Outcome ChildTemplate
unfolding to_hex split_pages
with_programs child (failed message) clear = failed message
with_programs child (made approval) (failed message) = failed message
with_programs child (made approval) (made clear) =
    split_pages child (to_hex approval) (to_hex clear)

-- The body of the loop over the children, up to the records of their digests.
unfoldable pub child_template :
    (String → ℕ → Outcome (List ℕ)) → (String → String) → String → Outcome ChildTemplate
unfolding with_programs
child_template read path child =
    with_programs child (read_child_program read (path (child <> ".approval.bin")) approval_bytes)
      (read_child_program read (path (child <> ".clear.bin")) program_page_bytes)
