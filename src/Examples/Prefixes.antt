-- ===== src/Examples/Prefixes.antt =====
-- Three prefixes asked for in turn, by a session that has handed out numbers before.
use puya_sol.Prelude.{◌≡◌, refl, [], ◌∷◌, List, String}
use puya_sol.Awst.Session.{Session, fresh_session, reset_all}
use puya_sol.Awst.Session.Names.{numbers, positions, occurrences, numbers-reset_all}

abbrev prefixes : List String
prefixes = "tmp" ∷ "idx" ∷ "tmp" ∷ "tmp" ∷ []

abbrev used_session : Session
used_session = record fresh_session { counters = ("tmp", 7) ∷ [] }

numbers-reset_all_example : (numbers prefixes (reset_all used_session).1).0 ≡ positions [] prefixes
numbers-reset_all_example = numbers-reset_all prefixes used_session

counted : positions [] prefixes ≡ 0 ∷ 0 ∷ 1 ∷ 2 ∷ []
unfolding positions occurrences
counted = refl
