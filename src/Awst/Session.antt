-- ===== src/Awst/Session.antt =====
-- What the factories of src/awst change outside the tree: the counter of nextSingleEvalId
-- (src/awst/Node.h), the counters of NameGen (src/awst/NameGen.h) and the errors that are logged.
pub mod Names
use puya_sol.Prelude.{
  ℕ, ◌+◌, ◌^◌, String, List, [], ◌∷◌, ◌++◌, ◌==◌, string_eq, if◌then◌else◌, pos, ℤ,
}

pub record Session : Type 0 where
  pub single_eval_id : ℕ
  pub counters : List (String × ℕ)
  pub errors : List String

abbrev pub fresh_session : Session
fresh_session = record { single_eval_id = 2 ^ 20; counters = []; errors = [] }

-- A factory that changes the session.
abbrev pub Build {ℓ} : Type ℓ → Type ℓ
Build A = Session → A × Session

infixl 5 ◌>>=◌
abbrev pub ◌>>=◌ {ℓ κ} : {A : Type ℓ} {B : Type κ} → Build A → (A → Build B) → Build B
◌>>=◌ m f s = let (a, s') = m s in f a s'

infixl 5 ◌>>◌
abbrev pub ◌>>◌ {κ} : {B : Type κ} → Build (Unit {0}) → Build B → Build B
◌>>◌ m k s = k (m s).1

abbrev pub pure {ℓ} : {A : Type ℓ} → A → Build A
pure a s = (a, s)

-- `++s_nextSingleEvalId`.
unfoldable pub next_single_eval_id : Build ℤ
next_single_eval_id s =
    (pos (s.single_eval_id + 1), record s { single_eval_id = s.single_eval_id + 1 })

unfoldable pub counter_value : String → List (String × ℕ) → ℕ
counter_value prefix [] = 0
counter_value prefix ((p, n) ∷ rest) = if p == prefix then n else counter_value prefix rest

unfoldable pub bump_counter : String → List (String × ℕ) → List (String × ℕ)
bump_counter prefix [] = (prefix, 1) ∷ []
bump_counter prefix ((p, n) ∷ rest) =
    if p == prefix then (p, n + 1) ∷ rest else (p, n) ∷ bump_counter prefix rest

-- NameGen::next: the current value, then an increment; an unknown prefix starts at 0.
unfoldable pub next_name : String → Build ℕ
unfolding counter_value bump_counter
next_name prefix s =
    (counter_value prefix s.counters, record s { counters = bump_counter prefix s.counters })

-- NameGen::resetAll.
unfoldable pub reset_all : Build (Unit {0})
reset_all s = (tt, record s { counters = [] })

unfoldable pub log_error : String → Build (Unit {0})
log_error message s = (tt, record s { errors = s.errors ++ (message ∷ []) })
