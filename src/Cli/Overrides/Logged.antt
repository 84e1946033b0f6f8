-- ===== src/Cli/Overrides/Logged.antt =====
-- What applyInlineOverrides (src/cli/AwstPostPasses.cpp) logs about names that it does not find.
use text.Mathlib.TextLemmas.{append_cancel_left, append_cancel_right}
use puya_sol.Prelude.{
  ◌≡◌, refl, sym, ap, ap₂, ◌∙◌, Bool, true, false, ◌&&◌, ◌||◌, not, List, [], ◌∷◌, ◌++◌, String,
  ◌<>◌, ◌==◌, string_eq, ==_iff, inl, inr, Bool-cases, arith,
}
use puya_sol.Awst.Program.{RootNode}
use puya_sol.Awst.Roots.{member}
use puya_sol.Cli.Overrides.{LogLine, warning, info, not_found, count_line, apply_overrides}
use puya_sol.Cli.Overrides.Reported.{any_named, reported, member-reported}

-- Whether a log warns with a text.
abbrev pub warns : String → List LogLine → Bool
warns text [] = false
warns text (warning t ∷ rest) = text == t || warns text rest
warns text (info t ∷ rest) = warns text rest

-- The warning about a name under an option.
abbrev pub complaint : String → String → String
complaint option name =
    option <> (": '" <> (name <> "' not found as Subroutine or ContractMethod in any root"))

complaint_injective : (option j k : String) → complaint option j ≡ complaint option k → j ≡ k
complaint_injective option j k h =
    append_cancel_right j k _ (append_cancel_left ": '" _ _ (append_cancel_left option _ _ h))

complaint_same : (option k j : String) → (complaint option k == complaint option j) ≡ (k == j)
complaint_same option k j = elim (Bool-cases (k == j)) [
  | inl p ↦
      (==_iff (complaint option k) (complaint option j)).1
        (ap (complaint option) ((==_iff k j).0 p))
      ∙ sym p
  | inr p ↦ elim (Bool-cases (complaint option k == complaint option j)) [
    | inl q ↦
        let e : (k == j) ≡ true = (==_iff k j).1 (
          complaint_injective option k j
            ((==_iff (complaint option k) (complaint option j)).0 q)) in
        absurd (cc)
    | inr q ↦ q ∙ sym p
  ]
]

warns-append :
    (text : String) (xs ys : List LogLine)
    → warns text (xs ++ ys) ≡ (warns text xs || warns text ys)
warns-append text [] ys = refl
warns-append text (warning t ∷ xs) ys =
    ap (λ b. text == t || b) (warns-append text xs ys)
    ∙ regroup (text == t) (warns text xs) (warns text ys)
  where
    regroup : (a b c : Bool) → (a || (b || c)) ≡ ((a || b) || c)
    regroup a b c = ground arith
warns-append text (info t ∷ xs) ys = warns-append text xs ys

warns-not_found :
    (option k : String) (names : List String)
    → warns (complaint option k) (not_found option names) ≡ member k names
warns-not_found option k [] = refl
warns-not_found option k (j ∷ rest) =
    ap₂ (λ a b. a || b) (complaint_same option k j) (warns-not_found option k rest)

warns-count_line :
    (option action text : String) (hit : List String)
    → warns text (count_line option action hit) ≡ false
unfolding count_line
warns-count_line option action text [] = refl
warns-count_line option action text (k ∷ hit) = refl

-- After the overrides of an option the log holds the warning about a name under that option
-- exactly when it held it before, or when the name is in the list of the option and no subroutine
-- and no method of a contract among the roots has it.
pub apply_overrides-warns :
    (names : List String) (inline : Bool) (option action : String) (roots : List RootNode)
    (log : List LogLine) (k : String)
    → warns (complaint option k) (apply_overrides names inline option action roots log).1
      ≡ (warns (complaint option k) log || (member k names && not (any_named k roots)))
unfolding apply_overrides
apply_overrides-warns [] inline option action roots log k = unit (warns (complaint option k) log)
  where
    unit : (a : Bool) → a ≡ (a || false)
    unit a = ground arith
apply_overrides-warns (j ∷ names) inline option action roots log k =
    let text = complaint option k in
    let lost = not_found option (reported (j ∷ names) inline roots) in
    warns-append text log _
    ∙ ap (λ b. warns text log || b)
        (warns-append text lost _
          ∙ (ap₂ (λ a b. a || b)
                (warns-not_found option k (reported (j ∷ names) inline roots)
                  ∙ member-reported (j ∷ names) inline roots k)
                (warns-count_line option action text _)
              ∙ unit (member k (j ∷ names) && not (any_named k roots))))
  where
    unit : (a : Bool) → (a || false) ≡ a
    unit a = ground arith
