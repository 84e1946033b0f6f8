-- ===== src/Cli/Targets/Accepted.antt =====
-- Which names of targets collectStems accepts: the first loop of prepareBackendTargetArtifacts
-- (src/cli/AwstPostPasses.cpp).
use puya_sol.Prelude.{
  ℕ, ◌≡◌, refl, sym, ap, ap₂, ◌∙◌, Bool, true, false, ◌&&◌, ◌||◌, not, Option, none, some, List, [],
  ◌∷◌, String, ◌==◌, string_eq, ==_iff, inl, inr, Bool-cases, Option-cases, arith, eqb, leb, codes,
}
use puya_sol.Awst.Program.{RootNode, subroutine, contract, logic_signature}
use puya_sol.Awst.Roots.{member}
use puya_sol.Cli.Targets.{
  backend_target, is_alpha, is_word_char, all_word_chars, valid_stem_codes, valid_artifact_stem,
  stem_id, Stems, error, stems, add_target, collect_stems,
}

-- The stems of the targets among the roots, in order.
abbrev pub target_stems : List RootNode → List String
target_stems [] = []
target_stems (contract _ name _ _ _ _ ∷ rest) = name ∷ target_stems rest
target_stems (logic_signature _ short_name _ _ ∷ rest) = short_name ∷ target_stems rest
target_stems (subroutine _ ∷ rest) = target_stems rest

abbrev pub between : ℕ → ℕ → ℕ → Bool
between low high c = leb low c && leb c high

abbrev pub letter : ℕ → Bool
letter c = between b'a' b'z' c || between b'A' b'Z' c

abbrev pub letter_or_underscore : ℕ → Bool
letter_or_underscore c = letter c || eqb c b'_'

abbrev pub letters_digits_underscores : List ℕ → Bool
letters_digits_underscores [] = true
letters_digits_underscores (c ∷ cs) =
    (letter_or_underscore c || between b'0' b'9' c) && letters_digits_underscores cs

-- The texts that can be names in C.
abbrev pub identifier : List ℕ → Bool
identifier [] = false
identifier (c ∷ cs) = letter_or_underscore c && letters_digits_underscores cs

abbrev pub all_valid : List String → Bool
all_valid [] = true
all_valid (s ∷ rest) = identifier (codes s) && all_valid rest

all_word_chars-letters : (cs : List ℕ) → all_word_chars cs ≡ letters_digits_underscores cs
unfolding all_word_chars is_word_char is_alpha
all_word_chars-letters [] = refl
all_word_chars-letters (c ∷ cs) = ap₂ (λ a b. a && b) (one c) (all_word_chars-letters cs)
  where
    one : (c : ℕ) → is_word_char c ≡ (letter_or_underscore c || between b'0' b'9' c)
    one c = ground arith

valid_artifact_stem-identifier : (s : String) → valid_artifact_stem s ≡ identifier (codes s)
unfolding valid_artifact_stem valid_stem_codes is_alpha
valid_artifact_stem-identifier s = of_codes (codes s)
  where
    first : (c : ℕ) → (is_alpha c || eqb c 95) ≡ letter_or_underscore c
    first c = ground arith

    of_codes : (cs : List ℕ) → valid_stem_codes cs ≡ identifier cs
    of_codes [] = refl
    of_codes (c ∷ cs) = ap₂ (λ a b. a && b) (first c) (all_word_chars-letters cs)

abbrev pub distinct_stems : List String → Bool
distinct_stems [] = true
distinct_stems (s ∷ rest) = not (member s rest) && distinct_stems rest

abbrev pub accepted : Stems → Bool
accepted (error _) = false
accepted (stems _) = true

abbrev known : String → List (String × String) → Bool
known k [] = false
known k ((s, _) ∷ rest) = s == k || known k rest

abbrev none_known : List String → List (String × String) → Bool
none_known [] seen = true
none_known (k ∷ rest) seen = not (known k seen) && none_known rest seen

abbrev has_id : Option String → Bool
has_id none = false
has_id (some _) = true

stem_id-known :
    (k : String) (seen : List (String × String)) → known k seen ≡ has_id (stem_id k seen)
unfolding stem_id
stem_id-known k [] = refl
stem_id-known k ((s, id) ∷ rest) = elim (Bool-cases (s == k)) [
  | inl p ↦ rw p refl
  | inr p ↦ rw p (stem_id-known k rest)
]

equal_sym : (a b : String) → (a == b) ≡ (b == a)
equal_sym a b = elim (Bool-cases (a == b)) [
  | inl p ↦ p ∙ sym ((==_iff b a).1 (sym ((==_iff a b).0 p)))
  | inr p ↦ elim (Bool-cases (b == a)) [
    | inl q ↦ let e : (a == b) ≡ true = (==_iff a b).1 (sym ((==_iff b a).0 q)) in absurd (cc)
    | inr q ↦ p ∙ sym q
  ]
]

none_known-cons :
    (names : List String) (k id : String) (seen : List (String × String))
    → none_known names ((k, id) ∷ seen) ≡ (not (member k names) && none_known names seen)
none_known-cons [] k id seen = refl
none_known-cons (n ∷ rest) k id seen =
    ap (λ b. not (k == n || known n seen) && b) (none_known-cons rest k id seen)
    ∙ spread (k == n) (known n seen) (member k rest) (none_known rest seen)
  where
    spread : (e w m r : Bool) → (not (e || w) && (not m && r)) ≡ (not (e || m) && (not w && r))
    spread e w m r = ground arith

step_ok :
    (name id : String) (sig : Bool) (rest : List RootNode) (seen : List (String × String))
    → accepted (collect_stems rest ((name, id) ∷ seen)) ≡ (
        all_valid (target_stems rest)
        && (distinct_stems (target_stems rest)
            && none_known (target_stems rest) ((name, id) ∷ seen)))
    → accepted (elim (add_target (record { stem = name; id = id; logic_sig = sig }) seen) [
      | error message ↦ error message
      | stems more ↦ collect_stems rest more
    ])
      ≡ ((identifier (codes name) && all_valid (target_stems rest))
          && ((not (member name (target_stems rest)) && distinct_stems (target_stems rest))
              && (not (known name seen) && none_known (target_stems rest) seen)))
unfolding add_target
step_ok name id sig rest seen ih = elim (Bool-cases (valid_artifact_stem name)) [
  | inr v ↦ rw (v, sym (valid_artifact_stem-identifier name) ∙ v) refl
  | inl v ↦ elim (Option-cases (stem_id name seen)) [
    | inl e ↦
        let k : known name seen ≡ false = stem_id-known name seen ∙ ap has_id e in
        rw (v, sym (valid_artifact_stem-identifier name) ∙ v, e, k)
          (ih
            ∙ (ap (λ b. all_valid (target_stems rest) && (distinct_stems (target_stems rest) && b))
                  (none_known-cons (target_stems rest) name id seen)
                ∙ fresh_step (all_valid (target_stems rest)) (distinct_stems (target_stems rest))
                    (member name (target_stems rest)) (none_known (target_stems rest) seen)))
    | inr (first, e) ↦
        let k : known name seen ≡ true = stem_id-known name seen ∙ ap has_id e in
        rw (v, sym (valid_artifact_stem-identifier name) ∙ v, e, k)
          (taken_step (all_valid (target_stems rest))
            (not (member name (target_stems rest)) && distinct_stems (target_stems rest)))
  ]
]
  where
    fresh_step :
        (a d m n : Bool) → (a && (d && (not m && n))) ≡ (a && ((not m && d) && (true && n)))
    fresh_step a d m n = ground arith

    taken_step : (a b : Bool) → false ≡ (a && (b && false))
    taken_step a b = ground arith

collect_stems-accepted :
    (roots : List RootNode) (seen : List (String × String))
    → accepted (collect_stems roots seen) ≡ (
        all_valid (target_stems roots)
        && (distinct_stems (target_stems roots) && none_known (target_stems roots) seen))
unfolding collect_stems backend_target
collect_stems-accepted [] seen = refl
collect_stems-accepted (subroutine _ ∷ rest) seen = collect_stems-accepted rest seen
collect_stems-accepted (contract id name _ _ _ _ ∷ rest) seen =
    step_ok name id false rest seen (collect_stems-accepted rest ((name, id) ∷ seen))
collect_stems-accepted (logic_signature id short_name _ _ ∷ rest) seen =
    step_ok short_name id true rest seen (collect_stems-accepted rest ((short_name, id) ∷ seen))

-- The names of the targets are accepted exactly when each is a letter or an underscore followed by
-- letters, digits and underscores, and no two are the same.
pub collect_stems-accepted_iff :
    (roots : List RootNode)
    → accepted (collect_stems roots [])
      ≡ (all_valid (target_stems roots) && distinct_stems (target_stems roots))
collect_stems-accepted_iff roots =
    collect_stems-accepted roots []
    ∙ ap (λ b. all_valid (target_stems roots) && b)
        (empty (distinct_stems (target_stems roots)) (target_stems roots))
  where
    none_in : (names : List String) → none_known names [] ≡ true
    none_in [] = refl
    none_in (n ∷ rest) = none_in rest

    empty : (d : Bool) (names : List String) → (d && none_known names []) ≡ d
    empty d names = rw (none_in names) (unit d)
      where
        unit : (d : Bool) → (d && true) ≡ d
        unit d = ground arith
