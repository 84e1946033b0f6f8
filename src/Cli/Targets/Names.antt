-- ===== src/Cli/Targets/Names.antt =====
-- The names of the backend's targets (src/cli/AwstPostPasses.cpp): a file belongs to one target at most.
use puya_sol.Prelude.{
  ℕ, ◌≡◌, refl, sym, ap, ap₂, ◌∙◌, true, false, List, [], ◌∷◌, ◌++◌, String, ◌<>◌, ◌==◌, string_eq,
  ==_iff, if◌then◌else◌, inl, inr, Bool-cases, arith, eqb, eqb_iff, and-true, codes,
}
use Prim.Native.Char.{code}
use text.Mathlib.TextEquality.{Char-path}
use puya_sol.Avm.Decimal.{codes-append}
use puya_sol.Cli.Targets.{
  is_alpha, is_word_char, all_word_chars, valid_stem_codes, valid_artifact_stem, starts_with,
  target_suffix, belongs_to_target,
}

tail_of : {A : Type 0} (x y : A) (xs ys : List A) → (x ∷ xs) ≡ (y ∷ ys) → (x ≡ y) × (xs ≡ ys)
tail_of x y xs ys h = ((cc), (cc))

codes_injective : (s t : String) → codes s ≡ codes t → s ≡ t
codes_injective String.[] String.[] h = refl
codes_injective String.[] (String.◌∷◌ d t) h = absurd (cc)
codes_injective (String.◌∷◌ c s) String.[] h = absurd (cc)
codes_injective (String.◌∷◌ c s) (String.◌∷◌ d t) h =
    let (p, q) = tail_of (code c) (code d) (codes s) (codes t) h in
    ap₂ (λ x y. String.◌∷◌ x y) (Char-path c d p) (codes_injective s t q)

no_dot : (c : ℕ) → is_word_char c ≡ true → eqb c 46 ≡ false
unfolding is_word_char is_alpha
no_dot c h = ground arith

first_char : (c : ℕ) (cs : List ℕ) → all_word_chars (c ∷ cs) ≡ true → is_word_char c ≡ true
unfolding all_word_chars
first_char c cs h = (and-true (is_word_char c) (all_word_chars cs) h).0

later_chars : (c : ℕ) (cs : List ℕ) → all_word_chars (c ∷ cs) ≡ true → all_word_chars cs ≡ true
unfolding all_word_chars
later_chars c cs h = (and-true (is_word_char c) (all_word_chars cs) h).1

apart : (x t : ℕ) → eqb x 46 ≡ false → eqb x t ≡ true → eqb 46 t ≡ true → ⊥
apart x t a b c = ground arith

-- What stands in front of the first dot.
stem_unique :
    (xs ys file : List ℕ)
    → all_word_chars xs ≡ true
    → all_word_chars ys ≡ true
    → starts_with (xs ++ (46 ∷ [])) file ≡ true
    → starts_with (ys ++ (46 ∷ [])) file ≡ true
    → xs ≡ ys
unfolding starts_with
stem_unique [] [] file hx hy p q = refl
stem_unique [] (y ∷ ys) [] hx hy p q = absurd (cc)
stem_unique [] (y ∷ ys) (t ∷ ts) hx hy p q =
    let a = no_dot y (first_char y ys hy) in
    let (b, _) = and-true (eqb y t) _ q in
    let (c, _) = and-true (eqb 46 t) _ p in absurd (apart y t a b c)
stem_unique (x ∷ xs) [] [] hx hy p q = absurd (cc)
stem_unique (x ∷ xs) [] (t ∷ ts) hx hy p q =
    let a = no_dot x (first_char x xs hx) in
    let (b, _) = and-true (eqb x t) _ p in
    let (c, _) = and-true (eqb 46 t) _ q in absurd (apart x t a b c)
stem_unique (x ∷ xs) (y ∷ ys) [] hx hy p q = absurd (cc)
stem_unique (x ∷ xs) (y ∷ ys) (t ∷ ts) hx hy p q =
    let (a, b) = and-true (eqb x t) _ p in
    let (c, d) = and-true (eqb y t) _ q in
    ap₂ (λ z zs. z ∷ zs) ((eqb_iff x t).0 a ∙ sym ((eqb_iff y t).0 c))
      (stem_unique xs ys ts (later_chars x xs hx) (later_chars y ys hy) b d)

valid_stem_codes-words : (cs : List ℕ) → valid_stem_codes cs ≡ true → all_word_chars cs ≡ true
unfolding valid_stem_codes all_word_chars is_word_char is_alpha
valid_stem_codes-words [] h = refl
valid_stem_codes-words (c ∷ cs) h = ground arith

prefix_of :
    (file stem : String)
    → belongs_to_target file stem ≡ true
    → starts_with (codes stem ++ (46 ∷ [])) (codes file) ≡ true
unfolding belongs_to_target
prefix_of file stem h = elim (Bool-cases (starts_with (codes (stem <> ".")) (codes file))) [
  | inl p ↦ ap (λ cs. starts_with cs (codes file)) (sym (codes-append stem ".")) ∙ p
  | inr p ↦
      let e : false ≡ true =
        ap (λ b. if b then target_suffix (codes file) else false) (sym p) ∙ h in
      absurd (cc)
]

belongs_to_target_unique :
    (file a b : String)
    → valid_artifact_stem a ≡ true
    → valid_artifact_stem b ≡ true
    → belongs_to_target file a ≡ true
    → belongs_to_target file b ≡ true
    → a ≡ b
unfolding valid_artifact_stem
belongs_to_target_unique file a b va vb ha hb = codes_injective a b (
    stem_unique (codes a) (codes b) (codes file) (valid_stem_codes-words (codes a) va)
      (valid_stem_codes-words (codes b) vb) (prefix_of file a ha) (prefix_of file b hb))

-- A file that belongs to a valid stem belongs to no other valid stem.
pub belongs_to_target-other :
    (file a b : String)
    → valid_artifact_stem a ≡ true
    → valid_artifact_stem b ≡ true
    → (a == b) ≡ false
    → belongs_to_target file a ≡ true
    → belongs_to_target file b ≡ false
belongs_to_target-other file a b va vb differ ha = elim (Bool-cases (belongs_to_target file b)) [
  | inl hb ↦
      let e : (a == b) ≡ true = (==_iff a b).1 (belongs_to_target_unique file a b va vb ha hb) in
      absurd (cc)
  | inr hb ↦ hb
]
