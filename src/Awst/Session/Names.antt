-- ===== src/Awst/Session/Names.antt =====
-- The numbers that NameGen (src/awst/NameGen.h) hands out.
use puya_sol.Prelude.{
  ℕ, ◌+◌, ◌≡◌, refl, ap, ap₂, ◌∙◌, inl, inr, Bool, true, false, List, [], ◌∷◌, String, ◌==◌, ==_iff,
  string_eq, if◌then◌else◌, Bool-cases, arith,
}
use puya_sol.Awst.Session.{
  Session, Build, pure, ◌>>=◌, next_name, reset_all, counter_value, bump_counter,
}

abbrev one_if : Bool → ℕ
one_if b = if b then 1 else 0

hit_counter : (b : Bool) (n v : ℕ) → (if b then n + 1 else v) ≡ one_if b + (if b then n else v)
hit_counter true n v = omega arith
hit_counter false n v = omega arith

missed_counter :
    (b c : Bool) (n v w : ℕ)
    → w ≡ one_if c + v
    → (b ≡ true → c ≡ false)
    → (if b then n else w) ≡ one_if c + (if b then n else v)
missed_counter true c n v w h k = rw (k refl) (omega arith)
missed_counter false c n v w h k = h

-- Three names of which two are equal.
other : (r p q : String) → (r == p) ≡ false → (r == q) ≡ true → (p == q) ≡ false
other r p q h k = elim (Bool-cases (p == q)) [ inl e ↦ cc ((==_iff p q).0 e, h, k) | inr e ↦ e ]

counter_value-bump_counter :
    (p q : String) (cs : List (String × ℕ))
    → counter_value q (bump_counter p cs) ≡ one_if (p == q) + counter_value q cs
unfolding counter_value bump_counter
counter_value-bump_counter p q [] = elim (Bool-cases (p == q)) [
  | inl e ↦ rw e refl
  | inr e ↦ rw e refl
]
counter_value-bump_counter p q ((r, n) ∷ rest) = elim (Bool-cases (r == p)) [
  | inl e ↦ rw e (
      hit_counter (r == q) n (counter_value q rest)
      ∙ ap (λ x. one_if (x == q) + (if r == q then n else counter_value q rest)) ((==_iff r p).0 e))
  | inr e ↦ rw e (
      missed_counter (r == q) (p == q) n (counter_value q rest) _
        (counter_value-bump_counter p q rest) (other r p q e))
]

-- The numbers for a sequence of prefixes, asked for one after the other.
unfoldable pub numbers : List String → Build (List ℕ)
unfolding next_name
numbers [] = pure []
numbers (p ∷ ps) = do n ← next_name p; rest ← numbers ps; pure (n ∷ rest)

-- How often a prefix stands in a list.
unfoldable pub occurrences : String → List String → ℕ
occurrences p [] = 0
occurrences p (q ∷ qs) = one_if (q == p) + occurrences p qs

-- For each prefix, how often it stands before its place; `before` holds what stands there already.
unfoldable pub positions : List String → List String → List ℕ
unfolding occurrences
positions before [] = []
positions before (p ∷ ps) = occurrences p before ∷ positions (p ∷ before) ps

numbers-positions :
    (ps before : List String) (s : Session)
    → ((p : String) → counter_value p s.counters ≡ occurrences p before)
    → (numbers ps s).0 ≡ positions before ps
unfolding numbers positions next_name
numbers-positions [] before s h = refl
numbers-positions (p ∷ ps) before s h =
    ap₂ (λ n ns. n ∷ ns) (h p)
      (numbers-positions ps (p ∷ before) (next_name p s).1
        (λ q. counter_value-bump_counter p q s.counters ∙ ap (λ n. one_if (p == q) + n) (h q)))

-- After a reset, each prefix is counted from 0 on its own, whatever was handed out before: a call
-- returns the number of the calls before it that had the same prefix.
pub numbers-reset_all :
    (ps : List String) (s : Session) → (numbers ps (reset_all s).1).0 ≡ positions [] ps
unfolding reset_all counter_value occurrences
numbers-reset_all ps s = numbers-positions ps [] (reset_all s).1 (λ p. refl)
