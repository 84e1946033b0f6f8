-- ===== src/Cli/Overrides/Sets.antt =====
-- Sets of names (src/cli/AwstPostPasses.cpp).
use puya_sol.Prelude.{
  ◌≡◌, refl, sym, ap, ◌∙◌, Bool, ◌||◌, List, [], ◌∷◌, String, ◌==◌, string_eq, ==_iff, inl, inr,
  Bool-cases, arith,
}
use puya_sol.Awst.Roots.{member, less_text}
use puya_sol.Cli.Overrides.{insert_name, name_set}

or_twice : (a b : Bool) → (a || b) ≡ (a || (a || b))
or_twice a b = ground arith

or_swap : (a b c : Bool) → (a || (b || c)) ≡ (b || (a || c))
or_swap a b c = ground arith

pub member-insert_name :
    (k j : String) (set : List String) → member k (insert_name j set) ≡ (k == j || member k set)
unfolding insert_name
member-insert_name k j [] = refl
member-insert_name k j (i ∷ rest) = elim (Bool-cases (j == i)) [
  | inl p ↦
      let e : j ≡ i = (==_iff j i).0 p in
      rw p
        (or_twice (k == i) (member k rest) ∙ ap (λ n. k == n || (k == i || member k rest)) (sym e))
  | inr p ↦ elim (Bool-cases (less_text j i)) [
    | inl q ↦ rw (p, q) refl
    | inr q ↦
        rw (p, q)
          (ap (λ b. k == i || b) (member-insert_name k j rest)
            ∙ or_swap (k == i) (k == j) (member k rest))
  ]
]

pub member-name_set :
    (k : String) (set names : List String)
    → member k (name_set set names) ≡ (member k names || member k set)
unfolding name_set
member-name_set k set [] = refl
member-name_set k set (j ∷ rest) =
    member-name_set k (insert_name j set) rest
    ∙ (ap (λ b. member k rest || b) (member-insert_name k j set)
        ∙ shift (member k rest) (k == j) (member k set))
  where
    shift : (a b c : Bool) → (a || (b || c)) ≡ ((b || a) || c)
    shift a b c = ground arith
