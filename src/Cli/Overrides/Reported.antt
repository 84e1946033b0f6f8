-- ===== src/Cli/Overrides/Reported.antt =====
-- Which names applyInlineOverrides (src/cli/AwstPostPasses.cpp) reports.
use puya_sol.Prelude.{
  ◌≡◌, refl, ap, ◌∙◌, Bool, true, false, ◌&&◌, ◌||◌, not, List, [], ◌∷◌, String, ◌==◌, string_eq,
  ==_iff, inl, inr, Bool-cases, arith,
}
use puya_sol.Awst.Program.{ContractMethod, RootNode, subroutine, contract, logic_signature}
use puya_sol.Awst.Roots.{member}
use puya_sol.Cli.Overrides.{
  insert_name, name_set, override_methods, override_root, override_roots, missing,
}
use puya_sol.Cli.Overrides.Sets.{member-insert_name, member-name_set}

-- A root that holds a node of the name.
abbrev named_method : String → List ContractMethod → Bool
named_method k [] = false
named_method k (m ∷ rest) = k == m.member_name || named_method k rest

abbrev named : String → RootNode → Bool
named k (subroutine s) = k == s.name
named k (contract _ _ _ _ methods _) = named_method k methods
named k (logic_signature _ _ _ _) = false

abbrev pub any_named : String → List RootNode → Bool
any_named k [] = false
any_named k (root ∷ rest) = named k root || any_named k rest

module _ (wanted : List String) (inline : Bool) where
  -- A name that is wanted and that some method has is found.
  found_step :
      (k j : String) (n h : Bool)
      → member j wanted ≡ true
      → ((member k wanted && n) || (k == j || h)) ≡ ((member k wanted && (k == j || n)) || h)
  found_step k j n h w = elim (Bool-cases (k == j)) [
    | inl p ↦
        let e : member k wanted ≡ true = ap (λ x. member x wanted) ((==_iff k j).0 p) ∙ w in
        rw (p, e) (ground arith)
    | inr p ↦ rw p refl
  ]

  skip_step :
      (k j : String) (n h : Bool)
      → member j wanted ≡ false
      → ((member k wanted && n) || h) ≡ ((member k wanted && (k == j || n)) || h)
  skip_step k j n h w = elim (Bool-cases (k == j)) [
    | inl p ↦
        let e : member k wanted ≡ false = ap (λ x. member x wanted) ((==_iff k j).0 p) ∙ w in
        rw e refl
    | inr p ↦ rw p refl
  ]

  found_one :
      (k j : String) (h : Bool)
      → member j wanted ≡ true
      → (k == j || h) ≡ ((member k wanted && k == j) || h)
  found_one k j h w = elim (Bool-cases (k == j)) [
    | inl p ↦
        let e : member k wanted ≡ true = ap (λ x. member x wanted) ((==_iff k j).0 p) ∙ w in
        rw (p, e) refl
    | inr p ↦ rw p (ground arith)
  ]

  skip_one :
      (k j : String) (h : Bool) → member j wanted ≡ false → h ≡ ((member k wanted && k == j) || h)
  skip_one k j h w = elim (Bool-cases (k == j)) [
    | inl p ↦
        let e : member k wanted ≡ false = ap (λ x. member x wanted) ((==_iff k j).0 p) ∙ w in
        rw e refl
    | inr p ↦ rw p (ground arith)
  ]

  override_methods-found :
      (k : String) (ms : List ContractMethod) (hit : List String)
      → member k (override_methods wanted inline ms hit).1
        ≡ ((member k wanted && named_method k ms) || member k hit)
  unfolding override_methods
  override_methods-found k [] hit = ground arith
  override_methods-found k (m ∷ rest) hit = elim (Bool-cases (member m.member_name wanted)) [
    | inl p ↦ rw p (
        override_methods-found k rest (insert_name m.member_name hit)
        ∙ (ap (λ b. (member k wanted && named_method k rest) || b)
              (member-insert_name k m.member_name hit)
            ∙ found_step k m.member_name (named_method k rest) (member k hit) p))
    | inr p ↦ rw p (
        override_methods-found k rest hit
        ∙ skip_step k m.member_name (named_method k rest) (member k hit) p)
  ]

  override_root-found :
      (k : String) (root : RootNode) (hit : List String)
      → member k (override_root wanted inline root hit).1
        ≡ ((member k wanted && named k root) || member k hit)
  unfolding override_root
  override_root-found k (subroutine s) hit = elim (Bool-cases (member s.name wanted)) [
    | inl p ↦ rw p (member-insert_name k s.name hit ∙ found_one k s.name (member k hit) p)
    | inr p ↦ rw p (skip_one k s.name (member k hit) p)
  ]
  override_root-found k (contract id name approval clear methods fields) hit =
      override_methods-found k methods hit
  override_root-found k (logic_signature id name program fields) hit = ground arith

  override_roots-found :
      (k : String) (roots : List RootNode) (hit : List String)
      → member k (override_roots wanted inline roots hit).1
        ≡ ((member k wanted && any_named k roots) || member k hit)
  unfolding override_roots
  override_roots-found k [] hit = ground arith
  override_roots-found k (root ∷ rest) hit =
      override_roots-found k rest (override_root wanted inline root hit).1
      ∙ (ap (λ b. (member k wanted && any_named k rest) || b) (override_root-found k root hit)
          ∙ spread (member k wanted) (named k root) (any_named k rest) (member k hit))
    where
      spread : (w n a h : Bool) → ((w && a) || ((w && n) || h)) ≡ ((w && (n || a)) || h)
      spread w n a h = ground arith

member-missing :
    (k : String) (hit names : List String)
    → member k (missing hit names) ≡ (member k names && not (member k hit))
unfolding missing
member-missing k hit [] = refl
member-missing k hit (j ∷ rest) = elim (Bool-cases (member j hit)) [
  | inl p ↦ rw p (member-missing k hit rest ∙ dropped k j p)
  | inr p ↦ rw p (ap (λ b. k == j || b) (member-missing k hit rest) ∙ kept k j p)
]
  where
    dropped :
        (k j : String)
        → member j hit ≡ true
        → (member k rest && not (member k hit)) ≡ ((k == j || member k rest) && not (member k hit))
    dropped k j p = elim (Bool-cases (k == j)) [
      | inl q ↦
          let e : member k hit ≡ true = ap (λ x. member x hit) ((==_iff k j).0 q) ∙ p in
          rw (q, e) (ground arith)
      | inr q ↦ rw q refl
    ]

    kept :
        (k j : String)
        → member j hit ≡ false
        → (k == j || (member k rest && not (member k hit)))
          ≡ ((k == j || member k rest) && not (member k hit))
    kept k j p = elim (Bool-cases (k == j)) [
      | inl q ↦
          let e : member k hit ≡ false = ap (λ x. member x hit) ((==_iff k j).0 q) ∙ p in
          rw (q, e) refl
      | inr q ↦ rw q refl
    ]

-- The names that are not found.
abbrev pub reported : List String → Bool → List RootNode → List String
unfolding missing override_roots name_set
reported names inline roots =
    missing (override_roots (name_set [] names) inline roots []).1 (name_set [] names)

pub member-reported :
    (names : List String) (inline : Bool) (roots : List RootNode) (k : String)
    → member k (reported names inline roots) ≡ (member k names && not (any_named k roots))
unfolding reported
member-reported names inline roots k =
    let w = name_set [] names in
    let set : member k w ≡ member k names = member-name_set k [] names ∙ bare (member k names) in
    member-missing k (override_roots w inline roots []).1 w
    ∙ (ap (λ b. member k w && not b) (override_roots-found w inline k roots [])
        ∙ (ap (λ b. b && not ((b && any_named k roots) || false)) set
            ∙ tidy (member k names) (any_named k roots)))
  where
    bare : (a : Bool) → (a || false) ≡ a
    bare a = ground arith

    tidy : (a n : Bool) → (a && not ((a && n) || false)) ≡ (a && not n)
    tidy a n = ground arith
