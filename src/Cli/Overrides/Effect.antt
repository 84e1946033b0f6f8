-- ===== src/Cli/Overrides/Effect.antt =====
-- What applyInlineOverrides (src/cli/AwstPostPasses.cpp) does to the roots.
use puya_sol.Prelude.{
  ◌≡◌, refl, sym, ap, ap₂, ◌∙◌, Bool, true, false, ◌||◌, Option, some, List, [], ◌∷◌, String,
  string_eq, if◌then◌else◌, inl, inr, Bool-cases, arith, map,
}
use puya_sol.Awst.Program.{ContractMethod, RootNode, subroutine, contract, logic_signature}
use puya_sol.Awst.Roots.{member}
use puya_sol.Cli.Overrides.{
  insert_name, name_set, override_methods, override_root, override_roots, apply_overrides,
  apply_inline_overrides, LogLine,
}
use puya_sol.Cli.Overrides.Sets.{member-name_set}

-- The mark that one list of names sets.
unfoldable pub mark : List String → Bool → String → Option Bool → Option Bool
mark names inline name old = if member name names then some inline else old

unfoldable mark_method : List String → Bool → ContractMethod → ContractMethod
unfolding mark
mark_method names inline m = record m { inline_opt = mark names inline m.member_name m.inline_opt }

unfoldable pub mark_root : List String → Bool → RootNode → RootNode
unfolding mark_method mark
mark_root names inline (subroutine s) =
    subroutine (record s { inline_opt = mark names inline s.name s.inline_opt })
mark_root names inline (contract id name approval clear methods fields) =
    contract id name approval clear (map (mark_method names inline) methods) fields
mark_root names inline (logic_signature id name program fields) =
    logic_signature id name program fields

module _ (wanted : List String) (inline : Bool) where
  override_methods-marks :
      (ms : List ContractMethod) (hit : List String)
      → (override_methods wanted inline ms hit).0 ≡ map (mark_method wanted inline) ms
  unfolding override_methods mark mark_method
  override_methods-marks [] hit = refl
  override_methods-marks (m ∷ rest) hit = elim (Bool-cases (member m.member_name wanted)) [
    | inl p ↦ rw p (
        ap (λ l. (record m { inline_opt = some inline }) ∷ l)
          (override_methods-marks rest (insert_name m.member_name hit)))
    | inr p ↦ rw p (ap (λ l. m ∷ l) (override_methods-marks rest hit))
  ]

  override_root-marks :
      (root : RootNode) (hit : List String)
      → (override_root wanted inline root hit).0 ≡ mark_root wanted inline root
  unfolding override_root mark mark_method mark_root
  override_root-marks (subroutine s) hit = elim (Bool-cases (member s.name wanted)) [
    | inl p ↦ rw p refl
    | inr p ↦ rw p refl
  ]
  override_root-marks (contract id name approval clear methods fields) hit =
      ap (λ ms. contract id name approval clear ms fields) (override_methods-marks methods hit)
  override_root-marks (logic_signature id name program fields) hit = refl

  override_roots-marks :
      (roots : List RootNode) (hit : List String)
      → (override_roots wanted inline roots hit).0 ≡ map (mark_root wanted inline) roots
  unfolding override_roots
  override_roots-marks [] hit = refl
  override_roots-marks (root ∷ rest) hit =
      ap₂ (λ r l. r ∷ l) (override_root-marks root hit)
        (override_roots-marks rest (override_root wanted inline root hit).1)

-- The marks depend on which names are wanted, and not on their order.
mark-set :
    (names : List String) (inline : Bool) (name : String) (old : Option Bool)
    → mark (name_set [] names) inline name old ≡ mark names inline name old
unfolding mark
mark-set names inline name old =
    ap (λ b. if b then some inline else old)
      (member-name_set name [] names ∙ bare (member name names))
  where
    bare : (a : Bool) → (a || false) ≡ a
    bare a = ground arith

map_same {ℓ} :
    {A : Type ℓ} (f g : A → A) → ((a : A) → f a ≡ g a) → (xs : List A) → map f xs ≡ map g xs
map_same f g h [] = refl
map_same f g h (x ∷ xs) = ap₂ (λ a l. a ∷ l) (h x) (map_same f g h xs)

map_unchanged {ℓ} : {A : Type ℓ} (f : A → A) → ((a : A) → f a ≡ a) → (xs : List A) → map f xs ≡ xs
map_unchanged f h [] = refl
map_unchanged f h (x ∷ xs) = ap₂ (λ a l. a ∷ l) (h x) (map_unchanged f h xs)

mark_root-set :
    (names : List String) (inline : Bool) (root : RootNode)
    → mark_root (name_set [] names) inline root ≡ mark_root names inline root
unfolding mark_root mark_method
mark_root-set names inline (subroutine s) =
    ap (λ o. subroutine (record s { inline_opt = o })) (mark-set names inline s.name s.inline_opt)
mark_root-set names inline (contract id name approval clear methods fields) =
    ap (λ ms. contract id name approval clear ms fields)
      (map_same (mark_method (name_set [] names) inline) (mark_method names inline)
        (λ m.
          ap (λ o. record m { inline_opt = o }) (mark-set names inline m.member_name m.inline_opt))
        methods)
mark_root-set names inline (logic_signature id name program fields) = refl

mark_root-no_names : (inline : Bool) (root : RootNode) → mark_root [] inline root ≡ root
unfolding mark mark_method mark_root
mark_root-no_names inline (subroutine s) = refl
mark_root-no_names inline (contract id name approval clear methods fields) =
    ap (λ ms. contract id name approval clear ms fields)
      (map_unchanged (mark_method [] inline) (λ m. refl) methods)
mark_root-no_names inline (logic_signature id name program fields) = refl

apply_overrides-marks :
    (names : List String) (inline : Bool) (option action : String) (roots : List RootNode)
    (log : List LogLine)
    → (apply_overrides names inline option action roots log).0 ≡ map (mark_root names inline) roots
unfolding apply_overrides
apply_overrides-marks [] inline option action roots log =
    sym (map_unchanged (mark_root [] inline) (mark_root-no_names inline) roots)
apply_overrides-marks (k ∷ names) inline option action roots log =
    override_roots-marks (name_set [] (k ∷ names)) inline roots []
    ∙ map_same (mark_root (name_set [] (k ∷ names)) inline) (mark_root (k ∷ names) inline)
        (mark_root-set (k ∷ names) inline) roots

-- The overrides set the mark of each subroutine and each method of a contract whose name is in the
-- list for inlining, then of those whose name is in the other list, which so decides for a name in
-- both; they change nothing else in the roots, whatever the order and repetition of the names.
pub apply_inline_overrides-marks :
    (inlined kept_out : List String) (roots : List RootNode) (log : List LogLine)
    → (apply_inline_overrides inlined kept_out roots log).0
      ≡ map (mark_root kept_out false) (map (mark_root inlined true) roots)
unfolding apply_inline_overrides
apply_inline_overrides-marks inlined kept_out roots log =
    apply_overrides-marks kept_out false _ _ _ _
    ∙ ap (map (mark_root kept_out false)) (apply_overrides-marks inlined true _ _ roots log)
