-- ===== src/Storage/Layout/Lookup.antt =====
-- Lists that are read by an index, and maps whose values are indexes into a list.
use puya_sol.Prelude.{ℕ, zero, suc, ◌≡◌, refl, ap, some, List, [], ◌∷◌, ◌++◌, length}
use puya_sol.Storage.Layout.{get_elem?, modify}

module _ {ℓ} {A : Type ℓ} where
  pub get_elem?-append :
      (xs ys : List A) (i : ℕ) (x : A) → get_elem? xs i ≡ some x → get_elem? (xs ++ ys) i ≡ some x
  get_elem?-append [] ys i x h = absurd cc
  get_elem?-append (y ∷ xs) ys zero x h = h
  get_elem?-append (y ∷ xs) ys (suc i) x h = get_elem?-append xs ys i x h

  pub get_elem?-last : (xs : List A) (x : A) → get_elem? (xs ++ (x ∷ [])) (length xs) ≡ some x
  get_elem?-last [] x = refl
  get_elem?-last (y ∷ xs) x = get_elem?-last xs x

  pub get_elem?-modify :
      (i : ℕ) (f : A → A) (xs : List A) (x : A)
      → get_elem? xs i ≡ some x
      → get_elem? (modify i f xs) i ≡ some (f x)
  get_elem?-modify i f [] x h = absurd cc
  get_elem?-modify zero f (y ∷ xs) x h = cc
  get_elem?-modify (suc i) f (y ∷ xs) x h = get_elem?-modify i f xs x h

  pub get_elem?-modify_other :
      (i j : ℕ) (f : A → A) (xs : List A)
      → (i ≡ j → ⊥)
      → get_elem? (modify i f xs) j ≡ get_elem? xs j
  get_elem?-modify_other i j f [] h = refl
  get_elem?-modify_other zero zero f (y ∷ xs) h = absurd (h refl)
  get_elem?-modify_other zero (suc j) f (y ∷ xs) h = refl
  get_elem?-modify_other (suc i) zero f (y ∷ xs) h = refl
  get_elem?-modify_other (suc i) (suc j) f (y ∷ xs) h =
      get_elem?-modify_other i j f xs (λ e. h (ap suc e))
