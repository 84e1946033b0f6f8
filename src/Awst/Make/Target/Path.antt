-- ===== src/Awst/Make/Target/Path.antt =====
-- What makeWritableTarget (src/awst/Node.h) keeps of an access: the object and the way into it.
use puya_sol.Prelude.{
  ◌≡◌, refl, sym, ap, ◌∙◌, Bool, true, false, Option, List, [], ◌∷◌, ◌++◌, String,
}
use puya_sol.Awst.Location.{SourceLocation}
use puya_sol.Awst.WType.{WType}
use puya_sol.Awst.Expr.{
  Expression, node, index_expression, field_expression, state_get, arc4_decode,
}
use puya_sol.Awst.Make.Target.{make_writable_target}

-- One step into an object.
pub data Step : Type 0 where
  at_index : SourceLocation → Option WType → Expression → Step
  at_field : SourceLocation → Option WType → String → Step

-- The object in which an access starts, below all reads and decodings.
unfoldable pub object : Expression → Expression
object (node _ _ (index_expression base _)) = object base
object (node _ _ (field_expression base _)) = object base
object (node _ _ (state_get field _)) = object field
object (node _ _ (arc4_decode value)) = object value
object e = e

-- A step into an object, or a layer around one.
unfoldable pub is_layer : Expression → Bool
is_layer (node _ _ (index_expression _ _)) = true
is_layer (node _ _ (field_expression _ _)) = true
is_layer (node _ _ (state_get _ _)) = true
is_layer (node _ _ (arc4_decode _)) = true
is_layer e = false

-- The steps from the object on.
unfoldable pub steps : Expression → List Step
steps (node loc t (index_expression base i)) = steps base ++ (at_index loc t i ∷ [])
steps (node loc t (field_expression base name)) = steps base ++ (at_field loc t name ∷ [])
steps (node _ _ (state_get field _)) = steps field
steps (node _ _ (arc4_decode value)) = steps value
steps e = []

-- The access of an object by steps, with nothing between them.
unfoldable pub access : Expression → List Step → Expression
access e [] = e
access e (at_index loc t i ∷ rest) = access (node loc t (index_expression e i)) rest
access e (at_field loc t name ∷ rest) = access (node loc t (field_expression e name)) rest

access-append : (e : Expression) (xs ys : List Step) → access e (xs ++ ys) ≡ access (access e xs) ys
unfolding access
access-append e [] ys = refl
access-append e (at_index loc t i ∷ xs) ys = access-append (node loc t (index_expression e i)) xs ys
access-append e (at_field loc t n ∷ xs) ys = access-append (node loc t (field_expression e n)) xs ys

target-access : (e : Expression) → make_writable_target e ≡ access (object e) (steps e)
unfolding make_writable_target object steps access
target-access (node loc t (index_expression base i)) =
    ap (λ b. node loc t (index_expression b i)) (target-access base)
    ∙ sym (access-append (object base) (steps base) (at_index loc t i ∷ []))
target-access (node loc t (field_expression base n)) =
    ap (λ b. node loc t (field_expression b n)) (target-access base)
    ∙ sym (access-append (object base) (steps base) (at_field loc t n ∷ []))
target-access (node _ _ (state_get field _)) = target-access field
target-access (node _ _ (arc4_decode value)) = target-access value
target-access e = refl

target-object : (e : Expression) → make_writable_target (object e) ≡ object e
unfolding make_writable_target object
target-object (node loc t (index_expression base i)) = target-object base
target-object (node loc t (field_expression base n)) = target-object base
target-object (node _ _ (state_get field _)) = target-object field
target-object (node _ _ (arc4_decode value)) = target-object value
target-object e = refl

object-layer : (e : Expression) → is_layer (object e) ≡ false
unfolding is_layer object
object-layer (node loc t (index_expression base i)) = object-layer base
object-layer (node loc t (field_expression base n)) = object-layer base
object-layer (node _ _ (state_get field _)) = object-layer field
object-layer (node _ _ (arc4_decode value)) = object-layer value
object-layer e = refl

access-fixed :
    (e : Expression) (xs : List Step)
    → make_writable_target e ≡ e
    → make_writable_target (access e xs) ≡ access e xs
unfolding make_writable_target access
access-fixed e [] h = h
access-fixed e (at_index loc t i ∷ xs) h =
    access-fixed (node loc t (index_expression e i)) xs
      (ap (λ b. node loc t (index_expression b i)) h)
access-fixed e (at_field loc t n ∷ xs) h =
    access-fixed (node loc t (field_expression e n)) xs
      (ap (λ b. node loc t (field_expression b n)) h)

-- A writable target is the object of the expression with its index and field steps in their order
-- and no read or decoding between them; the object is none of the four layers, and a target made
-- writable twice is the same as once.
pub make_writable_target-access :
    (e : Expression)
    → (make_writable_target e ≡ access (object e) (steps e))
      × (is_layer (object e) ≡ false)
      × (make_writable_target (make_writable_target e) ≡ make_writable_target e)
make_writable_target-access e =
    let fixed = access-fixed (object e) (steps e) (target-object e) in
    (target-access e, object-layer e, rw (target-access e) fixed)
