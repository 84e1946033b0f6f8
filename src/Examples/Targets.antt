-- ===== src/Examples/Targets.antt =====
-- An element of an array behind a read with a default and a decoding.
use puya_sol.Prelude.{◌≡◌, refl, false, none}
use puya_sol.Awst.Location.{SourceLocation, default_location}
use puya_sol.Awst.Expr.{
  Expression, node, index_expression, state_get, arc4_decode, app_state_expression,
}
use puya_sol.Awst.Make.Constants.{make_integer_of, make_string_constant, uint64_t}
use puya_sol.Awst.Make.Target.{make_writable_target}
use puya_sol.Awst.Make.Target.Path.{access, object, steps, is_layer, make_writable_target-access}

abbrev place : SourceLocation
place = default_location

abbrev slot : Expression
slot = node place none (app_state_expression (make_string_constant "values" place) none)

abbrev element : Expression
element = node place uint64_t (
    arc4_decode (
      node place none (
        index_expression (node place none (state_get slot (make_integer_of 0 place)))
          (make_integer_of 3 place))))

make_writable_target-access_example :
    (make_writable_target element ≡ access (object element) (steps element))
    × (is_layer (object element) ≡ false)
    × (make_writable_target (make_writable_target element) ≡ make_writable_target element)
make_writable_target-access_example = make_writable_target-access element

-- The decoding and the read are gone, the index is kept.
element_target :
    make_writable_target element ≡ node place none (index_expression slot (make_integer_of 3 place))
unfolding make_writable_target
element_target = refl
