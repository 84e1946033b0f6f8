-- ===== src/Examples/Documents.antt =====
-- Types, constants and programs as JSON documents.
use puya_sol.Prelude.{◌≡◌, refl, true, false, some, [], ◌∷◌}
use puya_sol.Awst.Location.{default_location}
use puya_sol.Awst.Operators.{BigUIntBinaryOperator}
use puya_sol.Awst.WType.{
  WType, basic, uint64_type, arc4_struct, field, no_fields, arc4_dynamic_array, arc4_bool_type,
}
use puya_sol.Awst.WType.Canon.{canon}
use puya_sol.Awst.Expr.{
  Expression, node, integer_constant, big_uint_binary_operation, assert_expression,
}
use puya_sol.Awst.Make.Constants.{biguint_t, void_t}
use puya_sol.Json.Value.{text}
use puya_sol.Json.Value.Outcome.{Outcome}
use puya_sol.Json.Serializer.Types.{serialize_wtype}
use puya_sol.Json.Serializer.Types.Read.{read_type, read_type-serialize_wtype}
use puya_sol.Json.Serializer.Integer.{integer_value}
use puya_sol.Json.Serializer.Integer.Value.{all_hex, integer_json, hex_number, integer_value-hex}
use puya_sol.Json.Serializer.Nodes.{serialize_expression}
use puya_sol.Json.Serializer.Nodes.Complete.{complete}
use puya_sol.Json.Serializer.Nodes.Documents.{serialize_expression-Outcome}
use puya_sol.Json.Serializer.Roots.{serialize}
use puya_sol.Json.Serializer.Roots.Documents.{complete_roots, serialize-Outcome}
use puya_sol.Examples.Units.{unit}

-- An array of structs of a number and a Boolean.
abbrev points : WType
points =
    arc4_dynamic_array 20
      (arc4_struct 21 "Point"
        (field "x" (basic uint64_type) (field "y" (basic arc4_bool_type) no_fields)) true)
      ""

read_type-serialize_wtype_example : read_type (serialize_wtype (some points)) ≡ some (canon points)
read_type-serialize_wtype_example = read_type-serialize_wtype points

-- -0xFFFFFFFFFFFFFFFF does not fit 64 bits.
wide_hex : integer_value "-0xFFFFFFFFFFFFFFFF" ≡ some (text "-18446744073709551615")
unfolding integer_value
wide_hex = refl

integer_value-hex_example :
    integer_value "-0xFFFFFFFFFFFFFFFF"
    ≡ some (
        integer_json true (
          hex_number
            (70 ∷ 70 ∷ 70 ∷ 70 ∷ 70 ∷ 70 ∷ 70 ∷ 70 ∷ 70 ∷ 70 ∷ 70 ∷ 70 ∷ 70 ∷ 70 ∷ 70 ∷ 70 ∷ [])))
unfolding all_hex
integer_value-hex_example =
    integer_value-hex "-0xFFFFFFFFFFFFFFFF" true 120 70
      (70 ∷ 70 ∷ 70 ∷ 70 ∷ 70 ∷ 70 ∷ 70 ∷ 70 ∷ 70 ∷ 70 ∷ 70 ∷ 70 ∷ 70 ∷ 70 ∷ 70 ∷ []) refl refl refl

abbrev asserted : Expression
asserted = node default_location void_t (
    assert_expression
      (node default_location biguint_t (
        big_uint_binary_operation (node default_location biguint_t (integer_constant "0x10"))
          BigUIntBinaryOperator.add (node default_location biguint_t (integer_constant "7"))))
      (some "overflow") false)

serialize_expression-Outcome_example : Outcome (complete asserted) (serialize_expression asserted)
serialize_expression-Outcome_example = serialize_expression-Outcome asserted

asserted-complete : complete asserted ≡ true
unfolding complete
asserted-complete = refl

serialize-Outcome_example : Outcome (complete_roots unit) (serialize unit)
serialize-Outcome_example = serialize-Outcome unit
