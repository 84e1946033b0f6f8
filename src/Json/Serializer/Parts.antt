-- ===== src/Json/Serializer/Parts.antt =====
-- What serializeExpression (src/json/AWSTSerializer.cpp) writes of a node apart from its
-- subexpressions. `none` stands for following a null pointer.
use puya_sol.Prelude.{ℕ, Option, some, List, [], ◌∷◌, String}
use puya_sol.Awst.Location.{SourceLocation}
use puya_sol.Awst.WType.{WType}
use puya_sol.Awst.Operators.{
  Immediate, SubroutineTarget, subroutine_id, instance_method_target, instance_super_method_target,
  contract_method_target,
}
use puya_sol.Awst.Expr.{ExprNode}
use puya_sol.Json.Base85.{base85_encode}
use puya_sol.Json.Value.{
  Json, number, text, array, object, Items, no_items, item, Members, no_members, assign_all,
  text_or_null, from_codes, push, as_array,
}
use puya_sol.Json.Serializer.Texts.{node_type}
use puya_sol.Json.Serializer.Types.{serialize_source_location, serialize_wtype}

-- A member to assign.
abbrev pub Entry : Type 0
Entry = String × Option Json

-- The three assignments in front of the tests on the class.
unfoldable pub header_entries : SourceLocation → Option WType → ExprNode → List (String × Json)
unfolding serialize_source_location
header_entries loc type n =
    ("_type", text (node_type n))
    ∷ ("source_location", serialize_source_location loc)
    ∷ ("wtype", serialize_wtype type)
    ∷ []

unfoldable pub expression_header : SourceLocation → Option WType → ExprNode → Members
unfolding assign_all header_entries
expression_header loc type n = assign_all no_members (header_entries loc type n)

unfoldable pub serialize_subroutine_target : SubroutineTarget → Json
unfolding assign_all
serialize_subroutine_target (subroutine_id target) =
    object (assign_all no_members (("_type", text "SubroutineID") ∷ ("target", text target) ∷ []))
serialize_subroutine_target (instance_method_target member_name) = object (
    assign_all no_members
      (("_type", text "InstanceMethodTarget") ∷ ("member_name", text member_name) ∷ []))
serialize_subroutine_target (instance_super_method_target member_name) = object (
    assign_all no_members
      (("_type", text "InstanceSuperMethodTarget") ∷ ("member_name", text member_name) ∷ []))
serialize_subroutine_target (contract_method_target cref member_name) = object (
    assign_all no_members (
      ("_type", text "ContractMethodTarget")
      ∷ ("cref", text cref)
      ∷ ("member_name", text member_name)
      ∷ []))

-- The loop over the immediates.
abbrev pub immediate_items : List Immediate → Items
immediate_items [] = no_items
immediate_items (Immediate.text s ∷ rest) = item (text s) (immediate_items rest)
immediate_items (Immediate.number n ∷ rest) = item (number n) (immediate_items rest)

unfoldable pub signature_entries : SourceLocation → String → List (String × Json)
unfolding serialize_source_location
signature_entries loc value =
    ("_type", text "MethodSignatureString")
    ∷ ("source_location", serialize_source_location loc)
    ∷ ("value", text value)
    ∷ []

unfoldable pub method_signature : SourceLocation → String → Json
unfolding assign_all signature_entries
method_signature loc value = object (assign_all no_members (signature_entries loc value))

unfoldable pub base85_text : List ℕ → String
unfolding base85_encode from_codes
base85_text bytes = from_codes (base85_encode bytes)

-- `left`, the operator, `right`.
abbrev pub binary_entries : Option Json → String → Option Json → List Entry
binary_entries left op right = ("left", left) ∷ ("op", some (text op)) ∷ ("right", right) ∷ []

abbrev pub comparison_entries : Option Json → String → Option Json → List Entry
comparison_entries lhs op rhs = ("lhs", lhs) ∷ ("operator", some (text op)) ∷ ("rhs", rhs) ∷ []

-- What the classes of storage values have in common.
abbrev pub message_entry : Option String → Entry
message_entry message = ("exists_assertion_message", some (text_or_null message))

abbrev pub assert_entries : Option Json → Option String → Json → List Entry
assert_entries condition message is_explicit =
    ("condition", condition)
    ∷ ("error_message", some (text_or_null message))
    ∷ ("comment", some (text_or_null message))
    ∷ ("explicit", some is_explicit)
    ∷ []

-- What replaces a `BoxPrefixedKeyExpression`.
abbrev pub concat_entries : Option Json → Option Json → List Entry
concat_entries prefix key =
    ("_type", some (text "IntrinsicCall"))
    ∷ ("op_code", some (text "concat"))
    ∷ ("immediates", some (array no_items))
    ∷ ("stack_args", as_array (push prefix (push key (some no_items))))
    ∷ []

-- serializeCallArg.
abbrev pub call_arg_entries : Option String → Option Json → List Entry
call_arg_entries name value = ("name", some (text_or_null name)) ∷ ("value", value) ∷ []
