-- ===== src/Json/Serializer/Statements.antt =====
-- serializeStatement and serializeBlock of src/json/AWSTSerializer.cpp. `none` stands for following a
-- null pointer.
pub mod Documents
use puya_sol.Prelude.{Option, none, some, List, [], ◌∷◌, String}
use puya_sol.Awst.Location.{SourceLocation}
use puya_sol.Awst.Stmt
use puya_sol.Awst.Stmt.{
  Statement, Block, BlockPtr, no_block, to_block, block, Statements, done, then_do, Cases, no_cases,
  case,
}
use puya_sol.Json.Value.{
  Json, json_null, text, array, Items, no_items, item, Members, no_members, assign_all,
  try_assign_all, as_object, text_or_null, push, as_array,
}
use puya_sol.Json.Serializer.Texts.{uint64_bin_op_to_string, big_uint_bin_op_to_string}
use puya_sol.Json.Serializer.Types.{serialize_source_location}
use puya_sol.Json.Serializer.Parts.{Entry}
use puya_sol.Json.Serializer.Nodes.{serialize_expression, serialize_or_null}

-- The first two assignments of a statement; `kind` is its `nodeType()` (src/awst/Node.h).
unfoldable pub header_members : String → SourceLocation → List (String × Json)
unfolding serialize_source_location
header_members kind loc =
    ("_type", text kind) ∷ ("source_location", serialize_source_location loc) ∷ []

unfoldable pub statement_header : String → SourceLocation → Members
unfolding assign_all header_members
statement_header kind loc = assign_all no_members (header_members kind loc)

-- The whole object.
unfoldable pub statement_document : String → SourceLocation → List Entry → Option Json
unfolding statement_header try_assign_all
statement_document kind loc entries = as_object (try_assign_all (statement_header kind loc) entries)

abbrev pub augmented_entries : Option Json → String → Option Json → List Entry
augmented_entries target op value =
    ("target", target) ∷ ("op", some (text op)) ∷ ("value", value) ∷ []

-- The array of a case's value and its block.
abbrev pub case_pair : Option Json → Option Json → Option Json
case_pair value body = as_array (push value (push body (some no_items)))

unfoldable mutual
  unfolding statement_document serialize_expression

  pub serialize_statement : Statement → Option Json
  serialize_statement (Stmt.block_statement b) = serialize_block b
  serialize_statement (Stmt.expression_statement loc expr) =
      statement_document "ExpressionStatement" loc (("expr", serialize_expression expr) ∷ [])
  serialize_statement (Stmt.return_statement loc value) =
      statement_document "ReturnStatement" loc (("value", serialize_or_null value) ∷ [])
  serialize_statement (Stmt.if_else loc condition if_branch else_branch) =
      statement_document "IfElse" loc (
        ("condition", serialize_expression condition)
        ∷ ("if_branch", serialize_block_ptr if_branch)
        ∷ ("else_branch", serialize_block_or_null else_branch)
        ∷ [])
  serialize_statement (Stmt.while_loop loc condition loop_body) =
      statement_document "WhileLoop" loc (
        ("condition", serialize_expression condition)
        ∷ ("loop_body", serialize_block_ptr loop_body)
        ∷ [])
  serialize_statement (Stmt.loop_exit loc) = statement_document "LoopExit" loc []
  serialize_statement (Stmt.loop_continue loc) = statement_document "LoopContinue" loc []
  serialize_statement (Stmt.assignment_statement loc target value) =
      statement_document "AssignmentStatement" loc
        (("target", serialize_expression target) ∷ ("value", serialize_expression value) ∷ [])
  serialize_statement (Stmt.goto loc target) =
      statement_document "Goto" loc (("target", some (text target)) ∷ [])
  serialize_statement (Stmt.switch loc value cases default_case) = statement_document "Switch" loc (
      ("value", serialize_expression value)
      ∷ ("cases", as_array (serialize_cases cases))
      ∷ ("default_case", serialize_block_or_null default_case)
      ∷ [])
  serialize_statement (Stmt.for_in_loop loc sequence items loop_body) =
      statement_document "ForInLoop" loc (
        ("sequence", serialize_expression sequence)
        ∷ ("items", serialize_expression items)
        ∷ ("loop_body", serialize_block_ptr loop_body)
        ∷ [])
  serialize_statement (Stmt.uint64_augmented_assignment loc target op value) =
      statement_document "UInt64AugmentedAssignment" loc (
        augmented_entries (serialize_expression target) (uint64_bin_op_to_string op)
          (serialize_expression value))
  serialize_statement (Stmt.big_uint_augmented_assignment loc target op value) =
      statement_document "BigUIntAugmentedAssignment" loc (
        augmented_entries (serialize_expression target) (big_uint_bin_op_to_string op)
          (serialize_expression value))

  pub serialize_block : Block → Option Json
  serialize_block (block loc body label comment) = statement_document "Block" loc (
      ("body", as_array (serialize_statements body))
      ∷ ("label", some (text_or_null label))
      ∷ ("comment", some (text_or_null comment))
      ∷ [])

  -- A pointer that is followed with no test.
  pub serialize_block_ptr : BlockPtr → Option Json
  serialize_block_ptr no_block = none
  serialize_block_ptr (to_block b) = serialize_block b

  pub serialize_block_or_null : BlockPtr → Option Json
  serialize_block_or_null no_block = some json_null
  serialize_block_or_null (to_block b) = serialize_block b

  pub serialize_statements : Statements → Option Items
  serialize_statements done = some no_items
  serialize_statements (then_do s rest) = push (serialize_statement s) (serialize_statements rest)

  pub serialize_cases : Cases → Option Items
  serialize_cases no_cases = some no_items
  serialize_cases (case value body rest) =
      push (case_pair (serialize_expression value) (serialize_block_ptr body))
        (serialize_cases rest)
