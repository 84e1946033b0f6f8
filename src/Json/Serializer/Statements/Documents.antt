-- ===== src/Json/Serializer/Statements/Documents.antt =====
-- For which statements serializeStatement and serializeBlock (src/json/AWSTSerializer.cpp) follow no null
-- pointer, and the keys of what they write.
use puya_sol.Prelude.{Bool, true, false, ◌&&◌, some, List, [], ◌∷◌, String}
use puya_sol.Awst.Location.{SourceLocation}
use puya_sol.Awst.Stmt
use puya_sol.Awst.Stmt.{
  Statement, Block, BlockPtr, no_block, to_block, block, Statements, done, then_do, Cases, no_cases,
  case,
}
use puya_sol.Json.Value.{no_members, IsDocument, text}
use puya_sol.Json.Value.Outcome.{
  Outcome, failed, document, Outcomes, end, part, given, last, only, pair, ItemsOutcome, no_more,
  pushed, array-Outcome, text_or_null-IsDocument, Documents, assign_all-AllKeyed,
}
use puya_sol.Json.Serializer.Types.Documents.{serialize_source_location-IsDocument}
use puya_sol.Json.Serializer.Parts.{Entry}
use puya_sol.Json.Serializer.Nodes.Complete.{complete, complete_or_null}
use puya_sol.Json.Serializer.Nodes.Documents.{
  serialize_expression-Outcome, serialize_or_null-Outcome,
}
use puya_sol.Json.Serializer.Statements.{
  header_members, statement_header, statement_document, serialize_statement, serialize_block,
  serialize_block_ptr, serialize_block_or_null, serialize_statements, serialize_cases,
}

-- No pointer that the source follows is null: the value of a `return`, an `else` branch and a default
-- case may be.
unfoldable mutual
  unfolding complete

  pub complete_statement : Statement → Bool
  complete_statement (Stmt.block_statement b) = complete_block b
  complete_statement (Stmt.expression_statement _ expr) = complete expr
  complete_statement (Stmt.return_statement _ value) = complete_or_null value
  complete_statement (Stmt.if_else _ condition if_branch else_branch) =
      complete condition && (complete_block_ptr if_branch && complete_block_or_null else_branch)
  complete_statement (Stmt.while_loop _ condition loop_body) =
      complete condition && complete_block_ptr loop_body
  complete_statement (Stmt.loop_exit _) = true
  complete_statement (Stmt.loop_continue _) = true
  complete_statement (Stmt.assignment_statement _ target value) = complete target && complete value
  complete_statement (Stmt.goto _ _) = true
  complete_statement (Stmt.switch _ value cases default_case) =
      complete value && (complete_cases cases && complete_block_or_null default_case)
  complete_statement (Stmt.for_in_loop _ sequence items loop_body) =
      complete sequence && (complete items && complete_block_ptr loop_body)
  complete_statement (Stmt.uint64_augmented_assignment _ target _ value) =
      complete target && complete value
  complete_statement (Stmt.big_uint_augmented_assignment _ target _ value) =
      complete target && complete value

  pub complete_block : Block → Bool
  complete_block (block _ body _ _) = complete_statements body

  pub complete_block_ptr : BlockPtr → Bool
  complete_block_ptr no_block = false
  complete_block_ptr (to_block b) = complete_block b

  pub complete_block_or_null : BlockPtr → Bool
  complete_block_or_null no_block = true
  complete_block_or_null (to_block b) = complete_block b

  pub complete_statements : Statements → Bool
  complete_statements done = true
  complete_statements (then_do s rest) = complete_statement s && complete_statements rest

  pub complete_cases : Cases → Bool
  complete_cases no_cases = true
  complete_cases (case value body rest) =
      (complete value && complete_block_ptr body) && complete_cases rest

pub statement_document-Outcome :
    {b : Bool} {es : List Entry} (kind : String) (loc : SourceLocation)
    → Outcomes b es
    → Outcome b (statement_document kind loc es)
unfolding statement_document statement_header header_members Documents IsDocument
statement_document-Outcome kind loc h = h.made (statement_header kind loc) (
    assign_all-AllKeyed no_members (header_members kind loc) tt
      (tt, (serialize_source_location-IsDocument loc, tt)))

mutual
  unfolding serialize_statement complete_statement IsDocument

  pub serialize_statement-Outcome :
      (s : Statement) → Outcome (complete_statement s) (serialize_statement s)
  serialize_statement-Outcome (Stmt.block_statement b) = serialize_block-Outcome b
  serialize_statement-Outcome (Stmt.expression_statement loc expr) =
      statement_document-Outcome _ loc (last (serialize_expression-Outcome expr))
  serialize_statement-Outcome (Stmt.return_statement loc value) =
      statement_document-Outcome _ loc (last (serialize_or_null-Outcome value))
  serialize_statement-Outcome (Stmt.if_else loc condition if_branch else_branch) =
      statement_document-Outcome _ loc (
        part (serialize_expression-Outcome condition) (
          part (serialize_block_ptr-Outcome if_branch)
            (last (serialize_block_or_null-Outcome else_branch))))
  serialize_statement-Outcome (Stmt.while_loop loc condition loop_body) =
      statement_document-Outcome _ loc (
        part (serialize_expression-Outcome condition)
          (last (serialize_block_ptr-Outcome loop_body)))
  serialize_statement-Outcome (Stmt.loop_exit loc) = statement_document-Outcome _ loc end
  serialize_statement-Outcome (Stmt.loop_continue loc) = statement_document-Outcome _ loc end
  serialize_statement-Outcome (Stmt.assignment_statement loc target value) =
      statement_document-Outcome _ loc
        (part (serialize_expression-Outcome target) (last (serialize_expression-Outcome value)))
  serialize_statement-Outcome (Stmt.goto loc target) =
      statement_document-Outcome {es = ("target", some (text target)) ∷ []} "Goto" loc
        (given {j = text target} tt end)
  serialize_statement-Outcome (Stmt.switch loc value cases default_case) =
      statement_document-Outcome _ loc (
        part (serialize_expression-Outcome value) (
          part (array-Outcome (serialize_cases-ItemsOutcome cases))
            (last (serialize_block_or_null-Outcome default_case))))
  serialize_statement-Outcome (Stmt.for_in_loop loc sequence items loop_body) =
      statement_document-Outcome _ loc (
        part (serialize_expression-Outcome sequence) (
          part (serialize_expression-Outcome items) (last (serialize_block_ptr-Outcome loop_body))))
  serialize_statement-Outcome (Stmt.uint64_augmented_assignment loc target op value) =
      statement_document-Outcome _ loc (
        part (serialize_expression-Outcome target)
          (given tt (last (serialize_expression-Outcome value))))
  serialize_statement-Outcome (Stmt.big_uint_augmented_assignment loc target op value) =
      statement_document-Outcome _ loc (
        part (serialize_expression-Outcome target)
          (given tt (last (serialize_expression-Outcome value))))

  pub serialize_block-Outcome : (b : Block) → Outcome (complete_block b) (serialize_block b)
  serialize_block-Outcome (block loc body label comment) = statement_document-Outcome _ loc (
      only (array-Outcome (serialize_statements-ItemsOutcome body))
        (given (text_or_null-IsDocument label) (given (text_or_null-IsDocument comment) end)))

  serialize_block_ptr-Outcome :
      (b : BlockPtr) → Outcome (complete_block_ptr b) (serialize_block_ptr b)
  serialize_block_ptr-Outcome no_block = failed
  serialize_block_ptr-Outcome (to_block b) = serialize_block-Outcome b

  pub serialize_block_or_null-Outcome :
      (b : BlockPtr) → Outcome (complete_block_or_null b) (serialize_block_or_null b)
  serialize_block_or_null-Outcome no_block = document tt
  serialize_block_or_null-Outcome (to_block b) = serialize_block-Outcome b

  serialize_statements-ItemsOutcome :
      (ss : Statements) → ItemsOutcome (complete_statements ss) (serialize_statements ss)
  serialize_statements-ItemsOutcome done = no_more
  serialize_statements-ItemsOutcome (then_do s rest) =
      pushed (serialize_statement-Outcome s) (serialize_statements-ItemsOutcome rest)

  serialize_cases-ItemsOutcome :
      (cs : Cases) → ItemsOutcome (complete_cases cs) (serialize_cases cs)
  serialize_cases-ItemsOutcome no_cases = no_more
  serialize_cases-ItemsOutcome (case value body rest) =
      pushed
        (array-Outcome
          (pair (serialize_expression-Outcome value) (serialize_block_ptr-Outcome body)))
        (serialize_cases-ItemsOutcome rest)
