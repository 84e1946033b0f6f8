-- ===== src/Awst/Returns.antt =====
-- forEachReturnStatement (src/awst/StatementWalk.h). The function given to it may change the return
-- statement, so it is a function on its location and its value.
pub mod Walk
use puya_sol.Awst.Expr.{Expression}
use puya_sol.Awst.Location.{SourceLocation}
use puya_sol.Awst.Stmt.{
  Statement, block_statement, expression_statement, return_statement, if_else, while_loop,
  loop_exit, loop_continue, assignment_statement, goto, switch, for_in_loop,
  uint64_augmented_assignment, big_uint_augmented_assignment, Block, block, BlockPtr, no_block,
  to_block, Statements, done, then_do, Cases, no_cases, case,
}

-- The fields of a ReturnStatement.
abbrev pub Return : Type 0
Return = SourceLocation × Expression

abbrev as_statement : Return → Statement
as_statement r = return_statement r.0 r.1

module _ (f : Return → Return) where
  unfoldable mutual
    pub for_each_return_statement : Statements → Statements
    for_each_return_statement done = done
    for_each_return_statement (then_do st rest) =
        then_do (return_in st) (for_each_return_statement rest)

    -- A return is handed over; below any other statement its child blocks are walked.
    pub return_in : Statement → Statement
    return_in (return_statement loc e) = as_statement (f (loc, e))
    return_in (block_statement b) = block_statement (return_in_block b)
    return_in (if_else loc c y n) = if_else loc c (return_in_ptr y) (return_in_ptr n)
    return_in (while_loop loc c b) = while_loop loc c (return_in_ptr b)
    return_in (switch loc e cs d) = switch loc e (return_in_cases cs) (return_in_ptr d)
    return_in (for_in_loop loc q i b) = for_in_loop loc q i (return_in_ptr b)
    return_in (expression_statement loc e) = expression_statement loc e
    return_in (loop_exit loc) = loop_exit loc
    return_in (loop_continue loc) = loop_continue loc
    return_in (assignment_statement loc t e) = assignment_statement loc t e
    return_in (goto loc t) = goto loc t
    return_in (uint64_augmented_assignment loc t op e) = uint64_augmented_assignment loc t op e
    return_in (big_uint_augmented_assignment loc t op e) = big_uint_augmented_assignment loc t op e

    pub return_in_block : Block → Block
    return_in_block (block loc body label comment) =
        block loc (for_each_return_statement body) label comment

    pub return_in_ptr : BlockPtr → BlockPtr
    return_in_ptr no_block = no_block
    return_in_ptr (to_block b) = to_block (return_in_block b)

    pub return_in_cases : Cases → Cases
    return_in_cases no_cases = no_cases
    return_in_cases (case e b cs) = case e (return_in_ptr b) (return_in_cases cs)
