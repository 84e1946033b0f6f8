-- ===== src/Awst/Termination.antt =====
-- src/awst/Termination.hpp. `remove_dead_code` returns what the source writes into the vector; the
-- blocks under a statement are reached as forEachChildBlock (src/awst/StatementWalk.h) reaches them.
pub mod Semantics
pub mod Sound
pub mod Prune
pub mod Clean
use puya_sol.Prelude.{Bool, true, false, ◌&&◌, ◌||◌, not, ◌==◌, string_eq, if◌then◌else◌, String}
use puya_sol.Awst.Expr.{
  Expression, null, node, ExprNode, bool_constant, assert_expression, intrinsic_call,
}
use puya_sol.Awst.Stmt.{
  Statement, block_statement, expression_statement, return_statement, if_else, while_loop,
  loop_exit, loop_continue, assignment_statement, goto, switch, for_in_loop,
  uint64_augmented_assignment, big_uint_augmented_assignment, Block, block, BlockPtr, no_block,
  to_block, Statements, done, then_do, Cases, no_cases, case,
}

-- The operand of an assertion is the constant `false`.
abbrev pub is_false_constant : Expression → Bool
is_false_constant (node _ _ (bool_constant value)) = not value
is_false_constant _ = false

-- `assert(false)`, or the program-exit intrinsic `return`.
abbrev pub ends_program : Expression → Bool
ends_program (node _ _ (assert_expression condition _ _)) = is_false_constant condition
ends_program (node _ _ (intrinsic_call op_code _ _)) = op_code == "return"
ends_program _ = false

unfoldable mutual
  pub statement_always_terminates : Statement → Bool
  statement_always_terminates (return_statement _ _) = true
  statement_always_terminates (loop_exit _) = true
  statement_always_terminates (loop_continue _) = true
  statement_always_terminates (block_statement b) = block_always_terminates b
  statement_always_terminates (if_else _ _ if_branch else_branch) =
      ptr_always_terminates if_branch && ptr_always_terminates else_branch
  statement_always_terminates (switch _ _ cases default_case) =
      ptr_always_terminates default_case && cases_always_terminate cases
  statement_always_terminates (expression_statement _ e) = ends_program e
  statement_always_terminates (while_loop _ _ _) = false
  statement_always_terminates (for_in_loop _ _ _ _) = false
  statement_always_terminates (assignment_statement _ _ _) = false
  statement_always_terminates (goto _ _) = false
  statement_always_terminates (uint64_augmented_assignment _ _ _ _) = false
  statement_always_terminates (big_uint_augmented_assignment _ _ _ _) = false

  -- `block && blockAlwaysTerminates(*block)`.
  pub ptr_always_terminates : BlockPtr → Bool
  ptr_always_terminates no_block = false
  ptr_always_terminates (to_block b) = block_always_terminates b

  -- std::all_of over the cases of a switch.
  pub cases_always_terminate : Cases → Bool
  cases_always_terminate no_cases = true
  cases_always_terminate (case _ b rest) = ptr_always_terminates b && cases_always_terminate rest

  pub block_always_terminates : Block → Bool
  block_always_terminates (block _ body _ _) = any_always_terminates body

  -- std::any_of over the statements of a block.
  pub any_always_terminates : Statements → Bool
  any_always_terminates done = false
  any_always_terminates (then_do st rest) =
      statement_always_terminates st || any_always_terminates rest

unfoldable mutual
  unfolding statement_always_terminates

  -- The loop of removeDeadCode from one index on: the children first, then the test.
  pub remove_dead_code : Statements → Statements
  remove_dead_code done = done
  remove_dead_code (then_do st rest) =
      let st' = prune_children st in
      let rest' = remove_dead_code rest in
      then_do st' (if statement_always_terminates st' then done else rest')

  -- forEachChildBlock with the call of removeDeadCode on each child.
  pub prune_children : Statement → Statement
  prune_children (block_statement b) = block_statement (prune_block b)
  prune_children (if_else loc c if_branch else_branch) =
      if_else loc c (prune_ptr if_branch) (prune_ptr else_branch)
  prune_children (while_loop loc c body) = while_loop loc c (prune_ptr body)
  prune_children (switch loc e cases default_case) =
      switch loc e (prune_cases cases) (prune_ptr default_case)
  prune_children (for_in_loop loc sequence items body) =
      for_in_loop loc sequence items (prune_ptr body)
  prune_children (expression_statement loc e) = expression_statement loc e
  prune_children (return_statement loc e) = return_statement loc e
  prune_children (loop_exit loc) = loop_exit loc
  prune_children (loop_continue loc) = loop_continue loc
  prune_children (assignment_statement loc t e) = assignment_statement loc t e
  prune_children (goto loc t) = goto loc t
  prune_children (uint64_augmented_assignment loc t op e) = uint64_augmented_assignment loc t op e
  prune_children (big_uint_augmented_assignment loc t op e) =
      big_uint_augmented_assignment loc t op e

  pub prune_block : Block → Block
  prune_block (block loc body label comment) = block loc (remove_dead_code body) label comment

  pub prune_ptr : BlockPtr → BlockPtr
  prune_ptr no_block = no_block
  prune_ptr (to_block b) = to_block (prune_block b)

  pub prune_cases : Cases → Cases
  prune_cases no_cases = no_cases
  prune_cases (case e b rest) = case e (prune_ptr b) (prune_cases rest)
