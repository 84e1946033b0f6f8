-- ===== src/Awst/Stmt.antt =====
-- The statements of src/awst/Node.h. A `Block` object is a statement; `BlockPtr` is a pointer to one
-- that may be null. The vectors of statements hold no null pointer: the walkers dereference their
-- items with no test.
use puya_sol.Prelude.{Option, String}
use puya_sol.Awst.Location.{SourceLocation}
use puya_sol.Awst.Operators.{UInt64BinaryOperator, BigUIntBinaryOperator}
use puya_sol.Awst.Expr.{Expression}

mutual
  pub data Statement : Type 0 where
    block_statement : Block → Statement
    expression_statement : SourceLocation → Expression → Statement
    return_statement : SourceLocation → Expression → Statement
    if_else : SourceLocation → Expression → BlockPtr → BlockPtr → Statement
    while_loop : SourceLocation → Expression → BlockPtr → Statement
    loop_exit : SourceLocation → Statement
    loop_continue : SourceLocation → Statement
    assignment_statement : SourceLocation → Expression → Expression → Statement
    goto : SourceLocation → String → Statement
    switch : SourceLocation → Expression → Cases → BlockPtr → Statement
    for_in_loop : SourceLocation → Expression → Expression → BlockPtr → Statement
    uint64_augmented_assignment :
        SourceLocation → Expression → UInt64BinaryOperator → Expression → Statement
    big_uint_augmented_assignment :
        SourceLocation → Expression → BigUIntBinaryOperator → Expression → Statement

  pub data Block : Type 0 where
    block : SourceLocation → Statements → Option String → Option String → Block

  pub data BlockPtr : Type 0 where
    no_block : BlockPtr
    to_block : Block → BlockPtr

  pub data Statements : Type 0 where
    done : Statements
    then_do : Statement → Statements → Statements

  pub data Cases : Type 0 where
    no_cases : Cases
    case : Expression → BlockPtr → Cases → Cases
