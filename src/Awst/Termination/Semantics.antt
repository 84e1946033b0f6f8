-- ===== src/Awst/Termination/Semantics.antt =====
-- What the statements of src/awst/Node.h mean, as a big-step relation. The evaluation of
-- expressions belongs to the backend and to the AVM, so it is a parameter: the state, and what one
-- evaluation, one test and one assignment can do to it. The law is the documented behaviour
-- of a failing `assert` and of the program-exit opcode.
use puya_sol.Prelude.{◌≡◌, ◌≢◌, Bool, true, false, String}
use puya_sol.Prelude.{Option}
use puya_sol.Awst.Location.{SourceLocation}
use puya_sol.Awst.Operators.{UInt64BinaryOperator, BigUIntBinaryOperator}
use puya_sol.Awst.Expr.{Expression}
use puya_sol.Awst.Stmt.{
  Statement, block_statement, expression_statement, return_statement, if_else, while_loop,
  loop_exit, loop_continue, assignment_statement, goto, switch, for_in_loop,
  uint64_augmented_assignment, big_uint_augmented_assignment, Block, block, BlockPtr, no_block,
  to_block, Statements, done, then_do, Cases, no_cases, case,
}
use puya_sol.Awst.Termination.{ends_program}

pub record Machine : Type 1 where
  pub State : Type 0
  -- An expression statement runs to its end.
  pub evaluates : Expression → State → State → Type 0
  -- The evaluation ends the whole program: a failed assertion, a fault, an exit.
  pub halts : Expression → State → State → Type 0
  -- A condition has a truth value.
  pub tests : Expression → State → Bool → State → Type 0
  -- `value == case` in a switch.
  pub matches : Expression → Expression → State → Bool → State → Type 0
  -- The items of a loop over a sequence: another one is assigned, or none is left.
  pub next_item : Expression → Expression → State → State → Type 0
  pub no_more_items : Expression → Expression → State → State → Type 0
  -- An assignment or an augmented assignment.
  pub assigns : Statement → State → State → Type 0
  -- An assignment whose parts end the program.
  pub faults : Statement → State → State → Type 0
  -- The state in which a function returns the value.
  pub returns : Expression → State → State → Type 0
  pub ends_program-evaluates :
      (e : Expression) (s t : State) → ends_program e ≡ true → evaluates e s t → ⊥

-- How a statement ends: falling through, or leaving. Nothing in the compiler builds a `Goto`, and
-- a jump leaves every block.
pub data Outcome : Type 0 where
  normal returned broke continued halted : Outcome
  jumped : String → Outcome

-- How a loop goes on after its body.
abbrev pub GoesOn : Outcome → Type 0
GoesOn normal = Unit
GoesOn continued = Unit
GoesOn _ = ⊥

abbrev pub Leaves : Outcome → Type 0
Leaves returned = Unit
Leaves halted = Unit
Leaves (jumped _) = Unit
Leaves _ = ⊥

module _ (m : Machine) where
  open m use {
    State, evaluates, halts, tests, matches, next_item, no_more_items, assigns, faults, returns,
  }

  mutual
    pub data Exec : Statement → State → Outcome → State → Type 0 where
      in_block :
          {b : Block} {s t : State} {o : Outcome}
          → ExecBlock b s o t
          → Exec (block_statement b) s o t
      evaluated :
          {loc : SourceLocation} {e : Expression} {s t : State}
          → evaluates e s t
          → Exec (expression_statement loc e) s normal t
      evaluation_halts :
          {loc : SourceLocation} {e : Expression} {s t : State}
          → halts e s t
          → Exec (expression_statement loc e) s halted t
      gives :
          {loc : SourceLocation} {e : Expression} {s t : State}
          → returns e s t
          → Exec (return_statement loc e) s returned t
      return_halts :
          {loc : SourceLocation} {e : Expression} {s t : State}
          → halts e s t
          → Exec (return_statement loc e) s halted t
      exits : {loc : SourceLocation} {s : State} → Exec (loop_exit loc) s broke s
      continues : {loc : SourceLocation} {s : State} → Exec (loop_continue loc) s continued s
      jumps :
          {loc : SourceLocation} {target : String} {s : State}
          → Exec (goto loc target) s (jumped target) s
      stores :
          {loc : SourceLocation} {x e : Expression} {s t : State}
          → assigns (assignment_statement loc x e) s t
          → Exec (assignment_statement loc x e) s normal t
      store_halts :
          {loc : SourceLocation} {x e : Expression} {s t : State}
          → faults (assignment_statement loc x e) s t
          → Exec (assignment_statement loc x e) s halted t
      stores_uint64 :
          {loc : SourceLocation} {x e : Expression} {op : UInt64BinaryOperator} {s t : State}
          → assigns (uint64_augmented_assignment loc x op e) s t
          → Exec (uint64_augmented_assignment loc x op e) s normal t
      store_uint64_halts :
          {loc : SourceLocation} {x e : Expression} {op : UInt64BinaryOperator} {s t : State}
          → faults (uint64_augmented_assignment loc x op e) s t
          → Exec (uint64_augmented_assignment loc x op e) s halted t
      stores_big_uint :
          {loc : SourceLocation} {x e : Expression} {op : BigUIntBinaryOperator} {s t : State}
          → assigns (big_uint_augmented_assignment loc x op e) s t
          → Exec (big_uint_augmented_assignment loc x op e) s normal t
      store_big_uint_halts :
          {loc : SourceLocation} {x e : Expression} {op : BigUIntBinaryOperator} {s t : State}
          → faults (big_uint_augmented_assignment loc x op e) s t
          → Exec (big_uint_augmented_assignment loc x op e) s halted t
      if_true :
          {loc : SourceLocation} {c : Expression} {y n : BlockPtr} {s u t : State} {o : Outcome}
          → tests c s true u
          → ExecPtr y u o t
          → Exec (if_else loc c y n) s o t
      if_false :
          {loc : SourceLocation} {c : Expression} {y n : BlockPtr} {s u t : State} {o : Outcome}
          → tests c s false u
          → ExecPtr n u o t
          → Exec (if_else loc c y n) s o t
      if_halts :
          {loc : SourceLocation} {c : Expression} {y n : BlockPtr} {s t : State}
          → halts c s t
          → Exec (if_else loc c y n) s halted t
      while_done :
          {loc : SourceLocation} {c : Expression} {b : BlockPtr} {s t : State}
          → tests c s false t
          → Exec (while_loop loc c b) s normal t
      while_again :
          {loc : SourceLocation} {c : Expression} {b : BlockPtr} {s u v t : State} {p o : Outcome}
          → tests c s true u
          → ExecPtr b u p v
          → GoesOn p
          → Exec (while_loop loc c b) v o t
          → Exec (while_loop loc c b) s o t
      while_break :
          {loc : SourceLocation} {c : Expression} {b : BlockPtr} {s u t : State}
          → tests c s true u
          → ExecPtr b u broke t
          → Exec (while_loop loc c b) s normal t
      while_leave :
          {loc : SourceLocation} {c : Expression} {b : BlockPtr} {s u t : State} {o : Outcome}
          → tests c s true u
          → ExecPtr b u o t
          → Leaves o
          → Exec (while_loop loc c b) s o t
      while_halts :
          {loc : SourceLocation} {c : Expression} {b : BlockPtr} {s t : State}
          → halts c s t
          → Exec (while_loop loc c b) s halted t
      for_done :
          {loc : SourceLocation} {q i : Expression} {b : BlockPtr} {s t : State}
          → no_more_items q i s t
          → Exec (for_in_loop loc q i b) s normal t
      for_again :
          {loc : SourceLocation} {q i : Expression} {b : BlockPtr} {s u v t : State} {p o : Outcome}
          → next_item q i s u
          → ExecPtr b u p v
          → GoesOn p
          → Exec (for_in_loop loc q i b) v o t
          → Exec (for_in_loop loc q i b) s o t
      for_break :
          {loc : SourceLocation} {q i : Expression} {b : BlockPtr} {s u t : State}
          → next_item q i s u
          → ExecPtr b u broke t
          → Exec (for_in_loop loc q i b) s normal t
      for_leave :
          {loc : SourceLocation} {q i : Expression} {b : BlockPtr} {s u t : State} {o : Outcome}
          → next_item q i s u
          → ExecPtr b u o t
          → Leaves o
          → Exec (for_in_loop loc q i b) s o t
      for_halts :
          {loc : SourceLocation} {q i : Expression} {b : BlockPtr} {s t : State}
          → halts q s t
          → Exec (for_in_loop loc q i b) s halted t
      chosen :
          {loc : SourceLocation} {e : Expression} {cs : Cases} {d : BlockPtr} {s t : State}
          {o : Outcome}
          → ExecCases e cs d s o t
          → Exec (switch loc e cs d) s o t
      choice_halts :
          {loc : SourceLocation} {e : Expression} {cs : Cases} {d : BlockPtr} {s t : State}
          → halts e s t
          → Exec (switch loc e cs d) s halted t

    -- The cases are tried in order, then the default.
    pub data ExecCases : Expression → Cases → BlockPtr → State → Outcome → State → Type 0 where
      by_default :
          {e : Expression} {d : BlockPtr} {s t : State} {o : Outcome}
          → ExecPtr d s o t
          → ExecCases e no_cases d s o t
      hit :
          {e x : Expression} {b : BlockPtr} {cs : Cases} {d : BlockPtr} {s u t : State}
          {o : Outcome}
          → matches e x s true u
          → ExecPtr b u o t
          → ExecCases e (case x b cs) d s o t
      miss :
          {e x : Expression} {b : BlockPtr} {cs : Cases} {d : BlockPtr} {s u t : State}
          {o : Outcome}
          → matches e x s false u
          → ExecCases e cs d u o t
          → ExecCases e (case x b cs) d s o t

    pub data ExecPtr : BlockPtr → State → Outcome → State → Type 0 where
      absent : {s : State} → ExecPtr no_block s normal s
      present :
          {b : Block} {s t : State} {o : Outcome} → ExecBlock b s o t → ExecPtr (to_block b) s o t

    pub data ExecBlock : Block → State → Outcome → State → Type 0 where
      runs :
          {loc : SourceLocation} {body : Statements} {label comment : Option String} {s t : State}
          {o : Outcome}
          → ExecAll body s o t
          → ExecBlock (block loc body label comment) s o t

    pub data ExecAll : Statements → State → Outcome → State → Type 0 where
      finished : {s : State} → ExecAll done s normal s
      next :
          {st : Statement} {rest : Statements} {s u t : State} {o : Outcome}
          → Exec st s normal u
          → ExecAll rest u o t
          → ExecAll (then_do st rest) s o t
      stops :
          {st : Statement} {rest : Statements} {s t : State} {o : Outcome}
          → Exec st s o t
          → o ≢ normal
          → ExecAll (then_do st rest) s o t
