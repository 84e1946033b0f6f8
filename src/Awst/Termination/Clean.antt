-- ===== src/Awst/Termination/Clean.antt =====
-- What removeDeadCode (src/awst/Termination.hpp) leaves: no statement behind a terminator.
use puya_sol.Prelude.{◌≡◌, refl, ap, ap₂, false, ◌&&◌, arith, Bool-cases, if◌then◌else◌, inl, inr}
use puya_sol.Awst.Stmt.{
  Statement, block_statement, if_else, while_loop, switch, for_in_loop, Block, block, BlockPtr,
  no_block, to_block, Statements, done, then_do, Cases, no_cases, case,
}
use puya_sol.Awst.Termination.{
  statement_always_terminates, ptr_always_terminates, cases_always_terminate,
  block_always_terminates, any_always_terminates, remove_dead_code, prune_children, prune_block,
  prune_ptr, prune_cases,
}

-- A terminator is the last statement.
abbrev pub EndsThere : Statement → Statements → Type 0
EndsThere st done = Unit
EndsThere st (then_do _ _) = statement_always_terminates st ≡ false

-- No statement stands behind one that always terminates, in this body and in every block below.
unfoldable mutual
  pub IsClean : Statements → Type 0
  IsClean done = Unit
  IsClean (then_do st rest) = IsCleanStmt st × EndsThere st rest × IsClean rest

  pub IsCleanStmt : Statement → Type 0
  IsCleanStmt (block_statement b) = IsCleanBlock b
  IsCleanStmt (if_else _ _ y n) = IsCleanPtr y × IsCleanPtr n
  IsCleanStmt (while_loop _ _ b) = IsCleanPtr b
  IsCleanStmt (for_in_loop _ _ _ b) = IsCleanPtr b
  IsCleanStmt (switch _ _ cs d) = IsCleanCases cs × IsCleanPtr d
  IsCleanStmt _ = Unit

  pub IsCleanBlock : Block → Type 0
  IsCleanBlock (block _ body _ _) = IsClean body

  pub IsCleanPtr : BlockPtr → Type 0
  IsCleanPtr no_block = Unit
  IsCleanPtr (to_block b) = IsCleanBlock b

  pub IsCleanCases : Cases → Type 0
  IsCleanCases no_cases = Unit
  IsCleanCases (case _ b cs) = IsCleanPtr b × IsCleanCases cs

then_do-IsClean :
    (st : Statement) (rest : Statements)
    → IsCleanStmt st
    → IsClean rest
    → IsClean (then_do st (if statement_always_terminates st then done else rest))
unfolding IsClean
then_do-IsClean st rest h k = elim (Bool-cases (statement_always_terminates st)) [
  | inl e ↦ rw e (h, tt, tt)
  | inr e ↦ rw e (h, ends st rest e, k)
]
  where
    ends :
        (st : Statement) (rest : Statements)
        → statement_always_terminates st ≡ false
        → EndsThere st rest
    ends st done e = tt
    ends st (then_do _ _) e = e

mutual
  unfolding IsClean remove_dead_code

  all-IsClean : (body : Statements) → IsClean (remove_dead_code body)
  all-IsClean done = tt
  all-IsClean (then_do st rest) =
      then_do-IsClean (prune_children st) (remove_dead_code rest) (stmt-IsClean st)
        (all-IsClean rest)

  stmt-IsClean : (st : Statement) → IsCleanStmt (prune_children st)
  stmt-IsClean (block_statement b) = block-IsClean b
  stmt-IsClean (if_else _ _ y n) = (ptr-IsClean y, ptr-IsClean n)
  stmt-IsClean (while_loop _ _ b) = ptr-IsClean b
  stmt-IsClean (for_in_loop _ _ _ b) = ptr-IsClean b
  stmt-IsClean (switch _ _ cs d) = (cases-IsClean cs, ptr-IsClean d)
  stmt-IsClean _ = tt

  block-IsClean : (b : Block) → IsCleanBlock (prune_block b)
  block-IsClean (block _ body _ _) = all-IsClean body

  ptr-IsClean : (b : BlockPtr) → IsCleanPtr (prune_ptr b)
  ptr-IsClean no_block = tt
  ptr-IsClean (to_block b) = block-IsClean b

  cases-IsClean : (cs : Cases) → IsCleanCases (prune_cases cs)
  cases-IsClean no_cases = tt
  cases-IsClean (case _ b cs) = (ptr-IsClean b, cases-IsClean cs)

-- A pruned body holds no unreachable statement, neither itself nor in any block inside it: a
-- statement that always terminates is the last of its body.
pub remove_dead_code-IsClean : (body : Statements) → IsClean (remove_dead_code body)
remove_dead_code-IsClean body = all-IsClean body

-- Pruning changes no answer of the termination test.
mutual
  unfolding remove_dead_code

  any-prune :
      (body : Statements)
      → any_always_terminates (remove_dead_code body) ≡ any_always_terminates body
  any-prune done = refl
  any-prune (then_do st rest) = ground (arith, stmt-prune st, any-prune rest)

  stmt-prune :
      (st : Statement)
      → statement_always_terminates (prune_children st) ≡ statement_always_terminates st
  stmt-prune (block_statement b) = block-prune b
  stmt-prune (if_else _ _ y n) = ap₂ (λ a b. a && b) (ptr-prune y) (ptr-prune n)
  stmt-prune (switch _ _ cs d) = ap₂ (λ a b. a && b) (ptr-prune d) (cases-prune cs)
  stmt-prune _ = refl

  block-prune : (b : Block) → block_always_terminates (prune_block b) ≡ block_always_terminates b
  block-prune (block _ body _ _) = any-prune body

  ptr-prune : (b : BlockPtr) → ptr_always_terminates (prune_ptr b) ≡ ptr_always_terminates b
  ptr-prune no_block = refl
  ptr-prune (to_block b) = block-prune b

  cases-prune : (cs : Cases) → cases_always_terminate (prune_cases cs) ≡ cases_always_terminate cs
  cases-prune no_cases = refl
  cases-prune (case _ b cs) = ap₂ (λ a b. a && b) (ptr-prune b) (cases-prune cs)

-- A clean body is left as it is.
mutual
  unfolding IsClean remove_dead_code

  all-fixed : (body : Statements) → IsClean body → remove_dead_code body ≡ body
  all-fixed done h = refl
  all-fixed (then_do st done) h = rw (stmt-fixed st h.0) (ground arith)
  all-fixed (then_do st (then_do st' rest)) h =
      rw (stmt-fixed st h.0, h.1, all-fixed (then_do st' rest) h.2)

  stmt-fixed : (st : Statement) → IsCleanStmt st → prune_children st ≡ st
  stmt-fixed (block_statement b) h = ap block_statement (block-fixed b h)
  stmt-fixed (if_else l c y n) h = ap₂ (if_else l c) (ptr-fixed y h.0) (ptr-fixed n h.1)
  stmt-fixed (while_loop l c b) h = ap (while_loop l c) (ptr-fixed b h)
  stmt-fixed (for_in_loop l q i b) h = ap (for_in_loop l q i) (ptr-fixed b h)
  stmt-fixed (switch l e cs d) h = ap₂ (switch l e) (cases-fixed cs h.0) (ptr-fixed d h.1)
  stmt-fixed _ h = refl

  block-fixed : (b : Block) → IsCleanBlock b → prune_block b ≡ b
  block-fixed (block l body n c) h = ap (λ x. block l x n c) (all-fixed body h)

  ptr-fixed : (b : BlockPtr) → IsCleanPtr b → prune_ptr b ≡ b
  ptr-fixed no_block h = refl
  ptr-fixed (to_block b) h = ap to_block (block-fixed b h)

  cases-fixed : (cs : Cases) → IsCleanCases cs → prune_cases cs ≡ cs
  cases-fixed no_cases h = refl
  cases-fixed (case e b cs) h = ap₂ (case e) (ptr-fixed b h.0) (cases-fixed cs h.1)

-- Pruning twice is pruning once, and pruning never changes whether a body counts as terminating.
pub remove_dead_code_idem :
    (body : Statements)
    → (remove_dead_code (remove_dead_code body) ≡ remove_dead_code body)
      × (any_always_terminates (remove_dead_code body) ≡ any_always_terminates body)
remove_dead_code_idem body = (all-fixed (remove_dead_code body) (all-IsClean body), any-prune body)
