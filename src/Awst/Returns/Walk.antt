-- ===== src/Awst/Returns/Walk.antt =====
-- What forEachReturnStatement (src/awst/StatementWalk.h) reaches and what it leaves alone.
use mathlib.Core.List.{map-append}
use puya_sol.Prelude.{◌≡◌, refl, ap₂, sym, ◌∙◌, List, [], ◌∷◌, ◌++◌, map, ◌&&◌, ◌||◌}
use puya_sol.Awst.Stmt.{
  Statement, block_statement, return_statement, if_else, while_loop, switch, for_in_loop, Block,
  block, BlockPtr, no_block, to_block, Statements, done, then_do, Cases, no_cases, case,
}
use puya_sol.Awst.Termination.{
  statement_always_terminates, ptr_always_terminates, cases_always_terminate,
  block_always_terminates, any_always_terminates,
}
use puya_sol.Awst.Returns.{
  Return, for_each_return_statement, return_in, return_in_block, return_in_ptr, return_in_cases,
}

-- All return statements of a body, from top to bottom.
unfoldable mutual
  pub returns_of : Statements → List Return
  returns_of done = []
  returns_of (then_do st rest) = returns_of_stmt st ++ returns_of rest

  pub returns_of_stmt : Statement → List Return
  returns_of_stmt (return_statement loc e) = (loc, e) ∷ []
  returns_of_stmt (block_statement b) = returns_of_block b
  returns_of_stmt (if_else _ _ y n) = returns_of_ptr y ++ returns_of_ptr n
  returns_of_stmt (while_loop _ _ b) = returns_of_ptr b
  returns_of_stmt (for_in_loop _ _ _ b) = returns_of_ptr b
  returns_of_stmt (switch _ _ cs d) = returns_of_cases cs ++ returns_of_ptr d
  returns_of_stmt _ = []

  pub returns_of_block : Block → List Return
  returns_of_block (block _ body _ _) = returns_of body

  pub returns_of_ptr : BlockPtr → List Return
  returns_of_ptr no_block = []
  returns_of_ptr (to_block b) = returns_of_block b

  pub returns_of_cases : Cases → List Return
  returns_of_cases no_cases = []
  returns_of_cases (case _ b cs) = returns_of_ptr b ++ returns_of_cases cs

module _ (f : Return → Return) where
  join :
      {a c : List Return} (b d : List Return)
      → a ≡ map f b
      → c ≡ map f d
      → (a ++ c) ≡ map f (b ++ d)
  join b d h k = ap₂ (λ x y. x ++ y) h k ∙ sym (map-append f b d)

  mutual
    unfolding for_each_return_statement returns_of

    all-walk :
        (body : Statements)
        → returns_of (for_each_return_statement f body) ≡ map f (returns_of body)
    all-walk done = refl
    all-walk (then_do st rest) = join _ _ (stmt-walk st) (all-walk rest)

    stmt-walk : (st : Statement) → returns_of_stmt (return_in f st) ≡ map f (returns_of_stmt st)
    stmt-walk (block_statement b) = block-walk b
    stmt-walk (if_else _ _ y n) = join _ _ (ptr-walk y) (ptr-walk n)
    stmt-walk (while_loop _ _ b) = ptr-walk b
    stmt-walk (for_in_loop _ _ _ b) = ptr-walk b
    stmt-walk (switch _ _ cs d) = join _ _ (cases-walk cs) (ptr-walk d)
    stmt-walk _ = refl

    block-walk : (b : Block) → returns_of_block (return_in_block f b) ≡ map f (returns_of_block b)
    block-walk (block _ body _ _) = all-walk body

    ptr-walk : (b : BlockPtr) → returns_of_ptr (return_in_ptr f b) ≡ map f (returns_of_ptr b)
    ptr-walk no_block = refl
    ptr-walk (to_block b) = block-walk b

    cases-walk :
        (cs : Cases) → returns_of_cases (return_in_cases f cs) ≡ map f (returns_of_cases cs)
    cases-walk no_cases = refl
    cases-walk (case _ b cs) = join _ _ (ptr-walk b) (cases-walk cs)

  mutual
    unfolding for_each_return_statement statement_always_terminates

    all-ends :
        (body : Statements)
        → any_always_terminates (for_each_return_statement f body) ≡ any_always_terminates body
    all-ends done = refl
    all-ends (then_do st rest) = ap₂ (λ a b. a || b) (stmt-ends st) (all-ends rest)

    stmt-ends :
        (st : Statement)
        → statement_always_terminates (return_in f st) ≡ statement_always_terminates st
    stmt-ends (block_statement b) = block-ends b
    stmt-ends (if_else _ _ y n) = ap₂ (λ a b. a && b) (ptr-ends y) (ptr-ends n)
    stmt-ends (switch _ _ cs d) = ap₂ (λ a b. a && b) (ptr-ends d) (cases-ends cs)
    stmt-ends _ = refl

    block-ends :
        (b : Block) → block_always_terminates (return_in_block f b) ≡ block_always_terminates b
    block-ends (block _ body _ _) = all-ends body

    ptr-ends : (b : BlockPtr) → ptr_always_terminates (return_in_ptr f b) ≡ ptr_always_terminates b
    ptr-ends no_block = refl
    ptr-ends (to_block b) = block-ends b

    cases-ends :
        (cs : Cases) → cases_always_terminate (return_in_cases f cs) ≡ cases_always_terminate cs
    cases-ends no_cases = refl
    cases-ends (case _ b cs) = ap₂ (λ a b. a && b) (ptr-ends b) (cases-ends cs)

-- The walk applies its function to each return statement at any depth, once and in order, and what
-- it does to them never changes whether the body counts as terminating.
pub returns_of-for_each_return_statement :
    (f : Return → Return) (body : Statements)
    → (returns_of (for_each_return_statement f body) ≡ map f (returns_of body))
      × (any_always_terminates (for_each_return_statement f body) ≡ any_always_terminates body)
returns_of-for_each_return_statement f body = (all-walk f body, all-ends f body)
