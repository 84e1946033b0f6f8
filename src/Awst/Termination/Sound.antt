-- ===== src/Awst/Termination/Sound.antt =====
-- blockAlwaysTerminates (src/awst/Termination.hpp) against the runs of a block.
use puya_sol.Prelude.{◌≡◌, ◌≢◌, refl, ◌&&◌, ◌||◌, ◌⊎◌, inl, inr, Bool, true, arith}
use puya_sol.Awst.Expr.{Expression}
use puya_sol.Awst.Stmt.{Statement, Block, BlockPtr, Statements, Cases}
use puya_sol.Awst.Termination.{
  statement_always_terminates, ptr_always_terminates, cases_always_terminate,
  block_always_terminates, any_always_terminates,
}
use puya_sol.Awst.Termination.Semantics.{
  Machine, Outcome, normal, Exec, in_block, evaluated, stores, stores_uint64, stores_big_uint,
  if_true, if_false, while_done, while_again, while_break, while_leave, for_done, for_again,
  for_break, for_leave, chosen, ExecCases, by_default, hit, miss, ExecPtr, absent, present,
  ExecBlock, runs, ExecAll, finished, next, stops,
}

and_both : (a b : Bool) → (a && b) ≡ true → (a ≡ true) × (b ≡ true)
and_both a b h = ground arith

or_either : (a b : Bool) → (a || b) ≡ true → (a ≡ true) ⊎ (b ≡ true)
or_either a b h = ground arith

module _ (m : Machine) where
  open m use {State}

  mutual
    unfolding statement_always_terminates

    Exec-leaves :
        {st : Statement} {s t : State} {o : Outcome}
        → Exec m st s o t
        → statement_always_terminates st ≡ true
        → o ≢ normal
    Exec-leaves (in_block d) h = ExecBlock-leaves d h
    Exec-leaves (evaluated {e = e} {s} {t} d) h = λ _. m.ends_program-evaluates e s t h d
    Exec-leaves (if_true _ d) h = ExecPtr-leaves d (and_both _ _ h).0
    Exec-leaves (if_false _ d) h = ExecPtr-leaves d (and_both _ _ h).1
    Exec-leaves (chosen d) h = let q = and_both _ _ h in ExecCases-leaves d q.0 q.1
    Exec-leaves (while_done _) h = cc
    Exec-leaves (while_again _ _ _ _) h = cc
    Exec-leaves (while_break _ _) h = cc
    Exec-leaves (for_done _) h = cc
    Exec-leaves (for_again _ _ _ _) h = cc
    Exec-leaves (for_break _ _) h = cc
    Exec-leaves (while_leave _ _ _) h = cc
    Exec-leaves (for_leave _ _ _) h = cc
    Exec-leaves (stores _) h = cc
    Exec-leaves (stores_uint64 _) h = cc
    Exec-leaves (stores_big_uint _) h = cc
    Exec-leaves _ h = λ e. cc

    ExecCases-leaves :
        {e : Expression} {cs : Cases} {d : BlockPtr} {s t : State} {o : Outcome}
        → ExecCases m e cs d s o t
        → ptr_always_terminates d ≡ true
        → cases_always_terminate cs ≡ true
        → o ≢ normal
    ExecCases-leaves (by_default d) hd hc = ExecPtr-leaves d hd
    ExecCases-leaves (hit _ d) hd hc = ExecPtr-leaves d (and_both _ _ hc).0
    ExecCases-leaves (miss _ d) hd hc = ExecCases-leaves d hd (and_both _ _ hc).1

    ExecPtr-leaves :
        {b : BlockPtr} {s t : State} {o : Outcome}
        → ExecPtr m b s o t
        → ptr_always_terminates b ≡ true
        → o ≢ normal
    ExecPtr-leaves absent h = cc
    ExecPtr-leaves (present d) h = ExecBlock-leaves d h

    ExecBlock-leaves :
        {b : Block} {s t : State} {o : Outcome}
        → ExecBlock m b s o t
        → block_always_terminates b ≡ true
        → o ≢ normal
    ExecBlock-leaves (runs d) h = ExecAll-leaves d h

    ExecAll-leaves :
        {body : Statements} {s t : State} {o : Outcome}
        → ExecAll m body s o t
        → any_always_terminates body ≡ true
        → o ≢ normal
    ExecAll-leaves finished h = cc
    ExecAll-leaves (next d d') h = elim (or_either _ _ h) [
      | inl now ↦ absurd (Exec-leaves d now refl)
      | inr later ↦ ExecAll-leaves d' later
    ]
    ExecAll-leaves (stops d ne) h = ne

-- A block for which the test answers yes never falls through, however its expressions evaluate.
pub block_always_terminates-leaves :
    (m : Machine) (b : Block) (s t : m.State) (o : Outcome)
    → block_always_terminates b ≡ true
    → ExecBlock m b s o t
    → o ≢ normal
block_always_terminates-leaves m b s t o h d = ExecBlock-leaves m d h

pub statement_always_terminates-leaves :
    (m : Machine) (st : Statement) (s t : m.State)
    → statement_always_terminates st ≡ true
    → ¬ Exec m st s normal t
statement_always_terminates-leaves m st s t h d = Exec-leaves m d h refl
