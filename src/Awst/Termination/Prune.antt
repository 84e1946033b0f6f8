-- ===== src/Awst/Termination/Prune.antt =====
-- removeDeadCode (src/awst/Termination.hpp): what it keeps and what it leaves.
use puya_sol.Prelude.{Option, String, ◌≡◌, ◌↔◌, inl, inr, true, Bool-cases, if◌then◌else◌}
use puya_sol.Awst.Expr.{Expression}
use puya_sol.Awst.Location.{SourceLocation}
use puya_sol.Awst.Stmt.{
  Statement, block_statement, if_else, while_loop, switch, for_in_loop, Block, block, BlockPtr,
  no_block, to_block, Statements, done, then_do, Cases, no_cases, case,
}
use puya_sol.Awst.Termination.{
  statement_always_terminates, remove_dead_code, prune_children, prune_block, prune_ptr,
  prune_cases,
}
use puya_sol.Awst.Termination.Sound.{statement_always_terminates-leaves}
use puya_sol.Awst.Termination.Semantics.{
  Machine, Outcome, Exec, in_block, if_true, if_false, if_halts, while_done, while_again,
  while_break, while_leave, while_halts, for_done, for_again, for_break, for_leave, for_halts,
  chosen, choice_halts, ExecCases, by_default, hit, miss, ExecPtr, present, ExecBlock, runs,
  ExecAll, next, stops,
}

module _ (m : Machine) where
  open m use {State}

  -- What runs the one way runs the other way.
  abbrev PtrMap : BlockPtr → BlockPtr → Type 0
  PtrMap b c = (s : State) (o : Outcome) (t : State) → ExecPtr m b s o t → ExecPtr m c s o t

  if-map :
      {loc : SourceLocation} {c : Expression} {y n y' n' : BlockPtr} {s t : State} {o : Outcome}
      → PtrMap y y'
      → PtrMap n n'
      → Exec m (if_else loc c y n) s o t
      → Exec m (if_else loc c y' n') s o t
  if-map f g (if_true h d) = if_true h (f _ _ _ d)
  if-map f g (if_false h d) = if_false h (g _ _ _ d)
  if-map f g (if_halts h) = if_halts h

  while-map :
      {loc : SourceLocation} {c : Expression} {b b' : BlockPtr} {s t : State} {o : Outcome}
      → PtrMap b b'
      → Exec m (while_loop loc c b) s o t
      → Exec m (while_loop loc c b') s o t
  while-map f (while_done h) = while_done h
  while-map f (while_again h d k d') = while_again h (f _ _ _ d) k (while-map f d')
  while-map f (while_break h d) = while_break h (f _ _ _ d)
  while-map f (while_leave h d k) = while_leave h (f _ _ _ d) k
  while-map f (while_halts h) = while_halts h

  for-map :
      {loc : SourceLocation} {q i : Expression} {b b' : BlockPtr} {s t : State} {o : Outcome}
      → PtrMap b b'
      → Exec m (for_in_loop loc q i b) s o t
      → Exec m (for_in_loop loc q i b') s o t
  for-map f (for_done h) = for_done h
  for-map f (for_again h d k d') = for_again h (f _ _ _ d) k (for-map f d')
  for-map f (for_break h d) = for_break h (f _ _ _ d)
  for-map f (for_leave h d k) = for_leave h (f _ _ _ d) k
  for-map f (for_halts h) = for_halts h

  abbrev CasesMap : Cases → BlockPtr → Cases → BlockPtr → Type 0
  CasesMap cs d cs' d' =
      (e : Expression) (s : State) (o : Outcome) (t : State)
      → ExecCases m e cs d s o t
      → ExecCases m e cs' d' s o t

  switch-map :
      {loc : SourceLocation} {e : Expression} {cs cs' : Cases} {d d' : BlockPtr} {s t : State}
      {o : Outcome}
      → CasesMap cs d cs' d'
      → Exec m (switch loc e cs d) s o t
      → Exec m (switch loc e cs' d') s o t
  switch-map f (chosen r) = chosen (f _ _ _ _ r)
  switch-map f (choice_halts h) = choice_halts h

  none-map : {d d' : BlockPtr} → PtrMap d d' → CasesMap no_cases d no_cases d'
  none-map f e s o t (by_default r) = by_default (f _ _ _ r)

  case-map :
      {x : Expression} {b b' : BlockPtr} {cs cs' : Cases} {d d' : BlockPtr}
      → PtrMap b b'
      → CasesMap cs d cs' d'
      → CasesMap (case x b cs) d (case x b' cs') d'
  case-map f g e s o t (hit h r) = hit h (f _ _ _ r)
  case-map f g e s o t (miss h r) = miss h (g _ _ _ _ r)

  block-map :
      {b b' : Block} {s t : State} {o : Outcome}
      → (ExecBlock m b s o t → ExecBlock m b' s o t)
      → Exec m (block_statement b) s o t
      → Exec m (block_statement b') s o t
  block-map f (in_block d) = in_block (f d)

  block_of_all :
      {loc : SourceLocation} {label comment : Option String} {body body' : Statements} {s t : State}
      {o : Outcome}
      → (ExecAll m body s o t → ExecAll m body' s o t)
      → ExecBlock m (block loc body label comment) s o t
      → ExecBlock m (block loc body' label comment) s o t
  block_of_all f (runs d) = runs (f d)

  ptr-map :
      {b b' : Block}
      → ((s : State) (o : Outcome) (t : State) → ExecBlock m b s o t → ExecBlock m b' s o t)
      → PtrMap (to_block b) (to_block b')
  ptr-map f s o t (present d) = present (f s o t d)

  all-map :
      {st st' : Statement} {rest rest' : Statements}
      → ((s : State) (o : Outcome) (t : State) → Exec m st s o t → Exec m st' s o t)
      → ((s : State) (o : Outcome) (t : State) → ExecAll m rest s o t → ExecAll m rest' s o t)
      → (s : State) (o : Outcome) (t : State) → ExecAll m (then_do st rest) s o t
      → ExecAll m (then_do st' rest') s o t
  all-map f g s o t (next d d') = next (f _ _ _ d) (g _ _ _ d')
  all-map f g s o t (stops d ne) = stops (f _ _ _ d) ne

  -- Behind a statement that never falls through, anything may stand.
  cut :
      {st : Statement} {rest rest' : Statements} {s t : State} {o : Outcome}
      → statement_always_terminates st ≡ true
      → ExecAll m (then_do st rest) s o t
      → ExecAll m (then_do st rest') s o t
  cut h (next d d') = absurd (statement_always_terminates-leaves m _ _ _ h d)
  cut h (stops d ne) = stops d ne

  -- The runs of the pruned program are those of the program, both ways.
  abbrev SameStmt : Statement → Statement → Type 0
  SameStmt a b = (s : State) (o : Outcome) (t : State) → Exec m a s o t ↔ Exec m b s o t

  abbrev SameBlock : Block → Block → Type 0
  SameBlock a b = (s : State) (o : Outcome) (t : State) → ExecBlock m a s o t ↔ ExecBlock m b s o t

  abbrev SamePtr : BlockPtr → BlockPtr → Type 0
  SamePtr a b = (s : State) (o : Outcome) (t : State) → ExecPtr m a s o t ↔ ExecPtr m b s o t

  abbrev SameAll : Statements → Statements → Type 0
  SameAll a b = (s : State) (o : Outcome) (t : State) → ExecAll m a s o t ↔ ExecAll m b s o t

  abbrev SameCases : Cases → Cases → Type 0
  SameCases cs cs' =
      (d d' : BlockPtr) → SamePtr d d' → (CasesMap cs d cs' d' × CasesMap cs' d' cs d)

  forward : {a b : BlockPtr} → SamePtr a b → PtrMap a b
  forward h s o t = (h s o t).0

  backward : {a b : BlockPtr} → SamePtr a b → PtrMap b a
  backward h s o t = (h s o t).1

  then_do-Same :
      (st st' : Statement) (rest rest' : Statements)
      → SameStmt st st'
      → SameAll rest rest'
      → SameAll
          (then_do st rest)
          (then_do st' (if statement_always_terminates st' then done else rest'))
  then_do-Same st st' rest rest' h k s o t = elim (Bool-cases (statement_always_terminates st')) [
    | inl ends ↦ rw ends (
      (λ d. cut ends (all-map (λ s o t. (h s o t).0) (λ s o t. (k s o t).0) s o t d)),
      (λ d.
          all-map {rest = rest'} (λ s o t. (h s o t).1) (λ s o t. (k s o t).1) s o t (cut ends d)),
    )
    | inr goes ↦ rw goes (
      (λ d. all-map (λ s o t. (h s o t).0) (λ s o t. (k s o t).0) s o t d),
      (λ d. all-map (λ s o t. (h s o t).1) (λ s o t. (k s o t).1) s o t d),
    )
  ]

  mutual
    unfolding remove_dead_code

    stmt-Same : (st : Statement) → SameStmt st (prune_children st)
    stmt-Same (block_statement b) s o t =
        (block-map (block-Same b s o t).0, block-map (block-Same b s o t).1)
    stmt-Same (if_else loc c y n) s o t = (
      if-map (forward (ptr-Same y)) (forward (ptr-Same n)),
      if-map (backward (ptr-Same y)) (backward (ptr-Same n)),
    )
    stmt-Same (while_loop loc c b) s o t =
        (while-map (forward (ptr-Same b)), while-map (backward (ptr-Same b)))
    stmt-Same (for_in_loop loc q i b) s o t =
        (for-map (forward (ptr-Same b)), for-map (backward (ptr-Same b)))
    stmt-Same (switch loc e cs d) s o t =
        let q = cases-Same cs d (prune_ptr d) (ptr-Same d) in (switch-map q.0, switch-map q.1)
    stmt-Same _ s o t = (λ d. d, λ d. d)

    block-Same : (b : Block) → SameBlock b (prune_block b)
    block-Same (block loc body label comment) s o t =
        let q = all-Same body s o t in (block_of_all q.0, block_of_all q.1)

    ptr-Same : (b : BlockPtr) → SamePtr b (prune_ptr b)
    ptr-Same no_block s o t = (λ d. d, λ d. d)
    ptr-Same (to_block b) s o t = (
      ptr-map (λ s o t. (block-Same b s o t).0) s o t,
      ptr-map (λ s o t. (block-Same b s o t).1) s o t,
    )

    cases-Same : (cs : Cases) → SameCases cs (prune_cases cs)
    cases-Same no_cases d d' h = (none-map (forward h), none-map (backward h))
    cases-Same (case e b cs) d d' h =
        let q = cases-Same cs d d' h in
        (case-map (forward (ptr-Same b)) q.0, case-map (backward (ptr-Same b)) q.1)

    all-Same : (body : Statements) → SameAll body (remove_dead_code body)
    all-Same done = λ s o t. (λ d. d, λ d. d)
    all-Same (then_do st rest) =
        then_do-Same st (prune_children st) rest (remove_dead_code rest) (stmt-Same st)
          (all-Same rest)

-- Removing dead code changes no run: from every state, a body and its pruned form end in the same
-- ways and in the same states, at every depth of nesting.
pub remove_dead_code-ExecAll :
    (m : Machine) (body : Statements) (s t : m.State) (o : Outcome)
    → ExecAll m body s o t ↔ ExecAll m (remove_dead_code body) s o t
remove_dead_code-ExecAll m body s t o = all-Same m body s o t
