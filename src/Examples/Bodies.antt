-- ===== src/Examples/Bodies.antt =====
-- A body with unreachable statements, and a machine that runs it: the state counts the statements
-- that were evaluated, and a condition holds unless it is the constant `false`.
use puya_sol.Prelude.{ℕ, suc, ◌≡◌, refl, ◌≢◌, ◌↔◌, ◌∙◌, sym, true, false, not, none, [], ◌∷◌, map}
use puya_sol.Awst.Location.{SourceLocation, default_location}
use puya_sol.Awst.Expr.{Expression, null, node, ExprNode, uint64_binary_operation}
use puya_sol.Awst.Operators
use puya_sol.Awst.Stmt.{
  Statement, return_statement, if_else, assignment_statement, Block, block, to_block, Statements,
  done, then_do,
}
use puya_sol.Awst.Make.Constants.{make_integer_of, make_var_expression, make_true, uint64_t}
use puya_sol.Awst.Visit.{visit_expressions}
use puya_sol.Awst.Visit.Order.{visit_expressions-run, run, requested, visited}
use puya_sol.Awst.Visit.Order.Parts.{visited-parts, visited_all, parts}
use puya_sol.Awst.Termination.{
  is_false_constant, ends_program, block_always_terminates, remove_dead_code, any_always_terminates,
}
use puya_sol.Awst.Termination.Semantics.{
  Machine, returned, normal, ExecBlock, runs, ExecAll, next, stops, stores, if_true, gives, present,
}
use puya_sol.Awst.Termination.Sound.{block_always_terminates-leaves}
use puya_sol.Awst.Termination.Prune.{remove_dead_code-ExecAll}
use puya_sol.Awst.Termination.Clean.{IsClean, remove_dead_code-IsClean, remove_dead_code_idem}
use puya_sol.Awst.Returns.{Return, for_each_return_statement}
use puya_sol.Awst.Returns.Walk.{returns_of, returns_of-for_each_return_statement}

abbrev here : SourceLocation
here = default_location

abbrev x : Expression
x = make_var_expression "x" uint64_t here

abbrev sum_node : ExprNode
sum_node = uint64_binary_operation x Operators.add (make_integer_of 2 here)

abbrev sum : Expression
sum = node here uint64_t sum_node

abbrev assigned : Statement
assigned = assignment_statement here x sum

abbrev inner : Block
inner = block here (then_do (return_statement here x) (then_do assigned done)) none none

-- x = x + 2; if (true) { return x; x = x + 2; } else { return x; x = x + 2; } x = x + 2;
abbrev body : Statements
body = then_do assigned (
    then_do (if_else here (make_true here) (to_block inner) (to_block inner))
      (then_do assigned done))

abbrev whole : Block
whole = block here body none none

true_apart : true ≢ false
true_apart h = cc

returned_apart : returned ≢ normal
returned_apart h = cc

abbrev counter : Machine
counter = record {
  State = ℕ;
  evaluates = λ e s t. (ends_program e ≡ false) × (t ≡ suc s);
  halts = λ e s t. (ends_program e ≡ true) × (t ≡ s);
  tests = λ e s b t. (b ≡ not (is_false_constant e)) × (t ≡ s);
  matches = λ e c s b t. (b ≡ true) × (t ≡ s);
  next_item = λ q i s t. ⊥;
  no_more_items = λ q i s t. t ≡ s;
  assigns = λ st s t. t ≡ suc s;
  faults = λ st s t. ⊥;
  returns = λ e s t. t ≡ s;
  ends_program-evaluates = λ e s t h k. true_apart (sym h ∙ k.0);
}

abbrev whole_run : ExecBlock counter whole 0 returned 1
whole_run = runs (
    next (stores refl) (
      stops (if_true (refl, refl) (present (runs (stops (gives refl) returned_apart))))
        returned_apart))

visit_expressions-run_example :
    visit_expressions (λ e n. suc n) assigned 0 ≡ run (λ e n. suc n) (requested assigned) 0
visit_expressions-run_example = visit_expressions-run (λ e n. suc n) assigned 0

visited-parts_example :
    (visited (node here uint64_t sum_node)
      ≡ node here uint64_t sum_node ∷ visited_all (parts sum_node))
    × (visited null ≡ [])
visited-parts_example = visited-parts here uint64_t sum_node

block_always_terminates-leaves_example : returned ≢ normal
unfolding block_always_terminates
block_always_terminates-leaves_example =
    block_always_terminates-leaves counter whole 0 1 returned refl whole_run

remove_dead_code-ExecAll_example :
    ExecAll counter body 0 returned 1 ↔ ExecAll counter (remove_dead_code body) 0 returned 1
remove_dead_code-ExecAll_example = remove_dead_code-ExecAll counter body 0 1 returned

remove_dead_code-IsClean_example : IsClean (remove_dead_code body)
remove_dead_code-IsClean_example = remove_dead_code-IsClean body

remove_dead_code_idem_example :
    (remove_dead_code (remove_dead_code body) ≡ remove_dead_code body)
    × (any_always_terminates (remove_dead_code body) ≡ any_always_terminates body)
remove_dead_code_idem_example = remove_dead_code_idem body

abbrev negate : Return → Return
negate r = (r.0, sum)

returns_of-for_each_return_statement_example :
    (returns_of (for_each_return_statement negate body) ≡ map negate (returns_of body))
    × (any_always_terminates (for_each_return_statement negate body) ≡ any_always_terminates body)
returns_of-for_each_return_statement_example = returns_of-for_each_return_statement negate body

-- Both unreachable assignments are gone, and two returns are left.
dropped :
    remove_dead_code body
    ≡ then_do assigned (
        then_do
          (if_else here
            (make_true here)
            (to_block (block here (then_do (return_statement here x) done) none none))
            (to_block (block here (then_do (return_statement here x) done) none none)))
          done)
unfolding remove_dead_code
dropped = refl
