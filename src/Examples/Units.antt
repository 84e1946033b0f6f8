-- ===== src/Examples/Units.antt =====
-- A unit of two subroutines, one of which calls the other, and a contract; the default scratch layout.
use puya_sol.Prelude.{
  ◌+◌, ◌<◌, ◌≡◌, refl, true, false, ◌<>◌, none, some, List, [], ◌∷◌, String, All,
}
use puya_sol.Awst.Location.{default_location}
use puya_sol.Awst.Operators.{subroutine_id}
use puya_sol.Awst.Expr.{Expression, node, subroutine_call_expression, no_args}
use puya_sol.Awst.Stmt.{block, BlockPtr, to_block, no_block, done, then_do, expression_statement}
use puya_sol.Awst.Make.Constants.{void_t}
use puya_sol.Awst.Session.{fresh_session}
use puya_sol.Awst.Program.{
  RootNode, subroutine, contract, ContractMethod, Subroutine, MethodDocumentation, ContractFields,
}
use puya_sol.Awst.Roots.{validate_awst_roots}
use puya_sol.Awst.Visit.Order.{requested}
use puya_sol.Awst.Visit.Nodes.{nodes}
use puya_sol.Awst.Roots.Valid.{
  well_formed, validate_awst_roots-well_formed, validate_awst_roots-silent,
}
use puya_sol.ScratchLayout.{
  ScratchLayout, make_scratch_layout, reserved_slots, count_up, reserved_slots-contiguous,
}

abbrev call : String → Expression
call target =
    node default_location void_t (subroutine_call_expression (subroutine_id target) no_args)

abbrev calling : String → BlockPtr
calling target = to_block (
    block default_location (then_do (expression_statement default_location (call target)) done) none
      none)

abbrev no_documentation : MethodDocumentation
no_documentation = record { description = none; args = []; returns = none }

abbrev method : String → ContractMethod
method target = record {
  location = default_location;
  args = [];
  return_type = void_t;
  body = calling target;
  documentation = no_documentation;
  inline_opt = none;
  pure = false;
  cref = "Token";
  member_name = "approval_program";
  arc4_method_config = none;
}

abbrev library : String → BlockPtr → Subroutine
library name body = record {
  location = default_location;
  id = "lib." <> name;
  name = name;
  args = [];
  return_type = void_t;
  body = body;
  documentation = no_documentation;
  inline_opt = none;
  pure = false;
}

abbrev pub fields : ContractFields
fields = record {
  location = default_location;
  description = none;
  method_resolution_order = [];
  app_state = [];
  state_totals = none;
  reserved_scratch_space = [];
  avm_version = none;
  splitter = "";
}

abbrev pub unit : List RootNode
unit =
    subroutine (library "f" no_block)
    ∷ subroutine (library "g" (calling "lib.f"))
    ∷ contract "Token" "Token" (method "lib.g") (method "lib.f") [] fields
    ∷ []

validate_awst_roots-well_formed_example :
    (validate_awst_roots unit fresh_session).0 ≡ well_formed unit
validate_awst_roots-well_formed_example = validate_awst_roots-well_formed unit fresh_session

unit-valid : (validate_awst_roots unit fresh_session).0 ≡ true
unfolding requested nodes
unit-valid = validate_awst_roots-well_formed unit fresh_session

validate_awst_roots-silent_example : (validate_awst_roots unit fresh_session).1 ≡ fresh_session
validate_awst_roots-silent_example = validate_awst_roots-silent unit fresh_session unit-valid

abbrev default_layout : ScratchLayout
default_layout = record { memory_count = 5 }

accepted_five : make_scratch_layout 5 ≡ some default_layout
unfolding make_scratch_layout
accepted_five = refl

reserved_slots-contiguous_example :
    (reserved_slots default_layout ≡ count_up 0 (5 + 11))
    × All (λ s. s < 100) (reserved_slots default_layout)
    × (0 < 5)
    × (5 < 89)
reserved_slots-contiguous_example = reserved_slots-contiguous 5 default_layout accepted_five
