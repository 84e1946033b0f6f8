-- ===== src/Awst/Program.antt =====
-- The parts of a contract and the root nodes of src/awst/Node.h. A map is the list of its pairs, in the
-- order of the keys.
use puya_sol.Prelude.{Bool, Option, List, String, ℤ}
use puya_sol.Awst.Location.{SourceLocation}
use puya_sol.Awst.WType.{WType}
use puya_sol.Awst.Expr.{Expression}
use puya_sol.Awst.Stmt.{BlockPtr}

pub record MethodDocumentation : Type 0 where
  pub description : Option String
  pub args : List (String × String)
  pub returns : Option String

pub record Arc4BareMethodConfig : Type 0 where
  pub location : SourceLocation
  pub allowed_completion_types : List ℤ
  pub create : ℤ

pub record Arc4AbiMethodConfig : Type 0 where
  pub location : SourceLocation
  pub allowed_completion_types : List ℤ
  pub create : ℤ
  pub name : String
  pub readonly : Bool
  pub default_args : List (String × String)
  pub chunk : String

pub data Arc4MethodConfig : Type 0 where
  bare_method : Arc4BareMethodConfig → Arc4MethodConfig
  abi_method : Arc4AbiMethodConfig → Arc4MethodConfig

pub record SubroutineArgument : Type 0 where
  pub name : String
  pub location : SourceLocation
  pub wtype : Option WType

pub record ContractMethod : Type 0 where
  pub location : SourceLocation
  pub args : List SubroutineArgument
  pub return_type : Option WType
  pub body : BlockPtr
  pub documentation : MethodDocumentation
  pub inline_opt : Option Bool
  pub pure : Bool
  pub cref : String
  pub member_name : String
  pub arc4_method_config : Option Arc4MethodConfig

pub data AppStorageKind : Type 0 where
  app_global account_local box : AppStorageKind

pub record AppStorageDefinition : Type 0 where
  pub location : SourceLocation
  pub member_name : String
  pub storage_kind : AppStorageKind
  pub storage_wtype : Option WType
  pub key : Expression
  pub is_map : Bool
  pub description : Option String

pub record StateTotals : Type 0 where
  pub global_uints : Option ℤ
  pub local_uints : Option ℤ
  pub global_bytes : Option ℤ
  pub local_bytes : Option ℤ

-- The fields of `Contract` besides its names and its methods.
pub record ContractFields : Type 0 where
  pub location : SourceLocation
  pub description : Option String
  pub method_resolution_order : List String
  pub app_state : List AppStorageDefinition
  pub state_totals : Option StateTotals
  pub reserved_scratch_space : List ℤ
  pub avm_version : Option ℤ
  pub splitter : String

pub record Subroutine : Type 0 where
  pub location : SourceLocation
  pub id : String
  pub name : String
  pub args : List SubroutineArgument
  pub return_type : Option WType
  pub body : BlockPtr
  pub documentation : MethodDocumentation
  pub inline_opt : Option Bool
  pub pure : Bool

-- The fields of `LogicSignature` besides its names and its program.
pub record SignatureFields : Type 0 where
  pub location : SourceLocation
  pub docstring : Option String
  pub reserved_scratch_space : List ℤ
  pub avm_version : Option ℤ
  pub validate_encoding : Option Bool

pub data RootNode : Type 0 where
  subroutine : Subroutine → RootNode
  contract :
      (id name : String) (approval_program clear_program : ContractMethod)
      (methods : List ContractMethod) (fields : ContractFields)
      → RootNode
  logic_signature :
      (id short_name : String) (program : Option Subroutine) (fields : SignatureFields) → RootNode
