-- ===== src/Json/Serializer/Roots.antt =====
-- AWSTSerializer::serialize and what it writes of root nodes, methods and storage
-- (src/json/AWSTSerializer.cpp). `none` stands for following a null pointer.
pub mod Documents
use puya_sol.Prelude.{
  Bool, true, false, Option, none, some, List, [], ◌∷◌, String, ℤ, pos, if◌then◌else◌,
}
use puya_sol.Awst.Location.{SourceLocation}
use puya_sol.Awst.WType.{WType, basic, box_key_type}
use puya_sol.Awst.Program.{
  MethodDocumentation, Arc4BareMethodConfig, Arc4AbiMethodConfig, Arc4MethodConfig, bare_method,
  abi_method, SubroutineArgument, ContractMethod, AppStorageKind, app_global, account_local, box,
  AppStorageDefinition, StateTotals, ContractFields, Subroutine, SignatureFields, RootNode,
  subroutine, contract, logic_signature,
}
use puya_sol.Json.Value.{
  Json, json_null, boolean, number, text, array, object, Items, no_items, item, Members, no_members,
  assign, assign_all, text_or_null, number_or_null, boolean_or_null, nonempty_or_null, text_items,
  number_items, push, as_array,
}
use puya_sol.Json.Serializer.Types.{serialize_source_location, serialize_wtype}
use puya_sol.Json.Serializer.Nodes.{serialize_or_null}
use puya_sol.Json.Serializer.Parts.{Entry}
use puya_sol.Json.Serializer.Statements.{serialize_block_or_null, statement_document}

-- `njson` of a map from texts to texts.
unfoldable pub text_members : Members → List (String × String) → Members
unfolding assign
text_members ms [] = ms
text_members ms ((k, v) ∷ rest) = text_members (assign k (text v) ms) rest

unfoldable pub text_map : List (String × String) → Json
unfolding text_members
text_map pairs = object (text_members no_members pairs)

-- An object whose values follow no pointer.
unfoldable pub plain_object : List (String × Json) → Json
unfolding assign_all
plain_object entries = object (assign_all no_members entries)

unfoldable pub documentation_entries : MethodDocumentation → List (String × Json)
unfolding text_map
documentation_entries doc =
    ("description", text_or_null doc.description)
    ∷ ("args", text_map doc.args)
    ∷ ("returns", text_or_null doc.returns)
    ∷ []

unfoldable pub serialize_method_documentation : MethodDocumentation → Json
unfolding plain_object documentation_entries
serialize_method_documentation doc = plain_object (documentation_entries doc)

unfoldable pub bare_entries : Arc4BareMethodConfig → List (String × Json)
unfolding serialize_source_location
bare_entries bare =
    ("_type", text "ARC4BareMethodConfig")
    ∷ ("source_location", serialize_source_location bare.location)
    ∷ ("allowed_completion_types", array (number_items bare.allowed_completion_types))
    ∷ ("create", number bare.create)
    ∷ []

unfoldable pub abi_entries : Arc4AbiMethodConfig → List (String × Json)
unfolding serialize_source_location text_map
abi_entries abi =
    ("_type", text "ARC4ABIMethodConfig")
    ∷ ("source_location", serialize_source_location abi.location)
    ∷ ("allowed_completion_types", array (number_items abi.allowed_completion_types))
    ∷ ("create", number abi.create)
    ∷ ("name", text abi.name)
    ∷ ("readonly", boolean abi.readonly)
    ∷ ("default_args", text_map abi.default_args)
    ∷ ("resource_encoding", text "value")
    ∷ ("validate_encoding", json_null)
    ∷ ("chunk", nonempty_or_null abi.chunk)
    ∷ []

unfoldable pub serialize_arc4_method_config : Arc4MethodConfig → Json
unfolding plain_object bare_entries abi_entries
serialize_arc4_method_config (bare_method bare) = plain_object (bare_entries bare)
serialize_arc4_method_config (abi_method abi) = plain_object (abi_entries abi)

unfoldable pub config_or_null : Option Arc4MethodConfig → Json
unfolding serialize_arc4_method_config
config_or_null none = json_null
config_or_null (some config) = serialize_arc4_method_config config

unfoldable pub argument_entries : SubroutineArgument → List (String × Json)
unfolding serialize_source_location
argument_entries arg =
    ("_type", text "SubroutineArgument")
    ∷ ("name", text arg.name)
    ∷ ("source_location", serialize_source_location arg.location)
    ∷ ("wtype", serialize_wtype arg.wtype)
    ∷ []

unfoldable pub serialize_subroutine_argument : SubroutineArgument → Json
unfolding plain_object argument_entries
serialize_subroutine_argument arg = plain_object (argument_entries arg)

unfoldable pub argument_items : List SubroutineArgument → Items
unfolding serialize_subroutine_argument
argument_items [] = no_items
argument_items (arg ∷ rest) = item (serialize_subroutine_argument arg) (argument_items rest)

abbrev pub kind_number : AppStorageKind → ℤ
kind_number app_global = pos 1
kind_number account_local = pos 2
kind_number box = pos 3

unfoldable pub storage_entries : AppStorageDefinition → List Entry
unfolding serialize_or_null
storage_entries def =
    ("member_name", some (text def.member_name))
    ∷ ("storage_wtype", some (serialize_wtype def.storage_wtype))
    ∷ ("key", serialize_or_null def.key)
    ∷ (
      "key_wtype",
      some (if def.is_map then serialize_wtype (some (basic box_key_type)) else json_null),
    )
    ∷ ("description", some (text_or_null def.description))
    ∷ ("kind", some (number (kind_number def.storage_kind)))
    ∷ []

unfoldable pub serialize_app_storage_definition : AppStorageDefinition → Option Json
unfolding statement_document storage_entries
serialize_app_storage_definition def =
    statement_document "AppStorageDefinition" def.location (storage_entries def)

unfoldable pub method_entries : ContractMethod → List Entry
unfolding argument_items serialize_block_or_null serialize_method_documentation config_or_null
method_entries method =
    ("args", some (array (argument_items method.args)))
    ∷ ("return_type", some (serialize_wtype method.return_type))
    ∷ ("body", serialize_block_or_null method.body)
    ∷ ("documentation", some (serialize_method_documentation method.documentation))
    ∷ ("inline", some (boolean_or_null method.inline_opt))
    ∷ ("pure", some (boolean method.pure))
    ∷ ("cref", some (text method.cref))
    ∷ ("member_name", some (text method.member_name))
    ∷ ("arc4_method_config", some (config_or_null method.arc4_method_config))
    ∷ []

unfoldable pub serialize_contract_method : ContractMethod → Option Json
unfolding statement_document method_entries
serialize_contract_method method =
    statement_document "ContractMethod" method.location (method_entries method)

unfoldable pub subroutine_entries : Subroutine → List Entry
unfolding argument_items serialize_block_or_null serialize_method_documentation
subroutine_entries sub =
    ("id", some (text sub.id))
    ∷ ("name", some (text sub.name))
    ∷ ("args", some (array (argument_items sub.args)))
    ∷ ("return_type", some (serialize_wtype sub.return_type))
    ∷ ("body", serialize_block_or_null sub.body)
    ∷ ("documentation", some (serialize_method_documentation sub.documentation))
    ∷ ("inline", some (boolean_or_null sub.inline_opt))
    ∷ ("pure", some (boolean sub.pure))
    ∷ []

unfoldable pub serialize_subroutine : Subroutine → Option Json
unfolding statement_document subroutine_entries
serialize_subroutine sub = statement_document "Subroutine" sub.location (subroutine_entries sub)

unfoldable pub method_items : List ContractMethod → Option Items
unfolding serialize_contract_method
method_items [] = some no_items
method_items (m ∷ rest) = push (serialize_contract_method m) (method_items rest)

unfoldable pub storage_items : List AppStorageDefinition → Option Items
unfolding serialize_app_storage_definition
storage_items [] = some no_items
storage_items (s ∷ rest) = push (serialize_app_storage_definition s) (storage_items rest)

abbrev pub totals_entries : StateTotals → List (String × Json)
totals_entries totals =
    ("global_uints", number_or_null totals.global_uints)
    ∷ ("local_uints", number_or_null totals.local_uints)
    ∷ ("global_bytes", number_or_null totals.global_bytes)
    ∷ ("local_bytes", number_or_null totals.local_bytes)
    ∷ []

unfoldable pub totals_or_null : Option StateTotals → Json
unfolding plain_object
totals_or_null none = json_null
totals_or_null (some totals) = plain_object (totals_entries totals)

unfoldable pub program_or_null : Option Subroutine → Option Json
unfolding serialize_subroutine
program_or_null none = some json_null
program_or_null (some program) = serialize_subroutine program

unfoldable pub contract_entries :
    String
    → String
    → ContractMethod
    → ContractMethod
    → List ContractMethod
    → ContractFields
    → List Entry
unfolding serialize_contract_method method_items storage_items totals_or_null
contract_entries id name approval clear methods fields =
    ("id", some (text id))
    ∷ ("name", some (text name))
    ∷ ("description", some (text_or_null fields.description))
    ∷ ("method_resolution_order", some (array (text_items fields.method_resolution_order)))
    ∷ ("approval_program", serialize_contract_method approval)
    ∷ ("clear_program", serialize_contract_method clear)
    ∷ ("methods", as_array (method_items methods))
    ∷ ("app_state", as_array (storage_items fields.app_state))
    ∷ ("state_totals", some (totals_or_null fields.state_totals))
    ∷ ("reserved_scratch_space", some (array (number_items fields.reserved_scratch_space)))
    ∷ ("avm_version", some (number_or_null fields.avm_version))
    ∷ ("splitter", some (nonempty_or_null fields.splitter))
    ∷ []

unfoldable pub signature_fields : String → String → Option Subroutine → SignatureFields → List Entry
unfolding program_or_null
signature_fields id short_name program fields =
    ("id", some (text id))
    ∷ ("short_name", some (text short_name))
    ∷ ("program", program_or_null program)
    ∷ ("docstring", some (text_or_null fields.docstring))
    ∷ ("reserved_scratch_space", some (array (number_items fields.reserved_scratch_space)))
    ∷ ("avm_version", some (number_or_null fields.avm_version))
    ∷ ("validate_encoding", some (boolean_or_null fields.validate_encoding))
    ∷ []

unfoldable pub serialize_root_node : RootNode → Option Json
unfolding statement_document contract_entries signature_fields serialize_subroutine
serialize_root_node (contract id name approval clear methods fields) =
    statement_document "Contract" fields.location
      (contract_entries id name approval clear methods fields)
serialize_root_node (logic_signature id short_name program fields) =
    statement_document "LogicSignature" fields.location
      (signature_fields id short_name program fields)
serialize_root_node (subroutine sub) = serialize_subroutine sub

unfoldable pub root_items : List RootNode → Option Items
unfolding serialize_root_node
root_items [] = some no_items
root_items (root ∷ rest) = push (serialize_root_node root) (root_items rest)

unfoldable pub serialize : List RootNode → Option Json
unfolding root_items
serialize roots = as_array (root_items roots)
