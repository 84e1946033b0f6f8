-- ===== src/Json/Serializer/Roots/Documents.antt =====
-- For which root nodes AWSTSerializer::serialize (src/json/AWSTSerializer.cpp) follows no null pointer, and
-- the keys of what it writes.
use puya_sol.Prelude.{
  Bool, true, false, ◌&&◌, Option, none, some, List, [], ◌∷◌, String, ℤ, if◌then◌else◌,
}
use puya_sol.Awst.Program.{
  MethodDocumentation, Arc4MethodConfig, bare_method, abi_method, SubroutineArgument,
  ContractMethod, AppStorageDefinition, StateTotals, ContractFields, SignatureFields, Subroutine,
  RootNode, subroutine, contract, logic_signature,
}
use puya_sol.Awst.WType.{basic, box_key_type}
use puya_sol.Json.Value.{
  Json, json_null, text, Members, no_members, assign, AllKeyed, AllDocuments, IsDocument,
  boolean_or_null, number_items,
}
use puya_sol.Json.Value.Outcome.{
  Outcome, document, Outcomes, end, part, given, only, ItemsOutcome, no_more, pushed, array-Outcome,
  text_or_null-IsDocument, number_or_null-IsDocument, nonempty_or_null-IsDocument,
  text_items-AllDocuments, Documents, assign_all-AllKeyed, assign-AllKeyed,
}
use puya_sol.Json.Serializer.Types.{serialize_wtype}
use puya_sol.Json.Serializer.Types.Documents.{
  serialize_source_location-IsDocument, serialize_wtype-IsDocument,
}
use puya_sol.Json.Serializer.Nodes.Complete.{complete_or_null}
use puya_sol.Json.Serializer.Nodes.Documents.{serialize_or_null-Outcome}
use puya_sol.Json.Serializer.Statements.Documents.{
  complete_block_or_null, serialize_block_or_null-Outcome, statement_document-Outcome,
}
use puya_sol.Json.Serializer.Roots.{
  text_members, text_map, plain_object, documentation_entries, serialize_method_documentation,
  bare_entries, abi_entries, serialize_arc4_method_config, config_or_null, argument_entries,
  serialize_subroutine_argument, argument_items, serialize_app_storage_definition,
  serialize_contract_method, serialize_subroutine, method_items, storage_items, totals_entries,
  totals_or_null, program_or_null, contract_entries, signature_fields, serialize_root_node,
  root_items, serialize, storage_entries, method_entries, subroutine_entries,
}

-- The pointers in a root node that the source follows.
unfoldable pub complete_methods : List ContractMethod → Bool
unfolding complete_block_or_null
complete_methods [] = true
complete_methods (m ∷ rest) = complete_block_or_null m.body && complete_methods rest

unfoldable pub complete_storage : List AppStorageDefinition → Bool
unfolding complete_or_null
complete_storage [] = true
complete_storage (s ∷ rest) = complete_or_null s.key && complete_storage rest

unfoldable pub complete_program : Option Subroutine → Bool
unfolding complete_block_or_null
complete_program none = true
complete_program (some program) = complete_block_or_null program.body

unfoldable pub complete_root : RootNode → Bool
unfolding complete_methods complete_storage complete_program
complete_root (subroutine sub) = complete_block_or_null sub.body
complete_root (contract _ _ approval clear methods fields) =
    complete_block_or_null approval.body
    && (complete_block_or_null clear.body
        && (complete_methods methods && complete_storage fields.app_state))
complete_root (logic_signature _ _ program _) = complete_program program

unfoldable pub complete_roots : List RootNode → Bool
unfolding complete_root
complete_roots [] = true
complete_roots (root ∷ rest) = complete_root root && complete_roots rest

text_members-AllKeyed :
    (ms : Members) (pairs : List (String × String)) → AllKeyed ms → AllKeyed (text_members ms pairs)
unfolding text_members IsDocument
text_members-AllKeyed ms [] h = h
text_members-AllKeyed ms ((k, v) ∷ rest) h =
    text_members-AllKeyed (assign k (text v) ms) rest (assign-AllKeyed k (text v) ms tt h)

text_map-IsDocument : (pairs : List (String × String)) → IsDocument (text_map pairs)
unfolding text_map IsDocument
text_map-IsDocument pairs = text_members-AllKeyed no_members pairs tt

plain_object-IsDocument : (es : List (String × Json)) → Documents es → IsDocument (plain_object es)
unfolding plain_object IsDocument
plain_object-IsDocument es h = assign_all-AllKeyed no_members es tt h

number_items-AllDocuments : (ns : List ℤ) → AllDocuments (number_items ns)
unfolding IsDocument
number_items-AllDocuments [] = tt
number_items-AllDocuments (n ∷ rest) = (tt, number_items-AllDocuments rest)

boolean_or_null-IsDocument : (b : Option Bool) → IsDocument (boolean_or_null b)
unfolding IsDocument
boolean_or_null-IsDocument none = tt
boolean_or_null-IsDocument (some b) = tt

serialize_method_documentation-IsDocument :
    (doc : MethodDocumentation) → IsDocument (serialize_method_documentation doc)
unfolding serialize_method_documentation documentation_entries Documents
serialize_method_documentation-IsDocument doc =
    plain_object-IsDocument (documentation_entries doc) (
      text_or_null-IsDocument doc.description,
      (text_map-IsDocument doc.args, (text_or_null-IsDocument doc.returns, tt)),
    )

config_or_null-IsDocument : (config : Option Arc4MethodConfig) → IsDocument (config_or_null config)
unfolding config_or_null serialize_arc4_method_config bare_entries abi_entries Documents IsDocument
config_or_null-IsDocument none = tt
config_or_null-IsDocument (some (bare_method bare)) = plain_object-IsDocument (bare_entries bare) (
  tt,
  (
    serialize_source_location-IsDocument bare.location,
    (number_items-AllDocuments bare.allowed_completion_types, (tt, tt)),
  ),
)
config_or_null-IsDocument (some (abi_method abi)) = plain_object-IsDocument (abi_entries abi) (
  tt,
  (
    serialize_source_location-IsDocument abi.location,
    (
      number_items-AllDocuments abi.allowed_completion_types,
      (
        tt,
        (
          tt,
          (
            tt,
            (
              text_map-IsDocument abi.default_args,
              (tt, (tt, (nonempty_or_null-IsDocument abi.chunk, tt))),
            ),
          ),
        ),
      ),
    ),
  ),
)

argument_items-AllDocuments : (args : List SubroutineArgument) → AllDocuments (argument_items args)
unfolding argument_items serialize_subroutine_argument argument_entries Documents IsDocument
argument_items-AllDocuments [] = tt
argument_items-AllDocuments (arg ∷ rest) = (
  plain_object-IsDocument (argument_entries arg) (
    tt,
    (
      tt,
      (
        serialize_source_location-IsDocument arg.location,
        (serialize_wtype-IsDocument arg.wtype, tt),
      ),
    ),
  ),
  argument_items-AllDocuments rest,
)

totals_or_null-IsDocument : (totals : Option StateTotals) → IsDocument (totals_or_null totals)
unfolding totals_or_null Documents IsDocument
totals_or_null-IsDocument none = tt
totals_or_null-IsDocument (some totals) = plain_object-IsDocument (totals_entries totals) (
  number_or_null-IsDocument totals.global_uints,
  (
    number_or_null-IsDocument totals.local_uints,
    (
      number_or_null-IsDocument totals.global_bytes,
      (number_or_null-IsDocument totals.local_bytes, tt),
    ),
  ),
)

key_wtype-IsDocument :
    (b : Bool) → IsDocument (if b then serialize_wtype (some (basic box_key_type)) else json_null)
unfolding IsDocument
key_wtype-IsDocument true = serialize_wtype-IsDocument (some (basic box_key_type))
key_wtype-IsDocument false = tt

method_entries-Outcomes :
    (m : ContractMethod) → Outcomes (complete_block_or_null m.body) (method_entries m)
unfolding method_entries IsDocument
method_entries-Outcomes m = given (argument_items-AllDocuments m.args) (
    given (serialize_wtype-IsDocument m.return_type) (
      only (serialize_block_or_null-Outcome m.body) (
        given (serialize_method_documentation-IsDocument m.documentation) (
          given (boolean_or_null-IsDocument m.inline_opt) (
            given tt (
              given tt (given tt (given (config_or_null-IsDocument m.arc4_method_config) end))))))))

serialize_contract_method-Outcome :
    (m : ContractMethod) → Outcome (complete_block_or_null m.body) (serialize_contract_method m)
unfolding serialize_contract_method
serialize_contract_method-Outcome m =
    statement_document-Outcome "ContractMethod" m.location (method_entries-Outcomes m)

subroutine_entries-Outcomes :
    (s : Subroutine) → Outcomes (complete_block_or_null s.body) (subroutine_entries s)
unfolding subroutine_entries IsDocument
subroutine_entries-Outcomes s = given tt (
    given tt (
      given (argument_items-AllDocuments s.args) (
        given (serialize_wtype-IsDocument s.return_type) (
          only (serialize_block_or_null-Outcome s.body) (
            given (serialize_method_documentation-IsDocument s.documentation)
              (given (boolean_or_null-IsDocument s.inline_opt) (given tt end)))))))

serialize_subroutine-Outcome :
    (s : Subroutine) → Outcome (complete_block_or_null s.body) (serialize_subroutine s)
unfolding serialize_subroutine
serialize_subroutine-Outcome s =
    statement_document-Outcome "Subroutine" s.location (subroutine_entries-Outcomes s)

storage_entries-Outcomes :
    (s : AppStorageDefinition) → Outcomes (complete_or_null s.key) (storage_entries s)
unfolding storage_entries IsDocument
storage_entries-Outcomes s = given tt (
    given (serialize_wtype-IsDocument s.storage_wtype) (
      only (serialize_or_null-Outcome s.key) (
        given (key_wtype-IsDocument s.is_map)
          (given (text_or_null-IsDocument s.description) (given tt end)))))

serialize_app_storage_definition-Outcome :
    (s : AppStorageDefinition)
    → Outcome (complete_or_null s.key) (serialize_app_storage_definition s)
unfolding serialize_app_storage_definition
serialize_app_storage_definition-Outcome s =
    statement_document-Outcome "AppStorageDefinition" s.location (storage_entries-Outcomes s)

method_items-ItemsOutcome :
    (ms : List ContractMethod) → ItemsOutcome (complete_methods ms) (method_items ms)
unfolding method_items complete_methods
method_items-ItemsOutcome [] = no_more
method_items-ItemsOutcome (m ∷ rest) =
    pushed (serialize_contract_method-Outcome m) (method_items-ItemsOutcome rest)

storage_items-ItemsOutcome :
    (ss : List AppStorageDefinition) → ItemsOutcome (complete_storage ss) (storage_items ss)
unfolding storage_items complete_storage
storage_items-ItemsOutcome [] = no_more
storage_items-ItemsOutcome (s ∷ rest) =
    pushed (serialize_app_storage_definition-Outcome s) (storage_items-ItemsOutcome rest)

program_or_null-Outcome : (p : Option Subroutine) → Outcome (complete_program p) (program_or_null p)
unfolding program_or_null complete_program IsDocument
program_or_null-Outcome none = document tt
program_or_null-Outcome (some p) = serialize_subroutine-Outcome p

contract_entries-Outcomes :
    (id name : String) (approval clear : ContractMethod) (methods : List ContractMethod)
    (fields : ContractFields)
    → Outcomes
        (complete_root (contract id name approval clear methods fields))
        (contract_entries id name approval clear methods fields)
unfolding complete_root contract_entries IsDocument
contract_entries-Outcomes id name approval clear methods fields = given tt (
    given tt (
      given (text_or_null-IsDocument fields.description) (
        given (text_items-AllDocuments fields.method_resolution_order) (
          part (serialize_contract_method-Outcome approval) (
            part (serialize_contract_method-Outcome clear) (
              part (array-Outcome (method_items-ItemsOutcome methods)) (
                only (array-Outcome (storage_items-ItemsOutcome fields.app_state)) (
                  given (totals_or_null-IsDocument fields.state_totals) (
                    given (number_items-AllDocuments fields.reserved_scratch_space) (
                      given (number_or_null-IsDocument fields.avm_version)
                        (given (nonempty_or_null-IsDocument fields.splitter) end)))))))))))

signature_fields-Outcomes :
    (id short_name : String) (program : Option Subroutine) (fields : SignatureFields)
    → Outcomes (complete_program program) (signature_fields id short_name program fields)
unfolding signature_fields IsDocument
signature_fields-Outcomes id short_name program fields = given tt (
    given tt (
      only (program_or_null-Outcome program) (
        given (text_or_null-IsDocument fields.docstring) (
          given (number_items-AllDocuments fields.reserved_scratch_space) (
            given (number_or_null-IsDocument fields.avm_version)
              (given (boolean_or_null-IsDocument fields.validate_encoding) end))))))

serialize_root_node-Outcome :
    (root : RootNode) → Outcome (complete_root root) (serialize_root_node root)
unfolding serialize_root_node complete_root
serialize_root_node-Outcome (subroutine sub) = serialize_subroutine-Outcome sub
serialize_root_node-Outcome (contract id name approval clear methods fields) =
    statement_document-Outcome "Contract" fields.location
      (contract_entries-Outcomes id name approval clear methods fields)
serialize_root_node-Outcome (logic_signature id short_name program fields) =
    statement_document-Outcome "LogicSignature" fields.location
      (signature_fields-Outcomes id short_name program fields)

root_items-ItemsOutcome :
    (roots : List RootNode) → ItemsOutcome (complete_roots roots) (root_items roots)
unfolding root_items complete_roots
root_items-ItemsOutcome [] = no_more
root_items-ItemsOutcome (root ∷ rest) =
    pushed (serialize_root_node-Outcome root) (root_items-ItemsOutcome rest)

-- The serialiser gives a document exactly where none of the pointers that it follows in the roots
-- is null and no negated constant overflows, and then no object of the document has a key twice,
-- at any depth.
pub serialize-Outcome : (roots : List RootNode) → Outcome (complete_roots roots) (serialize roots)
unfolding serialize
serialize-Outcome roots = array-Outcome (root_items-ItemsOutcome roots)
