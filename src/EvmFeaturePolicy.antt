-- ===== src/EvmFeaturePolicy.antt =====
-- The features of the EVM that the AVM does not have as they are, what the compiler decides about
-- each, and the line it logs (src/builder/EvmFeaturePolicy.h and src/builder/EvmFeaturePolicy.cpp).
-- A feature is one of the enumerators, so that the line behind the switch has no counterpart. The
-- profile of the target is that of src/builder/TargetProfile.h.
pub mod Closed
pub mod Names
use puya_sol.Prelude.{
  ℕ, Bool, true, false, ◌&&◌, ◌||◌, not, Option, none, some, List, [], ◌∷◌, String, ◌<>◌, string_eq,
  ◌==◌, eqb, if◌then◌else◌, map,
}
use puya_sol.Awst.Location.{SourceLocation}
use puya_sol.Awst.Roots.{member}
use puya_sol.ScratchLayout.{ScratchLayout}

pub data ContractAbi : Type 0 where
  arc4 : ContractAbi
  evm : ContractAbi

pub record XchainAccounts : Type 0 where
  pub program_prefix : List ℕ
  pub program_suffix : List ℕ

pub record TargetProfile : Type 0 where
  pub evm_storage_layout : Bool
  pub evm_selectors : Bool
  pub contract_abi : ContractAbi
  pub via_ir_sequencing : Bool
  pub dense_only_storage : Bool
  pub single_page_storage : Bool
  pub evm_chain_id : Option String
  pub evm_block_gas_limit : Option String
  pub evm_coinbase : Option String
  pub allowed_evm_divergences : List String
  pub xchain_accounts : Option XchainAccounts
  pub child_programs_via_box : Bool
  pub evm_version_name : String
  pub scratch_layout : ScratchLayout

pub data EvmFeature : Type 0 where
  block_chain_id : EvmFeature
  block_difficulty : EvmFeature
  block_base_fee : EvmFeature
  block_blob_base_fee : EvmFeature
  block_gas_limit : EvmFeature
  block_prevrandao : EvmFeature
  block_coinbase : EvmFeature
  tx_origin : EvmFeature
  tx_gas_price : EvmFeature
  address_balance : EvmFeature
  gas_left : EvmFeature
  blob_hash : EvmFeature
  block_hash : EvmFeature
  static_call : EvmFeature
  delegate_call : EvmFeature
  low_level_call_outcome : EvmFeature
  native_value_transfer : EvmFeature
  self_call : EvmFeature
  try_catch : EvmFeature
  unknown_low_level_call : EvmFeature
  library_address : EvmFeature
  creation_code : EvmFeature
  runtime_code : EvmFeature

pub data EvmFeatureFidelity : Type 0 where
  exact : EvmFeatureFidelity
  avm_adaptation : EvmFeatureFidelity
  configured_environment : EvmFeatureFidelity
  hard_compile_error : EvmFeatureFidelity
  hard_runtime_failure : EvmFeatureFidelity

pub record EvmFeatureDecision : Type 0 where
  pub fidelity : EvmFeatureFidelity
  pub name : String
  pub explanation : String

-- The value of an enumerator.
unfoldable pub feature_index : EvmFeature → ℕ
feature_index block_chain_id = 0
feature_index block_difficulty = 1
feature_index block_base_fee = 2
feature_index block_blob_base_fee = 3
feature_index block_gas_limit = 4
feature_index block_prevrandao = 5
feature_index block_coinbase = 6
feature_index tx_origin = 7
feature_index tx_gas_price = 8
feature_index address_balance = 9
feature_index gas_left = 10
feature_index blob_hash = 11
feature_index block_hash = 12
feature_index static_call = 13
feature_index delegate_call = 14
feature_index low_level_call_outcome = 15
feature_index native_value_transfer = 16
feature_index self_call = 17
feature_index try_catch = 18
feature_index unknown_low_level_call = 19
feature_index library_address = 20
feature_index creation_code = 21
feature_index runtime_code = 22

unfoldable pub same_feature : EvmFeature → EvmFeature → Bool
unfolding feature_index
same_feature f g = eqb (feature_index f) (feature_index g)

abbrev pub allowable_divergences : List (EvmFeature × String)
allowable_divergences =
    (block_chain_id, "block-chainid")
    ∷ (block_difficulty, "block-difficulty")
    ∷ (block_base_fee, "block-basefee")
    ∷ (block_blob_base_fee, "block-blobbasefee")
    ∷ (block_gas_limit, "block-gaslimit")
    ∷ (block_prevrandao, "block-prevrandao")
    ∷ (tx_gas_price, "tx-gasprice")
    ∷ (address_balance, "address-balance-units")
    ∷ (gas_left, "gasleft")
    ∷ (static_call, "staticcall")
    ∷ (delegate_call, "delegatecall")
    ∷ (low_level_call_outcome, "low-level-call-outcome")
    ∷ (native_value_transfer, "native-value-transfer")
    ∷ (self_call, "self-call")
    ∷ (try_catch, "try-catch")
    ∷ []

-- A decision that depends on whether an option of the environment is given.
unfoldable pub configured_or :
    Option String → EvmFeatureDecision → EvmFeatureDecision → EvmFeatureDecision
configured_or none given absent = absent
configured_or (some setting) given absent = given

unfoldable pub decide : EvmFeature → TargetProfile → EvmFeatureDecision
unfolding configured_or
decide block_chain_id profile =
    configured_or profile.evm_chain_id
      (record {
        fidelity = configured_environment;
        name = "block.chainid";
        explanation = "uses the compile-time --evm-chain-id value";
      })
      (record {
        fidelity = avm_adaptation;
        name = "block.chainid";
        explanation =
            "uses the Algorand GenesisHash interpreted as a uint256 network identity; set --evm-chain-id for an EVM-compatible numeric domain";
      })
decide block_difficulty profile = record {
  fidelity = avm_adaptation;
  name = "block.difficulty";
  explanation =
      "post-Paris EVM defines difficulty as prevrandao (same opcode); lowered identically to the Algorand block seed for Round - 2";
}
decide block_base_fee profile = record {
  fidelity = avm_adaptation;
  name = "block.basefee";
  explanation = "returns zero because AVM has no EIP-1559 base fee";
}
decide block_blob_base_fee profile = record {
  fidelity = avm_adaptation;
  name = "block.blobbasefee";
  explanation = "returns zero because AVM has no blob fee market";
}
decide block_gas_limit profile =
    configured_or profile.evm_block_gas_limit
      (record {
        fidelity = configured_environment;
        name = "block.gaslimit";
        explanation = "uses the compile-time --evm-block-gas-limit value";
      })
      (record {
        fidelity = avm_adaptation;
        name = "block.gaslimit";
        explanation =
            "uses the group's total pooled app-call opcode budget (GroupSize x 700) — constant within an execution like EVM's block-level value; set --evm-block-gas-limit for an exact EVM number";
      })
decide block_prevrandao profile = record {
  fidelity = avm_adaptation;
  name = "block.prevrandao";
  explanation = "uses the Algorand block seed for Round - 2";
}
decide block_coinbase profile =
    configured_or profile.evm_coinbase
      (record {
        fidelity = configured_environment;
        name = "block.coinbase";
        explanation = "uses the compile-time --evm-coinbase address";
      })
      (record {
        fidelity = hard_compile_error;
        name = "block.coinbase";
        explanation =
            "Algorand exposes no EVM miner/fee-recipient address; configure one explicitly with --evm-coinbase";
      })
decide tx_origin profile = record {
  fidelity = hard_compile_error;
  name = "tx.origin";
  explanation = "AVM has no transaction-origin value distinct from msg.sender";
}
decide tx_gas_price profile = record {
  fidelity = avm_adaptation;
  name = "tx.gasprice";
  explanation = "uses txn Fee in microAlgos; AVM fees are not per-opcode gas prices";
}
decide address_balance profile = record {
  fidelity = avm_adaptation;
  name = "address.balance";
  explanation = "returns microAlgos rather than wei; contract accounting must use AVM units";
}
decide gas_left profile = record {
  fidelity = avm_adaptation;
  name = "gasleft()";
  explanation = "uses the current AVM OpcodeBudget";
}
decide blob_hash profile = record {
  fidelity = hard_compile_error;
  name = "blobhash()";
  explanation = "AVM has no blob transactions or versioned blob hashes";
}
decide block_hash profile = record {
  fidelity = hard_compile_error;
  name = "blockhash()";
  explanation = "AVM exposes a recent block seed, not an EVM block hash";
}
decide static_call profile = record {
  fidelity = avm_adaptation;
  name = "staticcall";
  explanation =
      "AVM does not enforce the EVM read-only guarantee; cross-contract static calls use ordinary inner application calls and may change state";
}
decide delegate_call profile = record {
  fidelity = hard_runtime_failure;
  name = "address.delegatecall";
  explanation = "AVM has neither shared caller storage nor EVM delegate-call context";
}
decide low_level_call_outcome profile = record {
  fidelity = avm_adaptation;
  name = "low-level call result";
  explanation =
      "returns true only after a submitted AVM inner transaction succeeds; a rejected inner transaction aborts the outer call, so false is not catchable";
}
decide native_value_transfer profile = record {
  fidelity = avm_adaptation;
  name = "native value transfer";
  explanation =
      "sends microAlgos to a keyless padded 160-bit identity unless an xchain account template is configured; such funds are unrecoverable";
}
decide self_call profile = record {
  fidelity = avm_adaptation;
  name = "external self-call";
  explanation =
      "uses internal dispatch because AVM forbids app reentrancy; msg.sender, msg.value, and revert-isolation behavior differ from EVM";
}
decide try_catch profile = record {
  fidelity = avm_adaptation;
  name = "try/catch";
  explanation =
      "drops catch clauses because a failed AVM inner transaction aborts the outer transaction and cannot be caught";
}
decide unknown_low_level_call profile = record {
  fidelity = hard_compile_error;
  name = "unresolved low-level call";
  explanation =
      "the target/calldata cannot be proven to match an AVM application route; fabricating (true, empty-bytes) would make error handling pass spuriously";
}
decide library_address profile = record {
  fidelity = hard_compile_error;
  name = "address(library)";
  explanation =
      "Solidity libraries are inlined as AVM subroutines and have no deployed application identity; fabricating address(0) would corrupt identity checks";
}
decide creation_code profile = record {
  fidelity = hard_compile_error;
  name = "type(C).creationCode";
  explanation =
      "EVM bytecode does not describe the deployed AVM application; its consumers (CREATE2 address derivation, code hashing) would compute values that correspond to nothing on chain";
}
decide runtime_code profile = record {
  fidelity = hard_compile_error;
  name = "type(C).runtimeCode";
  explanation =
      "EVM bytecode does not describe the deployed AVM application; its consumers (CREATE2 address derivation, code hashing) would compute values that correspond to nothing on chain";
}

-- The loop of `allowName` over the table.
unfoldable pub find_name : EvmFeature → List (EvmFeature × String) → String
unfolding same_feature
find_name f [] = ""
find_name f (candidate ∷ rest) =
    if same_feature candidate.0 f then candidate.1 else find_name f rest

unfoldable pub allow_name : EvmFeature → String
unfolding find_name
allow_name f = find_name f allowable_divergences

unfoldable pub has_name : String → List (EvmFeature × String) → Bool
has_name name [] = false
has_name name (candidate ∷ rest) = if candidate.1 == name then true else has_name name rest

unfoldable pub is_allow_name : String → Bool
unfolding has_name
is_allow_name name = has_name name allowable_divergences

-- The loop of `allowedNames`, from the text so far.
unfoldable pub joined : String → List (EvmFeature × String) → String
joined result [] = result
joined result (candidate ∷ rest) =
    joined ((if result == "" then result else result <> ", ") <> candidate.1) rest

unfoldable pub allowed_names : String
unfolding joined
allowed_names = joined "" allowable_divergences

-- A line of the log with its place.
pub data Diagnostic : Type 0 where
  error : String → SourceLocation → Diagnostic
  warning : String → SourceLocation → Diagnostic

abbrev pub may_need_opt_in : EvmFeatureFidelity → Bool
may_need_opt_in exact = false
may_need_opt_in avm_adaptation = true
may_need_opt_in configured_environment = false
may_need_opt_in hard_compile_error = false
may_need_opt_in hard_runtime_failure = true

abbrev pub is_compile_error : EvmFeatureFidelity → Bool
is_compile_error exact = false
is_compile_error avm_adaptation = false
is_compile_error configured_environment = false
is_compile_error hard_compile_error = true
is_compile_error hard_runtime_failure = false

-- The switch over the fidelity.
abbrev pub fidelity_text : EvmFeatureFidelity → String
fidelity_text exact = ""
fidelity_text avm_adaptation = "allowed AVM adaptation"
fidelity_text configured_environment = "configured EVM environment"
fidelity_text hard_compile_error = "unsupported EVM feature"
fidelity_text hard_runtime_failure = "allowed runtime-unsupported EVM feature"

unfoldable pub needs_opt_in : EvmFeature → EvmFeatureFidelity → Bool
unfolding same_feature
needs_opt_in f fidelity = not (same_feature f static_call) && may_need_opt_in fidelity

unfoldable pub explicitly_allowed : EvmFeature → EvmFeatureFidelity → List String → Bool
unfolding needs_opt_in allow_name
explicitly_allowed f fidelity allowed =
    needs_opt_in f fidelity && (not ((allow_name f) == "") && member (allow_name f) allowed)

-- The text from the tests `needsOptIn` and `explicitlyAllowed` and the name of the opt-in.
unfoldable pub report_text : Bool → Bool → String → EvmFeatureDecision → String
report_text needs allowed allow decision =
    "["
    <> ((if needs && not allowed
          then "unapproved EVM divergence"
          else fidelity_text decision.fidelity)
        <> (": "
            <> (decision.name
                <> ("] "
                    <> (decision.explanation
                        <> ("."
                            <> (if needs && (not allowed && not (allow == ""))
                                then " Compilation is fail-closed; pass --allow-divergence "
                                  <> (allow <> " to acknowledge this behavior.")
                                else if allowed
                                then " Explicitly enabled by --allow-divergence " <> (allow <> ".")
                                else "")))))))

abbrev pub at_level : Bool → String → SourceLocation → Diagnostic
at_level is_error text loc = if is_error then error text loc else warning text loc

-- The report of a decision that was taken.
unfoldable pub report_decision :
    EvmFeature → EvmFeatureDecision → List String → SourceLocation → Diagnostic
unfolding needs_opt_in explicitly_allowed report_text allow_name
report_decision f decision allowed loc =
    at_level
      (is_compile_error decision.fidelity
        || (needs_opt_in f decision.fidelity
            && not (explicitly_allowed f decision.fidelity allowed)))
      (report_text (needs_opt_in f decision.fidelity)
        (explicitly_allowed f decision.fidelity allowed) (allow_name f) decision)
      loc

abbrev pub unless_exact : EvmFeatureFidelity → Diagnostic → Option Diagnostic
unless_exact exact line = none
unless_exact avm_adaptation line = some line
unless_exact configured_environment line = some line
unless_exact hard_compile_error line = some line
unless_exact hard_runtime_failure line = some line

-- What is logged for a feature that a contract uses.
unfoldable pub report : EvmFeature → TargetProfile → SourceLocation → Option Diagnostic
unfolding decide report_decision
report f profile loc =
    unless_exact (decide f profile).fidelity
      (report_decision f (decide f profile) profile.allowed_evm_divergences loc)
