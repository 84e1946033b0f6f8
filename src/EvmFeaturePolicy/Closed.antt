-- ===== src/EvmFeaturePolicy/Closed.antt =====
-- EvmFeaturePolicy::report (src/builder/EvmFeaturePolicy.cpp): a feature that differs on the AVM
-- fails the compilation unless it is configured, or allowed by its name.
use puya_sol.EvmFeaturePolicy.{
  EvmFeatureFidelity, exact, avm_adaptation, configured_environment, hard_compile_error,
  hard_runtime_failure, at_level, unless_exact, TargetProfile, EvmFeature, allow_name, find_name,
  Diagnostic, error, warning, report, same_feature, feature_index, decide, configured_or,
  report_decision, needs_opt_in, explicitly_allowed, block_chain_id, block_difficulty,
  block_base_fee, block_blob_base_fee, block_gas_limit, block_prevrandao, block_coinbase, tx_origin,
  tx_gas_price, address_balance, gas_left, blob_hash, block_hash, static_call, delegate_call,
  low_level_call_outcome, native_value_transfer, self_call, try_catch, unknown_low_level_call,
  library_address, creation_code, runtime_code,
}
use puya_sol.Prelude.{
  ◌≡◌, refl, ◌∙◌, arith, Bool, true, false, ◌&&◌, ◌||◌, not, Option, none, some, List, String,
  string_eq, ◌==◌,
}
use puya_sol.Awst.Location.{SourceLocation}
use puya_sol.Awst.Roots.{member}

abbrev pub is_given : Option String → Bool
is_given none = false
is_given (some setting) = true

-- Whether an option of the command line stands for the value that the AVM lacks.
abbrev pub configured : EvmFeature → TargetProfile → Bool
configured block_chain_id profile = is_given profile.evm_chain_id
configured block_difficulty profile = false
configured block_base_fee profile = false
configured block_blob_base_fee profile = false
configured block_gas_limit profile = is_given profile.evm_block_gas_limit
configured block_prevrandao profile = false
configured block_coinbase profile = is_given profile.evm_coinbase
configured tx_origin profile = false
configured tx_gas_price profile = false
configured address_balance profile = false
configured gas_left profile = false
configured blob_hash profile = false
configured block_hash profile = false
configured static_call profile = false
configured delegate_call profile = false
configured low_level_call_outcome profile = false
configured native_value_transfer profile = false
configured self_call profile = false
configured try_catch profile = false
configured unknown_low_level_call profile = false
configured library_address profile = false
configured creation_code profile = false
configured runtime_code profile = false

-- Whether the diagnostic lets the compilation pass.
abbrev pub passes : Option Diagnostic → Option Bool
passes none = none
passes (some (error text loc)) = some false
passes (some (warning text loc)) = some true

-- Whether a decision lets the compilation pass, without the text that is logged.
abbrev verdict : EvmFeature → EvmFeatureFidelity → List String → Option Bool
verdict f exact allowed = none
verdict f avm_adaptation allowed =
    some (explicitly_allowed f avm_adaptation allowed || not (needs_opt_in f avm_adaptation))
verdict f configured_environment allowed = some (
    explicitly_allowed f configured_environment allowed
    || not (needs_opt_in f configured_environment))
verdict f hard_compile_error allowed = some false
verdict f hard_runtime_failure allowed =
    some (
      explicitly_allowed f hard_runtime_failure allowed
      || not (needs_opt_in f hard_runtime_failure))

passes-at_level :
    (b : Bool) (text : String) (loc : SourceLocation)
    → passes (some (at_level b text loc)) ≡ some (not b)
passes-at_level false text loc = refl
passes-at_level true text loc = refl

passes-opt_in :
    (needs allowed : Bool) (text : String) (loc : SourceLocation)
    → passes (some (at_level (needs && not allowed) text loc)) ≡ some (allowed || not needs)
passes-opt_in false false text loc = refl
passes-opt_in false true text loc = refl
passes-opt_in true false text loc = refl
passes-opt_in true true text loc = refl

-- The line for a decision with one of the fidelities.
passes-report_decision :
    (f : EvmFeature) (fidelity : EvmFeatureFidelity) (name explanation : String)
    (allowed : List String) (loc : SourceLocation)
    → passes (
        unless_exact fidelity (
          report_decision f
            (record { fidelity = fidelity; name = name; explanation = explanation })
            allowed
            loc))
      ≡ verdict f fidelity allowed
unfolding report_decision
passes-report_decision f exact name explanation allowed loc = refl
passes-report_decision f avm_adaptation name explanation allowed loc =
    passes-opt_in (needs_opt_in f avm_adaptation) (explicitly_allowed f avm_adaptation allowed) _
      loc
passes-report_decision f configured_environment name explanation allowed loc =
    passes-opt_in (needs_opt_in f configured_environment)
      (explicitly_allowed f configured_environment allowed) _ loc
passes-report_decision f hard_compile_error name explanation allowed loc = refl
passes-report_decision f hard_runtime_failure name explanation allowed loc =
    passes-opt_in (needs_opt_in f hard_runtime_failure)
      (explicitly_allowed f hard_runtime_failure allowed) _ loc

-- The verdict on each feature.
verdict-decide :
    (f : EvmFeature) (profile : TargetProfile)
    → verdict f (decide f profile).fidelity profile.allowed_evm_divergences
      ≡ some (
          configured f profile
          || (same_feature f static_call
              || (not (allow_name f == "")
                  && member (allow_name f) profile.allowed_evm_divergences)))
unfolding decide configured_or needs_opt_in explicitly_allowed allow_name find_name same_feature
    feature_index
verdict-decide block_chain_id profile = ground arith
verdict-decide block_difficulty profile = ground arith
verdict-decide block_base_fee profile = ground arith
verdict-decide block_blob_base_fee profile = ground arith
verdict-decide block_gas_limit profile = ground arith
verdict-decide block_prevrandao profile = ground arith
verdict-decide block_coinbase profile = ground arith
verdict-decide tx_origin profile = refl
verdict-decide tx_gas_price profile = ground arith
verdict-decide address_balance profile = ground arith
verdict-decide gas_left profile = ground arith
verdict-decide blob_hash profile = refl
verdict-decide block_hash profile = refl
verdict-decide static_call profile = ground arith
verdict-decide delegate_call profile = ground arith
verdict-decide low_level_call_outcome profile = ground arith
verdict-decide native_value_transfer profile = ground arith
verdict-decide self_call profile = ground arith
verdict-decide try_catch profile = ground arith
verdict-decide unknown_low_level_call profile = refl
verdict-decide library_address profile = refl
verdict-decide creation_code profile = refl
verdict-decide runtime_code profile = refl

-- Each feature of the EVM that a contract uses is logged, as a warning exactly when its value is
-- configured in the profile, it is the static call, or it has a name of its own that the profile
-- allows, and otherwise as an error.
pub report-passes_iff :
    (f : EvmFeature) (profile : TargetProfile) (loc : SourceLocation)
    → passes (report f profile loc)
      ≡ some (
          configured f profile
          || (same_feature f static_call
              || (not ((allow_name f) == "")
                  && member (allow_name f) profile.allowed_evm_divergences)))
unfolding report
report-passes_iff f profile loc =
    passes-report_decision f (decide f profile).fidelity (decide f profile).name
      (decide f profile).explanation profile.allowed_evm_divergences loc
    ∙ verdict-decide f profile
