-- ===== src/Examples/Policies.antt =====
-- A profile of a target that allows one feature and configures another.
use puya_sol.Prelude.{◌≡◌, refl, true, false, ◌||◌, ◌&&◌, not, none, some, [], ◌∷◌, string_eq, ◌==◌}
use puya_sol.Awst.Location.{default_location}
use puya_sol.Awst.Roots.{member}
use puya_sol.EvmFeaturePolicy.{
  TargetProfile, arc4, allow_name, is_allow_name, find_name, same_feature, feature_index, report,
  block_base_fee, static_call,
}
use puya_sol.EvmFeaturePolicy.Closed.{configured, passes, report-passes_iff}
use puya_sol.EvmFeaturePolicy.Names.{allow_name_unique}

abbrev main_net : TargetProfile
main_net = record {
  evm_storage_layout = true;
  evm_selectors = true;
  contract_abi = arc4;
  via_ir_sequencing = false;
  dense_only_storage = false;
  single_page_storage = false;
  evm_chain_id = some "1";
  evm_block_gas_limit = none;
  evm_coinbase = none;
  allowed_evm_divergences = "block-basefee" ∷ [];
  xchain_accounts = none;
  child_programs_via_box = false;
  evm_version_name = "";
  scratch_layout = record { memory_count = 4 };
}

report-passes_iff_example :
    passes (report block_base_fee main_net default_location)
    ≡ some (
        configured block_base_fee main_net
        || (same_feature block_base_fee static_call
            || (not (allow_name block_base_fee == "")
                && member (allow_name block_base_fee) main_net.allowed_evm_divergences)))
report-passes_iff_example = report-passes_iff block_base_fee main_net default_location

base_fee_name : (allow_name block_base_fee == "") ≡ false
unfolding allow_name find_name same_feature feature_index
base_fee_name = refl

allow_name_unique_example :
    (is_allow_name (allow_name block_base_fee) ≡ true) × (block_base_fee ≡ block_base_fee)
allow_name_unique_example = allow_name_unique block_base_fee block_base_fee base_fee_name refl
