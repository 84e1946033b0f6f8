-- ===== src/EvmFeaturePolicy/Names.antt =====
-- The names of the opt-ins (src/builder/EvmFeaturePolicy.cpp): which feature a name allows.
use puya_sol.EvmFeaturePolicy.{
  EvmFeature, allowable_divergences, allow_name, is_allow_name, find_name, has_name, same_feature,
  feature_index, block_chain_id, block_difficulty, block_base_fee, block_blob_base_fee,
  block_gas_limit, block_prevrandao, block_coinbase, tx_origin, tx_gas_price, address_balance,
  gas_left, blob_hash, block_hash, static_call, delegate_call, low_level_call_outcome,
  native_value_transfer, self_call, try_catch, unknown_low_level_call, library_address,
  creation_code, runtime_code,
}
use mathlib.Core.Option.{some-injective}
use puya_sol.Prelude.{
  ◌≡◌, refl, sym, ap, ◌∙◌, true, false, not, Option, none, some, List, [], ◌∷◌, String, string_eq,
  ◌==◌, if◌then◌else◌,
}

named_in : String → List (EvmFeature × String) → Option EvmFeature
named_in name [] = none
named_in name (candidate ∷ rest) =
    if candidate.1 == name then some candidate.0 else named_in name rest

named_in-allow_name :
    (f : EvmFeature)
    → (allow_name f == "") ≡ false
    → named_in (allow_name f) allowable_divergences ≡ some f
unfolding allow_name find_name same_feature feature_index named_in
named_in-allow_name block_chain_id h = refl
named_in-allow_name block_difficulty h = refl
named_in-allow_name block_base_fee h = refl
named_in-allow_name block_blob_base_fee h = refl
named_in-allow_name block_gas_limit h = refl
named_in-allow_name block_prevrandao h = refl
named_in-allow_name block_coinbase h = cc
named_in-allow_name tx_origin h = cc
named_in-allow_name tx_gas_price h = refl
named_in-allow_name address_balance h = refl
named_in-allow_name gas_left h = refl
named_in-allow_name blob_hash h = cc
named_in-allow_name block_hash h = cc
named_in-allow_name static_call h = refl
named_in-allow_name delegate_call h = refl
named_in-allow_name low_level_call_outcome h = refl
named_in-allow_name native_value_transfer h = refl
named_in-allow_name self_call h = refl
named_in-allow_name try_catch h = refl
named_in-allow_name unknown_low_level_call h = cc
named_in-allow_name library_address h = cc
named_in-allow_name creation_code h = cc
named_in-allow_name runtime_code h = cc

is_allow_name-allow_name :
    (f : EvmFeature) → is_allow_name (allow_name f) ≡ not (allow_name f == "")
unfolding allow_name find_name same_feature feature_index is_allow_name has_name
is_allow_name-allow_name block_chain_id = refl
is_allow_name-allow_name block_difficulty = refl
is_allow_name-allow_name block_base_fee = refl
is_allow_name-allow_name block_blob_base_fee = refl
is_allow_name-allow_name block_gas_limit = refl
is_allow_name-allow_name block_prevrandao = refl
is_allow_name-allow_name block_coinbase = refl
is_allow_name-allow_name tx_origin = refl
is_allow_name-allow_name tx_gas_price = refl
is_allow_name-allow_name address_balance = refl
is_allow_name-allow_name gas_left = refl
is_allow_name-allow_name blob_hash = refl
is_allow_name-allow_name block_hash = refl
is_allow_name-allow_name static_call = refl
is_allow_name-allow_name delegate_call = refl
is_allow_name-allow_name low_level_call_outcome = refl
is_allow_name-allow_name native_value_transfer = refl
is_allow_name-allow_name self_call = refl
is_allow_name-allow_name try_catch = refl
is_allow_name-allow_name unknown_low_level_call = refl
is_allow_name-allow_name library_address = refl
is_allow_name-allow_name creation_code = refl
is_allow_name-allow_name runtime_code = refl

-- A feature with a name for its opt-in has one that the command line knows and that no other
-- feature has.
pub allow_name_unique :
    (f g : EvmFeature)
    → (allow_name f == "") ≡ false
    → allow_name f ≡ allow_name g
    → (is_allow_name (allow_name f) ≡ true) × (f ≡ g)
allow_name_unique f g h p = (
  is_allow_name-allow_name f ∙ ap not h,
  some-injective _ _ (
      sym (named_in-allow_name f h)
      ∙ ap (λ name. named_in name allowable_divergences) p
      ∙ named_in-allow_name g (ap (λ name. name == "") (sym p) ∙ h)),
)
