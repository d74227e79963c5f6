-- ===== src/Pod/Schema.antt =====
-- schemas.ts: the fixture before validation, and the checks that the schema's refinements make.
-- That an unknown value has the shape of `RawCycleFixture`, with no other keys, is the schema
-- package's part, and stands here in the type.
use bps_protocol.Prelude.{
  ℕ, Bool, true, false, ◌&&◌, Option, none, some, List, [], ◌∷◌, leb, ◌==◌, if◌then◌else◌, every,
  length, ok, err,
}
use bps_protocol.Text.{Text, codes, text_eq}
use bps_protocol.Pod.Fault.{Result, schema_violation}
use bps_protocol.Pod.Numeric.{is_non_negative_integer_string}
use bps_protocol.Pod.Address.{is_hex, is_hex_address}
use bps_protocol.Pod.Model.{
  LockTier, lock_7d, lock_14d, lock_21d, lock_30d, econ_version, ExclusionCategory, uniswap_pool,
  nonfungible_position_manager, zero_burn_dead, official_router, acquisition_vault,
  distribution_vault, strategic_asset_reserve, locking_vault, protocol_treasury, team_vesting,
  bridge, contract_ineligible, explicit_manifest,
}

pub record RawCycleConfig : Type 0 where
  pub schema_version : Text
  pub cycle_id : Text
  pub chain_id : Text
  pub bps_token_address : Text
  pub claim_manager_address : Text
  pub economics_version : Text
  pub reward_policy_version : Text
  pub epoch_id : Text
  pub epoch_start : Text
  pub epoch_end : Text
  pub start_block : Text
  pub end_block : Text
  pub snapshot_block : Text
  pub finalized_block : Text
  pub confirmation_depth : Text
  pub claim_start : Text
  pub claim_deadline : Text
  pub terms_version : Text
  pub eligibility_policy_version : Text
  pub restricted_jurisdiction_policy_version : Text

pub record RawConfirmedTransfer : Type 0 where
  pub chain_id : Text
  pub block_number : Text
  pub block_hash : Text
  pub transaction_hash : Text
  pub transaction_index : Text
  pub log_index : Text
  pub timestamp : Text
  pub sender : Text
  pub recipient : Text
  pub raw_amount : Text

pub record RawEpochStartBalance : Type 0 where
  pub wallet : Text
  pub raw_balance : Text

pub record RawLockRecord : Type 0 where
  pub wallet : Text
  pub raw_principal : Text
  pub tier : Text
  pub start_timestamp : Text
  pub unlock_timestamp : Text
  pub withdrawal_timestamp : Option Text

pub record RawEligibilityRecord : Type 0 where
  pub wallet : Text
  pub eligible : Bool
  pub policy_version : Text
  pub valid_from : Text
  pub expiry : Option Text
  pub revoked : Bool

pub record RawExcludedAddress : Type 0 where
  pub address : Text
  pub category : Text
  pub reason : Text
  pub policy_version : Text

pub record RawAcquiredAsset : Type 0 where
  pub ticker : Text
  pub name : Text
  pub token_address : Text
  pub decimals : ℕ
  pub acquired_raw_amount : Text

pub record RawCycleFixture : Type 0 where
  pub cycle : RawCycleConfig
  pub excluded_addresses : List RawExcludedAddress
  pub eligibility : List RawEligibilityRecord
  pub epoch_start_balances : List RawEpochStartBalance
  pub transfers : List RawConfirmedTransfer
  pub locks : List RawLockRecord
  pub assets : List RawAcquiredAsset

-- `z.string().min(1)`
abbrev pub is_non_empty {ℓ} : {A : Type ℓ} → List A → Bool
is_non_empty [] = false
is_non_empty (c ∷ cs) = true

-- `/^0x[0-9a-fA-F]{64}$/`
unfoldable pub is_hash32 : Text → Bool
is_hash32 [] = false
is_hash32 (c ∷ []) = false
is_hash32 (c ∷ d ∷ ds) = c == b'0' && d == b'x' && length ds == 64 && every is_hex ds

abbrev pub is_big : Text → Bool
is_big = is_non_negative_integer_string

abbrev pub is_big? : Option Text → Bool
is_big? none = true
is_big? (some v) = is_big v

-- `TIER_SPECS[tier]`, where it is defined.
unfoldable pub tier_of_text : Text → Option LockTier
tier_of_text t =
    if text_eq t (codes "LOCK_7D")
    then some lock_7d
    else if text_eq t (codes "LOCK_14D")
    then some lock_14d
    else if text_eq t (codes "LOCK_21D")
    then some lock_21d
    else if text_eq t (codes "LOCK_30D")
    then some lock_30d
    else none

unfoldable pub category_of_text : Text → Option ExclusionCategory
category_of_text t =
    if text_eq t (codes "UNISWAP_POOL")
    then some uniswap_pool
    else if text_eq t (codes "NONFUNGIBLE_POSITION_MANAGER")
    then some nonfungible_position_manager
    else if text_eq t (codes "ZERO_BURN_DEAD")
    then some zero_burn_dead
    else if text_eq t (codes "OFFICIAL_ROUTER")
    then some official_router
    else if text_eq t (codes "ACQUISITION_VAULT")
    then some acquisition_vault
    else if text_eq t (codes "DISTRIBUTION_VAULT")
    then some distribution_vault
    else if text_eq t (codes "STRATEGIC_ASSET_RESERVE")
    then some strategic_asset_reserve
    else if text_eq t (codes "LOCKING_VAULT")
    then some locking_vault
    else if text_eq t (codes "PROTOCOL_TREASURY")
    then some protocol_treasury
    else if text_eq t (codes "TEAM_VESTING")
    then some team_vesting
    else if text_eq t (codes "BRIDGE")
    then some bridge
    else if text_eq t (codes "CONTRACT_INELIGIBLE")
    then some contract_ineligible
    else if text_eq t (codes "EXPLICIT_MANIFEST")
    then some explicit_manifest
    else none

abbrev pub is_some {ℓ} : {A : Type ℓ} → Option A → Bool
is_some none = false
is_some (some a) = true

unfoldable pub cycle_conforms : RawCycleConfig → Bool
cycle_conforms c =
    is_non_empty c.schema_version
    && is_big c.cycle_id
    && is_big c.chain_id
    && is_hex_address c.bps_token_address
    && is_hex_address c.claim_manager_address
    && text_eq c.economics_version econ_version
    && is_non_empty c.reward_policy_version
    && is_big c.epoch_id
    && is_big c.epoch_start
    && is_big c.epoch_end
    && is_big c.start_block
    && is_big c.end_block
    && is_big c.snapshot_block
    && is_big c.finalized_block
    && is_big c.confirmation_depth
    && is_big c.claim_start
    && is_big c.claim_deadline
    && is_non_empty c.terms_version
    && is_non_empty c.eligibility_policy_version
    && is_non_empty c.restricted_jurisdiction_policy_version

unfoldable pub transfer_conforms : RawConfirmedTransfer → Bool
transfer_conforms r =
    is_big r.chain_id
    && is_big r.block_number
    && is_hash32 r.block_hash
    && is_hash32 r.transaction_hash
    && is_big r.transaction_index
    && is_big r.log_index
    && is_big r.timestamp
    && is_hex_address r.sender
    && is_hex_address r.recipient
    && is_big r.raw_amount

unfoldable pub balance_conforms : RawEpochStartBalance → Bool
balance_conforms r = is_hex_address r.wallet && is_big r.raw_balance

unfoldable pub lock_conforms : RawLockRecord → Bool
lock_conforms r =
    is_hex_address r.wallet
    && is_big r.raw_principal
    && is_some (tier_of_text r.tier)
    && is_big r.start_timestamp
    && is_big r.unlock_timestamp
    && is_big? r.withdrawal_timestamp

unfoldable pub eligibility_conforms : RawEligibilityRecord → Bool
eligibility_conforms r =
    is_hex_address r.wallet
    && is_non_empty r.policy_version
    && is_big r.valid_from
    && is_big? r.expiry

unfoldable pub excluded_conforms : RawExcludedAddress → Bool
excluded_conforms r =
    is_hex_address r.address
    && is_some (category_of_text r.category)
    && is_non_empty r.reason
    && is_non_empty r.policy_version

unfoldable pub asset_conforms : RawAcquiredAsset → Bool
asset_conforms r =
    is_non_empty r.ticker
    && is_non_empty r.name
    && is_hex_address r.token_address
    && leb r.decimals 255
    && is_big r.acquired_raw_amount

unfoldable pub fixture_conforms : RawCycleFixture → Bool
unfolding cycle_conforms transfer_conforms balance_conforms lock_conforms eligibility_conforms
    excluded_conforms asset_conforms
fixture_conforms f =
    cycle_conforms f.cycle
    && every excluded_conforms f.excluded_addresses
    && every eligibility_conforms f.eligibility
    && every balance_conforms f.epoch_start_balances
    && every transfer_conforms f.transfers
    && every lock_conforms f.locks
    && every asset_conforms f.assets
    && is_non_empty f.assets

unfoldable pub parse_cycle_fixture : RawCycleFixture → Result RawCycleFixture
parse_cycle_fixture f = if fixture_conforms f then ok f else err schema_violation
