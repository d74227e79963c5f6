-- ===== src/Pod/Model.antt =====
-- model.ts and the constants of constants.ts: the fixture after validation. Addresses and hashes
-- are normalized texts, numbers are naturals.
use bps_protocol.Prelude.{ℕ, ◌*◌, Bool, Option, List, [], ◌∷◌}
use bps_protocol.Text.{Text, codes}

unfoldable pub econ_version : Text
econ_version = codes "BPS-ECON-2.0"

abbrev pub participant_pool_bps : ℕ
participant_pool_bps = 8000

abbrev pub bps_denominator : ℕ
bps_denominator = 10000

pub data LockTier : Type 0 where
  lock_7d lock_14d lock_21d lock_30d : LockTier

pub record TierSpec : Type 0 where
  pub tier : LockTier
  pub multiplier_bps : ℕ
  pub duration_seconds : ℕ

abbrev pub day : ℕ
day = 86400

abbrev pub tier_specs : LockTier → TierSpec
tier_specs lock_7d = record { tier = lock_7d; multiplier_bps = 11000; duration_seconds = 7 * day }
tier_specs lock_14d = record {
  tier = lock_14d;
  multiplier_bps = 12500;
  duration_seconds = 14 * day;
}
tier_specs lock_21d = record {
  tier = lock_21d;
  multiplier_bps = 15000;
  duration_seconds = 21 * day;
}
tier_specs lock_30d = record {
  tier = lock_30d;
  multiplier_bps = 17500;
  duration_seconds = 30 * day;
}

abbrev pub supported_lock_tiers : List LockTier
supported_lock_tiers = lock_7d ∷ lock_14d ∷ lock_21d ∷ lock_30d ∷ []

pub data ExclusionCategory : Type 0 where
  uniswap_pool nonfungible_position_manager zero_burn_dead official_router : ExclusionCategory
  acquisition_vault distribution_vault strategic_asset_reserve locking_vault : ExclusionCategory
  protocol_treasury team_vesting bridge contract_ineligible explicit_manifest : ExclusionCategory

pub record CycleConfig : Type 0 where
  pub schema_version : Text
  pub cycle_id : ℕ
  pub chain_id : ℕ
  pub bps_token_address : Text
  pub claim_manager_address : Text
  pub economics_version : Text
  pub reward_policy_version : Text
  pub epoch_id : ℕ
  pub epoch_start : ℕ
  pub epoch_end : ℕ
  pub start_block : ℕ
  pub end_block : ℕ
  pub snapshot_block : ℕ
  pub finalized_block : ℕ
  pub confirmation_depth : ℕ
  pub claim_start : ℕ
  pub claim_deadline : ℕ
  pub terms_version : Text
  pub eligibility_policy_version : Text
  pub restricted_jurisdiction_policy_version : Text

pub record ConfirmedTransfer : Type 0 where
  pub chain_id : ℕ
  pub block_number : ℕ
  pub block_hash : Text
  pub transaction_hash : Text
  pub transaction_index : ℕ
  pub log_index : ℕ
  pub timestamp : ℕ
  pub sender : Text
  pub recipient : Text
  pub raw_amount : ℕ

pub record EpochStartBalance : Type 0 where
  pub wallet : Text
  pub raw_balance : ℕ

pub record LockRecord : Type 0 where
  pub wallet : Text
  pub raw_principal : ℕ
  pub tier : LockTier
  pub start_timestamp : ℕ
  pub unlock_timestamp : ℕ
  pub withdrawal_timestamp : Option ℕ

pub record EligibilityRecord : Type 0 where
  pub wallet : Text
  pub eligible : Bool
  pub policy_version : Text
  pub valid_from : ℕ
  pub expiry : Option ℕ
  pub revoked : Bool

pub record ExcludedAddress : Type 0 where
  pub address : Text
  pub category : ExclusionCategory
  pub reason : Text
  pub policy_version : Text

pub record AcquiredAsset : Type 0 where
  pub ticker : Text
  pub name : Text
  pub token_address : Text
  pub decimals : ℕ
  pub acquired_raw_amount : ℕ

pub record CycleFixture : Type 0 where
  pub cycle : CycleConfig
  pub excluded_addresses : List ExcludedAddress
  pub eligibility : List EligibilityRecord
  pub epoch_start_balances : List EpochStartBalance
  pub transfers : List ConfirmedTransfer
  pub locks : List LockRecord
  pub assets : List AcquiredAsset

pub record Entitlement : Type 0 where
  pub cycle_id : ℕ
  pub wallet : Text
  pub asset : Text
  pub amount : ℕ
