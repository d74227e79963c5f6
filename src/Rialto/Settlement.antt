-- ===== src/Rialto/Settlement.antt =====
-- guarded-settlement.ts: the guards that an intent to settle passes offline before a plan is made.
-- The texts of messages, warnings, gates and plan steps are left out: a failure is its status, a
-- gate and a step are constructors. Seconds and basis points are JavaScript numbers that may be NaN.
pub mod Digest
pub mod Store
pub mod Guards
pub mod Evaluation
pub mod Opaque
use bps_protocol.Prelude.{ℕ, Bool, Option, List}
use bps_protocol.Integer.{ℤ}
use bps_protocol.Integer.Number.{JsNumber}
use bps_protocol.Text.{Text, codes}
use bps_protocol.Dict.{Dict}

abbrev pub guard_version : Text
guard_version = codes "bps-guarded-settlement/1"

abbrev pub official_registry : Text
official_registry = codes "0x71a120CbBf3Ce7cD910a3c50fF77aFc62735687E"

abbrev pub weth : Text
weth = codes "0x0Bd7D308f8E1639FAb988df18A8011f41EAcAD73"

abbrev pub nvda : Text
nvda = codes "0xd0601CE157Db5bdC3162BbaC2a2C8aF5320D9EEC"

abbrev pub dead_address : Text
dead_address = codes "0x000000000000000000000000000000000000dead"

pub data GuardStatus : Type 0 where
  ready_offline_only policy_incomplete wrong_chain registry_mismatch : GuardStatus
  feature_mismatch registry_observation_missing registry_observation_stale : GuardStatus
  registry_paused router_mismatch selector_unapproved taker_unresolved : GuardStatus
  taker_mismatch token_not_allowed amount_invalid amount_limit_unresolved : GuardStatus
  amount_exceeds_limit nonzero_tx_value fee_policy_violation : GuardStatus
  slippage_policy_violation calldata_hash_invalid price_source_unresolved : GuardStatus
  price_pair_mismatch price_observation_stale price_deviation_exceeded : GuardStatus
  missing_deadline intent_expired intent_lifetime_excessive digest_mismatch : GuardStatus
  replay_detected nonce_reused : GuardStatus

pub record TokenPair : Type 0 where
  pub sell_token : Text
  pub buy_token : Text

-- `none` is a fact that is unresolved.
pub record SettlementPolicy : Type 0 where
  pub version : Text
  pub chain_id : ℕ
  pub registry : Text
  pub feature : ℕ
  pub allowed_pairs : List TokenPair
  pub max_sell_amount_raw_by_token : Dict (Option ℤ)
  pub allowed_selectors : List Text
  pub max_platform_fee_bps : JsNumber
  pub integrator_fee_allowed : Bool
  pub default_slippage_bps : JsNumber
  pub max_slippage_bps : JsNumber
  pub max_price_deviation_bps : ℤ
  pub max_price_observation_age_sec : Option JsNumber
  pub max_registry_observation_age_sec : Option JsNumber
  pub max_intent_lifetime_sec : JsNumber
  pub final_taker : Option Text
  pub allowed_price_sources : List Text
  pub paused : Bool

pub record SettlementIntent : Type 0 where
  pub version : Text
  pub chain_id : ℕ
  pub registry : Text
  pub feature : ℕ
  pub sell_token : Text
  pub buy_token : Text
  pub sell_amount_raw : ℤ
  pub min_buy_amount_raw : ℤ
  pub expected_target : Text
  pub selector : Text
  pub calldata_hash : Option Text
  pub tx_value : ℤ
  pub platform_fee_bps : JsNumber
  pub integrator_fee_present : Bool
  pub slippage_bps : JsNumber
  pub taker : Text
  pub nonce : ℤ
  pub intent_digest : Text
  pub created_at_sec : JsNumber
  pub deadline_sec : JsNumber

pub record PriceObservation : Type 0 where
  pub source : Text
  pub observed_time_sec : Option JsNumber
  pub observed_block : Option ℕ
  pub sell_token : Text
  pub buy_token : Text
  pub ref_sell_amount_raw : ℤ
  pub ref_buy_amount_raw : ℤ
  pub sell_decimals : ℕ
  pub buy_decimals : ℕ
