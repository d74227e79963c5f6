-- ===== src/Rialto/Settlement/Evaluation.antt =====
-- `evaluateGuardedSettlement`: all failures, the gates that remain, and a plan where nothing fails;
-- `productionCandidatePolicy`, the policy with unresolved facts.
pub mod Passed
pub mod Observed
pub mod Quoted
pub mod Ready
pub mod Priced
pub mod Candidate
pub mod History
use bps_protocol.Prelude.{
  ℕ, Bool, true, false, not, ◌&&◌, ◌||◌, Option, none, some, List, [], ◌∷◌, ◌++◌, if◌then◌else◌,
  length,
}
use bps_protocol.Integer.{ℤ, pos}
use bps_protocol.Integer.Number.{JsNumber, finite}
use bps_protocol.Text.{Text, to_lower_case}
use bps_protocol.Dict.{get_or}
use bps_protocol.Pod.Address.{is_hex_address}
use bps_protocol.Pod.Numeric.{integer_text}
use bps_protocol.Rialto.Registry.{RegistryFeatureObservation}
use bps_protocol.Rialto.Settlement.{
  guard_version, official_registry, weth, nvda, GuardStatus, ready_offline_only, TokenPair,
  SettlementPolicy, SettlementIntent, PriceObservation,
}
use bps_protocol.Rialto.Settlement.Store.{ReplayStore}
use bps_protocol.Rialto.Settlement.Guards.{
  cap_of, taker_resolved, is_some, is_empty, price_sources_resolved, policy_failures,
  identity_failures, amount_failures, call_failures, taker_failures, registry_failures,
  price_failures, expiry_failures, replay_failures,
}

-- Nothing that production needs is resolved: the policy fails closed.
unfoldable pub production_candidate_policy : SettlementPolicy
production_candidate_policy = record {
  version = guard_version;
  chain_id = 4663;
  registry = official_registry;
  feature = 2;
  allowed_pairs = (record { sell_token = weth; buy_token = nvda }) ∷ [];
  max_sell_amount_raw_by_token = (to_lower_case weth, none) ∷ [];
  allowed_selectors = [];
  max_platform_fee_bps = finite (pos 5);
  integrator_fee_allowed = false;
  default_slippage_bps = finite (pos 50);
  max_slippage_bps = finite (pos 100);
  max_price_deviation_bps = pos 100;
  max_price_observation_age_sec = none;
  max_registry_observation_age_sec = none;
  max_intent_lifetime_sec = finite (pos 300);
  final_taker = none;
  allowed_price_sources = [];
  paused = false;
}

-- `remainingProductionGates`
pub data Gate : Type 0 where
  approved_selector final_taker_gate per_token_amount_cap : Gate
  dated_registry_strategy trusted_price_source : Gate

abbrev pub gate_if : Bool → Gate → List Gate
gate_if test gate = if test then gate ∷ [] else []

abbrev pub is_taker_address : Option Text → Bool
is_taker_address none = false
is_taker_address (some t) = is_hex_address t

unfoldable pub cap_unresolved : SettlementPolicy → List TokenPair → Bool
cap_unresolved policy [] = false
cap_unresolved policy (p ∷ ps) =
    not (is_some (cap_of policy p.sell_token)) || cap_unresolved policy ps

unfoldable pub compute_remaining_gates : SettlementPolicy → List Gate
compute_remaining_gates policy =
    gate_if (is_empty policy.allowed_selectors) approved_selector
    ++ gate_if (not (is_taker_address policy.final_taker)) final_taker_gate
    ++ gate_if (cap_unresolved policy policy.allowed_pairs) per_token_amount_cap
    ++ gate_if (not (is_some policy.max_registry_observation_age_sec)) dated_registry_strategy
    ++ gate_if (not (price_sources_resolved policy)) trusted_price_source

pub data SettlementAction : Type 0 where
  reverify_registry approve_exact call_router require_min_buy : SettlementAction
  clear_allowance consume_intent record_evidence : SettlementAction

pub record SettlementPlan : Type 0 where
  pub version : Text
  pub intent_digest : Text
  pub taker : Text
  pub target : Text
  pub sell_token : Text
  pub buy_token : Text
  pub sell_amount_raw : Text
  pub min_buy_amount_raw : Text
  pub deadline_sec : JsNumber
  pub steps : List (ℕ × SettlementAction)

pub record ValidatedPolicy : Type 0 where
  pub version : Text
  pub chain_id : ℕ
  pub registry : Text
  pub feature : ℕ
  pub selector_allow_list_size : ℕ
  pub final_taker_resolved : Bool
  pub price_sources_resolved : Bool
  pub registry_age_limit_resolved : Bool
  pub price_age_limit_resolved : Bool
  pub paused : Bool

pub record ReadinessResult : Type 0 where
  pub ready : Bool
  pub status : GuardStatus
  pub failures : List GuardStatus
  pub warned : Bool
  pub validated_policy : ValidatedPolicy
  pub sanitized_plan : Option SettlementPlan
  pub remaining_production_gates : List Gate

pub record GuardedSettlementInput : Type 0 where
  pub policy : SettlementPolicy
  pub intent : SettlementIntent
  pub registry_observation : Option RegistryFeatureObservation
  pub price_observation : Option PriceObservation
  pub replay_store : ReplayStore
  pub now_sec : JsNumber

abbrev pub plan_steps : List (ℕ × SettlementAction)
plan_steps =
    (1, reverify_registry)
    ∷ (2, approve_exact)
    ∷ (3, call_router)
    ∷ (4, require_min_buy)
    ∷ (5, clear_allowance)
    ∷ (6, consume_intent)
    ∷ (7, record_evidence)
    ∷ []

unfoldable pub plan_of : SettlementPolicy → SettlementIntent → SettlementPlan
plan_of policy intent = record {
  version = policy.version;
  intent_digest = intent.intent_digest;
  taker = intent.taker;
  target = intent.expected_target;
  sell_token = intent.sell_token;
  buy_token = intent.buy_token;
  sell_amount_raw = integer_text intent.sell_amount_raw;
  min_buy_amount_raw = integer_text intent.min_buy_amount_raw;
  deadline_sec = intent.deadline_sec;
  steps = plan_steps;
}

abbrev pub validated : SettlementPolicy → ValidatedPolicy
validated policy = record {
  version = policy.version;
  chain_id = policy.chain_id;
  registry = policy.registry;
  feature = policy.feature;
  selector_allow_list_size = length policy.allowed_selectors;
  final_taker_resolved = taker_resolved policy.final_taker;
  price_sources_resolved = price_sources_resolved policy;
  registry_age_limit_resolved = is_some policy.max_registry_observation_age_sec;
  price_age_limit_resolved = is_some policy.max_price_observation_age_sec;
  paused = policy.paused;
}

abbrev pub has_no_failure : List GuardStatus → Bool
has_no_failure [] = true
has_no_failure (f ∷ fs) = false

abbrev pub first_status : List GuardStatus → GuardStatus
first_status [] = ready_offline_only
first_status (f ∷ fs) = f

module _ (sha256_hex : Text → Text) (date_seconds : Text → Option JsNumber) where
  unfoldable pub all_failures : GuardedSettlementInput → List GuardStatus
  all_failures input =
      policy_failures input.policy
      ++ identity_failures input.policy input.intent
      ++ amount_failures input.policy input.intent
      ++ call_failures input.policy input.intent
      ++ taker_failures input.policy.final_taker input.intent.taker
      ++ registry_failures date_seconds input.policy input.intent input.registry_observation
          input.now_sec
      ++ price_failures input.policy input.intent input.price_observation input.now_sec
      ++ expiry_failures input.policy input.intent input.now_sec
      ++ replay_failures sha256_hex input.intent input.replay_store

  unfoldable pub evaluate_guarded_settlement : GuardedSettlementInput → ReadinessResult
  evaluate_guarded_settlement input =
      let failures = all_failures input in
      let ready = has_no_failure failures in
      record {
        ready = ready;
        status = first_status failures;
        failures = failures;
        warned = input.replay_store.in_memory;
        validated_policy = validated input.policy;
        sanitized_plan = if ready then some (plan_of input.policy input.intent) else none;
        remaining_production_gates = compute_remaining_gates input.policy;
      }
