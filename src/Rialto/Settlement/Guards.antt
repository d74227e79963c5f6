-- ===== src/Rialto/Settlement/Guards.antt =====
-- The guards of `evaluateGuardedSettlement`, each with the failures that it adds, in the order in
-- which it adds them. `Date.parse`, as whole seconds, is a parameter: `none` is not finite.
use bps_protocol.Prelude.{
  ℕ, Bool, true, false, not, ◌&&◌, ◌||◌, Option, none, some, List, [], ◌∷◌, ◌++◌, map, ◌==◌,
  if◌then◌else◌,
}
use bps_protocol.Integer.{ℤ, pos, ◌+ℤ◌, ◌*ℤ◌, ◌/ℤ◌, ltb_ℤ, leb_ℤ, ◌==ℤ◌}
use bps_protocol.Integer.Number.{JsNumber, finite, ltb_number, leb_number, sub_number}
use bps_protocol.Text.{Text, text_eq, to_lower_case}
use bps_protocol.Dict.{has, get_or}
use bps_protocol.Pod.Address.{is_hex_address, zero_address}
use bps_protocol.Pod.Schema.{is_hash32}
use bps_protocol.Rialto.QuoteExecution.{same_lower}
use bps_protocol.Rialto.Registry.{
  RegistryFeatureObservation, RegistryReconcileCode, reconciled, missing_registry_field,
  feature_paused, is_address, is_dated, is_selector, reconcile_registry_target,
}
use bps_protocol.Rialto.Settlement.{
  guard_version, dead_address, GuardStatus, policy_incomplete, wrong_chain, registry_mismatch,
  feature_mismatch, registry_observation_missing, registry_observation_stale, registry_paused,
  router_mismatch, selector_unapproved, taker_unresolved, taker_mismatch, token_not_allowed,
  amount_invalid, amount_limit_unresolved, amount_exceeds_limit, nonzero_tx_value,
  fee_policy_violation, slippage_policy_violation, calldata_hash_invalid, price_source_unresolved,
  price_pair_mismatch, price_observation_stale, price_deviation_exceeded, missing_deadline,
  intent_expired, intent_lifetime_excessive, digest_mismatch, replay_detected, nonce_reused,
  TokenPair, SettlementPolicy, SettlementIntent, PriceObservation,
}
use bps_protocol.Rialto.Settlement.Digest.{compute_intent_digest}
use bps_protocol.Rialto.Settlement.Store.{ReplayStore}

-- `if (test) add(status, message)`
abbrev pub add_if : Bool → GuardStatus → List GuardStatus
add_if test status = if test then status ∷ [] else []

-- A row of such tests: the statuses of those that hold, in order.
abbrev pub failing : List (Bool × GuardStatus) → List GuardStatus
failing [] = []
failing (f ∷ fs) = add_if f.0 f.1 ++ failing fs

-- 0. The policy's own sanity.
abbrev pub policy_tests : SettlementPolicy → List (Bool × GuardStatus)
policy_tests policy =
    (not (text_eq policy.version guard_version), policy_incomplete)
    ∷ (not (is_hex_address policy.registry), policy_incomplete)
    ∷ (
      leb_number policy.max_slippage_bps (finite (pos 0))
          || ltb_number policy.default_slippage_bps (finite (pos 0)),
      policy_incomplete,
    )
    ∷ (ltb_number policy.max_slippage_bps policy.default_slippage_bps, policy_incomplete)
    ∷ (
      leb_number policy.max_intent_lifetime_sec (finite (pos 0))
          || ltb_number (finite (pos 300)) policy.max_intent_lifetime_sec,
      policy_incomplete,
    )
    ∷ (policy.paused, policy_incomplete)
    ∷ []

unfoldable pub policy_failures : SettlementPolicy → List GuardStatus
policy_failures policy = failing (policy_tests policy)

-- 1. Chain, registry and feature.
abbrev pub identity_tests : SettlementPolicy → SettlementIntent → List (Bool × GuardStatus)
identity_tests policy intent =
    (not (intent.chain_id == policy.chain_id), wrong_chain)
    ∷ (not (same_lower intent.registry policy.registry), registry_mismatch)
    ∷ (not (intent.feature == policy.feature), feature_mismatch)
    ∷ []

unfoldable pub identity_failures : SettlementPolicy → SettlementIntent → List GuardStatus
identity_failures policy intent = failing (identity_tests policy intent)

unfoldable pub pair_allowed : List TokenPair → Text → Text → Bool
pair_allowed [] sell buy = false
pair_allowed (p ∷ ps) sell buy =
    same_lower p.sell_token sell && same_lower p.buy_token buy || pair_allowed ps sell buy

abbrev pub cap_of : SettlementPolicy → Text → Option ℤ
cap_of policy sell = get_or none policy.max_sell_amount_raw_by_token (to_lower_case sell)

abbrev pub cap_failures : Option ℤ → ℤ → List GuardStatus
cap_failures none amount = amount_limit_unresolved ∷ []
cap_failures (some cap) amount = add_if (ltb_ℤ cap amount) amount_exceeds_limit

-- 2. and 3. The pair, the amounts and the cap.
abbrev pub amount_tests : SettlementPolicy → SettlementIntent → List (Bool × GuardStatus)
amount_tests policy intent =
    (not (pair_allowed policy.allowed_pairs intent.sell_token intent.buy_token), token_not_allowed)
    ∷ (
      leb_ℤ intent.sell_amount_raw (pos 0) || leb_ℤ intent.min_buy_amount_raw (pos 0),
      amount_invalid,
    )
    ∷ []

unfoldable pub amount_failures : SettlementPolicy → SettlementIntent → List GuardStatus
amount_failures policy intent =
    failing (amount_tests policy intent)
    ++ cap_failures (cap_of policy intent.sell_token) intent.sell_amount_raw

abbrev pub is_hash : Option Text → Bool
is_hash none = false
is_hash (some h) = is_hash32 h

unfoldable pub selector_approved : SettlementPolicy → SettlementIntent → Bool
selector_approved policy intent =
    is_selector intent.selector
    && has (map to_lower_case policy.allowed_selectors) (to_lower_case intent.selector)

-- 4. to 8. Value, fees, slippage, calldata and selector.
abbrev pub call_tests : SettlementPolicy → SettlementIntent → List (Bool × GuardStatus)
call_tests policy intent =
    (not (intent.tx_value ==ℤ pos 0), nonzero_tx_value)
    ∷ (
      ltb_number policy.max_platform_fee_bps intent.platform_fee_bps
          || ltb_number intent.platform_fee_bps (finite (pos 0)),
      fee_policy_violation,
    )
    ∷ (intent.integrator_fee_present && not policy.integrator_fee_allowed, fee_policy_violation)
    ∷ (
      ltb_number intent.slippage_bps (finite (pos 0))
          || ltb_number policy.max_slippage_bps intent.slippage_bps,
      slippage_policy_violation,
    )
    ∷ (not (is_hash intent.calldata_hash), calldata_hash_invalid)
    ∷ (not (selector_approved policy intent), selector_unapproved)
    ∷ []

unfoldable pub call_failures : SettlementPolicy → SettlementIntent → List GuardStatus
call_failures policy intent = failing (call_tests policy intent)

-- Zero or the dead address.
abbrev pub is_canary : Text → Bool
is_canary a = text_eq (to_lower_case a) zero_address || text_eq (to_lower_case a) dead_address

abbrev pub taker_resolved : Option Text → Bool
taker_resolved none = false
taker_resolved (some t) = is_hex_address t && not (is_canary t)

abbrev pub matches_taker : Option Text → Text → Bool
matches_taker none taker = false
matches_taker (some t) taker = is_hex_address taker && same_lower taker t

-- 9. The taker.
unfoldable pub taker_failures : Option Text → Text → List GuardStatus
taker_failures policy_taker taker =
    (if not (taker_resolved policy_taker)
      then taker_unresolved ∷ []
      else add_if (not (matches_taker policy_taker taker)) taker_mismatch)
    ++ add_if (is_hex_address taker && is_canary taker) taker_unresolved

abbrev pub reconcile_failures : RegistryReconcileCode → List GuardStatus
reconcile_failures feature_paused = registry_paused ∷ []
reconcile_failures missing_registry_field = registry_observation_missing ∷ []
reconcile_failures reconciled = []
reconcile_failures other = router_mismatch ∷ []

-- A time that is there, a limit that is resolved, and neither `now - t > age` nor `t > now`.
unfoldable pub is_fresh : Option JsNumber → Option JsNumber → JsNumber → Bool
is_fresh none limit now = false
is_fresh (some t) none now = false
is_fresh (some t) (some age) now = not (ltb_number age (sub_number now t)) && not (ltb_number now t)

abbrev pub same_registry : Option Text → Text → Bool
same_registry none registry = false
same_registry (some r) registry = same_lower r registry

abbrev pub is_feature : Option ℕ → ℕ → Bool
is_feature none feature = false
is_feature (some f) feature = f == feature

abbrev pub observation_tests :
    SettlementPolicy → RegistryFeatureObservation → List (Bool × GuardStatus)
observation_tests policy obs =
    (not (is_address obs.registry && same_registry obs.registry policy.registry), registry_mismatch)
    ∷ (not (is_feature obs.feature policy.feature), feature_mismatch)
    ∷ []

module _ (date_seconds : Text → Option JsNumber) where
  abbrev pub observed_second : Option Text → Option JsNumber
  observed_second none = none
  observed_second (some t) = date_seconds t

  -- Every way of not being dated and fresh adds the same status.
  abbrev pub observation_failures :
      SettlementPolicy → SettlementIntent → RegistryFeatureObservation → JsNumber → List GuardStatus
  observation_failures policy intent obs now =
      failing (observation_tests policy obs)
      ++ reconcile_failures
          (reconcile_registry_target (some intent.expected_target) (some obs)).code
      ++ add_if
          (not (
            is_dated obs
            && is_fresh (observed_second obs.observation_time_utc)
                policy.max_registry_observation_age_sec now))
          registry_observation_stale

  -- 10. The observation of the registry.
  unfoldable pub registry_failures :
      SettlementPolicy
      → SettlementIntent
      → Option RegistryFeatureObservation
      → JsNumber
      → List GuardStatus
  registry_failures policy intent none now = registry_observation_missing ∷ []
  registry_failures policy intent (some obs) now = observation_failures policy intent obs now

abbrev pub is_some : {A : Type 0} → Option A → Bool
is_some none = false
is_some (some a) = true

abbrev pub is_empty : List Text → Bool
is_empty [] = true
is_empty (t ∷ ts) = false

-- `policy.allowedPriceSources.length > 0 && policy.maxPriceObservationAgeSec !== null`
abbrev pub price_sources_resolved : SettlementPolicy → Bool
price_sources_resolved policy =
    not (is_empty policy.allowed_price_sources) && is_some policy.max_price_observation_age_sec

-- The largest minimum return that the reference price permits.
unfoldable pub permitted_max : SettlementPolicy → SettlementIntent → PriceObservation → ℤ
permitted_max policy intent price =
    let ref_buy_for_sell =
      price.ref_buy_amount_raw *ℤ intent.sell_amount_raw /ℤ price.ref_sell_amount_raw in
    ref_buy_for_sell *ℤ (pos 10000 +ℤ policy.max_price_deviation_bps) /ℤ pos 10000

unfoldable pub observed_price_failures :
    SettlementPolicy → SettlementIntent → PriceObservation → JsNumber → List GuardStatus
observed_price_failures policy intent price now =
    if not (has (map to_lower_case policy.allowed_price_sources) (to_lower_case price.source))
    then price_source_unresolved ∷ []
    else if not (
        same_lower price.sell_token intent.sell_token
        && same_lower price.buy_token intent.buy_token)
    then price_pair_mismatch ∷ []
    else if leb_ℤ price.ref_sell_amount_raw (pos 0) || leb_ℤ price.ref_buy_amount_raw (pos 0)
    then price_source_unresolved ∷ []
    else if not (is_fresh price.observed_time_sec policy.max_price_observation_age_sec now)
    then price_observation_stale ∷ []
    else add_if (ltb_ℤ (permitted_max policy intent price) intent.min_buy_amount_raw)
        price_deviation_exceeded

-- 11. The price.
unfoldable pub price_failures :
    SettlementPolicy → SettlementIntent → Option PriceObservation → JsNumber → List GuardStatus
price_failures policy intent none now = price_source_unresolved ∷ []
price_failures policy intent (some price) now =
    if not (price_sources_resolved policy)
    then price_source_unresolved ∷ []
    else observed_price_failures policy intent price now

-- 12. Expiry.
unfoldable pub expiry_failures : SettlementPolicy → SettlementIntent → JsNumber → List GuardStatus
expiry_failures policy intent now =
    let lifetime = sub_number intent.deadline_sec intent.created_at_sec in
    if leb_number intent.deadline_sec (finite (pos 0))
    then missing_deadline ∷ []
    else (if leb_number lifetime (finite (pos 0))
        then intent_expired ∷ []
        else add_if (ltb_number policy.max_intent_lifetime_sec lifetime) intent_lifetime_excessive)
      ++ add_if (ltb_number intent.deadline_sec now) intent_expired

-- 12. The digest, and replay.
abbrev pub replay_tests :
    (sha256_hex : Text → Text) → SettlementIntent → ReplayStore → List (Bool × GuardStatus)
replay_tests sha256_hex intent store =
    (
      not (same_lower (compute_intent_digest sha256_hex intent) intent.intent_digest),
      digest_mismatch,
    )
    ∷ (store.is_digest_consumed intent.intent_digest, replay_detected)
    ∷ (is_hex_address intent.taker && store.is_nonce_used intent.taker intent.nonce, nonce_reused)
    ∷ []

unfoldable pub replay_failures :
    (sha256_hex : Text → Text) → SettlementIntent → ReplayStore → List GuardStatus
replay_failures sha256_hex intent store = failing (replay_tests sha256_hex intent store)
