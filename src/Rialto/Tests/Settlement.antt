-- ===== src/Rialto/Tests/Settlement.antt =====
-- A ready intent, what it implies, and a history that settles it.
use bps_protocol.Prelude.{
  ◌≡◌, ◌↔◌, ◌⊎◌, ◌*◌, ◌+◌, ◌≤◌, refl, true, false, Option, none, some, [], ◌∷◌,
}
use bps_protocol.Integer.{ℤ, pos, ◌≤ℤ◌, size}
use bps_protocol.Integer.Number.{JsNumber, finite}
use bps_protocol.Text.{Text, codes, to_lower_case}
use bps_protocol.Pod.Samples.{alice, bob, bob_upper, pool_wallet, token}
use bps_protocol.Text.{text_eq}
use bps_protocol.Text.Separator.{every-IsFree}
use bps_protocol.Dict.{get, has}
use bps_protocol.Pod.Address.{is_hex_address, zero_address}
use bps_protocol.Pod.Numeric.{digits_of, integer_text, to_decimal_string}
use bps_protocol.Pod.Schema.{is_hash32}
use bps_protocol.Rialto.Registry.{
  RegistryFeatureObservation, is_selector, reconcile_observed, reconcile_registry_target,
}
use bps_protocol.Rialto.Settlement.Guards.{
  policy_failures, identity_failures, amount_failures, pair_allowed, call_failures, cap_of,
  selector_approved, taker_failures, expiry_failures, is_fresh, observed_price_failures,
  permitted_max, price_failures, registry_failures, replay_failures,
}
use bps_protocol.Rialto.Settlement.{
  SettlementPolicy, SettlementIntent, PriceObservation, guard_version, weth, nvda,
}
use bps_protocol.Rialto.Settlement.Digest.{
  compute_intent_digest, build_intent, join_bar, digest_parts,
}
use bps_protocol.Rialto.Settlement.Digest.Injective.{
  IsPlainIntent, HasSameFields, join_bar-digest_parts_iff,
}
use bps_protocol.Rialto.Settlement.Store.{
  InMemoryReplayStore, new_store, as_replay_store, nonce_key, is_digest_consumed, is_nonce_used,
  mark_consumed,
}
use bps_protocol.Rialto.Settlement.Store.Marked.{mark_consumed_lem}
use bps_protocol.Rialto.Settlement.Evaluation.{
  GuardedSettlementInput, all_failures, evaluate_guarded_settlement, approved_selector,
  final_taker_gate, per_token_amount_cap, dated_registry_strategy, trusted_price_source,
}
use bps_protocol.Rialto.Settlement.Evaluation.Ready.{IsReady, evaluate_guarded_settlement_iff}
use bps_protocol.Rialto.Settlement.Evaluation.Priced.{evaluate_guarded_settlement-priced}
use bps_protocol.Rialto.Settlement.Evaluation.Candidate.{
  evaluate_guarded_settlement_gates, production_candidate_policy-closed, on_candidate,
}
use bps_protocol.Rialto.Settlement.Evaluation.History.{
  Ledger, settle, Reach, here, next, IsConsistent, Reach-IsConsistent,
}

-- A hash and a clock for the runs.
abbrev plain_hash : Text → Text
plain_hash t = t

abbrev at_thousand : Text → Option JsNumber
at_thousand t = some (finite (pos 1000))

abbrev policy : SettlementPolicy
policy = record {
  version = guard_version;
  chain_id = 4663;
  registry = pool_wallet;
  feature = 2;
  allowed_pairs = (record { sell_token = weth; buy_token = nvda }) ∷ [];
  max_sell_amount_raw_by_token = (to_lower_case weth, some (pos 500)) ∷ [];
  allowed_selectors = codes "0x12ab5678" ∷ [];
  max_platform_fee_bps = finite (pos 5);
  integrator_fee_allowed = false;
  default_slippage_bps = finite (pos 50);
  max_slippage_bps = finite (pos 100);
  max_price_deviation_bps = pos 100;
  max_price_observation_age_sec = some (finite (pos 60));
  max_registry_observation_age_sec = some (finite (pos 60));
  max_intent_lifetime_sec = finite (pos 300);
  final_taker = some alice;
  allowed_price_sources = codes "Desk" ∷ [];
  paused = false;
}

abbrev draft : SettlementIntent
draft = record {
  version = [];
  chain_id = 4663;
  registry = pool_wallet;
  feature = 2;
  sell_token = weth;
  buy_token = nvda;
  sell_amount_raw = pos 100;
  min_buy_amount_raw = pos 201;
  expected_target = bob_upper;
  selector = codes "0x12AB5678";
  calldata_hash = some (codes "0x00000000000000000000000000000000000000000000000000000000000000ff");
  tx_value = pos 0;
  platform_fee_bps = finite (pos 5);
  integrator_fee_present = false;
  slippage_bps = finite (pos 50);
  taker = alice;
  nonce = pos 7;
  intent_digest = [];
  created_at_sec = finite (pos 990);
  deadline_sec = finite (pos 1200);
}

abbrev intent : SettlementIntent
unfolding build_intent
intent = build_intent plain_hash draft

abbrev observation : RegistryFeatureObservation
observation = record {
  registry = some pool_wallet;
  feature = some 2;
  current_router = some bob;
  previous_router = some alice;
  next_router = some token;
  paused = some false;
  block_number = none;
  observation_time_utc = some (codes "2026-01-01T00:16:40Z");
}

abbrev price : PriceObservation
price = record {
  source = codes "desk";
  observed_time_sec = some (finite (pos 1010));
  observed_block = none;
  sell_token = weth;
  buy_token = nvda;
  ref_sell_amount_raw = pos 1000;
  ref_buy_amount_raw = pos 2000;
  sell_decimals = 18;
  buy_decimals = 18;
}

abbrev store : InMemoryReplayStore
unfolding new_store
store = new_store [] []

abbrev input : GuardedSettlementInput
input = record {
  policy = policy;
  intent = intent;
  registry_observation = some observation;
  price_observation = some price;
  replay_store = as_replay_store store;
  now_sec = finite (pos 1020);
}

ready : (evaluate_guarded_settlement plain_hash at_thousand input).ready ≡ true
unfolding evaluate_guarded_settlement all_failures policy_failures text_eq is_hex_address
    identity_failures intent to_lower_case amount_failures pair_allowed get call_failures is_hash32
    selector_approved is_selector has taker_failures zero_address digits_of integer_text
    to_decimal_string reconcile_observed reconcile_registry_target build_intent
    compute_intent_digest join_bar expiry_failures is_fresh observed_price_failures permitted_max
    price_failures registry_failures replay_failures store new_store is_digest_consumed
    is_nonce_used nonce_key
ready = refl

evaluate_guarded_settlement_iff_example :
    (evaluate_guarded_settlement plain_hash at_thousand input).ready ≡ true
    ↔ IsReady plain_hash at_thousand input
evaluate_guarded_settlement_iff_example =
    evaluate_guarded_settlement_iff plain_hash at_thousand input

evaluate_guarded_settlement-priced_example :
    (q : PriceObservation) × (input.price_observation ≡ some q)
    × (pos 1 ≤ℤ intent.min_buy_amount_raw)
    × (pos 1 ≤ℤ intent.sell_amount_raw)
    × (pos 1 ≤ℤ q.ref_sell_amount_raw)
    × (pos 1 ≤ℤ q.ref_buy_amount_raw)
    × (size intent.min_buy_amount_raw * 10000 * size q.ref_sell_amount_raw
        ≤ size q.ref_buy_amount_raw * size intent.sell_amount_raw * (10000 + 100))
evaluate_guarded_settlement-priced_example =
    evaluate_guarded_settlement-priced plain_hash at_thousand input 100 refl ready

capped : (c : ℤ) × (cap_of policy weth ≡ some c)
unfolding get text_eq to_lower_case
capped = (pos 500, refl)

evaluate_guarded_settlement_gates_example :
    (evaluate_guarded_settlement plain_hash at_thousand input).remaining_production_gates ≡ []
evaluate_guarded_settlement_gates_example =
    evaluate_guarded_settlement_gates plain_hash at_thousand input ready (capped, tt)

production_candidate_policy-closed_example :
    ((evaluate_guarded_settlement plain_hash at_thousand (on_candidate input)).ready ≡ false)
    × ((evaluate_guarded_settlement plain_hash at_thousand (on_candidate input)).sanitized_plan
        ≡ none)
    × ((evaluate_guarded_settlement plain_hash at_thousand
          (on_candidate input)).remaining_production_gates
        ≡ approved_selector ∷ final_taker_gate ∷ per_token_amount_cap ∷ dated_registry_strategy
          ∷ trusted_price_source ∷ [])
production_candidate_policy-closed_example =
    production_candidate_policy-closed plain_hash at_thousand input

abbrev start : Ledger
start = record { store = store; settled = [] }

abbrev settled_once : Ledger
settled_once = record {
  store = mark_consumed store intent.intent_digest alice (pos 7);
  settled = intent ∷ [];
}

history : Reach plain_hash at_thousand start settled_once
unfolding intent build_intent
history = next here (settle start input refl ready)

Reach-IsConsistent_example : IsConsistent plain_hash at_thousand settled_once
Reach-IsConsistent_example = Reach-IsConsistent plain_hash at_thousand refl history

plain : IsPlainIntent intent
unfolding intent build_intent
plain = record {
  version = every-IsFree b'|' guard_version refl;
  registry = every-IsFree b'|' pool_wallet refl;
  taker = every-IsFree b'|' alice refl;
  expected_target = every-IsFree b'|' bob_upper refl;
  selector = every-IsFree b'|' (codes "0x12AB5678") refl;
  sell_token = every-IsFree b'|' weth refl;
  buy_token = every-IsFree b'|' nvda refl;
}

join_bar-digest_parts_iff_example :
    join_bar (digest_parts intent) ≡ join_bar (digest_parts intent) ↔ HasSameFields intent intent
join_bar-digest_parts_iff_example = join_bar-digest_parts_iff intent intent plain plain

mark_consumed_lem_example :
    (is_digest_consumed (mark_consumed store (codes "0xAA") bob (pos 7)) (codes "0xaa") ≡ true
      ↔ (is_digest_consumed store (codes "0xaa") ≡ true)
        ⊎ (to_lower_case (codes "0xAA") ≡ to_lower_case (codes "0xaa")))
    × (is_nonce_used (mark_consumed store (codes "0xAA") bob (pos 7)) bob_upper (pos 7) ≡ true
        ↔ (is_nonce_used store bob_upper (pos 7) ≡ true)
          ⊎ ((to_lower_case bob ≡ to_lower_case bob_upper) × (pos 7 ≡ pos 7)))
unfolding is_hex_address
mark_consumed_lem_example =
    mark_consumed_lem store (codes "0xAA") bob (pos 7) (codes "0xaa") bob_upper (pos 7) refl refl
