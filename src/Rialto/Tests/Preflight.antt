-- ===== src/Rialto/Tests/Preflight.antt =====
-- A chain on which the canary is ready to build, and one whose reads of code fail.
use bps_protocol.Prelude.{
  ◌≡◌, ◌↔◌, refl, inr, true, false, none, some, [], ◌∷◌, keep, ok, err, if◌then◌else◌,
}
use bps_protocol.Integer.{pos}
use bps_protocol.Text.{Text, codes, text_eq, to_lower_case}
use bps_protocol.Pod.Address.{zero_address}
use bps_protocol.Pod.Samples.{alice, bob}
use bps_protocol.Rialto.Settlement.{weth, nvda}
use bps_protocol.Rialto.Preflight.{
  flag_controller_required, eth_usd_feed, eth_usd_feed_description, nvda_usd_feed_description,
  weth_symbol, nvda_symbol, Read, read_failed, ChainReader, View, decimals, description,
  latest_round_data, symbol, oracle_paused, paused, owner_of, Returned, Viem, whole,
  CanaryPreflightConfig, read_view, age_ok,
}
use bps_protocol.Rialto.Preflight.Checks.{
  check, raised, has_code, is_zero_or_dead, code_check, router_check, token_check,
  is_complete_round, is_fresh_round, round_check, feed_check, stock_check, sequencer_check,
  controller_check, executor_check,
}
use bps_protocol.Rialto.Preflight.Evaluation.{
  canary_build_ready_execution_locked, CanaryReadinessReport, report_on, checks_of, flags_of,
  includes, failed_of, status_of, report_of, chain_check, chain_entries, policy_entries,
  evaluate_canary_readiness,
}
use bps_protocol.Rialto.Preflight.Ready.{IsCanaryReady, evaluate_canary_readiness_iff}
use bps_protocol.Rialto.Preflight.Honest.{IsFlagged, evaluate_canary_readiness-IsFlagged}
use bps_protocol.Rialto.Preflight.Passed.{IsLive-iff}
use bps_protocol.Rialto.Preflight.Thrown.{Throws, evaluate_canary_readiness-Throws}

-- A call's data is as long as the view's place in this list.
abbrev encode : View → Text
encode decimals = []
encode description = 0 ∷ []
encode symbol = 0 ∷ 0 ∷ []
encode latest_round_data = 0 ∷ 0 ∷ 0 ∷ []
encode oracle_paused = 0 ∷ 0 ∷ 0 ∷ []
encode paused = 0 ∷ 0 ∷ 0 ∷ []
encode (owner_of n) = 0 ∷ 0 ∷ 0 ∷ []

abbrev decode : (view : View) → Text → Read (Returned view)
decode decimals [] = err read_failed
decode decimals (n ∷ ns) = ok n
decode description t = ok t
decode symbol t = ok t
decode latest_round_data t = ok (record {
  round_id = 4;
  answer = pos 300000000000;
  started_at = 900;
  updated_at = 900;
  answered_in_round = 4;
})
decode oracle_paused t = ok false
decode paused t = ok true
decode (owner_of n) t = ok t

abbrev codec : Viem
codec = record {
  encode_function_data = encode;
  decode_function_result = decode;
  keccak256 = (λ code. codes "0xAB");
}

abbrev answer : Text → Text → Read Text
answer to [] = ok (if text_eq to weth then 18 ∷ [] else if text_eq to nvda then 18 ∷ [] else 8 ∷ [])
answer to (a ∷ []) =
    ok (if text_eq to eth_usd_feed then eth_usd_feed_description else nvda_usd_feed_description)
answer to (a ∷ b ∷ []) = ok (if text_eq to weth then weth_symbol else nvda_symbol)
answer to (a ∷ b ∷ c ∷ d) = ok alice

abbrev chain_reader : ChainReader
chain_reader = record {
  get_chain_id = ok 4663;
  get_code = (λ addr. ok (codes "0x6001"));
  call = answer;
}

abbrev config : CanaryPreflightConfig
config = record {
  controller = some bob;
  executor = some alice;
  sequencer_feed = zero_address;
  max_weth_feed_age_sec = whole (pos 900);
  max_nvda_feed_age_sec = whole (pos 100);
  canary_cap_wei = pos 1000;
  now_sec = pos 1000;
  qex1_consumed = true;
  expected_router_code_hash = some (codes "0xab");
}

evaluate_canary_readiness_iff_example : IsCanaryReady codec chain_reader config
unfolding evaluate_canary_readiness checks_of flags_of includes failed_of status_of report_of
    chain_check chain_entries policy_entries has_code is_zero_or_dead code_check router_check
    token_check is_complete_round is_fresh_round round_check feed_check stock_check sequencer_check
    controller_check executor_check read_view age_ok text_eq to_lower_case keep zero_address
evaluate_canary_readiness_iff_example =
    (evaluate_canary_readiness_iff codec chain_reader config).0 (
      report_on codec chain_reader config (check (codes "sequencer-policy") true ∷ [])
          (check (codes "controller") true ∷ []),
      refl,
      refl,
    )

-- A reader whose reads of code fail.
abbrev no_code_reader : ChainReader
no_code_reader = record {
  get_chain_id = err read_failed;
  get_code = (λ addr. err read_failed);
  call = answer;
}

evaluate_canary_readiness-Throws_example :
    Throws (evaluate_canary_readiness codec no_code_reader config)
unfolding is_zero_or_dead text_eq to_lower_case zero_address
evaluate_canary_readiness-Throws_example =
    (evaluate_canary_readiness-Throws codec no_code_reader config).1
      (inr ((IsLive-iff bob).0 refl, (read_failed, refl)))

-- Without a controller the reads that fail are caught, so that there is a report.
abbrev no_controller : CanaryPreflightConfig
no_controller = record {
  controller = none;
  executor = some alice;
  sequencer_feed = zero_address;
  max_weth_feed_age_sec = whole (pos 900);
  max_nvda_feed_age_sec = whole (pos 100);
  canary_cap_wei = pos 1000;
  now_sec = pos 1000;
  qex1_consumed = true;
  expected_router_code_hash = none;
}

abbrev not_ready : CanaryReadinessReport
not_ready =
    report_on codec no_code_reader no_controller (check (codes "sequencer-policy") true ∷ [])
      (check (codes "controller") false ∷ raised flag_controller_required ∷ [])

evaluate_canary_readiness-IsFlagged_example :
    (not_ready.status ≡ canary_build_ready_execution_locked ↔ not_ready.failed ≡ [])
    × IsFlagged none not_ready
unfolding evaluate_canary_readiness sequencer_check controller_check text_eq to_lower_case
    zero_address
evaluate_canary_readiness-IsFlagged_example =
    evaluate_canary_readiness-IsFlagged codec no_code_reader no_controller not_ready refl
