-- ===== src/Rialto/Preflight/Evaluation.antt =====
-- `evaluateCanaryReadiness`: all checks in their order, and the report on them.
use bps_protocol.Prelude.{
  ℕ, Bool, true, false, not, ◌&&◌, ◌||◌, Option, none, some, List, [], ◌∷◌, ◌++◌, map, keep, ◌==◌,
  if◌then◌else◌, ok, ◌>>=◌,
}
use bps_protocol.Integer.{pos, ltb_ℤ, leb_ℤ}
use bps_protocol.Text.{Text, codes, text_eq}
use bps_protocol.Rialto.QuoteExecution.{same_lower}
use bps_protocol.Rialto.Settlement.{official_registry, weth, nvda}
use bps_protocol.Rialto.Settlement.Opaque.{opaque_settlement_selector}
use bps_protocol.Rialto.Preflight.{
  robinhood_chain_id, eth_usd_feed, nvda_usd_feed, eth_usd_feed_description,
  nvda_usd_feed_description, weth_symbol, nvda_symbol, expected_settlement_selector,
  canary_max_sell_weth, flag_nvda_stale_market_closed, flag_eth_feed_stale, Read, ChainReader, Viem,
  age_ok, CanaryPreflightConfig, CheckResult,
}
use bps_protocol.Rialto.Preflight.Checks.{
  Entry, check, raised, attempt, failed_check, code_check, router_check, token_check, feed_check,
  stock_check, sequencer_check, controller_check, executor_check,
}

pub data CanaryStatus : Type 0 where
  canary_build_ready_execution_locked canary_not_ready : CanaryStatus

pub record CanaryReadinessReport : Type 0 where
  pub status : CanaryStatus
  pub execution_locked : Bool
  pub chain_id : Option ℕ
  pub checks : List CheckResult
  pub failed : List Text
  pub flags : List Text

-- `flags.includes(f)`
unfoldable pub includes : List Text → Text → Bool
includes [] f = false
includes (g ∷ fs) f = text_eq g f || includes fs f

unfoldable pub checks_of : List Entry → List CheckResult
checks_of [] = []
checks_of (check i passed ∷ es) = (record { id = i; is_ok = passed }) ∷ checks_of es
checks_of (raised f ∷ es) = checks_of es

-- The flags that a log raises on top of `fs`, each once.
unfoldable pub flags_of : List Text → List Entry → List Text
flags_of fs [] = fs
flags_of fs (check i passed ∷ es) = flags_of fs es
flags_of fs (raised f ∷ es) = flags_of (if includes fs f then fs else fs ++ (f ∷ [])) es

unfoldable pub failed_of : List CheckResult → List Text
failed_of checks = map (λ c. c.id) (keep (λ c. not c.is_ok) checks)

abbrev pub is_none_failed : List Text → Bool
is_none_failed [] = true
is_none_failed (f ∷ fs) = false

unfoldable pub status_of : List Text → Bool → CanaryStatus
status_of failed locked =
    if is_none_failed failed && locked
    then canary_build_ready_execution_locked
    else canary_not_ready

unfoldable pub report_of : Option ℕ → Bool → List Entry → CanaryReadinessReport
report_of chain locked entries =
    let failed = failed_of (checks_of entries) in
    record {
      status = status_of failed locked;
      execution_locked = locked;
      chain_id = chain;
      checks = checks_of entries;
      failed = failed;
      flags = flags_of [] entries;
    }

-- 1. The chain's identity: the log, and the identity where it was read.
unfoldable pub chain_check : ChainReader → List Entry × Option ℕ
chain_check reader =
    attempt reader.get_chain_id (failed_check (codes "chain-id"), none)
      (λ chain. (check (codes "chain-id") (chain == robinhood_chain_id) ∷ [], some chain))

abbrev pub selector_ok : Bool
selector_ok = same_lower opaque_settlement_selector expected_settlement_selector

-- 2. to 9.
unfoldable pub chain_entries : Viem → ChainReader → CanaryPreflightConfig → List Entry
chain_entries viem reader config =
    let router = router_check viem reader config.expected_router_code_hash in
    (chain_check reader).0
    ++ (check (codes "settlement-selector") selector_ok ∷ [])
    ++ code_check reader (codes "registry-code") official_registry
    ++ router.0
    ++ (check (codes "selector-codehash-pairing") (selector_ok && router.1) ∷ [])
    ++ token_check viem reader (codes "weth") weth weth_symbol
    ++ token_check viem reader (codes "nvda") nvda nvda_symbol
    ++ feed_check viem reader config.now_sec (codes "eth-usd") eth_usd_feed eth_usd_feed_description
        config.max_weth_feed_age_sec flag_eth_feed_stale
    ++ feed_check viem reader config.now_sec (codes "nvda-usd") nvda_usd_feed
        nvda_usd_feed_description config.max_nvda_feed_age_sec flag_nvda_stale_market_closed
    ++ stock_check viem reader nvda

-- 12. and 13.
unfoldable pub policy_entries : CanaryPreflightConfig → List Entry
policy_entries config =
    check (codes "canary-cap")
      (ltb_ℤ (pos 0) config.canary_cap_wei && leb_ℤ config.canary_cap_wei canary_max_sell_weth)
    ∷ check (codes "feed-age-policy")
        (age_ok config.max_weth_feed_age_sec && age_ok config.max_nvda_feed_age_sec)
    ∷ []

-- 15.
abbrev pub qex1_entries : CanaryPreflightConfig → List Entry
qex1_entries config = check (codes "qex1-consumed") config.qex1_consumed ∷ []

-- The report, from what the two unguarded reads came to.
abbrev pub report_on :
    Viem → ChainReader → CanaryPreflightConfig → List Entry → List Entry → CanaryReadinessReport
report_on viem reader config sequencer controller =
    let executor = executor_check viem reader config.executor in
    report_of (chain_check reader).1 executor.1 (
      chain_entries viem reader config
      ++ sequencer
      ++ controller
      ++ policy_entries config
      ++ executor.0
      ++ qex1_entries config)

unfoldable pub evaluate_canary_readiness :
    Viem → ChainReader → CanaryPreflightConfig → Read CanaryReadinessReport
evaluate_canary_readiness viem reader config = do
  sequencer ← sequencer_check reader config.sequencer_feed
  controller ← controller_check reader config.controller
  ok (report_on viem reader config sequencer controller)
