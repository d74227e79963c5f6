-- ===== src/Rialto/Preflight/Chain.antt =====
-- What the checks of the chain itself ask for, all together.
use bps_protocol.Prelude.{
  ℕ, ◌≡◌, ◌↔◌, refl, ap, Bool, false, ◌&&◌, Option, none, some, List, [], ◌∷◌, ok, err,
  ok-injective, ◌==◌,
}
use bps_protocol.Text.{codes, text_eq, to_lower_case}
use bps_protocol.Rialto.Settlement.{official_registry, weth, nvda}
use bps_protocol.Rialto.Preflight.{
  robinhood_chain_id, Read, eth_usd_feed, nvda_usd_feed, eth_usd_feed_description,
  nvda_usd_feed_description, weth_symbol, nvda_symbol, flag_nvda_stale_market_closed,
  flag_eth_feed_stale, ChainReader, oracle_paused, Viem, CanaryPreflightConfig, read_view,
}
use bps_protocol.Rialto.Preflight.Checks.{
  Entry, check, attempt, failed_check, code_check, router_check, token_check, feed_check,
  stock_check,
}
use bps_protocol.Rialto.Preflight.Evaluation.{chain_check, selector_ok, chain_entries}
use bps_protocol.Rialto.Preflight.Passed.{IsPassed, Part, part, plain, ◌followed_by◌, equal_iff}
use bps_protocol.Rialto.Preflight.Parts.{
  HasCode, code_check_iff, IsToken, token_check_iff, IsFeed, feed_check_iff, stock_check_iff,
}
use bps_protocol.Rialto.Preflight.Router.{IsPinnedRouter, router_check_iff}

chain_read_iff :
    (m : Read ℕ)
    → IsPassed
        (attempt {B = List Entry × Option ℕ} m
          (failed_check (codes "chain-id"), none)
          (λ chain. (check (codes "chain-id") (chain == robinhood_chain_id) ∷ [], some chain))).0
      ↔ (m ≡ ok 4663)
chain_read_iff (ok n) =
    let same = equal_iff 4663 n in (λ h. ap ok (same.0 h.0), λ h. (same.1 (ok-injective h), tt))
chain_read_iff (err e) = (λ h. absurd (let f = h.0 in cc), λ h. absurd cc)

chain_check_iff :
    (reader : ChainReader) → IsPassed (chain_check reader).0 ↔ (reader.get_chain_id ≡ ok 4663)
unfolding chain_check
chain_check_iff reader = chain_read_iff reader.get_chain_id

-- What the chain has to show, apart from the sequencer feed, the controller and the executor.
abbrev pub IsChainReady : Viem → ChainReader → CanaryPreflightConfig → Type 0
IsChainReady viem reader config =
    (reader.get_chain_id ≡ ok 4663)
    × (HasCode reader official_registry
        × (IsPinnedRouter viem reader config.expected_router_code_hash
            × (IsToken viem reader weth weth_symbol
                × (IsToken viem reader nvda nvda_symbol
                    × (IsFeed viem reader config.now_sec eth_usd_feed eth_usd_feed_description
                          config.max_weth_feed_age_sec
                        × (IsFeed viem reader config.now_sec nvda_usd_feed nvda_usd_feed_description
                              config.max_nvda_feed_age_sec
                            × (read_view viem reader nvda oracle_paused ≡ ok false)))))))

-- The parts of that log; what the router's and the pairing's checks ask for is left as it is.
abbrev chain_parts : Viem → ChainReader → CanaryPreflightConfig → List Entry × Bool → Part
chain_parts viem reader config router =
    part (chain_check reader).0 (chain_check_iff reader)
    followed_by plain (check (codes "settlement-selector") selector_ok ∷ [])
    followed_by part (code_check reader (codes "registry-code") official_registry)
        (code_check_iff reader (codes "registry-code") official_registry)
    followed_by plain router.0
    followed_by plain (check (codes "selector-codehash-pairing") (selector_ok && router.1) ∷ [])
    followed_by part (token_check viem reader (codes "weth") weth weth_symbol)
        (token_check_iff viem reader (codes "weth") weth weth_symbol)
    followed_by part (token_check viem reader (codes "nvda") nvda nvda_symbol)
        (token_check_iff viem reader (codes "nvda") nvda nvda_symbol)
    followed_by part
        (feed_check viem reader config.now_sec (codes "eth-usd") eth_usd_feed
          eth_usd_feed_description config.max_weth_feed_age_sec flag_eth_feed_stale)
        (feed_check_iff viem reader config.now_sec (codes "eth-usd") eth_usd_feed
          eth_usd_feed_description config.max_weth_feed_age_sec flag_eth_feed_stale)
    followed_by part
        (feed_check viem reader config.now_sec (codes "nvda-usd") nvda_usd_feed
          nvda_usd_feed_description config.max_nvda_feed_age_sec flag_nvda_stale_market_closed)
        (feed_check_iff viem reader config.now_sec (codes "nvda-usd") nvda_usd_feed
          nvda_usd_feed_description config.max_nvda_feed_age_sec flag_nvda_stale_market_closed)
    followed_by part (stock_check viem reader nvda) (stock_check_iff viem reader nvda)

pub chain_entries_iff :
    (viem : Viem) (reader : ChainReader) (config : CanaryPreflightConfig)
    → IsPassed (chain_entries viem reader config) ↔ IsChainReady viem reader config
unfolding chain_entries text_eq to_lower_case
chain_entries_iff viem reader config =
    let parts =
      (chain_parts viem reader config
        (router_check viem reader config.expected_router_code_hash)).passed_iff in
    let router = router_check_iff viem reader config.expected_router_code_hash in
    (
      (λ h.
          let (((((((((a, b), c), d), e), f), g), i), j), k) = parts.0 h in
          (a, (c, (router.0 (d, e.0), (f, (g, (i, (j, k.0)))))))),
      (λ h.
          let (a, (c, (d, (f, (g, (i, (j, k))))))) = h in
          let r = router.1 d in
          parts.1 (((((((((a, (refl, tt)), c), r.0), (r.1, tt)), f), g), i), j), (k, tt))),
    )
