-- ===== src/Rialto/Tests/Guard.antt =====
-- The price guard at one acquisition: 2 WETH at 2000 dollars for a token at 100 dollars.
use bps_protocol.Prelude.{
  ℕ, suc, ◌-◌, ◌*◌, ◌≤◌, ◌<◌, ◌≡◌, refl, true, false, some, is_ok, result_of, result_of_eq, ◌^◌,
  arith,
}
use bps_protocol.Integer.{pos}
use bps_protocol.Text.{codes, text_eq, to_lower_case}
use bps_protocol.Rialto.PriceGuard.{
  integer, per_token_chainlink, UsdPriceObservation, StockTokenState, SequencerObservation,
  PriceRiskPolicy, AcquisitionPriceInput, check_observation, check_feed, check_round,
  check_sequencer, check_token, check_amounts, per_token, pow10, expected_output,
  min_allowed_output, validate_under, validate_acquisition_price,
}
use bps_protocol.Rialto.PriceGuard.Bounds.{
  IsGuarded, validate_acquisition_price-IsGuarded, min_allowed_output-band,
}

abbrev weth_feed : UsdPriceObservation
weth_feed = record {
  semantics = per_token_chainlink;
  feed_identity = codes "feed-weth";
  asset = codes "0xWETH";
  answer = pos 200000000000;
  decimals = integer (pos 8);
  round_id = pos 5;
  updated_at_sec = pos 990;
  round_complete = true;
  observed_at_block = pos 77;
}

abbrev stock_feed : UsdPriceObservation
stock_feed = record {
  semantics = per_token_chainlink;
  feed_identity = codes "feed-stock";
  asset = codes "0xstock";
  answer = pos 10000000000;
  decimals = integer (pos 8);
  round_id = pos 9;
  updated_at_sec = pos 995;
  round_complete = true;
  observed_at_block = pos 78;
}

abbrev live_token : StockTokenState
live_token = record {
  multiplier_e18 = pos (10 ^ 18);
  transition_pending = false;
  oracle_paused = false;
}

abbrev sequencer : SequencerObservation
sequencer = record {
  feed_identity = codes "0xSEQ";
  answer = pos 0;
  started_at_sec = pos 100;
  updated_at_sec = pos 100;
}

abbrev policy : PriceRiskPolicy
policy = record {
  max_staleness_sec = pos 60;
  max_deviation_bps = pos 100;
  max_tx_input_raw = pos (5 * 10 ^ 18);
  sequencer_feed_identity = codes "0xseq";
  sequencer_grace_sec = pos 300;
  input_feed_identity = codes "feed-weth";
  output_feed_identity = codes "feed-stock";
  output_semantics = per_token_chainlink;
  allow_raw_underlying_for_evidence = false;
}

abbrev io : AcquisitionPriceInput
io = record {
  sell_token = codes "0xweth";
  sell_amount_raw = pos (2 * 10 ^ 18);
  sell_decimals = integer (pos 18);
  buy_token = codes "0xSTOCK";
  min_buy_amount_raw = pos (39800 * 10 ^ 15);
  buy_decimals = integer (pos 18);
  now_sec = pos 1000;
}

validates :
    is_ok (
      validate_acquisition_price io
        (some weth_feed)
        (some stock_feed)
        (some live_token)
        (some sequencer)
        (some policy))
    ≡ true
unfolding check_observation check_feed check_round check_sequencer check_token check_amounts
    per_token pow10 expected_output min_allowed_output validate_under validate_acquisition_price
    text_eq to_lower_case
validates = refl

validate_acquisition_price-IsGuarded_example :
    (in_feed : UsdPriceObservation) × (out_feed : UsdPriceObservation) × (state : StockTokenState)
    × (seq : SequencerObservation) × (approved : PriceRiskPolicy) × (some weth_feed ≡ some in_feed)
    × (some stock_feed ≡ some out_feed)
    × (some live_token ≡ some state)
    × (some sequencer ≡ some seq)
    × (some policy ≡ some approved)
    × IsGuarded io in_feed out_feed state seq approved (
        result_of
          (validate_acquisition_price io
            (some weth_feed)
            (some stock_feed)
            (some live_token)
            (some sequencer)
            (some policy))
          validates)
validate_acquisition_price-IsGuarded_example =
    validate_acquisition_price-IsGuarded io (some weth_feed) (some stock_feed) (some live_token)
      (some sequencer) (some policy)
      (result_of_eq
        (validate_acquisition_price io (some weth_feed) (some stock_feed) (some live_token)
          (some sequencer) (some policy))
        validates)

min_allowed_output-band_example :
    (least : ℕ) × (min_allowed_output (pos 40001) policy ≡ pos least)
    × (least * 10000 ≤ 40001 * (10000 - 100))
    × (40001 * (10000 - 100) < suc least * 10000)
    × (least ≤ 40001)
min_allowed_output-band_example = min_allowed_output-band 40001 100 policy refl (omega arith)
