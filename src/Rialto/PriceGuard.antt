-- ===== src/Rialto/PriceGuard.antt =====
-- price-guard.ts: the fail-closed check of an acquisition's price against two price feeds.
-- A bigint may be negative here, so it is an integer; a JavaScript number that holds decimals is
-- an integer or not one. A missing argument (`null`) is `none`.
pub mod Feeds
pub mod Floor
pub mod Bounds
use bps_protocol.Prelude.{
  ℕ, ◌+◌, ◌-◌, ◌*◌, ◌^◌, ◌≡◌, Bool, true, false, not, ◌&&◌, ◌||◌, Option, none, some, List, [], ◌∷◌,
  ltb, leb, if◌then◌else◌, Outcome, ok, err, ◌>>=◌, ◌>>◌, fail_if,
}
use bps_protocol.Integer.{ℤ, pos, negsuc, ◌-ℤ◌, ◌*ℤ◌, ◌/ℤ◌, ltb_ℤ, leb_ℤ, ◌==ℤ◌}
use bps_protocol.Text.{Text, text_eq, to_lower_case}
use bps_protocol.Pod.Numeric.{integer_text}

pub data Code : Type 0 where
  price_policy_missing price_feed_missing semantics_mismatch raw_underlying_not_approved : Code
  non_positive_answer stale_answer incomplete_round bad_decimals oracle_paused : Code
  multiplier_missing multiplier_transition asset_binding_mismatch feed_identity_mismatch : Code
  feed_binding_missing zero_round amount_out_of_domain sequencer_policy_missing : Code
  sequencer_down sequencer_grace_period sequencer_bad_round tx_cap_exceeded : Code
  deviation_exceeded unsafe_number : Code

abbrev pub Result : Type 0 → Type 0
Result A = Outcome Code A

pub data PriceSemantics : Type 0 where
  per_token_chainlink raw_underlying : PriceSemantics

abbrev pub same_semantics : PriceSemantics → PriceSemantics → Bool
same_semantics per_token_chainlink per_token_chainlink = true
same_semantics raw_underlying raw_underlying = true
same_semantics _ _ = false

-- A JavaScript number, as far as `Number.isInteger` tells.
pub data Number : Type 0 where
  integer : ℤ → Number
  no_integer : Number

pub record UsdPriceObservation : Type 0 where
  pub semantics : PriceSemantics
  pub feed_identity : Text
  pub asset : Text
  pub answer : ℤ
  pub decimals : Number
  pub round_id : ℤ
  pub updated_at_sec : ℤ
  pub round_complete : Bool
  pub observed_at_block : ℤ

pub record StockTokenState : Type 0 where
  pub multiplier_e18 : ℤ
  pub transition_pending : Bool
  pub oracle_paused : Bool

pub record SequencerObservation : Type 0 where
  pub feed_identity : Text
  pub answer : ℤ
  pub started_at_sec : ℤ
  pub updated_at_sec : ℤ

pub record PriceRiskPolicy : Type 0 where
  pub max_staleness_sec : ℤ
  pub max_deviation_bps : ℤ
  pub max_tx_input_raw : ℤ
  pub sequencer_feed_identity : Text
  pub sequencer_grace_sec : ℤ
  pub input_feed_identity : Text
  pub output_feed_identity : Text
  pub output_semantics : PriceSemantics
  pub allow_raw_underlying_for_evidence : Bool

pub record AcquisitionPriceInput : Type 0 where
  pub sell_token : Text
  pub sell_amount_raw : ℤ
  pub sell_decimals : Number
  pub buy_token : Text
  pub min_buy_amount_raw : ℤ
  pub buy_decimals : Number
  pub now_sec : ℤ

pub record FeedNote : Type 0 where
  pub answer : Text
  pub decimals : Number
  pub updated_at_sec : Text
  pub block : Text

pub record Justification : Type 0 where
  pub input_feed : FeedNote
  pub output_feed : FeedNote
  pub output_semantics : PriceSemantics
  pub multiplier_e18 : Text
  pub multiplier_applied : Bool

pub record PriceGuardResult : Type 0 where
  pub expected_buy_amount_raw : ℤ
  pub min_allowed_buy_amount_raw : ℤ
  pub deviation_bps_observed : ℤ
  pub justification : Justification

abbrev pub bps : ℤ
bps = pos 10000

abbrev pub e18 : ℤ
e18 = pos (10 ^ 18)

abbrev pub max_uint256 : ℤ
max_uint256 = pos (2 ^ 256 - 1)

unfoldable pub pow10 : Number → Result ℤ
pow10 no_integer = err bad_decimals
pow10 (integer (negsuc n)) = err bad_decimals
pow10 (integer (pos n)) = if ltb 77 n then err bad_decimals else ok (pos (10 ^ n))

abbrev pub is_blank : Text → Bool
is_blank [] = true
is_blank (c ∷ cs) = false

unfoldable pub check_observation :
    UsdPriceObservation → Text → Text → PriceSemantics → ℤ → ℤ → Result UsdPriceObservation
check_observation feed expected_asset expected_identity expected_semantics now max_staleness = do
  fail_if (is_blank expected_identity) feed_binding_missing
  fail_if (not (text_eq feed.feed_identity expected_identity)) feed_identity_mismatch
  fail_if (not (same_semantics feed.semantics expected_semantics)) semantics_mismatch
  fail_if (not (text_eq (to_lower_case feed.asset) (to_lower_case expected_asset)))
      asset_binding_mismatch
  fail_if (leb_ℤ feed.answer (pos 0)) non_positive_answer
  fail_if (ltb_ℤ max_uint256 feed.answer) amount_out_of_domain
  fail_if (leb_ℤ feed.round_id (pos 0)) zero_round
  fail_if (not feed.round_complete) incomplete_round
  fail_if (leb_ℤ feed.updated_at_sec (pos 0)) incomplete_round
  fail_if (ltb_ℤ now feed.updated_at_sec) unsafe_number
  fail_if (ltb_ℤ max_staleness (now -ℤ feed.updated_at_sec)) stale_answer
  ok feed

unfoldable pub check_feed :
    Option UsdPriceObservation → Text → Text → PriceSemantics → ℤ → ℤ → Result UsdPriceObservation
unfolding check_observation
check_feed none expected_asset expected_identity expected_semantics now max_staleness =
    err price_feed_missing
check_feed (some feed) expected_asset expected_identity expected_semantics now max_staleness =
    check_observation feed expected_asset expected_identity expected_semantics now max_staleness

unfoldable pub check_round : SequencerObservation → PriceRiskPolicy → ℤ → Result (Unit {0})
check_round seq policy now = do
  fail_if
      (not
        (text_eq (to_lower_case seq.feed_identity) (to_lower_case policy.sequencer_feed_identity)))
      sequencer_policy_missing
  fail_if
      (leb_ℤ seq.started_at_sec (pos 0)
        || leb_ℤ seq.updated_at_sec (pos 0)
        || ltb_ℤ now seq.started_at_sec)
      sequencer_bad_round
  fail_if (not (seq.answer ==ℤ pos 0)) sequencer_down
  fail_if (ltb_ℤ (now -ℤ seq.started_at_sec) policy.sequencer_grace_sec) sequencer_grace_period

abbrev pub check_present : Option SequencerObservation → PriceRiskPolicy → ℤ → Result (Unit {0})
check_present none policy now = err sequencer_policy_missing
check_present (some seq) policy now = check_round seq policy now

unfoldable pub check_sequencer :
    Option SequencerObservation → PriceRiskPolicy → ℤ → Result (Unit {0})
unfolding check_round
check_sequencer seq policy now =
    fail_if (is_blank policy.sequencer_feed_identity || ltb_ℤ policy.sequencer_grace_sec (pos 0))
      sequencer_policy_missing
    >> check_present seq policy now

-- The checks of the token's state, and of the amounts.
unfoldable pub check_token : Option StockTokenState → Result StockTokenState
check_token none = err multiplier_missing
check_token (some state) = do
  fail_if state.oracle_paused oracle_paused
  fail_if state.transition_pending multiplier_transition
  fail_if (leb_ℤ state.multiplier_e18 (pos 0)) multiplier_missing
  ok state

unfoldable pub check_amounts : AcquisitionPriceInput → PriceRiskPolicy → Result (Unit {0})
check_amounts io policy = do
  fail_if (leb_ℤ io.sell_amount_raw (pos 0) || leb_ℤ io.min_buy_amount_raw (pos 0)) unsafe_number
  fail_if (ltb_ℤ max_uint256 io.sell_amount_raw || ltb_ℤ max_uint256 io.min_buy_amount_raw)
      amount_out_of_domain
  fail_if (ltb_ℤ policy.max_tx_input_raw io.sell_amount_raw) tx_cap_exceeded

-- `perTokenNum`, `perTokenDen` and `multiplierApplied`.
pub record PerToken : Type 0 where
  pub num : ℤ
  pub den : ℤ
  pub multiplier_applied : Bool

unfoldable pub per_token : UsdPriceObservation → StockTokenState → PriceRiskPolicy → Result PerToken
per_token feed state policy = elim feed.semantics [
  | per_token_chainlink ↦ ok (record { num = feed.answer; den = pos 1; multiplier_applied = false })
  | raw_underlying ↦
      fail_if (not policy.allow_raw_underlying_for_evidence) raw_underlying_not_approved
      >> ok (record {
        num = feed.answer *ℤ state.multiplier_e18;
        den = e18;
        multiplier_applied = true;
      })
]

-- The expected output: one floor of one quotient.
unfoldable pub expected_output :
    AcquisitionPriceInput → UsdPriceObservation → UsdPriceObservation → PerToken → Result ℤ
unfolding pow10
expected_output io in_feed out_feed price = do
  out_feed_scale ← pow10 out_feed.decimals
  buy_scale ← pow10 io.buy_decimals
  sell_scale ← pow10 io.sell_decimals
  in_feed_scale ← pow10 in_feed.decimals
  ok (
      io.sell_amount_raw
      *ℤ in_feed.answer
      *ℤ out_feed_scale
      *ℤ buy_scale
      *ℤ price.den
      /ℤ (sell_scale *ℤ in_feed_scale *ℤ price.num))

abbrev pub note : UsdPriceObservation → FeedNote
note feed = record {
  answer = integer_text feed.answer;
  decimals = feed.decimals;
  updated_at_sec = integer_text feed.updated_at_sec;
  block = integer_text feed.observed_at_block;
}

unfoldable pub min_allowed_output : ℤ → PriceRiskPolicy → ℤ
min_allowed_output expected policy = expected *ℤ (bps -ℤ policy.max_deviation_bps) /ℤ bps

unfoldable pub validate_under :
    AcquisitionPriceInput
    → Option UsdPriceObservation
    → Option UsdPriceObservation
    → Option StockTokenState
    → Option SequencerObservation
    → PriceRiskPolicy
    → Result PriceGuardResult
validate_under io input_feed output_feed token_state sequencer policy = do
  check_sequencer sequencer policy io.now_sec
  in_feed ←
      check_feed input_feed io.sell_token policy.input_feed_identity per_token_chainlink io.now_sec
        policy.max_staleness_sec
  out_feed ←
      check_feed output_feed io.buy_token policy.output_feed_identity policy.output_semantics
        io.now_sec policy.max_staleness_sec
  state ← check_token token_state
  check_amounts io policy
  price ← per_token out_feed state policy
  expected ← expected_output io in_feed out_feed price
  fail_if (leb_ℤ expected (pos 0)) deviation_exceeded
  let min_allowed = min_allowed_output expected policy
  fail_if (ltb_ℤ io.min_buy_amount_raw min_allowed) deviation_exceeded
  ok (record {
    expected_buy_amount_raw = expected;
    min_allowed_buy_amount_raw = min_allowed;
    deviation_bps_observed =
        if leb_ℤ expected io.min_buy_amount_raw
        then pos 0
        else (expected -ℤ io.min_buy_amount_raw) *ℤ bps /ℤ expected;
    justification = record {
      input_feed = note in_feed;
      output_feed = note out_feed;
      output_semantics = out_feed.semantics;
      multiplier_e18 = integer_text state.multiplier_e18;
      multiplier_applied = price.multiplier_applied;
    };
  })

unfoldable pub validate_acquisition_price :
    AcquisitionPriceInput
    → Option UsdPriceObservation
    → Option UsdPriceObservation
    → Option StockTokenState
    → Option SequencerObservation
    → Option PriceRiskPolicy
    → Result PriceGuardResult
unfolding validate_under check_sequencer check_feed check_token check_amounts per_token
    expected_output min_allowed_output
validate_acquisition_price io input_feed output_feed token_state sequencer none =
    err price_policy_missing
validate_acquisition_price io input_feed output_feed token_state sequencer (some policy) =
    validate_under io input_feed output_feed token_state sequencer policy
