-- ===== src/Rialto/PriceGuard/Feeds.antt =====
-- What the single checks of the price guard establish when they pass.
use bps_protocol.Prelude.{
  ◌≡◌, ◌≢◌, refl, true, false, not, ◌||◌, Option, none, some, [], arith, ok, fail_if, >>=-eq-ok,
  subst, ap,
}
use bps_protocol.Integer.{ℤ, pos, ◌-ℤ◌, ◌≤ℤ◌, ltb_ℤ, leb_ℤ, ◌==ℤ◌}
use bps_protocol.Text.{Text, text_eq, text_eq_iff, to_lower_case}
use bps_protocol.Rialto.PriceGuard.{
  PriceSemantics, same_semantics, UsdPriceObservation, StockTokenState, SequencerObservation,
  PriceRiskPolicy, AcquisitionPriceInput, is_blank, max_uint256, check_observation, check_feed,
  check_round, check_sequencer, check_token, check_amounts,
}

-- An observation of the pinned feed for the asset, with a positive answer in range, complete, and
-- not older than allowed.
pub record IsTrusted (feed : UsdPriceObservation) (asset identity : Text)
    (semantics : PriceSemantics) (now max_staleness : ℤ) : Type 0 where
  pub pinned : identity ≢ []
  pub identity_eq : feed.feed_identity ≡ identity
  pub semantics_eq : feed.semantics ≡ semantics
  pub asset_eq : to_lower_case feed.asset ≡ to_lower_case asset
  pub answer_positive : pos 1 ≤ℤ feed.answer
  pub answer_le : feed.answer ≤ℤ max_uint256
  pub round_positive : pos 1 ≤ℤ feed.round_id
  pub complete : feed.round_complete ≡ true
  pub updated : pos 1 ≤ℤ feed.updated_at_sec
  pub not_future : feed.updated_at_sec ≤ℤ now
  pub fresh : now -ℤ feed.updated_at_sec ≤ℤ max_staleness

same_semantics_eq : (a b : PriceSemantics) → same_semantics a b ≡ true → a ≡ b
same_semantics_eq a b h = ground arith

check_observation-IsTrusted :
    (feed : UsdPriceObservation) (asset identity : Text) (semantics : PriceSemantics)
    (now max_staleness : ℤ) {f : UsdPriceObservation}
    → check_observation feed asset identity semantics now max_staleness ≡ ok f
    → (feed ≡ f) × IsTrusted feed asset identity semantics now max_staleness
unfolding check_observation
check_observation-IsTrusted feed asset identity semantics now max_staleness h =
    let (_, c1, h1) = >>=-eq-ok (fail_if (is_blank identity) _) _ h in
    let (_, c2, h2) = >>=-eq-ok (fail_if (not (text_eq feed.feed_identity identity)) _) _ h1 in
    let (_, c3, h3) = >>=-eq-ok (fail_if (not (same_semantics feed.semantics semantics)) _) _ h2 in
    let (_, c4, h4) =
      >>=-eq-ok (fail_if (not (text_eq (to_lower_case feed.asset) (to_lower_case asset))) _) _ h3 in
    (
      ground arith,
      record {
        pinned = λ e. ground arith;
        identity_eq = ground (arith, text_eq_iff feed.feed_identity identity);
        semantics_eq = ground (arith, same_semantics_eq feed.semantics semantics);
        asset_eq = ground (arith, text_eq_iff (to_lower_case feed.asset) (to_lower_case asset));
        answer_positive = ground arith;
        answer_le = ground arith;
        round_positive = ground arith;
        complete = ground arith;
        updated = ground arith;
        not_future = ground arith;
        fresh = ground arith;
      },
    )

-- The sequencer's pinned feed says that it is up, and the grace period is over.
pub record IsUp (seq : SequencerObservation) (policy : PriceRiskPolicy) (now : ℤ) : Type 0 where
  pub pinned : policy.sequencer_feed_identity ≢ []
  pub identity_eq : to_lower_case seq.feed_identity ≡ to_lower_case policy.sequencer_feed_identity
  pub up : (seq.answer ==ℤ pos 0) ≡ true
  pub started : pos 1 ≤ℤ seq.started_at_sec
  pub updated : pos 1 ≤ℤ seq.updated_at_sec
  pub not_future : seq.started_at_sec ≤ℤ now
  pub grace_positive : pos 0 ≤ℤ policy.sequencer_grace_sec
  pub grace_elapsed : policy.sequencer_grace_sec ≤ℤ now -ℤ seq.started_at_sec

check_round-IsUp :
    (seq : SequencerObservation) (policy : PriceRiskPolicy) (now : ℤ) {u : Unit {0}}
    → policy.sequencer_feed_identity ≢ []
    → pos 0 ≤ℤ policy.sequencer_grace_sec
    → check_round seq policy now ≡ ok u
    → IsUp seq policy now
unfolding check_round
check_round-IsUp seq policy now pin grace h =
    let (_, c1, h1) =
      >>=-eq-ok
        (fail_if
          (not (
            text_eq (to_lower_case seq.feed_identity)
              (to_lower_case policy.sequencer_feed_identity)))
          _)
        _ h in
    let (_, c2, h2) =
      >>=-eq-ok
        (fail_if
          (leb_ℤ seq.started_at_sec (pos 0)
            || leb_ℤ seq.updated_at_sec (pos 0)
            || ltb_ℤ now seq.started_at_sec)
          _)
        _ h1 in
    record {
      pinned = pin;
      identity_eq = ground (
        arith,
        text_eq_iff (to_lower_case seq.feed_identity)
            (to_lower_case policy.sequencer_feed_identity),
      );
      up = ground arith;
      started = ground arith;
      updated = ground arith;
      not_future = ground arith;
      grace_positive = grace;
      grace_elapsed = ground arith;
    }

pub check_sequencer-IsUp :
    (sequencer : Option SequencerObservation) (policy : PriceRiskPolicy) (now : ℤ) {u : Unit {0}}
    → check_sequencer sequencer policy now ≡ ok u
    → (seq : SequencerObservation) × (sequencer ≡ some seq) × IsUp seq policy now
unfolding check_sequencer
check_sequencer-IsUp none policy now h = ground arith
check_sequencer-IsUp (some seq) policy now h =
    let (_, c1, h1) =
      >>=-eq-ok
        (fail_if
          (is_blank policy.sequencer_feed_identity || ltb_ℤ policy.sequencer_grace_sec (pos 0)) _)
        _ h in
    (seq, refl, check_round-IsUp seq policy now (λ e. ground arith) (ground arith) h1)

-- The token's oracle is not paused, no transition is pending, and the multiplier is positive.
pub record IsLive (state : StockTokenState) : Type 0 where
  pub not_paused : state.oracle_paused ≡ false
  pub no_transition : state.transition_pending ≡ false
  pub multiplier_positive : pos 1 ≤ℤ state.multiplier_e18

pub check_token-IsLive :
    (token : Option StockTokenState) {state : StockTokenState}
    → check_token token ≡ ok state
    → (token ≡ some state) × IsLive state
unfolding check_token
check_token-IsLive none h = ground arith
check_token-IsLive (some live) h = (
  ground arith,
  subst IsLive {x = live} (ground arith) (record {
    not_paused = ground arith;
    no_transition = ground arith;
    multiplier_positive = ground arith;
  }),
)

-- Both amounts are positive words, and the input respects the cap.
pub record IsSized (io : AcquisitionPriceInput) (policy : PriceRiskPolicy) : Type 0 where
  pub sell_positive : pos 1 ≤ℤ io.sell_amount_raw
  pub buy_positive : pos 1 ≤ℤ io.min_buy_amount_raw
  pub sell_le : io.sell_amount_raw ≤ℤ max_uint256
  pub buy_le : io.min_buy_amount_raw ≤ℤ max_uint256
  pub capped : io.sell_amount_raw ≤ℤ policy.max_tx_input_raw

pub check_amounts-IsSized :
    (io : AcquisitionPriceInput) (policy : PriceRiskPolicy) {u : Unit {0}}
    → check_amounts io policy ≡ ok u
    → IsSized io policy
unfolding check_amounts
check_amounts-IsSized io policy h = record {
  sell_positive = ground arith;
  buy_positive = ground arith;
  sell_le = ground arith;
  buy_le = ground arith;
  capped = ground arith;
}

pub check_feed-IsTrusted :
    (feed : Option UsdPriceObservation) (asset identity : Text) (semantics : PriceSemantics)
    (now max_staleness : ℤ) {f : UsdPriceObservation}
    → check_feed feed asset identity semantics now max_staleness ≡ ok f
    → (feed ≡ some f) × IsTrusted f asset identity semantics now max_staleness
unfolding check_feed
check_feed-IsTrusted none asset identity semantics now max_staleness h = ground arith
check_feed-IsTrusted (some feed) asset identity semantics now max_staleness h =
    let (e, trusted) =
      check_observation-IsTrusted feed asset identity semantics now max_staleness h in
    (ap some e, subst (λ f. IsTrusted f asset identity semantics now max_staleness) e trusted)
