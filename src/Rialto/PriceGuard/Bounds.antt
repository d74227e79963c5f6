-- ===== src/Rialto/PriceGuard/Bounds.antt =====
-- An acquisition the price guard lets through has trusted prices, respects the policy, and its
-- bounds are those of one exact quotient.
use bps_protocol.Prelude.{
  ℕ, suc, ◌-◌, ◌*◌, ◌/◌, ◌^◌, ◌≤◌, ◌<◌, ◌≡◌, ◌⊎◌, inl, inr, refl, sym, ap, subst, ◌∙◌, Bool, true,
  false, Option, none, some, arith, ok, fail_if, >>=-eq-ok, ok-injective,
}
use native.Mathlib.Nat.{mul-pos, mul-le-mul_left}
use bps_protocol.Integer.{ℤ, pos, negsuc, ◌-ℤ◌, ◌*ℤ◌, ◌/ℤ◌, ◌≤ℤ◌, ltb_ℤ, leb_ℤ}
use bps_protocol.Rialto.PriceGuard.{
  UsdPriceObservation, StockTokenState, SequencerObservation, PriceRiskPolicy,
  AcquisitionPriceInput, PriceGuardResult, PriceSemantics, PerToken, per_token_chainlink,
  raw_underlying, per_token, expected_output, bps, min_allowed_output, check_sequencer, check_feed,
  check_token, check_amounts, Code, validate_under, validate_acquisition_price,
}
use bps_protocol.Rialto.PriceGuard.Feeds.{
  IsTrusted, IsUp, IsLive, IsSized, check_feed-IsTrusted, check_sequencer-IsUp, check_token-IsLive,
  check_amounts-IsSized,
}
use bps_protocol.Rialto.PriceGuard.Floor.{IsFloor, expected_output-IsFloor}

positive_nat : (z : ℤ) → pos 1 ≤ℤ z → (n : ℕ) × (z ≡ pos n) × (0 < n)
positive_nat (pos n) h = (n, refl, omega arith)
positive_nat (negsuc n) h = ground arith

-- The price of a token: a feed's own price as it is, a raw price times the multiplier, once.
abbrev pub IsPriced :
    UsdPriceObservation → StockTokenState → PriceRiskPolicy → ℕ → ℕ → Bool → Type 0
IsPriced feed state policy num den applied =
    (feed.semantics ≡ per_token_chainlink) × (feed.answer ≡ pos num) × (den ≡ 1) × (applied ≡ false)
    ⊎ (feed.semantics ≡ raw_underlying)
      × (policy.allow_raw_underlying_for_evidence ≡ true)
      × (feed.answer *ℤ state.multiplier_e18 ≡ pos num)
      × (den ≡ 10 ^ 18)
      × (applied ≡ true)

product_eq : {x y : ℤ} {m n : ℕ} → x ≡ pos m → y ≡ pos n → x *ℤ y ≡ pos (m * n)
product_eq ex ey = rw (ex, ey)

semantics_cases : (s : PriceSemantics) → (s ≡ per_token_chainlink) ⊎ (s ≡ raw_underlying)
semantics_cases per_token_chainlink = inl refl
semantics_cases raw_underlying = inr refl

per_token-IsPriced :
    (feed : UsdPriceObservation) (state : StockTokenState) (policy : PriceRiskPolicy)
    {price : PerToken}
    → pos 1 ≤ℤ feed.answer
    → pos 1 ≤ℤ state.multiplier_e18
    → per_token feed state policy ≡ ok price
    → (num : ℕ) × (den : ℕ) × (price.num ≡ pos num)
      × (price.den ≡ pos den)
      × (0 < num)
      × IsPriced feed state policy num den price.multiplier_applied
unfolding per_token
per_token-IsPriced feed state policy answer_positive multiplier_positive h =
    let (a, ea, a_positive) = positive_nat feed.answer answer_positive in
    let (m, em, m_positive) = positive_nat state.multiplier_e18 multiplier_positive in
    elim (semantics_cases feed.semantics) [
      | inl e ↦ (a, 1, ground arith, ground arith, a_positive, inl (e, ea, refl, ground arith))
      | inr e ↦ (
        a * m,
        10 ^ 18,
        ground (arith, product_eq ea em),
        ground arith,
        mul-pos a_positive m_positive,
        inr (e, ground arith, product_eq ea em, refl, ground arith),
      )
    ]

-- The guard's view of an acquisition it lets through.
pub record IsGuarded (io : AcquisitionPriceInput) (in_feed out_feed : UsdPriceObservation)
    (state : StockTokenState) (seq : SequencerObservation) (policy : PriceRiskPolicy)
    (r : PriceGuardResult) : Type 0 where
  pub sequencer_up : IsUp seq policy io.now_sec
  pub input_trusted :
      IsTrusted in_feed io.sell_token policy.input_feed_identity per_token_chainlink io.now_sec
        policy.max_staleness_sec
  pub output_trusted :
      IsTrusted out_feed io.buy_token policy.output_feed_identity policy.output_semantics io.now_sec
        policy.max_staleness_sec
  pub token_live : IsLive state
  pub amounts_sized : IsSized io policy
  pub sell : ℕ
  pub answer : ℕ
  pub num : ℕ
  pub den : ℕ
  pub expected : ℕ
  pub sell_eq : io.sell_amount_raw ≡ pos sell
  pub answer_eq : in_feed.answer ≡ pos answer
  pub priced : IsPriced out_feed state policy num den r.justification.multiplier_applied
  pub expected_eq : r.expected_buy_amount_raw ≡ pos expected
  pub expected_positive : 0 < expected
  pub floored : IsFloor io in_feed out_feed sell answer num den expected
  pub allowed_eq : r.min_allowed_buy_amount_raw ≡ min_allowed_output (pos expected) policy
  pub allowed_le : r.min_allowed_buy_amount_raw ≤ℤ io.min_buy_amount_raw

-- The checks an accepted acquisition went through, in the order of the code.
record Passed (io : AcquisitionPriceInput) (input_feed output_feed : Option UsdPriceObservation)
    (token : Option StockTokenState) (sequencer : Option SequencerObservation)
    (policy : PriceRiskPolicy) (r : PriceGuardResult) : Type 0 where
  in_feed : UsdPriceObservation
  out_feed : UsdPriceObservation
  state : StockTokenState
  price : PerToken
  sequencer_ok : check_sequencer sequencer policy io.now_sec ≡ ok tt
  input_ok :
      check_feed input_feed io.sell_token policy.input_feed_identity per_token_chainlink io.now_sec
        policy.max_staleness_sec
      ≡ ok in_feed
  output_ok :
      check_feed output_feed io.buy_token policy.output_feed_identity policy.output_semantics
        io.now_sec policy.max_staleness_sec
      ≡ ok out_feed
  token_ok : check_token token ≡ ok state
  amounts_ok : check_amounts io policy ≡ ok tt
  price_ok : per_token out_feed state policy ≡ ok price
  expected_ok : expected_output io in_feed out_feed price ≡ ok r.expected_buy_amount_raw
  expected_le : leb_ℤ r.expected_buy_amount_raw (pos 0) ≡ false
  allowed_eq : r.min_allowed_buy_amount_raw ≡ min_allowed_output r.expected_buy_amount_raw policy
  allowed_le : ltb_ℤ io.min_buy_amount_raw r.min_allowed_buy_amount_raw ≡ false
  applied_eq : r.justification.multiplier_applied ≡ price.multiplier_applied

fail_if-false : (c : Bool) (e : Code) {u : Unit {0}} → fail_if c e ≡ ok u → c ≡ false
fail_if-false c e h = ground arith

validate_under-Passed :
    (io : AcquisitionPriceInput) (input_feed output_feed : Option UsdPriceObservation)
    (token : Option StockTokenState) (sequencer : Option SequencerObservation)
    (policy : PriceRiskPolicy) {r : PriceGuardResult}
    → validate_under io input_feed output_feed token sequencer policy ≡ ok r
    → Passed io input_feed output_feed token sequencer policy r
unfolding validate_under
validate_under-Passed io input_feed output_feed token sequencer policy h =
    let (_, c1, h1) = >>=-eq-ok (check_sequencer sequencer policy io.now_sec) _ h in
    let (in_feed, c2, h2) =
      >>=-eq-ok
        (check_feed input_feed io.sell_token policy.input_feed_identity per_token_chainlink
          io.now_sec policy.max_staleness_sec)
        _ h1 in
    let (out_feed, c3, h3) =
      >>=-eq-ok
        (check_feed output_feed io.buy_token policy.output_feed_identity policy.output_semantics
          io.now_sec policy.max_staleness_sec)
        _ h2 in
    let (state, c4, h4) = >>=-eq-ok (check_token token) _ h3 in
    let (_, c5, h5) = >>=-eq-ok (check_amounts io policy) _ h4 in
    let (price, c6, h6) = >>=-eq-ok (per_token out_feed state policy) _ h5 in
    let (expected, c7, h7) = >>=-eq-ok (expected_output io in_feed out_feed price) _ h6 in
    let (_, c8, h8) = >>=-eq-ok (fail_if (leb_ℤ expected (pos 0)) _) _ h7 in
    let (_, c9, h9) =
      >>=-eq-ok (fail_if (ltb_ℤ io.min_buy_amount_raw (min_allowed_output expected policy)) _) _
        h8 in
    subst (Passed io input_feed output_feed token sequencer policy) (ok-injective h9) (record {
      in_feed = in_feed;
      out_feed = out_feed;
      state = state;
      price = price;
      sequencer_ok = c1;
      input_ok = c2;
      output_ok = c3;
      token_ok = c4;
      amounts_ok = c5;
      price_ok = c6;
      expected_ok = c7;
      expected_le = fail_if-false _ _ c8;
      allowed_eq = refl;
      allowed_le = fail_if-false _ _ c9;
      applied_eq = refl;
    })

positive_of : (z : ℤ) {e : ℕ} → z ≡ pos e → leb_ℤ z (pos 0) ≡ false → 0 < e
positive_of (pos n) e h = ground arith
positive_of (negsuc n) e h = ground arith

ltb_ℤ-false : (x y : ℤ) → ltb_ℤ x y ≡ false → y ≤ℤ x
ltb_ℤ-false x y h = ground arith

Passed-IsGuarded :
    (io : AcquisitionPriceInput) (input_feed output_feed : Option UsdPriceObservation)
    (token : Option StockTokenState) (sequencer : Option SequencerObservation)
    (policy : PriceRiskPolicy) (r : PriceGuardResult)
    (p : Passed io input_feed output_feed token sequencer policy r)
    → (state : StockTokenState) × (seq : SequencerObservation) × (input_feed ≡ some p.in_feed)
      × (output_feed ≡ some p.out_feed)
      × (token ≡ some state)
      × (sequencer ≡ some seq)
      × IsGuarded io p.in_feed p.out_feed state seq policy r
Passed-IsGuarded io input_feed output_feed token sequencer policy r p =
    let (seq, seq_is, up) = check_sequencer-IsUp sequencer policy io.now_sec p.sequencer_ok in
    let (in_is, in_trusted) = check_feed-IsTrusted input_feed _ _ _ _ _ p.input_ok in
    let (out_is, out_trusted) = check_feed-IsTrusted output_feed _ _ _ _ _ p.output_ok in
    let (state_is, live) = check_token-IsLive token p.token_ok in
    let sized = check_amounts-IsSized io policy p.amounts_ok in
    let (s, es, _) = positive_nat io.sell_amount_raw sized.sell_positive in
    let (a, ea, _) = positive_nat p.in_feed.answer in_trusted.answer_positive in
    let (num, den, num_is, den_is, positive, priced) =
      per_token-IsPriced p.out_feed p.state policy out_trusted.answer_positive
        live.multiplier_positive p.price_ok in
    let (e, e_is, floored) =
      expected_output-IsFloor io p.in_feed p.out_feed p.price s a num den es ea num_is den_is
        positive p.expected_ok in
    (
      p.state,
      seq,
      in_is,
      out_is,
      state_is,
      seq_is,
      record {
        sequencer_up = up;
        input_trusted = in_trusted;
        output_trusted = out_trusted;
        token_live = live;
        amounts_sized = sized;
        sell = s;
        answer = a;
        num = num;
        den = den;
        expected = e;
        sell_eq = es;
        answer_eq = ea;
        priced = subst (IsPriced p.out_feed p.state policy num den) (sym p.applied_eq) priced;
        expected_eq = e_is;
        expected_positive = positive_of _ e_is p.expected_le;
        floored = floored;
        allowed_eq = p.allowed_eq ∙ ap (λ x. min_allowed_output x policy) e_is;
        allowed_le = ltb_ℤ-false io.min_buy_amount_raw r.min_allowed_buy_amount_raw p.allowed_le;
      },
    )

-- An acquisition that the price guard accepts has a policy, both feeds, a token state and a
-- sequencer observation, and: the sequencer is up and out of its grace period; both observations
-- are of the feeds the policy pins, for the traded tokens, complete, in range and fresh; the
-- token is live; the amounts are positive words under the cap; the multiplier is applied once to
-- a raw price that the policy approves, and never to a token's own price; the expected output is
-- the positive floor of one exact quotient; and the minimum bought is not below the band.
pub validate_acquisition_price-IsGuarded :
    (io : AcquisitionPriceInput) (input_feed output_feed : Option UsdPriceObservation)
    (token : Option StockTokenState) (sequencer : Option SequencerObservation)
    (policy : Option PriceRiskPolicy) {r : PriceGuardResult}
    → validate_acquisition_price io input_feed output_feed token sequencer policy ≡ ok r
    → (in_feed : UsdPriceObservation) × (out_feed : UsdPriceObservation) × (state : StockTokenState)
      × (seq : SequencerObservation) × (approved : PriceRiskPolicy) × (input_feed ≡ some in_feed)
      × (output_feed ≡ some out_feed)
      × (token ≡ some state)
      × (sequencer ≡ some seq)
      × (policy ≡ some approved)
      × IsGuarded io in_feed out_feed state seq approved r
unfolding validate_acquisition_price
validate_acquisition_price-IsGuarded io input_feed output_feed token sequencer none h = ground arith
validate_acquisition_price-IsGuarded io input_feed output_feed token sequencer (some policy) h =
    let passed = validate_under-Passed io input_feed output_feed token sequencer policy h in
    let (state, seq, i, o, t, s, guarded) =
      Passed-IsGuarded io input_feed output_feed token sequencer policy _ passed in
    (passed.in_feed, passed.out_feed, state, seq, policy, i, o, t, s, refl, guarded)

div_le : (e m : ℕ) → m ≤ 10000 → e * m / 10000 ≤ e
div_le e m h = let p : e * m ≤ e * 10000 = mul-le-mul_left e h in omega arith

complement : (d : ℕ) → d ≤ 10000 → bps -ℤ pos d ≡ pos (10000 - d)
complement d h = ground arith

band_eq :
    (expected d : ℕ) {dev : ℤ}
    → dev ≡ pos d
    → d ≤ 10000
    → pos expected *ℤ (bps -ℤ dev) /ℤ bps ≡ pos (expected * (10000 - d) / 10000)
band_eq expected d e h = rw e (rw (complement d h) refl)

-- For a deviation of at most 10000 basis points the least output allowed is the floor of the
-- expected output less that part: within one unit, and never above the expected output.
pub min_allowed_output-band :
    (expected deviation : ℕ) (policy : PriceRiskPolicy)
    → policy.max_deviation_bps ≡ pos deviation
    → deviation ≤ 10000
    → (least : ℕ) × (min_allowed_output (pos expected) policy ≡ pos least)
      × (least * 10000 ≤ expected * (10000 - deviation))
      × (expected * (10000 - deviation) < suc least * 10000)
      × (least ≤ expected)
unfolding min_allowed_output
min_allowed_output-band expected deviation policy e h = (
  expected * (10000 - deviation) / 10000,
  band_eq expected deviation e h,
  omega arith,
  omega arith,
  div_le expected (10000 - deviation) (omega arith),
)
