-- ===== src/Rialto/Settlement/Opaque/Accepted.antt =====
-- When a fetched quote is accepted for an intent.
use bps_protocol.Prelude.{
  ◌≡◌, ◌↔◌, ◌⊎◌, refl, inl, inr, ap, Bool, true, false, not, ◌||◌, Option, none, some, List, [],
  ◌∷◌, arith, All, ◌==◌,
}
use bps_protocol.Integer.{ℤ, pos, negsuc, ◌≤ℤ◌, leb_ℤ, ◌==ℤ◌}
use bps_protocol.Integer.Number.{
  JsNumber, finite, ltb_number, IsNotAbove, IsNotAtMost, ltb_number_iff, leb_number_iff,
}
use bps_protocol.Text.{Text, codes, text_eq, text_eq_iff}
use bps_protocol.Rialto.QuoteExecution.{first_units}
use bps_protocol.Rialto.Settlement.Evaluation.Passed.{IsSameLower, same_lower_iff, either_false_iff}
use bps_protocol.Rialto.Settlement.Opaque.{
  opaque_settlement_selector, OpaqueQuote, OpaqueQuoteContext, OpaqueFailure, spends_elsewhere,
  is_expired, quote_tests, pushed, none_pushed, validate_opaque_quote_for_intent,
}

-- The quote calls the resolved router on chain 4663 by allowance, with no value and the approved
-- selector in its field and its calldata; it sells WETH for NVDA to the executor at exactly the
-- intent's amounts, for a fee that is not out of range, and has an expiry that is not at most now.
pub record IsAcceptable (q : OpaqueQuote) (ctx : OpaqueQuoteContext) : Type 0 where
  pub chain : ctx.chain_id ≡ 4663
  pub settlement : q.settlement ≡ codes "allowance"
  pub router : IsSameLower q.tx_to ctx.resolved_router
  pub spender :
      (q.allowance_spender ≡ none)
      ⊎ ((s : Text) × (q.allowance_spender ≡ some s) × IsSameLower s ctx.resolved_router)
  pub value : q.tx_value ≡ codes "0"
  pub selector : IsSameLower q.selector opaque_settlement_selector
  pub calldata : IsSameLower (first_units 10 q.call_data) opaque_settlement_selector
  pub sell_token : IsSameLower q.sell_token ctx.weth
  pub buy_token : IsSameLower q.buy_token ctx.nvda
  pub taker : IsSameLower q.taker ctx.executor
  pub sold : (pos 1 ≤ℤ q.sell_amount_raw) × (q.sell_amount_raw ≡ ctx.intent_sell_amount_raw)
  pub bought :
      (pos 1 ≤ℤ q.min_buy_amount_raw) × (q.min_buy_amount_raw ≡ ctx.intent_min_buy_amount_raw)
  pub fee :
      IsNotAbove (finite (pos 0)) q.platform_fee_bps
      × IsNotAbove q.platform_fee_bps ctx.max_platform_fee_bps
  pub no_integrator : q.integrator_fee_present ≡ false
  pub lasting : (e : JsNumber) × (q.expiry_sec ≡ some e) × IsNotAtMost e ctx.now_sec

none_pushed_iff :
    (fs : List (Bool × OpaqueFailure)) → none_pushed (pushed fs) ≡ true ↔ All (λ f. f.0 ≡ false) fs
unfolding pushed
none_pushed_iff [] = (λ h. tt, λ h. refl)
none_pushed_iff ((true, f) ∷ fs) = (λ h. absurd cc, λ h. absurd (let e = h.0 in cc))
none_pushed_iff ((false, f) ∷ fs) =
    let rest = none_pushed_iff fs in (λ h. (refl, rest.0 h), λ h. rest.1 h.1)

same_text_iff : (s t : Text) → not (text_eq s t) ≡ false ↔ s ≡ t
same_text_iff s t = let e = text_eq_iff s t in (λ h. e.0 (ground arith), λ h. ground (arith, e.1 h))

==ℤ_iff : (a b : ℤ) → not (a ==ℤ b) ≡ false ↔ a ≡ b
==ℤ_iff (pos m) (pos n) = (λ h. ap pos (ground arith), λ h. let e : m ≡ n = cc in ground arith)
==ℤ_iff (pos m) (negsuc n) = (λ h. absurd (ground arith), λ h. absurd cc)
==ℤ_iff (negsuc m) (pos n) = (λ h. absurd (ground arith), λ h. absurd cc)
==ℤ_iff (negsuc m) (negsuc n) =
    (λ h. ap negsuc (ground arith), λ h. let e : m ≡ n = cc in ground arith)

amount_iff : (a b : ℤ) → (leb_ℤ a (pos 0) || not (a ==ℤ b)) ≡ false ↔ (pos 1 ≤ℤ a) × (a ≡ b)
amount_iff a b =
    let e = ==ℤ_iff a b in
    (
      λ h. (ground arith, e.0 (or_right (leb_ℤ a (pos 0)) (not (a ==ℤ b)) h)),
      λ h. or_false (leb_ℤ a (pos 0)) (not (a ==ℤ b)) (ground arith) (e.1 h.1),
    )
  where
    or_right : (x y : Bool) → (x || y) ≡ false → y ≡ false
    or_right x y h = ground arith

    or_false : (x y : Bool) → x ≡ false → y ≡ false → (x || y) ≡ false
    or_false x y h k = ground arith

spender_iff :
    (spender : Option Text) (router : Text)
    → spends_elsewhere spender router ≡ false
      ↔ (spender ≡ none) ⊎ ((s : Text) × (spender ≡ some s) × IsSameLower s router)
spender_iff none router = (λ h. inl refl, λ h. refl)
spender_iff (some s) router =
    let same = same_lower_iff s router in
    (
      (λ h. inr (s, refl, same.0 h)),
      (λ h. elim h [
        | inl e ↦ absurd cc
        | inr e ↦ let x : s ≡ e.0 = let y = e.1 in cc in same.1 (rw x e.2)
      ]),
    )

expiry_iff :
    (expiry : Option JsNumber) (now : JsNumber)
    → is_expired expiry now ≡ false ↔ (e : JsNumber) × (expiry ≡ some e) × IsNotAtMost e now
expiry_iff none now = (λ h. absurd cc, λ h. absurd (let e = h.1 in cc))
expiry_iff (some e) now =
    let later = leb_number_iff e now in
    (
      (λ h. (e, refl, later.0 h)),
      (λ h. let (d, x, l) = h in let same : e ≡ d = cc in later.1 (rw same l)),
    )

-- A fetched quote is accepted exactly when it calls the resolved router on chain 4663 by allowance,
-- with no value and the approved selector both in its field and in its calldata, spends through no
-- other contract, sells the intent's WETH for NVDA to the executor at exactly the intent's positive
-- amounts, charges no integrator fee and a platform fee that is neither below 0 nor above the largest,
-- and has an expiry that is not at most now. The platform fees and times are numbers for which these
-- hold also of NaN: a quote whose platform fee or expiry is NaN passes.
pub validate_opaque_quote_for_intent_iff :
    (keccak256 : Text → Text) (q : OpaqueQuote) (ctx : OpaqueQuoteContext)
    → (validate_opaque_quote_for_intent keccak256 q ctx).ok ≡ true ↔ IsAcceptable q ctx
unfolding validate_opaque_quote_for_intent quote_tests
validate_opaque_quote_for_intent_iff keccak256 q ctx =
    let passed = none_pushed_iff (quote_tests q ctx) in
    let settlement = same_text_iff q.settlement (codes "allowance") in
    let router = same_lower_iff q.tx_to ctx.resolved_router in
    let spender = spender_iff q.allowance_spender ctx.resolved_router in
    let value = same_text_iff q.tx_value (codes "0") in
    let selector = same_lower_iff q.selector opaque_settlement_selector in
    let calldata = same_lower_iff (first_units 10 q.call_data) opaque_settlement_selector in
    let sell = same_lower_iff q.sell_token ctx.weth in
    let buy = same_lower_iff q.buy_token ctx.nvda in
    let taker = same_lower_iff q.taker ctx.executor in
    let sold = amount_iff q.sell_amount_raw ctx.intent_sell_amount_raw in
    let bought = amount_iff q.min_buy_amount_raw ctx.intent_min_buy_amount_raw in
    let lasting = expiry_iff q.expiry_sec ctx.now_sec in
    (
      (λ h.
          let t = passed.0 h in
          record {
            chain = chain_iff.0 t.0;
            settlement = settlement.0 t.1.0;
            router = router.0 t.1.1.0;
            spender = spender.0 t.1.1.1.0;
            value = value.0 t.1.1.1.1.0;
            selector = selector.0 t.1.1.1.1.1.0;
            calldata = calldata.0 t.1.1.1.1.1.1.0;
            sell_token = sell.0 t.1.1.1.1.1.1.1.0;
            buy_token = buy.0 t.1.1.1.1.1.1.1.1.0;
            taker = taker.0 t.1.1.1.1.1.1.1.1.1.0;
            sold = sold.0 t.1.1.1.1.1.1.1.1.1.1.0;
            bought = bought.0 t.1.1.1.1.1.1.1.1.1.1.1.0;
            fee = fee_iff.0 t.1.1.1.1.1.1.1.1.1.1.1.1.0;
            no_integrator = t.1.1.1.1.1.1.1.1.1.1.1.1.1.0;
            lasting = lasting.0 t.1.1.1.1.1.1.1.1.1.1.1.1.1.1.0;
          }),
      (λ h. passed.1 (
        chain_iff.1 h.chain,
        (
          settlement.1 h.settlement,
          (
            router.1 h.router,
            (
              spender.1 h.spender,
              (
                value.1 h.value,
                (
                  selector.1 h.selector,
                  (
                    calldata.1 h.calldata,
                    (
                      sell.1 h.sell_token,
                      (
                        buy.1 h.buy_token,
                        (
                          taker.1 h.taker,
                          (
                            sold.1 h.sold,
                            (
                              bought.1 h.bought,
                              (fee_iff.1 h.fee, (h.no_integrator, (lasting.1 h.lasting, tt))),
                            ),
                          ),
                        ),
                      ),
                    ),
                  ),
                ),
              ),
            ),
          ),
        ),
      )),
    )
  where
    chain_iff : not (ctx.chain_id == 4663) ≡ false ↔ ctx.chain_id ≡ 4663
    chain_iff = (λ h. ground arith, λ h. ground arith)

    fee_iff :
        (ltb_number q.platform_fee_bps (finite (pos 0))
            || ltb_number ctx.max_platform_fee_bps q.platform_fee_bps)
          ≡ false
        ↔ IsNotAbove (finite (pos 0)) q.platform_fee_bps
          × IsNotAbove q.platform_fee_bps ctx.max_platform_fee_bps
    fee_iff =
        either_false_iff _ _ (ltb_number_iff (finite (pos 0)) q.platform_fee_bps)
          (ltb_number_iff q.platform_fee_bps ctx.max_platform_fee_bps)
