-- ===== src/Rialto/QuoteExecution/Bound.antt =====
-- A quote's call that is accepted is an approved call, bound to the context.
use bps_protocol.Prelude.{
  ℕ, ◌≤◌, ◌<◌, ◌≡◌, ◌≢◌, refl, subst, false, not, ◌||◌, some, [], arith, ltb, ◌==◌, length, ok,
  fail_if, >>=-eq-ok, fail_if-eq-ok, ok-injective, Any,
}
use bps_protocol.Text.{Text, codes, text_eq, text_eq_iff, to_lower_case}
use bps_protocol.Dict.{has}
use bps_protocol.Rialto.QuoteExecution.{
  AbiPackage, RialtoQuoteResult, ApprovedSelector, QuoteExecutionPolicy, QuoteExecutionContext,
  QuoteExecutionValidation, same_lower, router_of, first_units, arguments_of, forbidden_of,
  find_selector, decoded_or, bind_text, bind_amount, check_expiry, has_none,
  validate_quote_execution, arg_token_mismatch, arg_recipient_mismatch,
}
use bps_protocol.Rialto.QuoteExecution.Approved.{
  SameLower, IsBoundText, IsBoundAmount, bind_text-IsBoundText, bind_amount-IsBoundAmount,
  find_selector-eq-ok, router_of-eq-ok, check_expiry-eq-ok, decoded_or-eq-ok,
}

same_number : (n : ℕ) → not (n == 4663) ≡ false → n ≡ 4663
same_number n h = ground arith

at_least : (n : ℕ) → ltb n 10 ≡ false → 10 ≤ n
at_least n h = ground arith

module _ (abi : AbiPackage) where
  pub record IsExecutable (quote : RialtoQuoteResult) (ctx : QuoteExecutionContext)
      (policy : QuoteExecutionPolicy abi.Params) (r : QuoteExecutionValidation abi.Other)
      : Type 0 where
    pub chain_eq : ctx.chain_id ≡ 4663
    -- the call goes to the router that the registry has now
    pub router : Text
    pub router_resolved : ctx.resolved_router ≡ some router
    pub router_some : router ≢ []
    pub target_same : SameLower quote.target router
    -- its selector is approved and not forbidden
    pub selector_eq : r.selector ≡ to_lower_case (first_units 10 quote.call_data)
    pub long_enough : 10 ≤ length quote.call_data
    pub allowed : has (forbidden_of policy.forbidden_selectors) r.selector ≡ false
    pub approved : ApprovedSelector abi.Params
    pub listed : Any (λ a. a ≡ approved) policy.approved_selectors
    pub approved_eq : to_lower_case approved.selector ≡ r.selector
    -- its arguments are the canonical encoding of what they decode to
    pub decoded_eq : abi.decode approved.params (arguments_of quote.call_data) ≡ some r.decoded_args
    pub canonical :
        SameLower (arguments_of quote.call_data) (abi.encode approved.params r.decoded_args)
    -- and they are bound to the context
    pub token_bound : IsBoundText approved.token_arg_index r.decoded_args ctx.expected_buy_token
    pub amount_bound :
        IsBoundAmount approved.amount_arg_index r.decoded_args ctx.expected_sell_amount_raw
    pub recipient_bound :
        IsBoundText approved.recipient_arg_index r.decoded_args ctx.expected_recipient
    pub expiry : ℕ
    pub expiry_eq : quote.quote_expiry ≡ some expiry
    pub not_expired : ctx.now_sec < expiry

  same_lower-SameLower : (s t : Text) → not (same_lower s t) ≡ false → SameLower s t
  same_lower-SameLower s t h = ground (arith, text_eq_iff (to_lower_case s) (to_lower_case t))

  -- A quote's call that is accepted goes, on chain 4663, to the router that is resolved now; its
  -- selector is listed as approved and is not forbidden; its arguments are, up to case, the
  -- encoding of what they decode to; every declared token, amount and recipient argument is the
  -- expected one; and the quote has an expiry that lies after now.
  pub validate_quote_execution-IsExecutable :
      (quote : RialtoQuoteResult) (ctx : QuoteExecutionContext)
      (policy : QuoteExecutionPolicy abi.Params) {r : QuoteExecutionValidation abi.Other}
      → validate_quote_execution abi quote ctx policy ≡ ok r
      → IsExecutable quote ctx policy r
  unfolding validate_quote_execution
  validate_quote_execution-IsExecutable quote ctx policy h =
      let call = quote.call_data in
      let selector = to_lower_case (first_units 10 call) in
      let (_, c1, h1) = >>=-eq-ok (fail_if (not (ctx.chain_id == 4663)) _) _ h in
      let (router, c2, h2) = >>=-eq-ok (router_of ctx.resolved_router) _ h1 in
      let (_, c3, h3) = >>=-eq-ok (fail_if (not (same_lower quote.target router)) _) _ h2 in
      let (_, c4, h4) = >>=-eq-ok (fail_if (text_eq call (codes "0x") || has_none call) _) _ h3 in
      let (_, c5, h5) = >>=-eq-ok (fail_if (ltb (length call) 10) _) _ h4 in
      let (_, c6, h6) =
        >>=-eq-ok (fail_if (has (forbidden_of policy.forbidden_selectors) selector) _) _ h5 in
      let (_, c7, h7) = >>=-eq-ok (fail_if (has_none policy.approved_selectors) _) _ h6 in
      let (approved, c8, h8) = >>=-eq-ok (find_selector selector policy.approved_selectors) _ h7 in
      let (decoded, c9, h9) =
        >>=-eq-ok (decoded_or (abi.decode approved.params (arguments_of call))) _ h8 in
      let (_, c10, h10) =
        >>=-eq-ok
          (fail_if (not (same_lower (arguments_of call) (abi.encode approved.params decoded))) _) _
          h9 in
      let (token, c11, h11) =
        >>=-eq-ok
          (bind_text approved.token_arg_index decoded ctx.expected_buy_token arg_token_mismatch) _
          h10 in
      let (amount, c12, h12) =
        >>=-eq-ok (bind_amount approved.amount_arg_index decoded ctx.expected_sell_amount_raw) _
          h11 in
      let (recipient, c13, h13) =
        >>=-eq-ok
          (bind_text approved.recipient_arg_index decoded ctx.expected_recipient
            arg_recipient_mismatch)
          _ h12 in
      let (_, c14, done) = >>=-eq-ok (check_expiry quote.quote_expiry ctx.now_sec) _ h13 in
      let (resolved, some_router) = router_of-eq-ok ctx.resolved_router c2 in
      let (listed, same) = find_selector-eq-ok selector policy.approved_selectors c8 in
      let (e, e_is, later) = check_expiry-eq-ok quote.quote_expiry ctx.now_sec c14 in
      subst (IsExecutable quote ctx policy) (ok-injective done) (record {
        chain_eq = same_number _ (fail_if-eq-ok _ _ c1);
        router = router;
        router_resolved = resolved;
        router_some = some_router;
        target_same = same_lower-SameLower quote.target router (fail_if-eq-ok _ _ c3);
        selector_eq = refl;
        long_enough = at_least _ (fail_if-eq-ok _ _ c5);
        allowed = fail_if-eq-ok _ _ c6;
        approved = approved;
        listed = listed;
        approved_eq = same;
        decoded_eq = decoded_or-eq-ok _ c9;
        canonical = same_lower-SameLower _ _ (fail_if-eq-ok _ _ c10);
        token_bound =
            bind_text-IsBoundText approved.token_arg_index decoded ctx.expected_buy_token _ c11;
        amount_bound =
            bind_amount-IsBoundAmount approved.amount_arg_index decoded ctx.expected_sell_amount_raw
              c12;
        recipient_bound =
            bind_text-IsBoundText approved.recipient_arg_index decoded ctx.expected_recipient _ c13;
        expiry = e;
        expiry_eq = e_is;
        not_expired = later;
      })
