-- ===== src/Rialto/Settlement/Opaque.antt =====
-- `validateOpaqueQuoteForIntent`: a quote that is already fetched, against the intent it is for. The
-- hash of the calldata is a parameter, and `.slice(0, 10)` takes its selector.
pub mod Accepted
use bps_protocol.Prelude.{
  ℕ, suc, Bool, true, false, not, ◌&&◌, ◌||◌, Option, none, some, List, [], ◌∷◌, ◌++◌, ◌==◌,
  if◌then◌else◌,
}
use bps_protocol.Integer.{ℤ, pos, ltb_ℤ, leb_ℤ, ◌==ℤ◌}
use bps_protocol.Integer.Number.{JsNumber, finite, ltb_number, leb_number}
use bps_protocol.Text.{Text, codes, text_eq}
use bps_protocol.Rialto.QuoteExecution.{first_units, same_lower}

abbrev pub opaque_settlement_selector : Text
opaque_settlement_selector = codes "0x77963966"

pub record OpaqueQuote : Type 0 where
  pub settlement : Text
  pub tx_to : Text
  pub tx_value : Text
  pub selector : Text
  pub call_data : Text
  pub sell_token : Text
  pub buy_token : Text
  pub taker : Text
  pub sell_amount_raw : ℤ
  pub min_buy_amount_raw : ℤ
  pub platform_fee_bps : JsNumber
  pub integrator_fee_present : Bool
  pub allowance_spender : Option Text
  pub expiry_sec : Option JsNumber

pub record OpaqueQuoteContext : Type 0 where
  pub chain_id : ℕ
  pub resolved_router : Text
  pub executor : Text
  pub weth : Text
  pub nvda : Text
  pub max_platform_fee_bps : JsNumber
  pub now_sec : JsNumber
  pub intent_sell_amount_raw : ℤ
  pub intent_min_buy_amount_raw : ℤ

pub data OpaqueFailure : Type 0 where
  wrong_chain settlement_not_allowance tx_to_not_router : OpaqueFailure
  allowance_spender_not_router nonzero_tx_value wrong_selector : OpaqueFailure
  calldata_selector_mismatch sell_token_not_weth buy_token_not_nvda : OpaqueFailure
  taker_not_executor sell_amount_mismatch min_buy_mismatch : OpaqueFailure
  platform_fee_too_high integrator_fee_present quote_expired : OpaqueFailure

pub record OpaqueQuoteValidation : Type 0 where
  pub ok : Bool
  pub failures : List OpaqueFailure
  pub calldata_hash : Text

-- The spender, where there is one, is the router.
abbrev pub spends_elsewhere : Option Text → Text → Bool
spends_elsewhere none router = false
spends_elsewhere (some spender) router = not (same_lower spender router)

abbrev pub is_expired : Option JsNumber → JsNumber → Bool
is_expired none now = true
is_expired (some expiry) now = leb_number expiry now

-- Every test, with the failure that it pushes.
unfoldable pub quote_tests : OpaqueQuote → OpaqueQuoteContext → List (Bool × OpaqueFailure)
quote_tests q ctx =
    (not (ctx.chain_id == 4663), wrong_chain)
    ∷ (not (text_eq q.settlement (codes "allowance")), settlement_not_allowance)
    ∷ (not (same_lower q.tx_to ctx.resolved_router), tx_to_not_router)
    ∷ (spends_elsewhere q.allowance_spender ctx.resolved_router, allowance_spender_not_router)
    ∷ (not (text_eq q.tx_value (codes "0")), nonzero_tx_value)
    ∷ (not (same_lower q.selector opaque_settlement_selector), wrong_selector)
    ∷ (
      not (same_lower (first_units 10 q.call_data) opaque_settlement_selector),
      calldata_selector_mismatch,
    )
    ∷ (not (same_lower q.sell_token ctx.weth), sell_token_not_weth)
    ∷ (not (same_lower q.buy_token ctx.nvda), buy_token_not_nvda)
    ∷ (not (same_lower q.taker ctx.executor), taker_not_executor)
    ∷ (
      leb_ℤ q.sell_amount_raw (pos 0) || not (q.sell_amount_raw ==ℤ ctx.intent_sell_amount_raw),
      sell_amount_mismatch,
    )
    ∷ (
      leb_ℤ q.min_buy_amount_raw (pos 0)
          || not (q.min_buy_amount_raw ==ℤ ctx.intent_min_buy_amount_raw),
      min_buy_mismatch,
    )
    ∷ (
      ltb_number q.platform_fee_bps (finite (pos 0))
          || ltb_number ctx.max_platform_fee_bps q.platform_fee_bps,
      platform_fee_too_high,
    )
    ∷ (q.integrator_fee_present, integrator_fee_present)
    ∷ (is_expired q.expiry_sec ctx.now_sec, quote_expired)
    ∷ []

-- The failures of the tests that hold, in order.
unfoldable pub pushed : List (Bool × OpaqueFailure) → List OpaqueFailure
pushed [] = []
pushed ((test, failure) ∷ fs) = let rest = pushed fs in if test then failure ∷ rest else rest

abbrev pub none_pushed : List OpaqueFailure → Bool
none_pushed [] = true
none_pushed (f ∷ fs) = false

unfoldable pub validate_opaque_quote_for_intent :
    (keccak256 : Text → Text) → OpaqueQuote → OpaqueQuoteContext → OpaqueQuoteValidation
validate_opaque_quote_for_intent keccak256 q ctx =
    let failures = pushed (quote_tests q ctx) in
    record { ok = none_pushed failures; failures = failures; calldata_hash = keccak256 q.call_data }
