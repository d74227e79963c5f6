-- ===== src/Rialto/Tests/Opaque.antt =====
-- A fetched quote against the intent that it is for.
use bps_protocol.Prelude.{◌≡◌, ◌↔◌, refl, true, false, some}
use bps_protocol.Integer.{pos}
use bps_protocol.Integer.Number.{finite}
use bps_protocol.Text.{Text, codes, text_eq, to_lower_case}
use bps_protocol.Pod.Samples.{alice, bob, bob_upper}
use bps_protocol.Rialto.QuoteExecution.{first_units}
use bps_protocol.Rialto.Settlement.{weth, nvda}
use bps_protocol.Rialto.Settlement.Opaque.{
  OpaqueQuote, OpaqueQuoteContext, quote_tests, pushed, validate_opaque_quote_for_intent,
}
use bps_protocol.Rialto.Settlement.Opaque.Accepted.{
  IsAcceptable, validate_opaque_quote_for_intent_iff,
}

abbrev plain_hash : Text → Text
plain_hash t = t

abbrev quote : OpaqueQuote
quote = record {
  settlement = codes "allowance";
  tx_to = bob_upper;
  tx_value = codes "0";
  selector = codes "0x77963966";
  call_data = codes "0x7796396600";
  sell_token = weth;
  buy_token = nvda;
  taker = alice;
  sell_amount_raw = pos 100;
  min_buy_amount_raw = pos 201;
  platform_fee_bps = finite (pos 5);
  integrator_fee_present = false;
  allowance_spender = some bob;
  expiry_sec = some (finite (pos 1100));
}

abbrev context : OpaqueQuoteContext
context = record {
  chain_id = 4663;
  resolved_router = bob;
  executor = alice;
  weth = weth;
  nvda = nvda;
  max_platform_fee_bps = finite (pos 5);
  now_sec = finite (pos 1020);
  intent_sell_amount_raw = pos 100;
  intent_min_buy_amount_raw = pos 201;
}

accepted : (validate_opaque_quote_for_intent plain_hash quote context).ok ≡ true
unfolding validate_opaque_quote_for_intent quote_tests pushed text_eq to_lower_case first_units
accepted = refl

validate_opaque_quote_for_intent_iff_example :
    (validate_opaque_quote_for_intent plain_hash quote context).ok ≡ true
    ↔ IsAcceptable quote context
validate_opaque_quote_for_intent_iff_example =
    validate_opaque_quote_for_intent_iff plain_hash quote context
