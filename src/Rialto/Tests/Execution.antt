-- ===== src/Rialto/Tests/Execution.antt =====
-- A quote's call with a package that knows one encoding.
use bps_protocol.Prelude.{
  ◌≡◌, refl, true, none, some, List, [], ◌∷◌, is_ok, result_of, result_of_eq, if◌then◌else◌,
}
use bps_protocol.Integer.{pos}
use bps_protocol.Text.{codes, text_eq, to_lower_case}
use bps_protocol.Dict.{has}
use bps_protocol.Rialto.QuoteExecution.{
  AbiValue, text_value, number_value, AbiPackage, RialtoQuoteResult, ApprovedSelector,
  QuoteExecutionPolicy, QuoteExecutionContext, default_forbidden_selectors, router_of, first_units,
  rest_units, forbidden_of, find_selector, decoded_or, arg_at, bind_text, bind_amount, check_expiry,
  validate_quote_execution,
}
use bps_protocol.Rialto.QuoteExecution.Bound.{IsExecutable, validate_quote_execution-IsExecutable}

-- The parameters are the arguments; their encoding is 0xbeef.
abbrev sample_abi : AbiPackage
sample_abi = record {
  Params = List (AbiValue (Unit {0}));
  Other = Unit {0};
  decode = λ params call. if text_eq call (codes "0xbeef") then some params else none;
  encode = λ params decoded. codes "0xbeef";
}

abbrev quote : RialtoQuoteResult
quote = record {
  target = codes "0xROUTER";
  call_data = codes "0x12345678beef";
  quote_expiry = some 2000;
}

abbrev context : QuoteExecutionContext
context = record {
  chain_id = 4663;
  resolved_router = some (codes "0xrouter");
  expected_buy_token = codes "0xstock";
  expected_sell_amount_raw = pos 500;
  expected_recipient = codes "0xadapter";
  now_sec = 1500;
}

abbrev approved : ApprovedSelector (List (AbiValue (Unit {0})))
approved = record {
  selector = codes "0x12345678";
  signature = codes "swap(address,uint256,address)";
  params =
      text_value (codes "0xSTOCK") ∷ number_value (pos 500) ∷ text_value (codes "0xAdapter") ∷ [];
  token_arg_index = some 0;
  amount_arg_index = some 1;
  recipient_arg_index = some 2;
}

abbrev policy : QuoteExecutionPolicy (List (AbiValue (Unit {0})))
policy = record { approved_selectors = approved ∷ []; forbidden_selectors = none }

executes : is_ok (validate_quote_execution sample_abi quote context policy) ≡ true
unfolding validate_quote_execution router_of first_units rest_units forbidden_of
    default_forbidden_selectors find_selector decoded_or arg_at bind_text bind_amount check_expiry
    text_eq to_lower_case has
executes = refl

validate_quote_execution-IsExecutable_example :
    IsExecutable sample_abi quote context policy
      (result_of (validate_quote_execution sample_abi quote context policy) executes)
validate_quote_execution-IsExecutable_example =
    validate_quote_execution-IsExecutable sample_abi quote context policy
      (result_of_eq (validate_quote_execution sample_abi quote context policy) executes)
