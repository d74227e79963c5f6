-- ===== src/Rialto/QuoteExecution.antt =====
-- quote-structural.ts: the fail-closed check of a quote's call against the approved selectors.
-- The package that decodes and encodes call arguments is a parameter. Seconds, the chain's number
-- and argument indices are whole numbers that are not negative.
pub mod Approved
pub mod Bound
use bps_protocol.Prelude.{
  ℕ, zero, suc, Bool, true, false, not, ◌||◌, Option, none, some, List, [], ◌∷◌, ◌++◌, map, ltb,
  leb, ◌==◌, if◌then◌else◌, length, Outcome, ok, err, ◌>>=◌, ◌>>◌, fail_if,
}
use bps_protocol.Integer.{ℤ, ◌==ℤ◌}
use bps_protocol.Text.{Text, codes, text_eq, to_lower_case}
use bps_protocol.Dict.{has}
use bps_protocol.Pod.Numeric.{integer_text}

pub data Code : Type 0 where
  selector_policy_missing router_unresolved router_mismatch wrong_chain empty_calldata : Code
  short_calldata unknown_selector multicall_forbidden decode_failed trailing_calldata : Code
  arg_token_mismatch arg_amount_mismatch arg_recipient_mismatch : Code
  expired_quote missing_expiry nonzero_value : Code

abbrev pub Result : Type 0 → Type 0
Result A = Outcome Code A

-- A decoded argument: a string, a bigint, or anything else.
pub data AbiValue (Other : Type 0) : Type 0 where
  text_value : Text → AbiValue Other
  number_value : ℤ → AbiValue Other
  other_value : Other → AbiValue Other

-- `decodeAbiParameters`, which may throw, and `encodeAbiParameters`.
pub record AbiPackage : Type 1 where
  pub Params : Type 0
  pub Other : Type 0
  pub decode : Params → Text → Option (List (AbiValue Other))
  pub encode : Params → List (AbiValue Other) → Text

pub record RialtoQuoteResult : Type 0 where
  pub target : Text
  pub call_data : Text
  pub quote_expiry : Option ℕ

pub record ApprovedSelector (Params : Type 0) : Type 0 where
  pub selector : Text
  pub signature : Text
  pub params : Params
  pub token_arg_index : Option ℕ
  pub amount_arg_index : Option ℕ
  pub recipient_arg_index : Option ℕ

pub record QuoteExecutionPolicy (Params : Type 0) : Type 0 where
  pub approved_selectors : List (ApprovedSelector Params)
  pub forbidden_selectors : Option (List Text)

unfoldable pub default_forbidden_selectors : List Text
default_forbidden_selectors = codes "0xac9650d8" ∷ codes "0x5ae401dc" ∷ codes "0x1f0464d1" ∷ []

pub record QuoteExecutionContext : Type 0 where
  pub chain_id : ℕ
  pub resolved_router : Option Text
  pub expected_buy_token : Text
  pub expected_sell_amount_raw : ℤ
  pub expected_recipient : Text
  pub now_sec : ℕ

pub record QuoteExecutionValidation (Other : Type 0) : Type 0 where
  pub selector : Text
  pub signature : Text
  pub decoded_args : List (AbiValue Other)
  pub bound_token : Option Text
  pub bound_amount : Option Text
  pub bound_recipient : Option Text

-- `lower(s) === lower(t)`
abbrev pub same_lower : Text → Text → Bool
same_lower s t = text_eq (to_lower_case s) (to_lower_case t)

unfoldable pub router_of : Option Text → Result Text
router_of none = err router_unresolved
router_of (some []) = err router_unresolved
router_of (some (c ∷ cs)) = ok (c ∷ cs)

-- `data.slice(0, n)` and `data.slice(n)`.
unfoldable pub first_units : ℕ → Text → Text
first_units _ [] = []
first_units zero (c ∷ cs) = []
first_units (suc n) (c ∷ cs) = c ∷ first_units n cs

unfoldable pub rest_units : ℕ → Text → Text
rest_units _ [] = []
rest_units zero (c ∷ cs) = c ∷ cs
rest_units (suc n) (c ∷ cs) = rest_units n cs

abbrev pub arguments_of : Text → Text
arguments_of call_data = codes "0x" ++ rest_units 10 call_data

unfoldable pub forbidden_of : Option (List Text) → List Text
forbidden_of none = map to_lower_case default_forbidden_selectors
forbidden_of (some selectors) = map to_lower_case selectors

unfoldable pub find_selector :
    {Params : Type 0} → Text → List (ApprovedSelector Params) → Result (ApprovedSelector Params)
find_selector selector [] = err unknown_selector
find_selector selector (a ∷ as_) =
    if text_eq (to_lower_case a.selector) selector then ok a else find_selector selector as_

unfoldable pub decoded_or : {A : Type 0} → Option A → Result A
decoded_or none = err decode_failed
decoded_or (some a) = ok a

-- `decoded[i]`
unfoldable pub arg_at {ℓ} : {A : Type ℓ} → List A → ℕ → Option A
arg_at [] i = none
arg_at (a ∷ as_) zero = some a
arg_at (a ∷ as_) (suc i) = arg_at as_ i

-- An argument that must be the expected text, in whatever case.
abbrev pub text_arg :
    {Other : Type 0} → Option (AbiValue Other) → Text → Code → Result (Option Text)
text_arg (some (text_value s)) expected code =
    if same_lower s expected then ok (some s) else err code
text_arg _ expected code = err code

unfoldable pub bind_text :
    {Other : Type 0} → Option ℕ → List (AbiValue Other) → Text → Code → Result (Option Text)
bind_text none decoded expected code = ok none
bind_text (some i) decoded expected code = text_arg (arg_at decoded i) expected code

abbrev pub amount_arg : {Other : Type 0} → Option (AbiValue Other) → ℤ → Result (Option Text)
amount_arg (some (number_value n)) expected =
    if n ==ℤ expected then ok (some (integer_text n)) else err arg_amount_mismatch
amount_arg _ expected = err arg_amount_mismatch

unfoldable pub bind_amount :
    {Other : Type 0} → Option ℕ → List (AbiValue Other) → ℤ → Result (Option Text)
bind_amount none decoded expected = ok none
bind_amount (some i) decoded expected = amount_arg (arg_at decoded i) expected

unfoldable pub check_expiry : Option ℕ → ℕ → Result (Unit {0})
check_expiry none now = err missing_expiry
check_expiry (some expiry) now = fail_if (leb expiry now) expired_quote

abbrev pub has_none {ℓ} : {A : Type ℓ} → List A → Bool
has_none [] = true
has_none (a ∷ as_) = false

module _ (abi : AbiPackage) where
  unfoldable pub validate_quote_execution :
      RialtoQuoteResult
      → QuoteExecutionContext
      → QuoteExecutionPolicy abi.Params
      → Result (QuoteExecutionValidation abi.Other)
  unfolding router_of find_selector decoded_or bind_text bind_amount check_expiry
  validate_quote_execution quote ctx policy = do
    fail_if (not (ctx.chain_id == 4663)) wrong_chain
    router ← router_of ctx.resolved_router
    fail_if (not (same_lower quote.target router)) router_mismatch
    fail_if (text_eq quote.call_data (codes "0x") || has_none quote.call_data) empty_calldata
    fail_if (ltb (length quote.call_data) 10) short_calldata
    let selector = to_lower_case (first_units 10 quote.call_data)
    fail_if (has (forbidden_of policy.forbidden_selectors) selector) multicall_forbidden
    fail_if (has_none policy.approved_selectors) selector_policy_missing
    approved ← find_selector selector policy.approved_selectors
    decoded ← decoded_or (abi.decode approved.params (arguments_of quote.call_data))
    fail_if (not (same_lower (arguments_of quote.call_data) (abi.encode approved.params decoded)))
        trailing_calldata
    token ← bind_text approved.token_arg_index decoded ctx.expected_buy_token arg_token_mismatch
    amount ← bind_amount approved.amount_arg_index decoded ctx.expected_sell_amount_raw
    recipient ←
        bind_text approved.recipient_arg_index decoded ctx.expected_recipient arg_recipient_mismatch
    check_expiry quote.quote_expiry ctx.now_sec
    ok (record {
      selector = selector;
      signature = approved.signature;
      decoded_args = decoded;
      bound_token = token;
      bound_amount = amount;
      bound_recipient = recipient;
    })
