-- ===== src/Rialto/Preflight.antt =====
-- canary-preflight.ts: is the canary build ready while execution stays locked?
-- The encoding of calls, the decoding of what they return and `keccak256` are viem's, and the
-- chain is read through an injected reader: both are parameters. The texts that explain a check are
-- left out. Times are whole seconds; `Number(updatedAt)` is taken to be exact.
pub mod Checks
pub mod Evaluation
pub mod Passed
pub mod Parts
pub mod Router
pub mod Chain
pub mod Ready
pub mod Thrown
pub mod Raised
pub mod Honest
use bps_protocol.Prelude.{ℕ, Bool, true, false, Option, Outcome, ◌>>=◌}
use bps_protocol.Integer.{ℤ, pos, ltb_ℤ, leb_ℤ}
use bps_protocol.Prelude.{◌&&◌}
use bps_protocol.Text.{Text, codes}

abbrev pub robinhood_chain_id : ℕ
robinhood_chain_id = 4663

abbrev pub feature_id : ℕ
feature_id = 2

abbrev pub eth_usd_feed : Text
eth_usd_feed = codes "0x78F3556b67E17Df817D51Ef5a990cDaF09E8d3A9"

abbrev pub nvda_usd_feed : Text
nvda_usd_feed = codes "0x379EC4f7C378F34a1B47E4F3cbeBCbAC3E8E9F15"

abbrev pub eth_usd_feed_description : Text
eth_usd_feed_description = codes "ETH / USD"

abbrev pub nvda_usd_feed_description : Text
nvda_usd_feed_description = codes "RHNVDA / USD"

abbrev pub expected_feed_decimals : ℕ
expected_feed_decimals = 8

abbrev pub expected_token_decimals : ℕ
expected_token_decimals = 18

abbrev pub weth_symbol : Text
weth_symbol = codes "WETH"

abbrev pub nvda_symbol : Text
nvda_symbol = codes "NVDA"

abbrev pub router_code_hash : Text
router_code_hash = codes "0xa7041268d6f20802f420b5c71e84a991dc797f27cb474265598b89e43ef27611"

abbrev pub expected_settlement_selector : Text
expected_settlement_selector = codes "0x77963966"

abbrev pub canary_max_sell_weth : ℤ
canary_max_sell_weth = pos 1000000000000000

abbrev pub max_feed_age_ceiling_sec : ℤ
max_feed_age_ceiling_sec = pos 900

abbrev pub flag_controller_required : Text
flag_controller_required = codes "CONTROLLER_REQUIRED"

abbrev pub flag_nvda_stale_market_closed : Text
flag_nvda_stale_market_closed = codes "NVDA_FEED_STALE_MARKET_CLOSED"

abbrev pub flag_eth_feed_stale : Text
flag_eth_feed_stale = codes "ETH_USD_FEED_STALE"

-- What a read throws. Its text only enters the explanation of a check.
pub data ReadError : Type 0 where
  read_failed : ReadError

abbrev pub Read : Type 0 → Type 0
Read A = Outcome ReadError A

-- `ChainReader`: the chain as the calls of one run find it.
pub record ChainReader : Type 0 where
  pub get_chain_id : Read ℕ
  pub get_code : Text → Read Text
  pub call : Text → Text → Read Text

-- What `latestRoundData` returns.
pub record RoundData : Type 0 where
  pub round_id : ℕ
  pub answer : ℤ
  pub started_at : ℕ
  pub updated_at : ℕ
  pub answered_in_round : ℕ

-- The view functions of the ABIs, with their arguments.
pub data View : Type 0 where
  decimals description latest_round_data symbol oracle_paused paused : View
  owner_of : ℕ → View

-- The outputs that the ABIs declare.
abbrev pub Returned : View → Type 0
Returned decimals = ℕ
Returned description = Text
Returned latest_round_data = RoundData
Returned symbol = Text
Returned oracle_paused = Bool
Returned paused = Bool
Returned (owner_of feature) = Text

-- What the code uses of viem, for these ABIs.
pub record Viem : Type 0 where
  pub encode_function_data : View → Text
  pub decode_function_result : (view : View) → Text → Read (Returned view)
  pub keccak256 : Text → Text

-- A JavaScript number as a limit of whole seconds: a whole number, one between two whole numbers
-- with the lower of them, `Infinity`, and `NaN` or `-Infinity`, which nothing is below.
pub data Limit : Type 0 where
  whole : ℤ → Limit
  between : ℤ → Limit
  unlimited no_limit : Limit

-- `age <= limit`
abbrev pub within : ℤ → Limit → Bool
within age (whole n) = leb_ℤ age n
within age (between n) = leb_ℤ age n
within age unlimited = true
within age no_limit = false

unfoldable pub age_ok : Limit → Bool
age_ok (whole n) = ltb_ℤ (pos 0) n && leb_ℤ n max_feed_age_ceiling_sec
age_ok (between n) = false
age_ok unlimited = false
age_ok no_limit = false

pub record CanaryPreflightConfig : Type 0 where
  pub controller : Option Text
  pub executor : Option Text
  pub sequencer_feed : Text
  pub max_weth_feed_age_sec : Limit
  pub max_nvda_feed_age_sec : Limit
  pub canary_cap_wei : ℤ
  pub now_sec : ℤ
  pub qex1_consumed : Bool
  pub expected_router_code_hash : Option Text

pub record CheckResult : Type 0 where
  pub id : Text
  pub is_ok : Bool

-- `readView`
unfoldable pub read_view : Viem → ChainReader → Text → (view : View) → Read (Returned view)
read_view viem reader to view =
    reader.call to (viem.encode_function_data view) >>= λ ret. viem.decode_function_result view ret
