-- ===== src/Rialto/Preflight/Checks.antt =====
-- The checks of `evaluateCanaryReadiness`. A `try` block is `attempt`: what a failed read leaves,
-- or the rest of the block. What it adds goes to one log of checks and flags, in order.
use bps_protocol.Prelude.{
  Bool, true, false, not, ◌&&◌, ◌||◌, Option, none, some, List, [], ◌∷◌, ◌++◌, ◌==◌, leb, ltb,
  if◌then◌else◌, ok, err, ◌>>=◌,
}
use bps_protocol.Integer.{ℤ, pos, ◌-ℤ◌, ltb_ℤ, leb_ℤ}
use bps_protocol.Text.{Text, codes, text_eq}
use bps_protocol.Pod.Address.{zero_address}
use bps_protocol.Rialto.QuoteExecution.{same_lower}
use bps_protocol.Rialto.Settlement.{official_registry, dead_address}
use bps_protocol.Rialto.Preflight.{
  feature_id, expected_feed_decimals, expected_token_decimals, router_code_hash,
  flag_controller_required, Read, ChainReader, RoundData, decimals, description, latest_round_data,
  symbol, oracle_paused, paused, owner_of, Viem, Limit, within, read_view,
}

-- An entry of the log: `add(id, ok)` or `flag(f)`.
pub data Entry : Type 0 where
  check : Text → Bool → Entry
  raised : Text → Entry

-- `try { const a = await m; ...k } catch { ...caught }`
abbrev pub attempt : {A B : Type 0} → Read A → B → (A → B) → B
attempt (ok a) caught k = k a
attempt (err e) caught k = caught

-- `!!code && code !== "0x"`
unfoldable pub has_code : Text → Bool
has_code [] = false
has_code (c ∷ cs) = not (text_eq (c ∷ cs) (codes "0x"))

unfoldable pub is_zero_or_dead : Text → Bool
is_zero_or_dead a = same_lower a zero_address || same_lower a dead_address

abbrev pub failed_check : Text → List Entry
failed_check id = check id false ∷ []

unfoldable pub code_check : ChainReader → Text → Text → List Entry
code_check reader id addr =
    attempt (reader.get_code addr) (failed_check id) (λ code. check id (has_code code) ∷ [])

-- The addresses and hashes that the reads of the router came to.
abbrev pub router_hash_check : Viem → Text → Text → List Entry × Bool
router_hash_check viem expected code =
    let matches = same_lower (viem.keccak256 code) expected in
    if has_code code
    then (check (codes "router-code-hash") matches ∷ [], matches)
    else (failed_check (codes "router-code-hash"), false)

abbrev pub expected_hash : Option Text → Text
expected_hash none = router_code_hash
expected_hash (some hash) = hash

abbrev pub router_owner_check : Viem → ChainReader → Text → Text → List Entry × Bool
router_owner_check viem reader expected router =
    let found =
      attempt (reader.get_code router) (failed_check (codes "router-owner"), false)
        (router_hash_check viem expected) in
    if is_zero_or_dead router
    then (failed_check (codes "router-owner"), false)
    else (check (codes "router-owner") true ∷ found.0, found.1)

-- The log, and `routerHashOk`.
unfoldable pub router_check : Viem → ChainReader → Option Text → List Entry × Bool
router_check viem reader expected =
    attempt (read_view viem reader official_registry (owner_of feature_id))
      (failed_check (codes "router-owner"), false)
      (router_owner_check viem reader (expected_hash expected))

unfoldable pub token_check : Viem → ChainReader → Text → Text → Text → List Entry
token_check viem reader id addr expected_symbol =
    let failed = failed_check (id ++ codes "-token") in
    attempt (reader.get_code addr) failed (λ code.
      if has_code code
      then attempt (read_view viem reader addr decimals) failed (λ dec.
        check (id ++ codes "-token-decimals") (dec == expected_token_decimals)
        ∷ attempt (read_view viem reader addr symbol) failed
            (λ sym. check (id ++ codes "-token-symbol") (text_eq sym expected_symbol) ∷ []))
      else failed)

unfoldable pub is_complete_round : RoundData → Bool
is_complete_round rd = not (rd.round_id == 0) && leb rd.round_id rd.answered_in_round

-- `ts > 0 && ts <= config.nowSec`
abbrev pub is_past : RoundData → ℤ → Bool
is_past rd now = ltb 0 rd.updated_at && leb_ℤ (pos rd.updated_at) now

unfoldable pub is_fresh_round : RoundData → ℤ → Limit → Bool
is_fresh_round rd now max_age = is_past rd now && within (now -ℤ pos rd.updated_at) max_age

unfoldable pub round_check : Text → RoundData → ℤ → Limit → Text → List Entry
round_check id rd now max_age stale_flag =
    check (id ++ codes "-feed-answer") (ltb_ℤ (pos 0) rd.answer)
    ∷ check (id ++ codes "-feed-round") (is_complete_round rd)
    ∷ check (id ++ codes "-feed-fresh") (is_fresh_round rd now max_age)
    ∷ (if not (is_fresh_round rd now max_age) && is_past rd now then raised stale_flag ∷ [] else [])

unfoldable pub feed_check : Viem → ChainReader → ℤ → Text → Text → Text → Limit → Text → List Entry
feed_check viem reader now id addr expected_description max_age stale_flag =
    let failed = failed_check (id ++ codes "-feed") in
    attempt (reader.get_code addr) failed (λ code.
      if has_code code
      then attempt (read_view viem reader addr decimals) failed (λ dec.
        check (id ++ codes "-feed-decimals") (dec == expected_feed_decimals)
        ∷ attempt (read_view viem reader addr description) failed (λ desc.
          check (id ++ codes "-feed-description") (text_eq desc expected_description)
          ∷ attempt (read_view viem reader addr latest_round_data) failed
              (λ rd. round_check id rd now max_age stale_flag)))
      else failed)

unfoldable pub stock_check : Viem → ChainReader → Text → List Entry
stock_check viem reader addr =
    attempt (read_view viem reader addr oracle_paused)
      (failed_check (codes "nvda-oracle-not-paused"))
      (λ stopped. check (codes "nvda-oracle-not-paused") (not stopped) ∷ [])

-- The two reads of code that no `try` guards: what they throw ends the evaluation.
unfoldable pub sequencer_check : ChainReader → Text → Read (List Entry)
sequencer_check reader feed =
    if same_lower feed zero_address
    then ok (check (codes "sequencer-policy") true ∷ [])
    else reader.get_code feed >>= λ code. ok (check (codes "sequencer-policy") (has_code code) ∷ [])

unfoldable pub controller_check : ChainReader → Option Text → Read (List Entry)
controller_check reader none =
    ok (check (codes "controller") false ∷ raised flag_controller_required ∷ [])
controller_check reader (some controller) =
    if is_zero_or_dead controller
    then ok (failed_check (codes "controller"))
    else reader.get_code controller >>= λ code. ok (check (codes "controller") (has_code code) ∷ [])

-- The check of the execution lock, and `executionLocked`.
abbrev pub lock_check : Bool → List Entry × Bool
lock_check locked = (check (codes "execution-locked") locked ∷ [], locked)

unfoldable pub executor_check : Viem → ChainReader → Option Text → List Entry × Bool
executor_check viem reader none = lock_check true
executor_check viem reader (some executor) =
    attempt (reader.get_code executor) (lock_check false) (λ code.
      if has_code code
      then attempt (read_view viem reader executor paused) (lock_check false) lock_check
      else lock_check true)
