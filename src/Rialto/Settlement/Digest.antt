-- ===== src/Rialto/Settlement/Digest.antt =====
-- `computeIntentDigest` and `buildIntent`. SHA-256, as a text of hex digits, is a parameter.
pub mod Injective
use bps_protocol.Prelude.{Option, none, some, List, [], ◌∷◌, ◌++◌}
use bps_protocol.Integer.Number.{JsNumber, finite, nan}
use bps_protocol.Text.{Text, codes, to_lower_case}
use bps_protocol.Pod.Numeric.{to_decimal_string, integer_text}
use bps_protocol.Rialto.Settlement.{SettlementIntent, guard_version}

-- `parts.join("|")`
unfoldable pub join_bar : List Text → Text
join_bar [] = []
join_bar (p ∷ []) = p
join_bar (p ∷ q ∷ ps) = p ++ b'|' ∷ join_bar (q ∷ ps)

-- A hash that is missing or empty is left out of the digest.
abbrev pub hash_part : Option Text → Text
hash_part none = codes "NO_CALLDATA_HASH"
hash_part (some []) = codes "NO_CALLDATA_HASH"
hash_part (some (c ∷ cs)) = to_lower_case (c ∷ cs)

-- `String(n)` of a number.
abbrev pub number_text : JsNumber → Text
number_text (finite n) = integer_text n
number_text nan = codes "NaN"

abbrev pub digest_parts : SettlementIntent → List Text
digest_parts i =
    codes "BPS-GUARDED-SETTLEMENT"
    ∷ i.version
    ∷ to_decimal_string i.chain_id
    ∷ to_lower_case i.registry
    ∷ to_decimal_string i.feature
    ∷ to_lower_case i.taker
    ∷ integer_text i.nonce
    ∷ number_text i.deadline_sec
    ∷ to_lower_case i.expected_target
    ∷ to_lower_case i.selector
    ∷ to_lower_case i.sell_token
    ∷ to_lower_case i.buy_token
    ∷ integer_text i.sell_amount_raw
    ∷ integer_text i.min_buy_amount_raw
    ∷ hash_part i.calldata_hash
    ∷ []

module _ (sha256_hex : Text → Text) where
  unfoldable pub compute_intent_digest : SettlementIntent → Text
  compute_intent_digest i = codes "0x" ++ sha256_hex (join_bar (digest_parts i))

  -- The version and the digest that the argument has are replaced.
  unfoldable pub build_intent : SettlementIntent → SettlementIntent
  build_intent i =
      let with_version = record i { version = guard_version } in
      record with_version { intent_digest = compute_intent_digest with_version }
