-- ===== src/Rialto/Settlement/Digest/Injective.antt =====
-- What the digest binds: the text that is hashed is the same exactly for the same fields.
use bps_protocol.Prelude.{
  ℕ, suc, ◌≡◌, ◌↔◌, refl, sym, subst, ap, true, List, [], ◌∷◌, arith, every, length,
}
use bps_protocol.Integer.{ℤ, pos, negsuc}
use bps_protocol.Integer.Number.{JsNumber, finite, nan}
use bps_protocol.Text.{Text, codes, to_lower_case}
use bps_protocol.Text.Separator.{IsFree, every-IsFree, split_unit}
use bps_protocol.Pod.Numeric.{is_digit, integer_text}
use bps_protocol.Pod.Numeric.Decimal.{
  to_decimal_string-injective, to_decimal_string_digits, decimal-IsFree, integer_text-injective,
}
use bps_protocol.Rialto.Settlement.{SettlementIntent}
use bps_protocol.Rialto.Settlement.Digest.{join_bar, hash_part, number_text, digest_parts}

-- No unit is the separator.
abbrev pub IsPlain : Text → Type 0
IsPlain t = IsFree b'|' t

-- The separator is in none but the last.
abbrev pub ArePlain : List Text → Type 0
ArePlain [] = Unit
ArePlain (p ∷ []) = Unit
ArePlain (p ∷ q ∷ ps) = IsPlain p × ArePlain (q ∷ ps)

join_bar-injective :
    (ps qs : List Text)
    → length ps ≡ length qs
    → ArePlain ps
    → ArePlain qs
    → join_bar ps ≡ join_bar qs
    → ps ≡ qs
unfolding join_bar
join_bar-injective [] [] l hp hq e = refl
join_bar-injective [] (q ∷ qs) l hp hq e = absurd (omega arith)
join_bar-injective (p ∷ ps) [] l hp hq e = absurd (omega arith)
join_bar-injective (p ∷ []) (q ∷ []) l hp hq e = ap (λ t. t ∷ []) e
join_bar-injective (p ∷ []) (q ∷ r ∷ qs) l hp hq e = absurd (omega arith)
join_bar-injective (p ∷ r ∷ ps) (q ∷ []) l hp hq e = absurd (omega arith)
join_bar-injective (p ∷ r ∷ ps) (q ∷ s ∷ qs) l hp hq e =
    let (same, rest) = split_unit b'|' p q (join_bar (r ∷ ps)) (join_bar (s ∷ qs)) hp.0 hq.0 e in
    let tail = join_bar-injective (r ∷ ps) (s ∷ qs) (omega arith) hp.1 hq.1 rest in cc (same, tail)

integer-IsPlain : (a : ℤ) → IsPlain (integer_text a)
unfolding integer_text
integer-IsPlain (pos n) = decimal-IsFree n
integer-IsPlain (negsuc n) = ((λ e. absurd (omega arith)), decimal-IsFree (suc n))

number-IsPlain : (a : JsNumber) → IsPlain (number_text a)
number-IsPlain (finite n) = integer-IsPlain n
number-IsPlain nan = every-IsFree b'|' (codes "NaN") refl

-- Only digits and a sign stand in the text of an integer.
starts_lower : (a : ℤ) → ¬ (integer_text a ≡ codes "NaN")
unfolding integer_text
starts_lower (pos n) h =
    let digits = to_decimal_string_digits n in
    let all : every is_digit (codes "NaN") ≡ true = subst (λ t. every is_digit t ≡ true) h digits in
    cc
starts_lower (negsuc n) h = let head : ◌≡◌ {A = ℕ} b'-' b'N' = cc in omega (arith, head)

number_text-injective : (a b : JsNumber) → number_text a ≡ number_text b → a ≡ b
number_text-injective (finite m) (finite n) h = ap finite (integer_text-injective m n h)
number_text-injective (finite m) nan h = absurd (starts_lower m h)
number_text-injective nan (finite n) h = absurd (starts_lower n (sym h))
number_text-injective nan nan h = refl

lower-IsPlain : (t : Text) → IsPlain t → IsPlain (to_lower_case t)
unfolding to_lower_case
lower-IsPlain [] h = tt
lower-IsPlain (c ∷ t) h = ((λ e. absurd (h.0 (ground arith))), lower-IsPlain t h.1)

-- The texts of the intent that stand before the last part are free of the separator, as every
-- address and selector is.
pub record IsPlainIntent (i : SettlementIntent) : Type 0 where
  pub version : IsPlain i.version
  pub registry : IsPlain i.registry
  pub taker : IsPlain i.taker
  pub expected_target : IsPlain i.expected_target
  pub selector : IsPlain i.selector
  pub sell_token : IsPlain i.sell_token
  pub buy_token : IsPlain i.buy_token

-- The fields that two intents share, addresses and selector up to their case.
pub record HasSameFields (i j : SettlementIntent) : Type 0 where
  pub version : i.version ≡ j.version
  pub chain_id : i.chain_id ≡ j.chain_id
  pub registry : to_lower_case i.registry ≡ to_lower_case j.registry
  pub feature : i.feature ≡ j.feature
  pub taker : to_lower_case i.taker ≡ to_lower_case j.taker
  pub nonce : i.nonce ≡ j.nonce
  pub deadline_sec : i.deadline_sec ≡ j.deadline_sec
  pub expected_target : to_lower_case i.expected_target ≡ to_lower_case j.expected_target
  pub selector : to_lower_case i.selector ≡ to_lower_case j.selector
  pub sell_token : to_lower_case i.sell_token ≡ to_lower_case j.sell_token
  pub buy_token : to_lower_case i.buy_token ≡ to_lower_case j.buy_token
  pub sell_amount_raw : i.sell_amount_raw ≡ j.sell_amount_raw
  pub min_buy_amount_raw : i.min_buy_amount_raw ≡ j.min_buy_amount_raw
  pub calldata_hash : hash_part i.calldata_hash ≡ hash_part j.calldata_hash

parts_plain : (i : SettlementIntent) → IsPlainIntent i → ArePlain (digest_parts i)
parts_plain i h = (
  every-IsFree b'|' (codes "BPS-GUARDED-SETTLEMENT") refl,
  (
    h.version,
    (
      decimal-IsFree i.chain_id,
      (
        lower-IsPlain i.registry h.registry,
        (
          decimal-IsFree i.feature,
          (
            lower-IsPlain i.taker h.taker,
            (
              integer-IsPlain i.nonce,
              (
                number-IsPlain i.deadline_sec,
                (
                  lower-IsPlain i.expected_target h.expected_target,
                  (
                    lower-IsPlain i.selector h.selector,
                    (
                      lower-IsPlain i.sell_token h.sell_token,
                      (
                        lower-IsPlain i.buy_token h.buy_token,
                        (
                          integer-IsPlain i.sell_amount_raw,
                          (integer-IsPlain i.min_buy_amount_raw, tt),
                        ),
                      ),
                    ),
                  ),
                ),
              ),
            ),
          ),
        ),
      ),
    ),
  ),
)

same_parts : (i j : SettlementIntent) → digest_parts i ≡ digest_parts j → HasSameFields i j
same_parts i j e = record {
  version = cc;
  chain_id = to_decimal_string-injective i.chain_id j.chain_id cc;
  registry = cc;
  feature = to_decimal_string-injective i.feature j.feature cc;
  taker = cc;
  nonce = integer_text-injective i.nonce j.nonce cc;
  deadline_sec = number_text-injective i.deadline_sec j.deadline_sec cc;
  expected_target = cc;
  selector = cc;
  sell_token = cc;
  buy_token = cc;
  sell_amount_raw = integer_text-injective i.sell_amount_raw j.sell_amount_raw cc;
  min_buy_amount_raw = integer_text-injective i.min_buy_amount_raw j.min_buy_amount_raw cc;
  calldata_hash = cc;
}

pub same_fields : (i j : SettlementIntent) → HasSameFields i j → digest_parts i ≡ digest_parts j
same_fields i j h = cc (
  h.version, h.chain_id, h.registry, h.feature, h.taker, h.nonce, h.deadline_sec, h.expected_target,
  h.selector, h.sell_token, h.buy_token, h.sell_amount_raw, h.min_buy_amount_raw, h.calldata_hash,
)

-- For intents whose texts are free of the separator, the text that is hashed is the same exactly
-- when the fifteen parts are: the version, chain, registry, feature, taker, nonce, deadline, target,
-- selector, tokens, amounts and hash of the calldata. No other field of the intent is bound: not its
-- value, fees, slippage or creation time.
pub join_bar-digest_parts_iff :
    (i j : SettlementIntent)
    → IsPlainIntent i
    → IsPlainIntent j
    → join_bar (digest_parts i) ≡ join_bar (digest_parts j) ↔ HasSameFields i j
join_bar-digest_parts_iff i j hi hj = (
  (λ e. same_parts i j (
      join_bar-injective (digest_parts i) (digest_parts j) refl (parts_plain i hi)
        (parts_plain j hj) e)),
  (λ h. ap join_bar (same_fields i j h)),
)
