-- ===== src/Rialto/Settlement/Evaluation/Quoted.antt =====
-- When the guards on the price and on replay add nothing.
use bps_protocol.Prelude.{
  ◌≡◌, ◌↔◌, refl, ap, Bool, true, false, not, ◌&&◌, Option, none, some, List, [], ◌∷◌, map, arith,
  if◌then◌else◌, subst,
}
use bps_protocol.Integer.{pos, ◌≤ℤ◌, ltb_ℤ}
use bps_protocol.Integer.Number.{JsNumber}
use bps_protocol.Text.{Text, to_lower_case}
use bps_protocol.Dict.{has}
use bps_protocol.Pod.Address.{is_hex_address}
use bps_protocol.Rialto.Registry.Reconciled.{IsListed, has-map_iff}
use bps_protocol.Rialto.QuoteExecution.{same_lower}
use bps_protocol.Rialto.Settlement.{
  GuardStatus, price_source_unresolved, price_pair_mismatch, price_observation_stale,
  price_deviation_exceeded, SettlementPolicy, SettlementIntent, PriceObservation,
}
use bps_protocol.Rialto.Settlement.Digest.{compute_intent_digest}
use bps_protocol.Rialto.Settlement.Store.{ReplayStore}
use bps_protocol.Rialto.Settlement.Guards.{
  add_if, is_fresh, is_some, is_empty, price_sources_resolved, permitted_max,
  observed_price_failures, price_failures, replay_tests, replay_failures,
}
use bps_protocol.Rialto.Settlement.Evaluation.Passed.{
  IsSameLower, add_if_nil, either_nil, failing_nil, same_lower_iff, not-false_iff,
}
use bps_protocol.Rialto.Settlement.Evaluation.Observed.{IsFresh, IsFresh-iff}

-- The price is of a listed source and of the intent's pair, its amounts are positive, it is fresh,
-- and the intent's minimum return is at most what it permits.
pub record IsPriced (p : SettlementPolicy) (i : SettlementIntent) (price : PriceObservation)
    (now : JsNumber) : Type 0 where
  pub source : IsListed p.allowed_price_sources price.source
  pub pair : IsSameLower price.sell_token i.sell_token × IsSameLower price.buy_token i.buy_token
  pub positive : (pos 1 ≤ℤ price.ref_sell_amount_raw) × (pos 1 ≤ℤ price.ref_buy_amount_raw)
  pub fresh : IsFresh price.observed_time_sec p.max_price_observation_age_sec now
  pub bounded : i.min_buy_amount_raw ≤ℤ permitted_max p i price

pair_iff :
    (a b c d : Text)
    → not (same_lower a b && same_lower c d) ≡ false ↔ IsSameLower a b × IsSameLower c d
pair_iff a b c d =
    let x = same_lower_iff a b in
    let y = same_lower_iff c d in
    (λ h. (x.0 (ground arith), y.0 (ground arith)), λ h. ground (arith, x.1 h.0, y.1 h.1))

-- A row of guards of which the first that fails ends the row.
row_iff :
    (a b c d e : Bool) (s t u v w : GuardStatus)
    → (if a
          then s ∷ []
          else if b
          then t ∷ []
          else if c
          then u ∷ []
          else if d
          then v ∷ []
          else add_if e w)
        ≡ []
      ↔ (a ≡ false) × (b ≡ false) × (c ≡ false) × (d ≡ false) × (e ≡ false)
row_iff a b c d e s t u v w =
    let fifth = add_if_nil e w in
    let fourth = either_nil d v (add_if e w) in
    let third = either_nil c u (if d then v ∷ [] else add_if e w) in
    let second = either_nil b t (if c then u ∷ [] else if d then v ∷ [] else add_if e w) in
    let first =
      either_nil a s
        (if b then t ∷ [] else if c then u ∷ [] else if d then v ∷ [] else add_if e w) in
    (
      (λ h.
          let (p, h) = first.0 h in
          let (q, h) = second.0 h in
          let (r, h) = third.0 h in let (x, h) = fourth.0 h in (p, q, r, x, fifth.0 h)),
      (λ h.
          let (p, q, r, x, y) = h in
          first.1 (p, second.1 (q, third.1 (r, fourth.1 (x, fifth.1 y))))),
    )

observed_price_failures_iff :
    (p : SettlementPolicy) (i : SettlementIntent) (price : PriceObservation) (now : JsNumber)
    → observed_price_failures p i price now ≡ [] ↔ IsPriced p i price now
unfolding observed_price_failures
observed_price_failures_iff p i price now =
    let listed = has-map_iff p.allowed_price_sources price.source in
    let pair = pair_iff price.sell_token i.sell_token price.buy_token i.buy_token in
    let fresh = IsFresh-iff price.observed_time_sec p.max_price_observation_age_sec now in
    let known =
      not-false_iff
        (has (map to_lower_case p.allowed_price_sources) (to_lower_case price.source)) in
    let timed =
      not-false_iff (is_fresh price.observed_time_sec p.max_price_observation_age_sec now) in
    let row =
      row_iff _ _ _ _ (ltb_ℤ (permitted_max p i price) i.min_buy_amount_raw) price_source_unresolved
        price_pair_mismatch price_source_unresolved price_observation_stale
        price_deviation_exceeded in
    (
      (λ h.
          let (a, b, c, d, e) = row.0 h in
          record {
            source = listed.0 (known.0 a);
            pair = pair.0 b;
            positive = ground arith;
            fresh = fresh.0 (timed.0 d);
            bounded = ground arith;
          }),
      (λ h. row.1 (
        known.1 (listed.1 h.source),
        pair.1 h.pair,
        ground (arith, h.positive),
        timed.1 (fresh.1 h.fresh),
        ground (arith, h.bounded),
      )),
    )

pub listed_is_empty : (ts : List Text) (t : Text) → IsListed ts t → is_empty ts ≡ false
listed_is_empty [] t h = absurd h
listed_is_empty (s ∷ ts) t h = refl

pub price_sources_resolved_of :
    (p : SettlementPolicy) (i : SettlementIntent) (price : PriceObservation) (now : JsNumber)
    → IsPriced p i price now
    → price_sources_resolved p ≡ true
price_sources_resolved_of p i price now h =
    let (t, age, seen, limit, young, past) = h.fresh in
    ground (arith, listed_is_empty p.allowed_price_sources price.source h.source, ap is_some limit)

pub price_failures_iff :
    (p : SettlementPolicy) (i : SettlementIntent) (observed : Option PriceObservation)
    (now : JsNumber)
    → price_failures p i observed now ≡ []
      ↔ (price : PriceObservation) × (observed ≡ some price) × IsPriced p i price now
unfolding price_failures
price_failures_iff p i none now = (λ h. absurd cc, λ h. absurd (let e = h.1 in cc))
price_failures_iff p i (some price) now =
    let known = observed_price_failures_iff p i price now in
    let resolved = not-false_iff (price_sources_resolved p) in
    let passed =
      either_nil (not (price_sources_resolved p)) price_source_unresolved
        (observed_price_failures p i price now) in
    (
      (λ h. let (a, b) = passed.0 h in (price, refl, known.0 b)),
      (λ h.
          let (q, e, k) = h in
          let same : q ≡ price = cc in
          let k = subst (λ r. IsPriced p i r now) same k in
          passed.1 (resolved.1 (price_sources_resolved_of p i price now k), known.1 k)),
    )

-- The digest is that of the intent's fields, and neither it nor the taker's nonce is used up.
pub record IsUnused (sha256_hex : Text → Text) (i : SettlementIntent) (store : ReplayStore)
    : Type 0 where
  pub digest : IsSameLower (compute_intent_digest sha256_hex i) i.intent_digest
  pub not_consumed : store.is_digest_consumed i.intent_digest ≡ false
  pub nonce : (is_hex_address i.taker && store.is_nonce_used i.taker i.nonce) ≡ false

pub replay_failures_iff :
    (sha256_hex : Text → Text) (i : SettlementIntent) (store : ReplayStore)
    → replay_failures sha256_hex i store ≡ [] ↔ IsUnused sha256_hex i store
unfolding replay_failures
replay_failures_iff sha256_hex i store =
    let same = same_lower_iff (compute_intent_digest sha256_hex i) i.intent_digest in
    let passed = failing_nil (replay_tests sha256_hex i store) in
    (
      (λ h.
          let (a, t) = passed.0 h in
          let (b, t) = t in record { digest = same.0 a; not_consumed = b; nonce = t.0 }),
      (λ h. passed.1 (same.1 h.digest, (h.not_consumed, (h.nonce, tt)))),
    )
