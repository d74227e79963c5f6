-- ===== src/Rialto/Settlement/Evaluation/Priced.antt =====
-- What the price guard ensures, in products instead of quotients.
use bps_protocol.Prelude.{floor_le, ℕ, ◌+◌, ◌*◌, ◌/◌, ◌≤◌, ◌≡◌, subst, true, Option, some, arith}
use native.Mathlib.Nat.{mul-le-mul_left}
use bps_protocol.Integer.{ℤ, pos, negsuc, ◌≤ℤ◌, ◌*ℤ◌, ◌/ℤ◌, ◌+ℤ◌, size}
use bps_protocol.Integer.Number.{JsNumber}
use bps_protocol.Text.{Text}
use bps_protocol.Rialto.Settlement.{PriceObservation}
use bps_protocol.Rialto.Settlement.Guards.{permitted_max}
use bps_protocol.Rialto.Settlement.Evaluation.{GuardedSettlementInput, evaluate_guarded_settlement}
use bps_protocol.Rialto.Settlement.Evaluation.Ready.{evaluate_guarded_settlement_iff}

-- Two floors, undone: the bound times the divisors.
floors : (m n r d : ℕ) → m ≤ n / r * d / 10000 → m * 10000 * r ≤ n * d
floors m n r d h =
    let outer = floor_le (n / r * d) 10000 in
    let inner = floor_le n r in
    let below : m * 10000 ≤ n / r * d = omega arith in
    let a : m * 10000 * r ≤ n / r * d * r =
      let p : r * (m * 10000) ≤ r * (n / r * d) = mul-le-mul_left r below in omega arith in
    let b : n / r * r * d ≤ n * d =
      let p : d * (n / r * r) ≤ d * n = mul-le-mul_left d inner in omega arith in
    omega arith

raised : (dev : ℤ) (d : ℕ) → dev ≡ pos d → pos 10000 +ℤ dev ≡ pos (10000 + d)
raised dev d h = rw h (ground arith)

floors_ℤ :
    (m b s r dev : ℤ) (d : ℕ)
    → dev ≡ pos d
    → pos 1 ≤ℤ m
    → pos 1 ≤ℤ b
    → pos 1 ≤ℤ s
    → pos 1 ≤ℤ r
    → m ≤ℤ b *ℤ s /ℤ r *ℤ (pos 10000 +ℤ dev) /ℤ pos 10000
    → size m * 10000 * size r ≤ size b * size s * (10000 + d)
floors_ℤ (pos m) (pos b) (pos s) (pos r) dev d limit hm hb hs hr h =
    floors m (b * s) r (10000 + d) (
      let k =
        subst (λ e. pos m ≤ℤ pos b *ℤ pos s /ℤ pos r *ℤ e /ℤ pos 10000) (raised dev d limit) h in
      omega arith)
floors_ℤ (negsuc m) b s r dev d limit hm hb hs hr h = absurd (omega arith)
floors_ℤ (pos m) (negsuc b) s r dev d limit hm hb hs hr h = absurd (omega arith)
floors_ℤ (pos m) (pos b) (negsuc s) r dev d limit hm hb hs hr h = absurd (omega arith)
floors_ℤ (pos m) (pos b) (pos s) (negsuc r) dev d limit hm hb hs hr h = absurd (omega arith)

module _ (sha256_hex : Text → Text) (date_seconds : Text → Option JsNumber) where
  -- The minimum return of a ready intent exceeds the return at the observed reference price by at
  -- most the policy's deviation, when that is not negative: as products, no rounding lets it more.
  -- The four amounts are positive.
  pub evaluate_guarded_settlement-priced :
      (input : GuardedSettlementInput) (d : ℕ)
      → input.policy.max_price_deviation_bps ≡ pos d
      → (evaluate_guarded_settlement sha256_hex date_seconds input).ready ≡ true
      → (price : PriceObservation) × (input.price_observation ≡ some price)
        × (pos 1 ≤ℤ input.intent.min_buy_amount_raw)
        × (pos 1 ≤ℤ input.intent.sell_amount_raw)
        × (pos 1 ≤ℤ price.ref_sell_amount_raw)
        × (pos 1 ≤ℤ price.ref_buy_amount_raw)
        × (size input.intent.min_buy_amount_raw * 10000 * size price.ref_sell_amount_raw
            ≤ size price.ref_buy_amount_raw * size input.intent.sell_amount_raw * (10000 + d))
  unfolding permitted_max
  evaluate_guarded_settlement-priced input d limit h =
      let r = (evaluate_guarded_settlement_iff sha256_hex date_seconds input).0 h in
      let (price, quoted, q) = r.priced in
      let (sold, bought) = r.amount.1 in
      let (ref_sell, ref_buy) = q.positive in
      let below = q.bounded in
      (
        price,
        quoted,
        bought,
        sold,
        ref_sell,
        ref_buy,
        floors_ℤ input.intent.min_buy_amount_raw price.ref_buy_amount_raw
            input.intent.sell_amount_raw price.ref_sell_amount_raw
            input.policy.max_price_deviation_bps d limit bought ref_buy sold ref_sell below,
      )
