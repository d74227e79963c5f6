-- ===== src/Rialto/PriceGuard/Floor.antt =====
-- The expected output is one floor of one exact quotient, and the band below it.
use bps_protocol.Prelude.{
  floor_le, lt_next_floor, ℕ, suc, ◌*◌, ◌/◌, ◌^◌, ◌≤◌, ◌<◌, ◌≡◌, refl, sym, ◌∙◌, arith, ok,
  >>=-eq-ok, ok-injective,
}
use native.Mathlib.Nat.{one-le-pow, mul-pos}
use bps_protocol.Integer.{ℤ, pos, negsuc, ◌*ℤ◌, ◌/ℤ◌}
use bps_protocol.Rialto.PriceGuard.{
  Number, integer, no_integer, UsdPriceObservation, AcquisitionPriceInput, PerToken, pow10,
  expected_output,
}

pub pow10-range :
    (n : Number) {scale : ℤ}
    → pow10 n ≡ ok scale
    → (k : ℕ) × (n ≡ integer (pos k)) × (k ≤ 77) × (scale ≡ pos (10 ^ k))
unfolding pow10
pow10-range no_integer h = ground arith
pow10-range (integer (negsuc k)) h = ground arith
pow10-range (integer (pos k)) h = (k, refl, ground arith, ground arith)

-- `expected` is the floor of
--   sell amount * input price * 10 ^ (output feed + bought token) * den
--   / (10 ^ (sold token + input feed) * num).
pub record IsFloor (io : AcquisitionPriceInput) (in_feed out_feed : UsdPriceObservation)
    (sell answer num den expected : ℕ) : Type 0 where
  pub out_feed_decimals : ℕ
  pub buy_decimals : ℕ
  pub sell_decimals : ℕ
  pub in_feed_decimals : ℕ
  pub out_feed_eq : out_feed.decimals ≡ integer (pos out_feed_decimals)
  pub buy_eq : io.buy_decimals ≡ integer (pos buy_decimals)
  pub sell_eq : io.sell_decimals ≡ integer (pos sell_decimals)
  pub in_feed_eq : in_feed.decimals ≡ integer (pos in_feed_decimals)
  pub floor_le :
      expected * (10 ^ sell_decimals * 10 ^ in_feed_decimals * num)
      ≤ sell * answer * 10 ^ out_feed_decimals * 10 ^ buy_decimals * den
  pub lt_next :
      sell * answer * 10 ^ out_feed_decimals * 10 ^ buy_decimals * den
      < suc expected * (10 ^ sell_decimals * 10 ^ in_feed_decimals * num)

pow-IsPositive : (k : ℕ) → 0 < 10 ^ k
pow-IsPositive k = one-le-pow k 10 (omega arith)

-- The product and the quotient of integers that are not negative.
quotient_eq :
    (s a o b d k i n : ℤ) {s' a' o' b' d' k' i' n' : ℕ}
    → s ≡ pos s'
    → a ≡ pos a'
    → o ≡ pos o'
    → b ≡ pos b'
    → d ≡ pos d'
    → k ≡ pos k'
    → i ≡ pos i'
    → n ≡ pos n'
    → s *ℤ a *ℤ o *ℤ b *ℤ d /ℤ (k *ℤ i *ℤ n) ≡ pos (s' * a' * o' * b' * d' / (k' * i' * n'))
quotient_eq s a o b d k i n es ea eo eb ed ek ei en = rw (es, ea, eo, eb, ed, ek, ei, en)

pub expected_output-IsFloor :
    (io : AcquisitionPriceInput) (in_feed out_feed : UsdPriceObservation) (price : PerToken)
    (sell answer num den : ℕ) {expected : ℤ}
    → io.sell_amount_raw ≡ pos sell
    → in_feed.answer ≡ pos answer
    → price.num ≡ pos num
    → price.den ≡ pos den
    → 0 < num
    → expected_output io in_feed out_feed price ≡ ok expected
    → (e : ℕ) × (expected ≡ pos e) × IsFloor io in_feed out_feed sell answer num den e
unfolding expected_output
expected_output-IsFloor io in_feed out_feed price sell answer num den sell_is answer_is num_is
      den_is positive h =
    let (o, c1, h1) = >>=-eq-ok (pow10 out_feed.decimals) _ h in
    let (b, c2, h2) = >>=-eq-ok (pow10 io.buy_decimals) _ h1 in
    let (s, c3, h3) = >>=-eq-ok (pow10 io.sell_decimals) _ h2 in
    let (i, c4, h4) = >>=-eq-ok (pow10 in_feed.decimals) _ h3 in
    let (ok_, oe, _, ox) = pow10-range out_feed.decimals c1 in
    let (bk, be, _, bx) = pow10-range io.buy_decimals c2 in
    let (sk, se, _, sx) = pow10-range io.sell_decimals c3 in
    let (ik, ie, _, ix) = pow10-range in_feed.decimals c4 in
    (
      sell * answer * 10 ^ ok_ * 10 ^ bk * den / (10 ^ sk * 10 ^ ik * num),
      sym (ok-injective h4)
          ∙ quotient_eq _ _ _ _ _ _ _ _ sell_is answer_is ox bx den_is sx ix num_is,
      record {
        out_feed_decimals = ok_;
        buy_decimals = bk;
        sell_decimals = sk;
        in_feed_decimals = ik;
        out_feed_eq = oe;
        buy_eq = be;
        sell_eq = se;
        in_feed_eq = ie;
        floor_le = floor_le _ _;
        lt_next =
            lt_next_floor _ _ (mul-pos (mul-pos (pow-IsPositive sk) (pow-IsPositive ik)) positive);
      },
    )
