-- ===== src/Rialto/Preflight/Parts.antt =====
-- What each check of the preflight asks of the chain and of the configuration.
use bps_protocol.Prelude.{
  ◌≤◌, ◌≡◌, ◌↔◌, refl, Bool, true, false, not, [], ◌∷◌, ◌++◌, arith, ok, if◌then◌else◌,
}
use bps_protocol.Integer.{ℤ, pos, ◌≤ℤ◌, ◌-ℤ◌}
use bps_protocol.Text.{Text, codes, text_eq_iff}
use bps_protocol.Rialto.Preflight.{
  ChainReader, RoundData, decimals, description, latest_round_data, symbol, oracle_paused, Viem,
  Limit, whole, between, unlimited, no_limit, within, read_view,
}
use bps_protocol.Rialto.Preflight.Checks.{
  raised, attempt, has_code, failed_check, code_check, token_check, is_complete_round,
  is_fresh_round, round_check, feed_check, stock_check,
}
use bps_protocol.Rialto.Preflight.Passed.{
  IsCode, has_code_iff, IsPassed, failed_check_fails, attempt_iff, branch_iff, exact_read_iff,
  equal_iff, not-true_iff,
}

-- The read of the code at an address comes to some code.
abbrev pub HasCode : ChainReader → Text → Type 0
HasCode reader addr = (code : Text) × (reader.get_code addr ≡ ok code) × IsCode code

pub code_check_iff :
    (reader : ChainReader) (id addr : Text)
    → IsPassed (code_check reader id addr) ↔ HasCode reader addr
unfolding code_check
code_check_iff reader id addr =
    attempt_iff IsPassed IsCode (reader.get_code addr) (failed_check id) _ (failed_check_fails id)
      (λ code. (λ h. (has_code_iff code).0 h.0, λ h. ((has_code_iff code).1 h, tt)))

-- What an attempt to read code, and to go on only where there is some, comes to.
with_code_iff :
    {B Q : Type 0} (P : B → Type 0) (reader : ChainReader) (addr : Text) (failed next : B)
    → ¬ P failed
    → (P next ↔ Q)
    → P (attempt (reader.get_code addr) failed (λ code. if has_code code then next else failed))
      ↔ HasCode reader addr × Q
with_code_iff {B} {Q} P reader addr failed next bad same =
    let read =
      attempt_iff P (λ code. (has_code code ≡ true) × Q) (reader.get_code addr) failed
        (λ code. if has_code code then next else failed) bad
        (λ code. branch_iff P (has_code code) next failed bad same) in
    (
      (λ h. let (code, e, (c, q)) = read.0 h in ((code, e, (has_code_iff code).0 c), q)),
      (λ h. let ((code, e, c), q) = h in read.1 (code, e, ((has_code_iff code).1 c, q))),
    )

-- A token: code, 18 decimals and its symbol.
abbrev pub IsToken : Viem → ChainReader → Text → Text → Type 0
IsToken viem reader addr expected =
    HasCode reader addr
    × ((read_view viem reader addr decimals ≡ ok 18)
        × ((read_view viem reader addr symbol ≡ ok expected) × Unit {0}))

pub token_check_iff :
    (viem : Viem) (reader : ChainReader) (id addr expected : Text)
    → IsPassed (token_check viem reader id addr expected) ↔ IsToken viem reader addr expected
unfolding token_check
token_check_iff viem reader id addr expected =
    let bad = failed_check_fails (id ++ codes "-token") in
    with_code_iff IsPassed reader addr _ _ bad (
      exact_read_iff (read_view viem reader addr decimals) _ _ _ 18 _ bad (equal_iff 18) (
        exact_read_iff (read_view viem reader addr symbol) _ _ _ expected [] bad
          (λ a. text_eq_iff a expected) (λ h. h, λ h. h)))

abbrev pub IsWithin : ℤ → Limit → Type 0
IsWithin age (whole n) = age ≤ℤ n
IsWithin age (between n) = age ≤ℤ n
IsWithin age unlimited = Unit
IsWithin age no_limit = ⊥

within_iff : (age : ℤ) (limit : Limit) → within age limit ≡ true ↔ IsWithin age limit
within_iff age (whole n) = (λ h. ground arith, λ h. ground arith)
within_iff age (between n) = (λ h. ground arith, λ h. ground arith)
within_iff age unlimited = (λ h. tt, λ h. refl)
within_iff age no_limit = (λ h. absurd cc, λ h. absurd h)

-- A round with a positive answer, complete, not in the future, and not older than the limit.
abbrev pub IsGoodRound : RoundData → ℤ → Limit → Type 0
IsGoodRound rd now max_age =
    (pos 1 ≤ℤ rd.answer)
    × ((1 ≤ rd.round_id) × (rd.round_id ≤ rd.answered_in_round))
    × ((1 ≤ rd.updated_at) × (pos rd.updated_at ≤ℤ now))
    × IsWithin (now -ℤ pos rd.updated_at) max_age

-- A flag at the end of a log is no check.
raised_if_passes : (test : Bool) (f : Text) → IsPassed (if test then raised f ∷ [] else [])
raised_if_passes true f = tt
raised_if_passes false f = tt

pub round_check_iff :
    (id : Text) (rd : RoundData) (now : ℤ) (max_age : Limit) (f : Text)
    → IsPassed (round_check id rd now max_age f) ↔ IsGoodRound rd now max_age
unfolding round_check is_complete_round is_fresh_round
round_check_iff id rd now max_age f =
    let limit = within_iff (now -ℤ pos rd.updated_at) max_age in
    (
      (λ h.
          let (a, t) = h in
          let (b, t) = t in
          let (c, t) = t in (ground arith, ground arith, ground arith, limit.0 (ground arith))),
      (λ h.
          let (a, b, c, d) = h in
          (ground arith, (ground arith, (ground (arith, limit.1 d), raised_if_passes _ f)))),
    )

-- A price feed: code, 8 decimals, its description and a good round.
abbrev pub IsFeed : Viem → ChainReader → ℤ → Text → Text → Limit → Type 0
IsFeed viem reader now addr expected max_age =
    HasCode reader addr
    × ((read_view viem reader addr decimals ≡ ok 8)
        × ((read_view viem reader addr description ≡ ok expected)
            × ((rd : RoundData) × (read_view viem reader addr latest_round_data ≡ ok rd)
                × IsGoodRound rd now max_age)))

pub feed_check_iff :
    (viem : Viem) (reader : ChainReader) (now : ℤ) (id addr expected : Text) (max_age : Limit)
    (f : Text)
    → IsPassed (feed_check viem reader now id addr expected max_age f)
      ↔ IsFeed viem reader now addr expected max_age
unfolding feed_check
feed_check_iff viem reader now id addr expected max_age f =
    let bad = failed_check_fails (id ++ codes "-feed") in
    with_code_iff IsPassed reader addr _ _ bad (
      exact_read_iff (read_view viem reader addr decimals) _ _ _ 8 _ bad (equal_iff 8) (
        exact_read_iff (read_view viem reader addr description) _ _ _ expected _ bad
          (λ a. text_eq_iff a expected)
          (attempt_iff IsPassed (λ rd. IsGoodRound rd now max_age)
            (read_view viem reader addr latest_round_data) _ _ bad
            (λ rd. round_check_iff id rd now max_age f))))

pub stock_check_iff :
    (viem : Viem) (reader : ChainReader) (addr : Text)
    → IsPassed (stock_check viem reader addr)
      ↔ (read_view viem reader addr oracle_paused ≡ ok false) × Unit {0}
unfolding stock_check
stock_check_iff viem reader addr =
    exact_read_iff (read_view viem reader addr oracle_paused) _ _ not false []
      (failed_check_fails (codes "nvda-oracle-not-paused")) not-true_iff (λ h. h, λ h. h)
