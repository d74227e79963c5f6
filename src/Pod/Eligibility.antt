-- ===== src/Pod/Eligibility.antt =====
-- eligibility.ts: which wallets may receive an allocation, and the totals over them.
pub mod Admission
pub mod Arrival
use bps_protocol.Prelude.{
  ℕ, ◌+◌, ◌≡◌, Bool, true, false, not, ◌&&◌, Option, none, some, List, [], ◌∷◌, map, arith, ltb,
  leb, if◌then◌else◌,
}
use bps_protocol.Text.{Text, text_eq, text_lt}
use bps_protocol.Order.{sort_by}
use bps_protocol.Dict.{Dict, get, has, add}
use bps_protocol.Pod.Model.{CycleConfig, EligibilityRecord, ExcludedAddress}
use bps_protocol.Pod.Weights.{WalletWeight}

pub record EligibilityResolution : Type 0 where
  pub eligible_wallets : List Text
  pub excluded : List Text
  pub reference_timestamp : ℕ
  pub total_eligible_snapshot_balance : ℕ
  pub total_base_twab : ℕ
  pub total_effective_weight : ℕ

-- `new Set(xs)`
unfoldable pub set_of : List Text → List Text → List Text
set_of s [] = s
set_of s (x ∷ xs) = set_of (add s x) xs

unfoldable pub is_expired : EligibilityRecord → ℕ → Bool
is_expired r reference = elim r.expiry [ none ↦ false | some expiry ↦ leb expiry reference ]

-- The body of the loop: whether the wallet of `r` is pushed.
unfoldable pub is_admitted : CycleConfig → List Text → ℕ → EligibilityRecord → Bool
unfolding is_expired
is_admitted cycle excluded reference r =
    if not r.eligible
    then false
    else if r.revoked
    then false
    else if not (text_eq r.policy_version cycle.eligibility_policy_version)
    then false
    else if ltb reference r.valid_from
    then false
    else if is_expired r reference
    then false
    else if has excluded r.wallet
    then false
    else true

unfoldable pub admitted : CycleConfig → List Text → ℕ → List EligibilityRecord → List Text
admitted cycle excluded reference [] = []
admitted cycle excluded reference (r ∷ rs) =
    let rest = admitted cycle excluded reference rs in
    if is_admitted cycle excluded reference r then r.wallet ∷ rest else rest

-- `(weights.get(w) ?? ZERO_WEIGHT).field`
abbrev pub weight_field : (WalletWeight → ℕ) → Dict WalletWeight → Text → ℕ
weight_field field weights w = elim (get weights w) [ none ↦ 0 | some x ↦ field x ]

unfoldable pub add_up : (WalletWeight → ℕ) → Dict WalletWeight → ℕ → List Text → ℕ
add_up field weights total [] = total
add_up field weights total (w ∷ ws) = add_up field weights (total + weight_field field weights w) ws

unfoldable pub resolve_eligibility :
    CycleConfig
    → List ExcludedAddress
    → List EligibilityRecord
    → Dict WalletWeight
    → EligibilityResolution
unfolding set_of admitted add_up
resolve_eligibility cycle excluded_addresses eligibility weights =
    let excluded = set_of [] (map (λ e. e.address) excluded_addresses) in
    let reference = cycle.epoch_end in
    let wallets = sort_by text_lt (admitted cycle excluded reference eligibility) in
    record {
      eligible_wallets = wallets;
      excluded = excluded;
      reference_timestamp = reference;
      total_eligible_snapshot_balance = add_up (λ x. x.snapshot_balance) weights 0 wallets;
      total_base_twab = add_up (λ x. x.base_twab) weights 0 wallets;
      total_effective_weight = add_up (λ x. x.effective_weight) weights 0 wallets;
    }
