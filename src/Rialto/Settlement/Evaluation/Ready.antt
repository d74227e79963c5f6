-- ===== src/Rialto/Settlement/Evaluation/Ready.antt =====
-- When an intent is ready: exactly when every guard holds.
use bps_protocol.Prelude.{◌≡◌, ◌↔◌, refl, true, Option, some, List, [], ◌∷◌}
use bps_protocol.Integer.Number.{JsNumber}
use bps_protocol.Text.{Text}
use bps_protocol.Rialto.Registry.{RegistryFeatureObservation}
use bps_protocol.Rialto.Settlement.{GuardStatus, PriceObservation}
use bps_protocol.Rialto.Settlement.Evaluation.{
  GuardedSettlementInput, has_no_failure, all_failures, evaluate_guarded_settlement,
}
use bps_protocol.Rialto.Settlement.Evaluation.Passed.{
  none_added, IsSanePolicy, policy_failures_iff, IsIdentified, identity_failures_iff,
  IsAllowedAmount, amount_failures_iff, IsAllowedCall, call_failures_iff,
}
use bps_protocol.Rialto.Settlement.Evaluation.Observed.{
  IsTaker, taker_failures_iff, IsTimely, expiry_failures_iff, IsObserved, registry_failures_iff,
}
use bps_protocol.Rialto.Settlement.Evaluation.Quoted.{
  IsPriced, price_failures_iff, IsUnused, replay_failures_iff,
}

module _ (sha256_hex : Text → Text) (date_seconds : Text → Option JsNumber) where
  -- Every guard holds.
  pub record IsReady (input : GuardedSettlementInput) : Type 0 where
    pub policy : IsSanePolicy input.policy
    pub identity : IsIdentified input.policy input.intent
    pub amount : IsAllowedAmount input.policy input.intent
    pub call : IsAllowedCall input.policy input.intent
    pub taker : IsTaker input.policy.final_taker input.intent.taker
    pub observed :
        (obs : RegistryFeatureObservation) × (input.registry_observation ≡ some obs)
        × IsObserved date_seconds input.policy input.intent obs input.now_sec
    pub priced :
        (price : PriceObservation) × (input.price_observation ≡ some price)
        × IsPriced input.policy input.intent price input.now_sec
    pub timely : IsTimely input.policy input.intent input.now_sec
    pub unused : IsUnused sha256_hex input.intent input.replay_store

  pub all_failures_iff :
      (input : GuardedSettlementInput)
      → all_failures sha256_hex date_seconds input ≡ [] ↔ IsReady input
  unfolding all_failures
  all_failures_iff input =
      let p = input.policy in
      let i = input.intent in
      let now = input.now_sec in
      let passed =
        none_added _ _
          (none_added _ _
            (none_added _ _
              (none_added _ _
                (none_added _ _
                  (none_added _ _
                    (none_added _ _
                      (none_added _ _ (policy_failures_iff p) (identity_failures_iff p i))
                      (amount_failures_iff p i))
                    (call_failures_iff p i))
                  (taker_failures_iff p.final_taker i.taker))
                (registry_failures_iff date_seconds p i input.registry_observation now))
              (price_failures_iff p i input.price_observation now))
            (expiry_failures_iff p i now))
          (replay_failures_iff sha256_hex i input.replay_store) in
      (
        (λ h.
            let ((((((((a, b), c), d), e), f), g), k), l) = passed.0 h in
            record {
              policy = a;
              identity = b;
              amount = c;
              call = d;
              taker = e;
              observed = f;
              priced = g;
              timely = k;
              unused = l;
            }),
        (λ h. passed.1 (
          (
            ((((((h.policy, h.identity), h.amount), h.call), h.taker), h.observed), h.priced),
            h.timely,
          ),
          h.unused,
        )),
      )

  has_no_failure_iff : (fs : List GuardStatus) → has_no_failure fs ≡ true ↔ fs ≡ []
  has_no_failure_iff [] = (λ h. refl, λ h. refl)
  has_no_failure_iff (f ∷ fs) = (λ h. absurd cc, λ h. absurd cc)

  -- An intent is ready offline exactly when every guard holds: the policy is active, its version and
  -- registry are well formed and its limits are not out of range; the chain, registry and feature
  -- agree; the pair is listed, the amounts are positive and within a resolved cap; the call carries
  -- no value, fees and slippage that are not out of the policy's range, a hash and a listed
  -- selector; the taker is the policy's, an address and no canary; an observation of the registry
  -- that is not stale has the target as its current router; a price of a listed source that is not
  -- stale permits the minimum return; the deadline is not out of time; and the digest is the
  -- intent's and, like the nonce, not used up. Slippage, platform fee, times and their limits are
  -- numbers for which "not" holds also of NaN: such a number passes each of its guards.
  pub evaluate_guarded_settlement_iff :
      (input : GuardedSettlementInput)
      → (evaluate_guarded_settlement sha256_hex date_seconds input).ready ≡ true ↔ IsReady input
  unfolding evaluate_guarded_settlement
  evaluate_guarded_settlement_iff input =
      let all = all_failures_iff input in
      let none_left = has_no_failure_iff (all_failures sha256_hex date_seconds input) in
      (λ h. all.0 (none_left.0 h), λ h. none_left.1 (all.1 h))
