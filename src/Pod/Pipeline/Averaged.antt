-- ===== src/Pod/Pipeline/Averaged.antt =====
-- The weights of a whole run: averages per second over the epoch of the fixture.
use bps_protocol.Prelude.{
  ◌+◌, ◌≡◌, ap, ◌∙◌, some, List, [], arith, >>=-eq-ok, ok, ok-injective, All-map_pred, subst,
}
use bps_protocol.Text.{Text}
use bps_protocol.Dict.{get, get_or}
use bps_protocol.Pod.Model.{CycleFixture, ConfirmedTransfer}
use bps_protocol.Pod.Schema.{RawCycleFixture}
use bps_protocol.Pod.Validate.{load_cycle_fixture}
use bps_protocol.Pod.Validate.Accepted.{load_cycle_fixture-IsAccepted}
use bps_protocol.Pod.Weights.{WalletWeight, WeightComputation, seed_balances, compute_weights}
use bps_protocol.Pod.Weights.Applied.{IsApplied, compute_weights-IsApplied}
use bps_protocol.Pod.Weights.Average.{IsAveraged, compute_weights-IsAveraged}
use bps_protocol.Pod.Merkle.{TreePackage, HashPackage}
use bps_protocol.Pod.Eligibility.{resolve_eligibility}
use bps_protocol.Pod.Allocation.{allocate}
use bps_protocol.Pod.Reconciliation.{reconcile}
use bps_protocol.Pod.Pipeline.{PipelineResult, merkle_if, verify_proofs, run_proof_of_distribution}

-- The weights of a fixture, with the transfers that they count, are averages over its epoch.
pub record HasAverages (f : CycleFixture) (weights : WeightComputation) (w : Text)
    (x : WalletWeight) : Type 0 where
  pub computed : compute_weights f.cycle f.epoch_start_balances f.transfers f.locks ≡ ok weights
  pub applied : IsApplied (f.cycle.epoch_start + 900) f.transfers weights.applied_transfers
  pub averaged :
      IsAveraged f.cycle.epoch_start
        (f.cycle.epoch_start + 900)
        (get_or 0 (seed_balances [] f.epoch_start_balances) w)
        weights.applied_transfers
        f.locks
        w
        x

module _ (oz : TreePackage) (viem : HashPackage) where
  -- When the computation returns, there is a list of applied transfers: it stands in strict chain
  -- order, each of its transfers is one of the fixture from before the end of the epoch of 900
  -- seconds, and for each transfer of the fixture from before that end it has one of the same chain,
  -- transaction and log, with the same block, transaction index, time, parties and amount. Each
  -- weight that the computation used is the one that averages, over the seconds of the epoch, the
  -- balance that the start balances and the applied transfers give its wallet, the unlocked balance
  -- and the locked amounts of each tier, second by second.
  pub run-HasAverages :
      (input : RawCycleFixture) (w : Text) {r : PipelineResult} {x : WalletWeight}
      → run_proof_of_distribution oz viem input ≡ ok r
      → get r.weights w ≡ some x
      → (applied : List ConfirmedTransfer) × HasAverages r.fixture
          (record { weights = r.weights; applied_transfers = applied })
          w
          x
  unfolding run_proof_of_distribution
  run-HasAverages input w {r} {x} h found =
      let (f, loaded, h1) = >>=-eq-ok (load_cycle_fixture input) _ h in
      let (weights, weighed, h2) =
        >>=-eq-ok (compute_weights f.cycle f.epoch_start_balances f.transfers f.locks) _ h1 in
      let e = resolve_eligibility f.cycle f.excluded_addresses f.eligibility weights.weights in
      let (a, allocated, h3) =
        >>=-eq-ok
          (allocate f.cycle f.assets e.eligible_wallets weights.weights e.total_effective_weight) _
          h2 in
      let (m, treed, h4) = >>=-eq-ok (merkle_if oz viem a.publishable f.cycle a) _ h3 in
      let (v, verified, h5) = >>=-eq-ok (verify_proofs oz viem f m) _ h4 in
      let (rec, reconciled, done) = >>=-eq-ok (reconcile f.cycle a) _ h5 in
      let result = ok-injective done in
      let accepted = load_cycle_fixture-IsAccepted input loaded in
      let applied =
        compute_weights-IsApplied f.cycle f.epoch_start_balances f.transfers f.locks weighed in
      let there : get weights.weights w ≡ some x =
        ap (λ (q : PipelineResult). get q.weights w) result ∙ found in
      let averaged =
        compute_weights-IsAveraged f.cycle f.epoch_start_balances f.transfers f.locks w
          (let end = accepted.cycle.end_eq in omega (arith, end))
          (All-map_pred (λ t k. k.start_le) f.transfers accepted.transfers) weighed there in
      (
        weights.applied_transfers,
        subst
            (λ (q : PipelineResult).
              HasAverages q.fixture
                (record { weights = q.weights; applied_transfers = weights.applied_transfers }) w x)
            result
            (record {
              computed = weighed;
              applied =
                  subst (λ n. IsApplied n f.transfers weights.applied_transfers)
                    accepted.cycle.end_eq applied;
              averaged =
                  subst
                    (λ n.
                      IsAveraged f.cycle.epoch_start n
                        (get_or 0 (seed_balances [] f.epoch_start_balances) w)
                        weights.applied_transfers f.locks w x)
                    accepted.cycle.end_eq averaged;
            }),
      )
