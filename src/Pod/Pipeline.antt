-- ===== src/Pod/Pipeline.antt =====
-- pipeline.ts: the computation from a raw fixture to verified entitlements. The artifacts that it
-- renders from these results are not modelled.
pub mod Verified
pub mod Entitled
pub mod Averaged
use bps_protocol.Prelude.{
  ℕ, ◌+◌, ◌≡◌, Bool, true, false, not, ◌&&◌, Option, none, some, List, [], ◌∷◌, ◌==◌, if◌then◌else◌,
  length, ok, err, ◌>>=◌, ◌>>◌, fail_if,
}
use bps_protocol.Dict.{Dict}
use bps_protocol.Pod.Fault.{Result, proof_verification}
use bps_protocol.Pod.Model.{CycleConfig, CycleFixture}
use bps_protocol.Pod.Weights.{WalletWeight, WeightComputation, compute_weights}
use bps_protocol.Pod.Eligibility.{EligibilityResolution, resolve_eligibility}
use bps_protocol.Pod.Allocation.{AllocationResult, allocate}
use bps_protocol.Pod.Reconciliation.{Reconciliation, reconcile}
use bps_protocol.Pod.Merkle.{
  TreePackage, HashPackage, MerkleLeafEntry, MerkleResult, build_merkle, oz_verify, viem_verify,
}
use bps_protocol.Pod.Schema.{RawCycleFixture}
use bps_protocol.Pod.Validate.{load_cycle_fixture}

pub record VerificationSummary : Type 0 where
  pub proof_count : ℕ
  pub oz_verified : ℕ
  pub viem_verified : ℕ
  pub all_verified : Bool

pub record PipelineResult : Type 0 where
  pub fixture : CycleFixture
  pub weights : Dict WalletWeight
  pub eligibility : EligibilityResolution
  pub allocation : AllocationResult
  pub merkle : Option MerkleResult
  pub reconciliation : Reconciliation
  pub verification : VerificationSummary

abbrev pub count_if : Bool → ℕ → ℕ
count_if b n = if b then n + 1 else n

module _ (oz : TreePackage) (viem : HashPackage) where
  -- The loop of `verifyProofs`: the two counts.
  unfoldable pub count_verified : CycleConfig → MerkleResult → List MerkleLeafEntry → ℕ × ℕ → ℕ × ℕ
  count_verified cycle m [] counts = counts
  count_verified cycle m (x ∷ xs) (o, v) = count_verified cycle m xs (
    count_if (oz_verify oz m.root cycle x.entitlement x.proof) o,
    count_if (viem_verify viem cycle x.entitlement x.proof m.root) v,
  )

  unfoldable pub verify_proofs : CycleFixture → Option MerkleResult → Result VerificationSummary
  unfolding count_verified
  verify_proofs fixture none =
      ok (record { proof_count = 0; oz_verified = 0; viem_verified = 0; all_verified = true })
  verify_proofs fixture (some m) =
      let counts = count_verified fixture.cycle m m.entries (0, 0) in
      let proof_count = length m.entries in
      let all_verified = counts.0 == proof_count && counts.1 == proof_count in
      fail_if (not all_verified) proof_verification
      >> ok (record {
        proof_count = proof_count;
        oz_verified = counts.0;
        viem_verified = counts.1;
        all_verified = all_verified;
      })

  abbrev pub merkle_if : Bool → CycleConfig → AllocationResult → Result (Option MerkleResult)
  merkle_if true cycle allocation =
      build_merkle oz cycle allocation.entitlements >>= λ m. ok (some m)
  merkle_if false cycle allocation = ok none

  unfoldable pub run_proof_of_distribution : RawCycleFixture → Result PipelineResult
  unfolding verify_proofs
  run_proof_of_distribution input = do
    fixture ← load_cycle_fixture input
    w ← compute_weights fixture.cycle fixture.epoch_start_balances fixture.transfers fixture.locks
    let eligibility =
        resolve_eligibility fixture.cycle fixture.excluded_addresses fixture.eligibility w.weights
    allocation ←
        allocate fixture.cycle fixture.assets eligibility.eligible_wallets w.weights
          eligibility.total_effective_weight
    merkle ← merkle_if allocation.publishable fixture.cycle allocation
    verification ← verify_proofs fixture merkle
    reconciliation ← reconcile fixture.cycle allocation
    ok (record {
      fixture = fixture;
      weights = w.weights;
      eligibility = eligibility;
      allocation = allocation;
      merkle = merkle;
      reconciliation = reconciliation;
      verification = verification;
    })
