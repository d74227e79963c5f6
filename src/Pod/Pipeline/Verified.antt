-- ===== src/Pod/Pipeline/Verified.antt =====
-- `verifyProofs` passes exactly when both verifiers accept every proof.
use bps_protocol.Prelude.{
  ℕ, ◌+◌, ◌≤◌, ◌≡◌, ◌↔◌, refl, true, ◌&&◌, some, List, [], ◌∷◌, arith, ◌==◌, length, ok, err, All,
  Bool-cases, inl, inr,
}
use bps_protocol.Pod.Fault.{proof_verification}
use bps_protocol.Pod.Model.{CycleConfig, CycleFixture}
use bps_protocol.Pod.Merkle.{
  TreePackage, HashPackage, MerkleLeafEntry, MerkleResult, oz_verify, viem_verify,
}
use bps_protocol.Pod.Pipeline.{VerificationSummary, count_if, count_verified, verify_proofs}

module _ (oz : TreePackage) (viem : HashPackage) where
  -- Both verifiers accept the proof of an entry against the root.
  abbrev pub IsVerified : CycleConfig → MerkleResult → MerkleLeafEntry → Type 0
  IsVerified cycle m x =
      (oz_verify oz m.root cycle x.entitlement x.proof ≡ true)
      × (viem_verify viem cycle x.entitlement x.proof m.root ≡ true)

  count_verified_le :
      (cycle : CycleConfig) (m : MerkleResult) (xs : List MerkleLeafEntry) (o v : ℕ)
      → ((count_verified oz viem cycle m xs (o, v)).0 ≤ o + length xs)
        × ((count_verified oz viem cycle m xs (o, v)).1 ≤ v + length xs)
  unfolding count_verified
  count_verified_le cycle m [] o v = omega arith
  count_verified_le cycle m (x ∷ xs) o v =
      let a = oz_verify oz m.root cycle x.entitlement x.proof in
      let b = viem_verify viem cycle x.entitlement x.proof m.root in
      ground (arith, count_verified_le cycle m xs (count_if a o) (count_if b v))

  count_verified-All :
      (cycle : CycleConfig) (m : MerkleResult) (xs : List MerkleLeafEntry) (o v : ℕ)
      → All (IsVerified cycle m) xs
      → count_verified oz viem cycle m xs (o, v) ≡ (o + length xs, v + length xs)
  unfolding count_verified
  count_verified-All cycle m [] o v h = ground arith
  count_verified-All cycle m (x ∷ xs) o v h =
      rw (h.0.0, h.0.1) (ground (arith, count_verified-All cycle m xs (o + 1) (v + 1) h.1))

  All-of_count :
      (cycle : CycleConfig) (m : MerkleResult) (xs : List MerkleLeafEntry) (o v : ℕ)
      → (count_verified oz viem cycle m xs (o, v)).0 ≡ o + length xs
      → (count_verified oz viem cycle m xs (o, v)).1 ≡ v + length xs
      → All (IsVerified cycle m) xs
  unfolding count_verified
  All-of_count cycle m [] o v h k = tt
  All-of_count cycle m (x ∷ xs) o v h k =
      let a = oz_verify oz m.root cycle x.entitlement x.proof in
      let b = viem_verify viem cycle x.entitlement x.proof m.root in
      let le = count_verified_le cycle m xs (count_if a o) (count_if b v) in
      let full_a : a ≡ true = ground (arith, le) in
      let full_b : b ≡ true = ground (arith, le) in
      (
        (full_a, full_b),
        All-of_count cycle m xs (count_if a o) (count_if b v) (ground arith) (ground arith),
      )

  pub verify_proofs-All :
      (fixture : CycleFixture) (m : MerkleResult) {v : VerificationSummary}
      → verify_proofs oz viem fixture (some m) ≡ ok v
      → All (IsVerified fixture.cycle m) m.entries
  unfolding verify_proofs
  verify_proofs-All fixture m h =
      let n = length m.entries in
      let counts = count_verified oz viem fixture.cycle m m.entries (0, 0) in
      elim (Bool-cases (counts.0 == n && counts.1 == n)) [
        | inr short ↦ cc (rw short at h)
        | inl full ↦ All-of_count fixture.cycle m m.entries 0 0 (ground arith) (ground arith)
      ]

  -- With a tree, `verifyProofs` returns, and counts every entry for both verifiers, exactly when
  -- both accept the proof of every entry; it throws PROOF_VERIFICATION exactly when they do not.
  pub verify_proofs_iff :
      (fixture : CycleFixture) (m : MerkleResult)
      → (verify_proofs oz viem fixture (some m)
            ≡ ok (record {
              proof_count = length m.entries;
              oz_verified = length m.entries;
              viem_verified = length m.entries;
              all_verified = true;
            })
          ↔ All (IsVerified fixture.cycle m) m.entries)
        × (verify_proofs oz viem fixture (some m) ≡ err proof_verification
            ↔ ¬ All (IsVerified fixture.cycle m) m.entries)
  unfolding verify_proofs
  verify_proofs_iff fixture m =
      let n = length m.entries in
      let counts = count_verified oz viem fixture.cycle m m.entries (0, 0) in
      let passes = count_verified-All fixture.cycle m m.entries 0 0 in
      (
        (verify_proofs-All fixture m, λ h. ground (arith, passes h)),
        (
          (λ e h. ground (arith, passes h)),
          (λ h. elim (Bool-cases (counts.0 == n && counts.1 == n)) [
            | inr short ↦ rw short refl
            | inl full ↦
                absurd
                  (h (All-of_count fixture.cycle m m.entries 0 0 (ground arith) (ground arith)))
          ]),
        ),
      )
