-- ===== src/Pod/Pipeline/Entitled.antt =====
-- The whole computation: who receives what, and that every unit is accounted for.
use bps_protocol.Prelude.{
  ℕ, ◌<◌, ◌≡◌, ◌↔◌, refl, sym, Bool, true, false, Option, none, some, List, [], ◌∷◌, map, arith,
  ltb, ok, ◌>>=◌, >>=-eq-ok, ok-injective, All, Any, All-of, All-append, All-map_pred, sum_of, keep,
  subst, ap, Bool-cases, inl, inr, ◌∙◌,
}
use bps_protocol.Text.{Text}
use bps_protocol.Dict.{Dict}
use bps_protocol.Pod.Fault.{Result}
use bps_protocol.Pod.Model.{CycleConfig, CycleFixture, AcquiredAsset, Entitlement}
use bps_protocol.Pod.Weights.{WalletWeight, compute_weights}
use bps_protocol.Pod.Eligibility.{resolve_eligibility}
use bps_protocol.Pod.Eligibility.Admission.{Entitles, IsExcluded, eligible_iff, eligible_totals}
use bps_protocol.Pod.Allocation.{AllocationResult, weight_of, allocate, all_entitlements}
use bps_protocol.Pod.Allocation.Floors.{share, entitlement_of}
use bps_protocol.Pod.Allocation.Conservation.{pool_of}
use bps_protocol.Pod.Reconciliation.{Reconciliation, reconcile}
use bps_protocol.Pod.Reconciliation.Books.{
  AllBalanced, allocate_lem, described_at, result_described, reconcile-allocate,
}
use bps_protocol.Pod.Merkle.{TreePackage, HashPackage, MerkleResult, build_merkle}
use bps_protocol.Pod.Merkle.Entries.{IsBuilt, build_merkle-IsBuilt}
use bps_protocol.Pod.Schema.{RawCycleFixture}
use bps_protocol.Pod.Validate.{load_cycle_fixture}
use bps_protocol.Pod.Validate.Accepted.{IsAccepted, load_cycle_fixture-IsAccepted}
use bps_protocol.Pod.Pipeline.{
  VerificationSummary, PipelineResult, merkle_if, verify_proofs, run_proof_of_distribution,
}
use bps_protocol.Pod.Pipeline.Verified.{IsVerified, verify_proofs-All}

-- A positive amount for one of the wallets.
abbrev IsFor : List Text → Entitlement → Type 0
IsFor ws e = (0 < e.amount) × Any (λ w. w ≡ e.wallet) ws

keep-IsFor :
    (cycle : CycleConfig) (asset : AcquiredAsset) (pool total : ℕ) (weights : Dict WalletWeight)
    (all ws : List Text)
    → All (λ v. Any (λ w. w ≡ v) all) ws
    → All
        (IsFor all)
        (keep (λ e. ltb 0 e.amount) (map (entitlement_of cycle asset pool total weights) ws))
unfolding keep
keep-IsFor cycle asset pool total weights all [] h = tt
keep-IsFor cycle asset pool total weights all (w ∷ ws) h =
    let rest = keep-IsFor cycle asset pool total weights all ws h.1 in
    elim (Bool-cases (ltb 0 (share pool total weights w))) [
      | inl e ↦ rw e ((ground arith, h.0), rest)
      | inr e ↦ rw e rest
    ]

module _ (cycle : CycleConfig) (ws : List Text) (weights : Dict WalletWeight) (total : ℕ)
    (counted : total ≡ sum_of (weight_of weights) ws) where
  asset-IsFor :
      (asset : AcquiredAsset)
      → All (IsFor ws) (described_at cycle ws weights total counted asset).entitlements
  unfolding described_at
  asset-IsFor asset = elim (Bool-cases (ltb 0 total)) [
    | inl e ↦
        rw e (keep-IsFor cycle asset (pool_of asset) total weights ws ws (All-of _ ws (λ a k. k)))
    | inr e ↦ rw e tt
  ]

  All-IsFor :
      (assets : List AcquiredAsset)
      → All (IsFor ws) (all_entitlements (map (described_at cycle ws weights total counted) assets))
  unfolding all_entitlements
  All-IsFor [] = tt
  All-IsFor (a ∷ as_) = All-append (IsFor ws) _ _ (asset-IsFor a) (All-IsFor as_)

-- The wallet of the entitlement has an entitling record and is not excluded; the amount is
-- positive.
abbrev pub IsRightful : CycleFixture → Entitlement → Type 0
IsRightful f e =
    (0 < e.amount)
    × Any (Entitles f.cycle e.wallet) f.eligibility
    × ¬ IsExcluded f.excluded_addresses e.wallet

module _ (oz : TreePackage) (viem : HashPackage) where
  -- A tree over the given entitlements whose proofs both verifiers accept, or none.
  abbrev pub IsPublished : CycleConfig → List Entitlement → Option MerkleResult → Type 0
  IsPublished cycle es none = Unit
  IsPublished cycle es (some m) = IsBuilt es m × All (IsVerified oz viem cycle m) m.entries

  pub record IsSoundRun (r : PipelineResult) : Type 0 where
    pub accepted : IsAccepted r.fixture
    pub rightful : All (IsRightful r.fixture) r.allocation.entitlements
    pub published : IsPublished r.fixture.cycle r.allocation.entitlements r.merkle
    pub unpublished : (r.merkle ≡ none) ↔ (r.allocation.publishable ≡ false)
    pub balanced : AllBalanced r.fixture.assets r.reconciliation.assets

  merkle_if-IsPublished :
      (publishable : Bool) (f : CycleFixture) (allocation : AllocationResult)
      {m : Option MerkleResult} {v : VerificationSummary}
      → merkle_if oz viem publishable f.cycle allocation ≡ ok m
      → verify_proofs oz viem f m ≡ ok v
      → IsPublished f.cycle allocation.entitlements m × (m ≡ none ↔ publishable ≡ false)
  merkle_if-IsPublished false f allocation {m} e h =
      let same : none ≡ m = ok-injective e in
      subst
        (λ (o : Option MerkleResult).
          IsPublished f.cycle allocation.entitlements o × (o ≡ none ↔ false ≡ false))
        same (tt, (λ _. refl, λ _. refl))
  merkle_if-IsPublished true f allocation {m} {v} e h =
      let (t, built, done) = >>=-eq-ok (build_merkle oz f.cycle allocation.entitlements) _ e in
      let same : some t ≡ m = ok-injective done in
      subst
        (λ (o : Option MerkleResult).
          IsPublished f.cycle allocation.entitlements o × (o ≡ none ↔ true ≡ false))
        same
        (
          (
            build_merkle-IsBuilt oz f.cycle allocation.entitlements built,
            verify_proofs-All oz viem f t
                (subst (λ o. verify_proofs oz viem f o ≡ ok v) (sym same) h),
          ),
          (λ absent. cc, λ unpublished. cc),
        )

  IsRightful-of :
      (f : CycleFixture) (weights : Dict WalletWeight) (es : List Entitlement)
      → All
          (IsFor
            (resolve_eligibility f.cycle f.excluded_addresses f.eligibility
              weights).eligible_wallets)
          es
      → All (IsRightful f) es
  IsRightful-of f weights es h =
      All-map_pred
        (λ e (p : IsFor _ e).
          let (entitled, free) =
            (eligible_iff f.cycle f.excluded_addresses f.eligibility weights e.wallet).0 p.1 in
          (p.0, entitled, free))
        es h

  -- When the computation returns, the fixture was accepted; each entitlement is a positive amount
  -- for a wallet that a record entitles at the end of the epoch and that is not excluded; if the
  -- allocation is publishable there is a tree over exactly its entitlements, and both verifiers
  -- accept every proof, and otherwise there is no tree; and for each asset reserve, claimable amount and dust add up to what was
  -- acquired.
  pub run-IsSoundRun :
      (input : RawCycleFixture) {r : PipelineResult}
      → run_proof_of_distribution oz viem input ≡ ok r
      → IsSoundRun r
  unfolding run_proof_of_distribution result_described
  run-IsSoundRun input {r} h =
      let (f, loaded, h1) = >>=-eq-ok (load_cycle_fixture input) _ h in
      let (w, weighed, h2) =
        >>=-eq-ok (compute_weights f.cycle f.epoch_start_balances f.transfers f.locks) _ h1 in
      let e = resolve_eligibility f.cycle f.excluded_addresses f.eligibility w.weights in
      let counted = (eligible_totals f.cycle f.excluded_addresses f.eligibility w.weights).1 in
      let (a, allocated, h3) =
        >>=-eq-ok (allocate f.cycle f.assets e.eligible_wallets w.weights e.total_effective_weight)
          _ h2 in
      let (m, treed, h4) = >>=-eq-ok (merkle_if oz viem a.publishable f.cycle a) _ h3 in
      let (v, verified, h5) = >>=-eq-ok (verify_proofs oz viem f m) _ h4 in
      let (rec, reconciled, done) = >>=-eq-ok (reconcile f.cycle a) _ h5 in
      let described =
        allocate_lem f.cycle e.eligible_wallets w.weights e.total_effective_weight counted
          f.assets in
      let same_a = ok-injective (sym described ∙ allocated) in
      let published = merkle_if-IsPublished a.publishable f a treed verified in
      let (b, books, balanced, _) =
        reconcile-allocate f.cycle e.eligible_wallets w.weights e.total_effective_weight counted
          f.assets in
      let joined =
        ap (λ (x : Result AllocationResult). x >>= reconcile f.cycle) allocated ∙ reconciled in
      let same_b = ok-injective (sym books ∙ joined) in
      subst IsSoundRun (ok-injective done) (record {
        accepted = load_cycle_fixture-IsAccepted input loaded;
        rightful = IsRightful-of f w.weights a.entitlements (
            subst (λ (x : AllocationResult). All (IsFor e.eligible_wallets) x.entitlements) same_a
              (All-IsFor f.cycle e.eligible_wallets w.weights e.total_effective_weight counted
                f.assets));
        published = published.0;
        unpublished = published.1;
        balanced = subst (λ (x : Reconciliation). AllBalanced f.assets x.assets) same_b balanced;
      })
