-- ===== src/Pod/Reconciliation/Books.antt =====
-- Allocation and reconciliation together: neither throws, and the books balance.
use bps_protocol.Prelude.{
  ℕ, ◌+◌, ◌≡◌, refl, true, false, none, some, List, [], ◌∷◌, map, arith, ok, ◌>>=◌, traverse,
  traverse-ok, sum_of,
}
use bps_protocol.Integer.{pos}
use bps_protocol.Text.{Text}
use bps_protocol.Dict.{Dict}
use bps_protocol.Pod.Model.{CycleConfig, AcquiredAsset}
use bps_protocol.Pod.Weights.{WalletWeight}
use bps_protocol.Pod.Allocation.{
  AssetAllocation, AllocationResult, weight_of, allocate, allocate_asset, all_entitlements,
  reason_for,
}
use bps_protocol.Pod.Allocation.Conservation.{
  IsConserved, allocation_described, allocate_asset_lem, allocate_asset_conserves,
}
use bps_protocol.Pod.Reconciliation.{
  AssetReconciliation, Reconciliation, reconcile_asset, reconcile,
}

-- A reconciled asset: every acquired unit is in the reserve, claimable, or carried over as dust;
-- all that is claimable is funded and unclaimed, and nothing has been claimed.
pub record IsBalanced (asset : AcquiredAsset) (r : AssetReconciliation) : Type 0 where
  pub reserve : ℕ
  pub rolled : ℕ
  pub reserve_eq : r.strategic_reserve ≡ pos reserve
  pub rollover_eq : r.rollover ≡ pos rolled
  pub acquired_eq : asset.acquired_raw_amount ≡ reserve + r.claimable + rolled
  pub pool_eq : r.participant_pool ≡ r.claimable + rolled
  pub funded : r.funded_required ≡ r.claimable
  pub unclaimed : r.unclaimed ≡ r.claimable
  pub claimed : r.claimed ≡ 0
  pub address_eq : r.asset_address ≡ asset.token_address

-- One reconciled line for each asset, in order, and each in balance.
abbrev pub AllBalanced : List AcquiredAsset → List AssetReconciliation → Type 0
AllBalanced [] [] = Unit
AllBalanced [] (r ∷ rs) = ⊥
AllBalanced (a ∷ as_) [] = ⊥
AllBalanced (a ∷ as_) (r ∷ rs) = IsBalanced a r × AllBalanced as_ rs

module _ (cycle : CycleConfig) (ws : List Text) (weights : Dict WalletWeight) (total : ℕ)
    (counted : total ≡ sum_of (weight_of weights) ws) where
  unfoldable pub described_at : AcquiredAsset → AssetAllocation
  described_at asset = allocation_described cycle asset weights total ws

  -- The whole allocation, described directly.
  unfoldable pub result_described : List AcquiredAsset → AllocationResult
  unfolding described_at
  result_described assets =
      let allocations = map described_at assets in
      let entitlements = all_entitlements allocations in
      let reason = reason_for total entitlements in
      record {
        assets = allocations;
        entitlements = entitlements;
        total_effective_weight = total;
        publishable = elim reason [ none ↦ true | some r ↦ false ];
        non_publishable_reason = reason;
      }

  pub allocate_lem :
      (assets : List AcquiredAsset)
      → allocate cycle assets ws weights total ≡ ok (result_described assets)
  unfolding allocate result_described
  allocate_lem assets =
      rw
        (traverse-ok (λ asset. allocate_asset cycle asset ws weights total) described_at assets
          (λ asset. allocate_asset_lem cycle asset ws weights total counted))
        refl

  reconciled : AssetAllocation → AssetReconciliation
  reconciled a = record {
    asset_address = a.asset.token_address;
    ticker = a.asset.ticker;
    decimals = a.asset.decimals;
    acquired = a.acquired;
    participant_pool = a.participant_pool;
    strategic_reserve = a.strategic_reserve;
    allocated = a.allocated;
    distribution_dust = a.distribution_dust;
    funded_required = a.allocated;
    claimable = a.allocated;
    claimed = 0;
    unclaimed = a.allocated;
    rollover = a.distribution_dust;
    claim_executed = false;
  }

  conserved : (asset : AcquiredAsset) → IsConserved ws total (described_at asset)
  unfolding described_at
  conserved asset = (allocate_asset_conserves cycle asset ws weights total counted).1

  reconcile_described :
      (asset : AcquiredAsset)
      → reconcile_asset (described_at asset) ≡ ok (reconciled (described_at asset))
  unfolding reconcile_asset reconciled
  reconcile_described asset =
      let c = conserved asset in ground (arith, c.dust_eq, c.reserve_eq, c.acquired_eq)

  reconciled-IsBalanced :
      (asset : AcquiredAsset) → IsBalanced asset (reconciled (described_at asset))
  unfolding reconciled described_at
  reconciled-IsBalanced asset =
      let c = (allocate_asset_conserves cycle asset ws weights total counted).1 in
      record {
        reserve = c.reserve;
        rolled = c.dust;
        reserve_eq = c.reserve_eq;
        rollover_eq = c.dust_eq;
        acquired_eq = c.acquired_eq;
        pool_eq = c.pool_eq;
        funded = refl;
        unclaimed = refl;
        claimed = refl;
        address_eq = refl;
      }

  all_balanced :
      (assets : List AcquiredAsset) → AllBalanced assets (map reconciled (map described_at assets))
  all_balanced [] = tt
  all_balanced (a ∷ as_) = (reconciled-IsBalanced a, all_balanced as_)

  traverse_described :
      (assets : List AcquiredAsset)
      → traverse reconcile_asset (map described_at assets)
        ≡ ok (map reconciled (map described_at assets))
  unfolding traverse
  traverse_described [] = refl
  traverse_described (a ∷ as_) = rw (reconcile_described a) (rw (traverse_described as_) refl)

  -- When the total weight is the sum of the wallets' weights, `allocate` and then `reconcile`
  -- both return; there is one reconciled line for each asset, in order, and it is in balance.
  pub reconcile-allocate :
      (assets : List AcquiredAsset)
      → (r : Reconciliation) × ((allocate cycle assets ws weights total >>= reconcile cycle) ≡ ok r)
        × AllBalanced assets r.assets
        × (r.publishable ≡ (result_described assets).publishable)
  unfolding reconcile result_described
  reconcile-allocate assets = (
    record {
      publishable = (result_described assets).publishable;
      assets = map reconciled (map described_at assets);
    },
    rw (allocate_lem assets) (rw (traverse_described assets) refl),
    all_balanced assets,
    refl,
  )
