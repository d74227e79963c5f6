-- ===== src/Pod/Allocation.antt =====
-- allocation.ts: the split of an acquired asset and the shares of the eligible wallets.
pub mod Floors
pub mod Conservation
use bps_protocol.Prelude.{
  ℕ, ◌+◌, ◌*◌, ◌/◌, ◌≡◌, Bool, true, false, not, ◌&&◌, Option, none, some, List, [], ◌∷◌, ◌++◌, map,
  arith, ltb, leb, ◌==◌, if◌then◌else◌, Outcome, ok, err, ◌>>=◌, ◌>>◌, fail_if, traverse,
}
use bps_protocol.Integer.{ℤ, pos, sub_ℕ, ◌+ℤ◌, ◌==ℤ◌}
use bps_protocol.Text.{Text}
use bps_protocol.Dict.{Dict, get}
use bps_protocol.Pod.Fault.{Result, alloc_conservation, alloc_overflow}
use bps_protocol.Pod.Numeric.{mul_div_floor}
use bps_protocol.Pod.Model.{
  participant_pool_bps, bps_denominator, CycleConfig, AcquiredAsset, Entitlement,
}
use bps_protocol.Pod.Weights.{WalletWeight}
use bps_protocol.Pod.Eligibility.{weight_field}

pub record WalletAllocation : Type 0 where
  pub wallet : Text
  pub amount : ℕ

-- The reserve and the dust are differences, so they are integers.
pub record AssetAllocation : Type 0 where
  pub asset : AcquiredAsset
  pub acquired : ℕ
  pub participant_pool : ℕ
  pub strategic_reserve : ℤ
  pub allocated : ℕ
  pub distribution_dust : ℤ
  pub wallet_allocations : List WalletAllocation
  pub entitlements : List Entitlement

pub data Reason : Type 0 where
  zero_weight no_entitlements : Reason

pub record AllocationResult : Type 0 where
  pub assets : List AssetAllocation
  pub entitlements : List Entitlement
  pub total_effective_weight : ℕ
  pub publishable : Bool
  pub non_publishable_reason : Option Reason

-- The variables of the loop over the eligible wallets.
pub record Shares : Type 0 where
  pub allocated : ℕ
  pub wallet_allocations : List WalletAllocation
  pub entitlements : List Entitlement

abbrev pub no_shares : Shares
no_shares = record { allocated = 0; wallet_allocations = []; entitlements = [] }

abbrev pub weight_of : Dict WalletWeight → Text → ℕ
weight_of = weight_field (λ x. x.effective_weight)

unfoldable pub add_share :
    CycleConfig → AcquiredAsset → ℕ → ℕ → Dict WalletWeight → Shares → Text → Result Shares
unfolding mul_div_floor
add_share cycle asset pool total weights s wallet =
    let weight = weight_of weights wallet in
    if leb weight 0
    then ok s
    else (mul_div_floor pool weight total >>= λ amount.
        if leb amount 0
        then ok s
        else ok (record {
          allocated = s.allocated + amount;
          wallet_allocations =
              s.wallet_allocations ++ record { wallet = wallet; amount = amount } ∷ [];
          entitlements =
              s.entitlements
              ++ record {
                cycle_id = cycle.cycle_id;
                wallet = wallet;
                asset = asset.token_address;
                amount = amount;
              }
                ∷ [];
        }))

unfoldable pub add_shares :
    CycleConfig → AcquiredAsset → ℕ → ℕ → Dict WalletWeight → Shares → List Text → Result Shares
add_shares cycle asset pool total weights s [] = ok s
add_shares cycle asset pool total weights s (w ∷ ws) =
    add_share cycle asset pool total weights s w >>= λ s'.
    add_shares cycle asset pool total weights s' ws

unfoldable pub allocate_asset :
    CycleConfig → AcquiredAsset → List Text → Dict WalletWeight → ℕ → Result AssetAllocation
unfolding mul_div_floor
allocate_asset cycle asset eligible_wallets weights total = do
  let acquired = asset.acquired_raw_amount
  pool ← mul_div_floor acquired participant_pool_bps bps_denominator
  let reserve = sub_ℕ acquired pool
  s ←
      (if ltb 0 total
        then add_shares cycle asset pool total weights no_shares eligible_wallets
        else ok no_shares)
  let dust = sub_ℕ pool s.allocated
  fail_if (not (pos pool +ℤ reserve ==ℤ pos acquired)) alloc_conservation
  fail_if (not (pos s.allocated +ℤ dust ==ℤ pos pool)) alloc_conservation
  fail_if (ltb pool s.allocated) alloc_overflow
  ok (record {
    asset = asset;
    acquired = acquired;
    participant_pool = pool;
    strategic_reserve = reserve;
    allocated = s.allocated;
    distribution_dust = dust;
    wallet_allocations = s.wallet_allocations;
    entitlements = s.entitlements;
  })

unfoldable pub reason_for : ℕ → List Entitlement → Option Reason
reason_for total entitlements =
    if total == 0
    then some zero_weight
    else (elim entitlements [ [] ↦ some no_entitlements | e ∷ es ↦ none ])

-- `flatMap((a) => a.entitlements)`
unfoldable pub all_entitlements : List AssetAllocation → List Entitlement
all_entitlements [] = []
all_entitlements (a ∷ as_) = a.entitlements ++ all_entitlements as_

unfoldable pub allocate :
    CycleConfig → List AcquiredAsset → List Text → Dict WalletWeight → ℕ → Result AllocationResult
unfolding reason_for all_entitlements traverse
allocate cycle assets eligible_wallets weights total =
    traverse (λ asset. allocate_asset cycle asset eligible_wallets weights total) assets
    >>= λ allocations.
        let entitlements = all_entitlements allocations in
        let reason = reason_for total entitlements in
        ok (record {
          assets = allocations;
          entitlements = entitlements;
          total_effective_weight = total;
          publishable = elim reason [ none ↦ true | some r ↦ false ];
          non_publishable_reason = reason;
        })
