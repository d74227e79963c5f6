-- ===== src/Pod/Allocation/Conservation.antt =====
-- `allocateAsset` neither throws nor loses a unit.
use bps_protocol.Prelude.{
  ℕ, ◌+◌, ◌-◌, ◌*◌, ◌/◌, ◌≤◌, ◌<◌, ◌≡◌, ◌⊎◌, refl, ap, List, [], ◌∷◌, arith, ltb, if◌then◌else◌, ok,
  sum_of, length, Bool-cases, inl, inr,
}
use bps_protocol.Integer.{pos}
use bps_protocol.Text.{Text}
use bps_protocol.Dict.{Dict}
use bps_protocol.Pod.Model.{CycleConfig, AcquiredAsset}
use bps_protocol.Pod.Weights.{WalletWeight}
use bps_protocol.Pod.Allocation.{no_shares, Shares, AssetAllocation, weight_of, allocate_asset}
use bps_protocol.Pod.Allocation.Floors.{share, shares_le, le_shares, described, add_shares_lem}

-- The pool of an asset.
abbrev pub pool_of : AcquiredAsset → ℕ
pool_of asset = asset.acquired_raw_amount * 8000 / 10000

-- The books of an allocated asset, for the wallets `ws` and the total weight.
pub record IsConserved (ws : List Text) (total : ℕ) (a : AssetAllocation) : Type 0 where
  pub dust : ℕ
  pub reserve : ℕ
  pub dust_eq : a.distribution_dust ≡ pos dust
  pub reserve_eq : a.strategic_reserve ≡ pos reserve
  -- nothing is lost
  pub acquired_eq : a.acquired ≡ reserve + a.allocated + dust
  pub pool_eq : a.participant_pool ≡ a.allocated + dust
  -- the pool is four fifths, rounded down
  pub pool_le : a.participant_pool * 10 ≤ a.acquired * 8
  pub lt_pool : a.acquired * 8 < (a.participant_pool + 1) * 10
  -- with weight, each wallet costs the dust less than one unit; without, nothing is allocated
  pub dust_lt :
      (0 < total) × (dust < length ws) ⊎ (total ≡ 0) × (a.allocated ≡ 0) × (a.entitlements ≡ [])

-- What the loop returns: nothing where no weight is counted.
abbrev pub shares_of : CycleConfig → AcquiredAsset → Dict WalletWeight → ℕ → List Text → Shares
shares_of cycle asset weights total ws =
    if ltb 0 total then described cycle asset (pool_of asset) total weights ws else no_shares

-- The allocation of an asset, described directly.
abbrev pub allocation_described :
    CycleConfig → AcquiredAsset → Dict WalletWeight → ℕ → List Text → AssetAllocation
allocation_described cycle asset weights total ws =
    let s = shares_of cycle asset weights total ws in
    record {
      asset = asset;
      acquired = asset.acquired_raw_amount;
      participant_pool = pool_of asset;
      strategic_reserve = pos (asset.acquired_raw_amount - pool_of asset);
      allocated = s.allocated;
      distribution_dust = pos (pool_of asset - s.allocated);
      wallet_allocations = s.wallet_allocations;
      entitlements = s.entitlements;
    }

module _ (cycle : CycleConfig) (asset : AcquiredAsset) (ws : List Text)
    (weights : Dict WalletWeight) (total : ℕ)
    (counted : total ≡ sum_of (weight_of weights) ws) where
  pool : ℕ
  pool = pool_of asset

  le_of_mul : (a b c : ℕ) → 0 < c → a * c ≤ b * c → a ≤ b
  le_of_mul a b c h k = grind arith

  lt_of_mul : (d n c : ℕ) → 0 < c → 0 < n → d * c + n ≤ n * c → d < n
  lt_of_mul d n c h m k = grind arith

  sum_le_pool : 0 < total → sum_of (share pool total weights) ws ≤ pool
  sum_le_pool h = le_of_mul _ pool total h (rw (← counted) at (shares_le pool total weights ws))

  nonempty : 0 < total → 0 < length ws
  nonempty h = split ws counted
    where
      split : (us : List Text) → total ≡ sum_of (weight_of weights) us → 0 < length us
      split [] e = absurd (omega arith)
      split (u ∷ us) e = omega arith

  dust_lt_wallets : 0 < total → pool - sum_of (share pool total weights) ws < length ws
  dust_lt_wallets h =
      let sum = sum_of (share pool total weights) ws in
      let bound : pool * total + length ws ≤ sum * total + length ws * total =
        rw (← counted) at (le_shares pool total weights ws h) in
      let e : pool ≡ (pool - sum) + sum = omega (arith, sum_le_pool h) in
      lt_of_mul (pool - sum) (length ws) total h (nonempty h)
        (omega (arith, bound, ap (λ (x : ℕ). x * total) e))

  -- `allocateAsset` returns the described allocation: none of its checks can fail.
  pub allocate_asset_lem :
      allocate_asset cycle asset ws weights total
      ≡ ok (allocation_described cycle asset weights total ws)
  unfolding allocate_asset pool
  allocate_asset_lem = elim (Bool-cases (ltb 0 total)) [
    | inr none_yet ↦ ground arith
    | inl some_weight ↦ ground (
      arith,
      add_shares_lem cycle asset pool total weights ws (ground arith),
      sum_le_pool (ground arith),
    )
  ]

  -- When the total weight is the sum of the weights of the wallets, `allocateAsset` does not
  -- throw. It returns what is described: each wallet whose share, the floor of its part of the
  -- pool, is not 0 has one entitlement of that amount, in the order of the wallets. The pool is
  -- four fifths of what was acquired, rounded down; reserve, shares and dust add up to what was
  -- acquired; with a total weight above 0 the dust is less than one unit for each wallet, and
  -- without one nothing is allocated.
  pub allocate_asset_conserves :
      (allocate_asset cycle asset ws weights total
        ≡ ok (allocation_described cycle asset weights total ws))
      × IsConserved ws total (allocation_described cycle asset weights total ws)
  unfolding pool
  allocate_asset_conserves = (
    allocate_asset_lem,
    record {
      dust = pool - (shares_of cycle asset weights total ws).allocated;
      reserve = asset.acquired_raw_amount - pool;
      dust_eq = refl;
      reserve_eq = refl;
      acquired_eq = ground (arith, sum_le_pool);
      pool_eq = ground (arith, sum_le_pool);
      pool_le = omega arith;
      lt_pool = omega arith;
      dust_lt = elim (Bool-cases (ltb 0 total)) [
        | inl e ↦
            let some_weight : 0 < total = ground arith in
            inl (some_weight, ground (arith, dust_lt_wallets some_weight))
        | inr e ↦ inr (ground arith, ground arith, ground arith)
      ];
    },
  )
