-- ===== src/Pod/Allocation/Floors.antt =====
-- The loop of `allocateAsset` against a direct description of its results, and sums of floors
-- against the floor of the sum.
use bps_protocol.Prelude.{
  floor_le, ℕ, ◌+◌, ◌*◌, ◌/◌, ◌≤◌, ◌<◌, ◌≡◌, ap, List, [], ◌∷◌, ◌++◌, map, arith, ltb,
  if◌then◌else◌, ok, sum_of, length, keep, ◌∙◌,
}
use mathlib.Core.List.{append_assoc, append-nil}
use bps_protocol.Text.{Text}
use bps_protocol.Dict.{Dict}
use bps_protocol.Pod.Model.{CycleConfig, AcquiredAsset, Entitlement}
use bps_protocol.Pod.Weights.{WalletWeight}
use bps_protocol.Pod.Allocation.{
  Shares, no_shares, WalletAllocation, weight_of, add_share, add_shares,
}

lt_floor : (n d : ℕ) → 0 < d → n < n / d * d + d
lt_floor n d h = omega arith

-- The share of a wallet: the floor of its part of the pool.
abbrev pub share : ℕ → ℕ → Dict WalletWeight → Text → ℕ
share pool total weights w = pool * weight_of weights w / total

-- The floors add up to no more than the pool's part of the weights that are counted, and fall
-- short of it by less than one unit for each wallet.
pub shares_le :
    (pool total : ℕ) (weights : Dict WalletWeight) (ws : List Text)
    → sum_of (share pool total weights) ws * total ≤ pool * sum_of (weight_of weights) ws
shares_le pool total weights [] = omega arith
shares_le pool total weights (w ∷ ws) =
    omega (arith, floor_le (pool * weight_of weights w) total, shares_le pool total weights ws)

pub le_shares :
    (pool total : ℕ) (weights : Dict WalletWeight) (ws : List Text)
    → 0 < total
    → pool * sum_of (weight_of weights) ws + length ws
      ≤ sum_of (share pool total weights) ws * total + length ws * total
le_shares pool total weights [] h = omega arith
le_shares pool total weights (w ∷ ws) h =
    omega (arith, lt_floor (pool * weight_of weights w) total h, le_shares pool total weights ws h)

module _ (cycle : CycleConfig) (asset : AcquiredAsset) (pool total : ℕ)
    (weights : Dict WalletWeight) where
  abbrev pub allocation_of : Text → WalletAllocation
  allocation_of w = record { wallet = w; amount = share pool total weights w }

  abbrev pub entitlement_of : Text → Entitlement
  entitlement_of w = record {
    cycle_id = cycle.cycle_id;
    wallet = w;
    asset = asset.token_address;
    amount = share pool total weights w;
  }

  -- The results of the loop, described directly: one entry for each wallet whose share is not 0.
  abbrev pub described : List Text → Shares
  described ws = record {
    allocated = sum_of (share pool total weights) ws;
    wallet_allocations = keep (λ a. ltb 0 a.amount) (map allocation_of ws);
    entitlements = keep (λ e. ltb 0 e.amount) (map entitlement_of ws);
  }

  abbrev joined : Shares → Shares → Shares
  joined s s' = record {
    allocated = s.allocated + s'.allocated;
    wallet_allocations = s.wallet_allocations ++ s'.wallet_allocations;
    entitlements = s.entitlements ++ s'.entitlements;
  }

  -- One round: nothing, or one more entry.
  abbrev one : Text → Shares
  one w =
      if ltb 0 (share pool total weights w)
      then record {
        allocated = share pool total weights w;
        wallet_allocations = allocation_of w ∷ [];
        entitlements = entitlement_of w ∷ [];
      }
      else no_shares

  add_share-one :
      (s : Shares) (w : Text)
      → 0 < total
      → add_share cycle asset pool total weights s w ≡ ok (joined s (one w))
  unfolding add_share
  add_share-one s w h = ground (arith, append-nil s.wallet_allocations, append-nil s.entitlements)

  described_cons :
      (s : Shares) (w : Text) (ws : List Text)
      → joined (joined s (one w)) (described ws) ≡ joined s (described (w ∷ ws))
  unfolding keep
  described_cons s w ws = ground (
    arith,
    append_assoc s.wallet_allocations (one w).wallet_allocations (described ws).wallet_allocations,
    append_assoc s.entitlements (one w).entitlements (described ws).entitlements,
  )

  add_shares_from :
      (s : Shares) (ws : List Text)
      → 0 < total
      → add_shares cycle asset pool total weights s ws ≡ ok (joined s (described ws))
  unfolding add_shares keep
  add_shares_from s [] h =
      ground (arith, append-nil s.wallet_allocations, append-nil s.entitlements)
  add_shares_from s (w ∷ ws) h =
      rw (add_share-one s w h)
        (add_shares_from (joined s (one w)) ws h ∙ ap ok (described_cons s w ws))

  -- With a positive total the loop does not throw, and returns what is described.
  pub add_shares_lem :
      (ws : List Text)
      → 0 < total
      → add_shares cycle asset pool total weights no_shares ws ≡ ok (described ws)
  add_shares_lem ws h = ground (arith, add_shares_from no_shares ws h)
