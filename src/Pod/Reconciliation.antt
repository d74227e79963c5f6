-- ===== src/Pod/Reconciliation.antt =====
-- reconciliation.ts
pub mod Books
use bps_protocol.Prelude.{
  ℕ, ◌≡◌, Bool, true, false, not, List, [], ◌∷◌, ◌++◌, map, if◌then◌else◌, ok, err, ◌>>=◌, ◌>>◌,
  fail_if, traverse,
}
use bps_protocol.Integer.{ℤ, pos, ◌+ℤ◌, ◌==ℤ◌}
use bps_protocol.Text.{Text, codes}
use bps_protocol.Pod.Fault.{Result, recon_conservation}
use bps_protocol.Pod.Numeric.{to_decimal_string, integer_text}
use bps_protocol.Pod.Model.{CycleConfig}
use bps_protocol.Pod.Allocation.{AssetAllocation, AllocationResult}

pub record AssetReconciliation : Type 0 where
  pub asset_address : Text
  pub ticker : Text
  pub decimals : ℕ
  pub acquired : ℕ
  pub participant_pool : ℕ
  pub strategic_reserve : ℤ
  pub allocated : ℕ
  pub distribution_dust : ℤ
  pub funded_required : ℕ
  pub claimable : ℕ
  pub claimed : ℕ
  pub unclaimed : ℕ
  pub rollover : ℤ
  pub claim_executed : Bool

pub record Reconciliation : Type 0 where
  pub publishable : Bool
  pub assets : List AssetReconciliation

unfoldable pub reconcile_asset : AssetAllocation → Result AssetReconciliation
reconcile_asset a = do
  fail_if (not (pos a.acquired ==ℤ a.strategic_reserve +ℤ pos a.allocated +ℤ a.distribution_dust))
      recon_conservation
  ok (record {
    asset_address = a.asset.token_address;
    ticker = a.asset.ticker;
    decimals = a.asset.decimals;
    acquired = a.acquired;
    participant_pool = a.participant_pool;
    strategic_reserve = a.strategic_reserve;
    allocated = a.allocated;
    distribution_dust = a.distribution_dust;
    funded_required = a.allocated;
    claimable = a.allocated;
    claimed = 0;
    unclaimed = a.allocated;
    rollover = a.distribution_dust;
    claim_executed = false;
  })

unfoldable pub reconcile : CycleConfig → AllocationResult → Result Reconciliation
unfolding reconcile_asset traverse
reconcile cycle allocation = traverse reconcile_asset allocation.assets >>= λ assets.
    ok (record { publishable = allocation.publishable; assets = assets })

unfoldable pub reconciliation_line : AssetReconciliation → Text
unfolding integer_text
reconciliation_line a =
    codes "asset "
    ++ (a.ticker
        ++ (codes " ("
            ++ (a.asset_address
                ++ (codes ") decimals="
                    ++ (to_decimal_string a.decimals
                        ++ (codes ": acquired="
                            ++ (to_decimal_string a.acquired
                                ++ (codes " reserve="
                                    ++ (integer_text a.strategic_reserve
                                        ++ (codes " pool="
                                            ++ (to_decimal_string a.participant_pool
                                                ++ (codes " allocated="
                                                    ++ (to_decimal_string a.allocated
                                                        ++ (codes " dust="
                                                            ++ (integer_text a.distribution_dust
                                                            ++ (codes " claimed="
                                                            ++ (to_decimal_string a.claimed
                                                            ++ (codes " unclaimed="
                                                            ++ (to_decimal_string a.unclaimed
                                                            ++ codes
                                                            " (claim not executed)")))))))))))))))))))

unfoldable pub format_reconciliation : Reconciliation → List Text
unfolding reconciliation_line
format_reconciliation recon =
    (codes "publishable: " ++ (if recon.publishable then codes "yes" else codes "no"))
    ∷ map reconciliation_line recon.assets
