-- ===== src/Rialto/Boundary/Classified.antt =====
-- Which observations have which status.
use bps_protocol.Prelude.{◌≡◌, ◌≢◌, ◌↔◌, Bool, true, false, Option, none, some, arith}
use bps_protocol.Rialto.Boundary.{
  RialtoBoundaryStatus, quote_not_observed, quote_observed, quote_structurally_valid,
  price_guard_passed, settlement_not_executed, settlement_executed_local_fork_only,
  mainnet_settlement_confirmed, SettlementReceiptProof, BoundaryObservation, is_proof,
  observed_status, fork_status, with_receipt, classify_boundary,
}

-- A receipt that proves a settlement.
abbrev pub has_proof : Option SettlementReceiptProof → Bool
has_proof none = false
has_proof (some p) = is_proof p

-- What each status says of the observation.
abbrev pub IsTruthful :
    RialtoBoundaryStatus → Option SettlementReceiptProof → BoundaryObservation → Type 0
IsTruthful s receipt obs =
    (s ≡ mainnet_settlement_confirmed ↔ has_proof receipt ≡ true)
    × (s ≡ settlement_executed_local_fork_only
        ↔ (has_proof receipt ≡ false)
          × (obs.quote_observed ≡ true)
          × (obs.structural_validation_passed ≡ true)
          × (obs.local_fork_settlement_passed ≡ true))
    × (s ≡ price_guard_passed
        ↔ (has_proof receipt ≡ false)
          × (obs.quote_observed ≡ true)
          × (obs.structural_validation_passed ≡ true)
          × (obs.price_guard_passed ≡ true)
          × (obs.local_fork_settlement_passed ≡ false))
    × (s ≡ quote_structurally_valid
        ↔ (has_proof receipt ≡ false)
          × (obs.quote_observed ≡ true)
          × (obs.structural_validation_passed ≡ true)
          × (obs.price_guard_passed ≡ false)
          × (obs.local_fork_settlement_passed ≡ false))
    × (s ≡ quote_observed
        ↔ (has_proof receipt ≡ false)
          × (obs.quote_observed ≡ true)
          × (obs.structural_validation_passed ≡ false))
    × (s ≡ quote_not_observed ↔ (has_proof receipt ≡ false) × (obs.quote_observed ≡ false))
    × (s ≢ settlement_not_executed)

receipt-IsTruthful :
    (receipt : Option SettlementReceiptProof) (obs : BoundaryObservation)
    → IsTruthful
        (with_receipt receipt
          (fork_status obs.local_fork_settlement_passed (observed_status obs))).status
        receipt
        obs
receipt-IsTruthful none obs = (
  (λ h. ground arith, λ h. ground arith),
  (λ h. ground arith, λ h. ground arith),
  (λ h. ground arith, λ h. ground arith),
  (λ h. ground arith, λ h. ground arith),
  (λ h. ground arith, λ h. ground arith),
  (λ h. ground arith, λ h. ground arith),
  λ h. ground arith,
)
receipt-IsTruthful (some p) obs = (
  (λ h. ground arith, λ h. ground arith),
  (λ h. ground arith, λ h. ground arith),
  (λ h. ground arith, λ h. ground arith),
  (λ h. ground arith, λ h. ground arith),
  (λ h. ground arith, λ h. ground arith),
  (λ h. ground arith, λ h. ground arith),
  λ h. ground arith,
)

-- The status is confirmed on the mainnet exactly with a receipt that proves a settlement. Without
-- one it is: executed on a local fork exactly when quote, structural check and fork settlement
-- were all observed; price guard passed, or structurally valid, exactly when quote and structural
-- check were and the fork settlement was not, with or without the price guard; observed, or not
-- observed, by the quote alone. It is never "settlement not executed".
pub classify_boundary-IsTruthful :
    (obs : BoundaryObservation) → IsTruthful (classify_boundary obs).status obs.mainnet_receipt obs
unfolding classify_boundary
classify_boundary-IsTruthful obs = receipt-IsTruthful obs.mainnet_receipt obs
