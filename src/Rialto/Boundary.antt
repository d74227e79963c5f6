-- ===== src/Rialto/Boundary.antt =====
-- boundary-status.ts: how far an acquisition got, from what was observed. The constant legal
-- remark is left out, and a note is the constructor that says which one it is.
pub mod Classified
use bps_protocol.Prelude.{Bool, not, ◌&&◌, Option, none, some, if◌then◌else◌}
use bps_protocol.Text.{Text}
use bps_protocol.Integer.{ℤ, pos, ltb_ℤ}
use bps_protocol.Pod.Schema.{is_hash32}

pub data RialtoBoundaryStatus : Type 0 where
  quote_not_observed quote_observed quote_structurally_valid : RialtoBoundaryStatus
  price_guard_passed settlement_not_executed : RialtoBoundaryStatus
  settlement_executed_local_fork_only mainnet_settlement_confirmed : RialtoBoundaryStatus

pub record SettlementReceiptProof : Type 0 where
  pub tx_hash : Text
  pub block_number : ℤ
  pub block_hash : Text
  pub acquisition_id : ℤ
  pub stock_received_raw : ℤ

pub record BoundaryObservation : Type 0 where
  pub quote_observed : Bool
  pub structural_validation_passed : Bool
  pub price_guard_passed : Bool
  pub local_fork_settlement_passed : Bool
  pub mainnet_receipt : Option SettlementReceiptProof

pub data BoundaryNote : Type 0 where
  not_executed_note local_fork_note mainnet_note malformed_receipt_note : BoundaryNote

pub record BoundaryStatusView : Type 0 where
  pub status : RialtoBoundaryStatus
  pub note : BoundaryNote

unfoldable pub is_proof : SettlementReceiptProof → Bool
is_proof p =
    is_hash32 p.tx_hash
    && is_hash32 p.block_hash
    && ltb_ℤ (pos 0) p.block_number
    && ltb_ℤ (pos 0) p.acquisition_id
    && ltb_ℤ (pos 0) p.stock_received_raw

-- The status after the first three tests.
abbrev pub observed_status : BoundaryObservation → RialtoBoundaryStatus
observed_status obs =
    if obs.quote_observed && obs.structural_validation_passed && obs.price_guard_passed
    then price_guard_passed
    else if obs.quote_observed && obs.structural_validation_passed
    then quote_structurally_valid
    else if obs.quote_observed
    then quote_observed
    else quote_not_observed

-- The test for a settlement on a local fork.
abbrev pub fork_status : Bool → RialtoBoundaryStatus → RialtoBoundaryStatus
fork_status passed price_guard_passed =
    if passed then settlement_executed_local_fork_only else price_guard_passed
fork_status passed quote_structurally_valid =
    if passed then settlement_executed_local_fork_only else quote_structurally_valid
fork_status passed status = status

abbrev pub note_of : RialtoBoundaryStatus → BoundaryNote
note_of settlement_executed_local_fork_only = local_fork_note
note_of mainnet_settlement_confirmed = mainnet_note
note_of _ = not_executed_note

abbrev pub with_receipt : Option SettlementReceiptProof → RialtoBoundaryStatus → BoundaryStatusView
with_receipt none status = record { status = status; note = note_of status }
with_receipt (some p) status =
    if not (is_proof p) then record { status = status; note = malformed_receipt_note } else record {
      status = mainnet_settlement_confirmed;
      note = note_of mainnet_settlement_confirmed;
    }

unfoldable pub classify_boundary : BoundaryObservation → BoundaryStatusView
classify_boundary obs =
    with_receipt obs.mainnet_receipt
      (fork_status obs.local_fork_settlement_passed (observed_status obs))
