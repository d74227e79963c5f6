-- ===== src/Rialto/Tests/Boundary.antt =====
-- The status of an observation with a receipt that proves nothing.
use bps_protocol.Prelude.{true, false, some}
use bps_protocol.Integer.{pos}
use bps_protocol.Rialto.Boundary.{BoundaryObservation, classify_boundary}
use bps_protocol.Rialto.Boundary.Classified.{IsTruthful, classify_boundary-IsTruthful}
use bps_protocol.Pod.Samples.{hash_a}

abbrev observation : BoundaryObservation
observation = record {
  quote_observed = true;
  structural_validation_passed = true;
  price_guard_passed = true;
  local_fork_settlement_passed = false;
  mainnet_receipt = some (record {
    tx_hash = hash_a;
    block_number = pos 9;
    block_hash = hash_a;
    acquisition_id = pos 0;
    stock_received_raw = pos 5;
  });
}

classify_boundary-IsTruthful_example :
    IsTruthful (classify_boundary observation).status observation.mainnet_receipt observation
classify_boundary-IsTruthful_example = classify_boundary-IsTruthful observation
