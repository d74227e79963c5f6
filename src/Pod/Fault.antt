-- ===== src/Pod/Fault.antt =====
-- The codes that `fail` throws (errors.ts), and the outcome of code that may throw one.
use bps_protocol.Prelude.{Outcome}

pub data Code : Type 0 where
  invalid_integer negative_value bad_denominator invalid_address : Code
  conflicting_log ambiguous_order nonmonotonic_timestamp negative_balance lock_exceeds_balance :
      Code
  alloc_conservation alloc_overflow recon_conservation : Code
  empty_tree zero_leaf duplicate_entitlement proof_verification : Code
  epoch_boundary block_order snapshot_after_finalized claim_period : Code
  duplicate_exclusion duplicate_holder chain_mismatch transfer_out_of_epoch : Code
  unsupported_tier unsupported_duration bad_withdrawal duplicate_asset : Code
  -- what the schema's `parse` throws
  schema_violation : Code

abbrev pub Result {ℓ} : Type ℓ → Type ℓ
Result A = Outcome Code A
