-- ===== src/Pod.antt =====
-- The distribution engine, packages/shared/src/proof-of-distribution.
pub mod Fault
pub mod Numeric
pub mod Address
pub mod Epoch
pub mod Model
pub mod Transfers
pub mod Weights
pub mod Eligibility
pub mod Allocation
pub mod Reconciliation
pub mod Merkle
pub mod Schema
pub mod Validate
pub mod Pipeline
pub mod Samples
pub mod Tests
