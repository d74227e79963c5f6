-- ===== src/Rialto/Tests.antt =====
-- Runs of the checks at concrete data.
mod Guard
mod Boundary
mod Execution
mod Registry
mod Settlement
mod Opaque
mod Preflight
