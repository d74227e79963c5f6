-- ===== src/Rialto.antt =====
-- The guards of the settlement venue's quotes, packages/rialto.
pub mod PriceGuard
pub mod Boundary
pub mod QuoteExecution
pub mod Registry
pub mod Settlement
pub mod Preflight
pub mod Tests
