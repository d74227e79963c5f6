-- ===== src/Pod/Tests.antt =====
-- Runs of the model at concrete data.
mod Runs
mod Parts
mod Shares
mod Texts
