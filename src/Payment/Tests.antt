-- ===== src/Payment/Tests.antt =====
-- Payments on a small database: tests, and the theorems applied to concrete runs.
mod Fixtures
mod Execute
mod Reverse
mod Ledger
