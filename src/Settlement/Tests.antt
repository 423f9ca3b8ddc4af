-- ===== src/Settlement/Tests.antt =====
-- Settlement on a small database: tests, and the theorems applied to concrete runs.
mod Fixtures
mod Confirm
mod Reverse
mod Replay
mod Create
mod Collection
