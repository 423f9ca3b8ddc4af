-- ===== src/Payment.antt =====
-- Payments: src/payments, with the effects that cashboxes and bank accounts give them.
mod Tables
unfoldable pub use Tables.*
pub mod Sources
pub mod Checks
pub mod Totals
pub mod Execute
pub mod Reversal
pub mod Reverse
pub mod Ledger
mod Tests
