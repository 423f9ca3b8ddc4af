-- ===== src/Approval.antt =====
-- The approval of payments: src/payments/payment-approval.service.ts.
pub mod Decimals
pub mod Policy
pub mod Steps
pub mod Act
mod Tests
mod ActTests
