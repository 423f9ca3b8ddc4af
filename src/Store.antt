-- ===== src/Store.antt =====
-- What the services share: the errors they throw, the database transaction, and the tables of
-- src/foundation-effects/foundation-effects.service.ts, of the idempotency records (the same five
-- lines in every repository) and of `consumeStepUpProof` in
-- src/access-control/access-authorization.repository.ts. The rows are those of one organization:
-- every query of the source has `organizationId` in its condition. An identifier (a UUID) is the
-- number of its row; a code that is only compared (a currency, a date) is a number too.
mod Errors
mod Effects
mod Idempotency
mod Replay
unfoldable pub use Errors.*
unfoldable pub use Effects.*
unfoldable pub use Idempotency.*
unfoldable pub use Replay.*
pub mod Proofs
mod Tests
