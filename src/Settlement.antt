-- ===== src/Settlement.antt =====
-- Collection and settlement: src/collection-and-settlement/settlement.service.ts and
-- settlement.repository.ts. This file has the tables; the children have the queries and updates of
-- the repository, the three commands of the service, and the proofs.
mod Tables
pub use Tables.*
pub mod Repository
pub mod Service
pub mod Confirm
pub mod Reverse
pub mod Request
pub mod Create
pub mod Items
pub mod Frame
pub mod Collection
mod Tests
