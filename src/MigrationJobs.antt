-- ===== src/MigrationJobs.antt =====
-- The durable APPLY queue of the bulk legacy migration (mnemex/legacy_migration/jobs.py): the
-- children hold the rows and the checks of a write, the claims, the settlements, and the proofs.
pub mod Model
pub mod Save
pub mod Claims
pub mod Queue
pub mod Enqueue
pub mod Settle
pub mod Legal
pub mod Advance
pub mod Ensures
pub mod Grants
pub mod Reach
pub mod Finality
pub mod Outcomes
pub mod Takeover
pub mod Requests
mod Tests
