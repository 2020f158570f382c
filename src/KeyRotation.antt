-- ===== src/KeyRotation.antt =====
-- The rotation of the keys that seal MFA authenticators (mnemex/accounts/key_rotation.py): the
-- children hold the rows and the queue, the batches, the retirement of a key, and the proofs.
pub mod Model
pub mod Queue
pub mod Claiming
pub mod Batch
pub mod Retirement
pub mod Blockers
pub mod Versions
pub mod Reseal
pub mod Sweep
pub mod Progress
pub mod Completion
mod Tests
