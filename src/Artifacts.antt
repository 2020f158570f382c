-- ===== src/Artifacts.antt =====
-- The uploads of private result files and their reconciliation with the store
-- (mnemex/results/artifact_lifecycle.py, over rows of mnemex/results/models.py).
pub mod Model
pub mod Lifecycle
pub mod Reconcile
pub mod Follows
pub mod Removal
pub mod Safety
pub mod Operations
pub mod History
pub mod Counts
mod Tests
