-- ===== src/MigrationChunks.antt =====
-- The chunks of a bulk migration (`_planned_chunks` of mnemex/legacy_migration/services.py): the
-- children hold the partition and the proofs about it.
pub mod Model
pub mod Partition
mod Tests
