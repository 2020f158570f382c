-- ===== src/Supervisor.antt =====
-- The supervisor of the worker queues (mnemex/supervisor.py): the children hold the loop with its
-- checks, and the proofs about it.
pub mod Model
pub mod Run
pub mod Log
pub mod Track
pub mod Schedule
mod Tests
