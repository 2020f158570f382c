-- ===== src/Notifications.antt =====
-- The durable queue of security notifications (mnemex/accounts/notifications.py): the children hold
-- the rows, the operations of each stage, and what is proved of them.
pub mod Model
pub mod Claims
pub mod History
pub mod Edges
pub mod Follows
pub mod Evolution
pub mod Transitions
pub mod Validity
pub mod Fencing
pub mod Worker
pub mod Accounting
pub mod Selection
mod Tests
pub mod Settle
pub mod Retention
