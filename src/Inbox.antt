-- ===== src/Inbox.antt =====
-- gateway/internal/receivers/inbox: one armed receiver with optional sender handoff.
pub mod Selection
pub mod Service
pub mod Snapshot
pub mod Interleave
pub mod Sessions
pub mod Choice
pub mod Fence
pub mod Lease
mod Tests
