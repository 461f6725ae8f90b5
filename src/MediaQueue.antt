-- ===== src/MediaQueue.antt =====
-- gateway/internal/mediaqueue/service.go: one bounded playlist that a phone sends, worked off by a
-- goroutine. Each method runs under the mutex and is one function here; the goroutine's sections
-- between two locks or blocking calls are the steps of `work`. The service keeps the current run at
-- the head of its runs: a replaced run's goroutine may still be ending, and only it touches that run.
pub mod Items
pub mod Worker
pub mod Service
pub mod Invariant
pub mod Interleave
pub mod Commands
pub mod Retry
mod Tests
