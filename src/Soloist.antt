-- ===== src/Soloist.antt =====
-- gateway/internal/worker/soloist_state.go: the state of one Soloist audio receiver, as reduced
-- from its events. The frames arrive here as parsed events.
pub mod Model
pub mod Position
pub mod Reducer
pub mod Control
pub mod Steps
pub mod Waits
pub mod Login
pub mod Refusals
mod Tests
