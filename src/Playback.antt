-- ===== src/Playback.antt =====
-- gateway/internal/playback: which mode a device plays a source in, from its probe evidence.
pub mod Runtime
pub mod Picture
pub mod Probe
pub mod Extended
pub mod Hls
pub mod Planner
pub mod Devices
pub mod Qualities
pub mod Cast
pub mod Adaptation
pub mod Tracks
mod Tests
