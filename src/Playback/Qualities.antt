-- ===== src/Playback/Qualities.antt =====
-- gateway/internal/playback/qualities.go: the renditions that a viewer can choose.
pub mod Tiers
pub mod Options
pub mod Selected
pub mod Evidence
pub mod Sound
pub mod Selection
pub mod Modes
