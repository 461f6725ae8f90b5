-- ===== src/Playback/Planner.antt =====
-- gateway/internal/playback/planner.go: the playback mode of a source on a device.
-- The several reads of the clock in one call of the source are one time `now` here.
pub mod Codecs
pub mod Local
pub mod Live
pub mod Evidence
pub mod Direct
pub mod Events
pub mod Sources
