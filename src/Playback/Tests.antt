-- ===== src/Playback/Tests.antt =====
-- Runs and witnesses of the playback policy at one device, film and station.
mod Fixtures
mod Probes
mod Plans
mod Tiers
mod Grants
mod Samples
mod Languages
