-- ===== src/Companion.antt =====
-- gateway/internal/companion: phones that a television has let in, and the commands they send.
pub mod Model
pub mod Expiry
pub mod Remote
pub mod Pairing
pub mod Decide
pub mod Onboarding
pub mod Joining
pub mod Consent
pub mod Verdict
mod Tests
