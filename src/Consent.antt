-- ===== src/Consent.antt =====
-- Consent to disclose a profile to a partner and to show it in public
-- (mnemex/consent/services.py).
pub mod Model
pub mod Services
pub mod Public
pub mod Authority
pub mod Current
pub mod Projection
pub mod Disclosure
pub mod Revocation
mod Tests
