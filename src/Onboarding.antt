-- ===== src/Onboarding.antt =====
-- packages/onboarding: applications from the draft to the active organisation.
pub mod Status
pub mod Journey
