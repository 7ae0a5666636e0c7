-- ===== src/Http/Handlers.antt =====
-- The route handlers of `internal/infrastructure/httpapi`.
pub mod Auth
pub mod Ownership
pub mod Onboarding
pub mod Encode
pub mod Orgs
pub mod Members
pub mod Static
pub mod Callers
pub mod Session
pub mod Exchange
pub mod Dispatch
pub mod Verification
pub mod Provisioning
