-- ===== src/Domain.antt =====
-- `internal/domain`: the edge's types, and what it computes without a port.
pub mod Failure
pub mod Runtime
pub mod Ratelimit
pub mod Ownership
pub mod Onboarding
pub mod Audit
pub mod Auth
pub mod Orgs
pub mod Flags
pub mod Services
