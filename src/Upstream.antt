-- ===== src/Upstream.antt =====
-- `internal/infrastructure/auth`: the adapter for orbit-auth.
pub mod Status
pub mod Convert
pub mod Client
pub mod Orgs
pub mod Flags
pub mod Services
pub mod Dial
