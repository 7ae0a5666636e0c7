-- ===== src/Service.antt =====
-- `internal/application`: the use cases.
pub mod Limits
pub mod Otp
pub mod Challenges
pub mod Claims
pub mod Audit
pub mod History
pub mod Passed
pub mod Threads
pub mod Wiring
