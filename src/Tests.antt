-- ===== src/Tests.antt =====
-- The theorems at concrete inputs.
pub mod Samples
pub mod Stores
pub mod Threads
pub mod Edge
pub mod Handlers
pub mod Traffic
pub mod Front
pub mod Tokens
