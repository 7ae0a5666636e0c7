-- ===== src/Http.antt =====
-- `internal/infrastructure/httpapi`: the REST edge.
pub mod Names
pub mod Message
pub mod Response
pub mod Client
pub mod Limits
pub mod Handlers
pub mod Tokens
pub mod Routes
pub mod Beside
pub mod Effects
pub mod Answers
pub mod Front
pub mod Server
pub mod Refusal
