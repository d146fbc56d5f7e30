-- ===== src/Server.antt =====
-- The server that the SDK puts before a provider (sdk-go/provider).
pub mod Status
pub mod Branches
pub mod Recovery
pub mod Lob
pub mod Registry
pub mod Outcome
pub mod Features
pub mod Structure
pub mod Query
pub mod Expressions
mod Examples
