-- ===== src/Cache.antt =====
-- The query cache that wraps a provider (sdk-go/provider/cache).
pub mod Keys
pub mod Memory
pub mod State
pub mod Entities
pub mod Config
pub mod Connection
pub mod Client
pub mod Stream
mod Examples
