-- ===== src/Cache/Examples.antt =====
-- Concrete runs of the cache (sdk-go/provider/cache).
mod Stored
mod Invalidated
mod Connected
mod Streamed
mod Configured
