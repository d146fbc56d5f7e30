-- ===== src/InMemory/Examples.antt =====
-- Concrete runs of the in-memory provider (providers/inmemory).
mod Data
mod Mutated
mod Queried
mod Read
