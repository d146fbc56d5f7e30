-- ===== src/InMemory.antt =====
-- The in-memory provider (providers/inmemory).
pub mod Values
pub mod Numbers
pub mod Model
pub mod Expressions
pub mod Compare
pub mod Evaluate
pub mod Parse
pub mod Identifiers
pub mod Mutation
pub mod Sort
pub mod Ordering
pub mod Utf8
pub mod Lobs
pub mod Plan
pub mod Query
pub mod Stream
pub mod Validate
pub mod Grouped
pub mod Sample
mod Examples
