-- ===== src/Trie.antt =====
-- The radix trie for dynamic routes (rapina/src/router/trie.rs): its arena and its operations.
-- An arena index that is out of range and a failed `assert!` are `none`, a panic.
pub mod Node
pub mod Pattern
pub mod Insert
pub mod Reorder
pub mod Lookup
pub mod Spelling
pub mod Invariant
pub mod Walk
pub mod Climb
pub mod Distinct
pub mod Correct
mod Tests
