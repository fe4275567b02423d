-- ===== src/Tests.antt =====
-- Runs of the definitions of crates/ on concrete values.
pub mod Values
pub mod Formats
pub mod Policies
pub mod Paths
pub mod Stores
pub mod Renames
pub mod Flushes
pub mod Transfers
pub mod Drives
pub mod Caches
