-- ===== src/Storage.antt =====
-- crates/dlp-storage: the encrypted store's record formats, its virtual paths and its namespace.
pub mod Errors
pub mod Cursor
pub mod Format
pub mod Path
pub mod Store
