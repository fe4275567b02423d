-- ===== src/Drive.antt =====
-- crates/dlp-windows-drive/src: the parts of the Windows drive that do not call Windows.
pub mod Wildmatch
pub mod Status
