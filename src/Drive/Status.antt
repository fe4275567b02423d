-- ===== src/Drive/Status.antt =====
-- crates/dlp-windows-drive/src/status.rs: the status of an error of the store, as the 32 bits of it.
use wdlp.Base.{ℕ}
use wdlp.Storage.Errors.{
  StorageError, flush_not_durable, close_not_durable, integrity_failure, recovery_required,
  no_space, unavailable, not_found, io_failure, already_exists, sharing_violation, delete_pending,
}

abbrev pub to_ntstatus : StorageError → ℕ
to_ntstatus integrity_failure = 0xC000003E
to_ntstatus recovery_required = 0xC000003E
to_ntstatus no_space = 0xC000007F
to_ntstatus not_found = 0xC0000034
to_ntstatus already_exists = 0xC0000035
to_ntstatus sharing_violation = 0xC0000043
to_ntstatus delete_pending = 0xC0000056
to_ntstatus flush_not_durable = 0xC0000185
to_ntstatus close_not_durable = 0xC0000185
to_ntstatus unavailable = 0xC0000185
to_ntstatus io_failure = 0xC0000185
