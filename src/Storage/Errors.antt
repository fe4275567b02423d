-- ===== src/Storage/Errors.antt =====
-- crates/dlp-storage/src/lib.rs: the errors of the store.
use wdlp.Base.Results.{Result}

pub data StorageError : Type 0 where
  flush_not_durable close_not_durable integrity_failure recovery_required no_space : StorageError
  unavailable not_found io_failure already_exists sharing_violation delete_pending : StorageError

abbrev pub Outcome {ℓ} : Type ℓ → Type ℓ
Outcome A = Result StorageError A
