-- ===== src/Storage/Format/Record/Sealing.antt =====
-- Sealing and opening a record (`EncryptedRecordV1::seal` and `open`).
use wdlp.Base.{◌-◌, not, ◌||◌, length, ltb, ◌==◌}
use wdlp.Base.Bytes.{Bytes}
use wdlp.Base.Results.{Result, ok, err, ◌>>=◌, ◌>>◌, refuse}
use wdlp.Base.Reader.{usize_limit}
use wdlp.Crypto.Aead.{RecordAad, AeadCipher, encrypt, decrypt, NonceTracker, insert}
use wdlp.Storage.Errors.{integrity_failure, Outcome}
use wdlp.Storage.Format.{EncryptedRecordV1, format_version_v1}
use wdlp.Storage.Format.Record.{aad}

abbrev pub sealed_record : RecordAad → Bytes → Bytes → EncryptedRecordV1
sealed_record a nonce ciphertext = record {
  format_version = a.format_version;
  store_id = a.store_id;
  file_id = a.file_id;
  generation = a.generation;
  record_kind = a.record_kind;
  chunk_index = a.chunk_index;
  plaintext_length = a.plaintext_length;
  nonce = nonce;
  ciphertext = ciphertext;
}

-- `map_err(|_| StorageError::IntegrityFailure)`
abbrev pub or_integrity_failure {ℓ κ} : {E : Type ℓ} {A : Type κ} → Result E A → Outcome A
or_integrity_failure (ok a) = ok a
or_integrity_failure (err e) = err integrity_failure

module _ (aead : AeadCipher) (key : Bytes) where
  -- `seal`, given the nonce drawn; the tracker comes back beside the record.
  unfoldable pub seal :
      Bytes → RecordAad → Bytes → NonceTracker → Outcome (EncryptedRecordV1 × NonceTracker)
  seal drawn a plaintext nonces = do
    sealed ← or_integrity_failure (encrypt aead key drawn a plaintext)
    nonces' ← or_integrity_failure (insert nonces sealed.0)
    ok (sealed_record a sealed.0 sealed.1, nonces')

  -- `open`; u64 values never pass `usize::MAX`, so that test is false on a 64-bit target.
  unfoldable pub open_record : EncryptedRecordV1 → Outcome Bytes
  open_record r = do
    refuse (not (r.format_version == format_version_v1) || ltb (usize_limit - 1) r.plaintext_length)
        integrity_failure
    plaintext ← or_integrity_failure (decrypt aead key (aad r) r.nonce r.ciphertext)
    refuse (not (length plaintext == r.plaintext_length)) integrity_failure
    ok plaintext
