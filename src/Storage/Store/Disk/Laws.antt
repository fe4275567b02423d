-- ===== src/Storage/Store/Disk/Laws.antt =====
-- What a write leaves on the disk, whichever of its system calls fails.
use wdlp.Base.{◌≡◌, refl, true, false, some, arith, ◌⊎◌, inl, inr, Option-cases}
use wdlp.Base.Bytes.{Bytes}
use wdlp.Base.Results.{ok, err}
use wdlp.Storage.Errors.{Outcome}
use wdlp.Storage.Format.{EncryptedRecordV1}
use wdlp.Storage.Format.Record
use wdlp.Storage.Store.{DiskPath, Environment, World, continue}
use wdlp.Storage.Store.Disk.{
  same_path, write_bytes, write_record, rename_file, flush_directory_marker,
}

module _ (env : Environment) where
  pub write_bytes-other :
      (path other : DiskPath) (bytes : Bytes) (w : World)
      → same_path path other ≡ false
      → (write_bytes env path bytes w).1.disk other ≡ w.disk other
  unfolding write_bytes
  write_bytes-other path other bytes w h = ground arith

  pub write_bytes-ok :
      (path : DiskPath) (bytes : Bytes) (w : World)
      → same_path path path ≡ true
      → (write_bytes env path bytes w).0 ≡ ok tt
      → (write_bytes env path bytes w).1.disk path ≡ some bytes
  unfolding write_bytes
  write_bytes-ok path bytes w h e = ground arith

  write_encoded-other :
      (encoded : Outcome Bytes) (path other : DiskPath) (w : World)
      → same_path path other ≡ false
      → (continue encoded (write_bytes env path) w).1.disk other ≡ w.disk other
  write_encoded-other (ok bytes) path other w h = write_bytes-other path other bytes w h
  write_encoded-other (err e) path other w h = refl

  write_encoded-ok :
      (encoded : Outcome Bytes) (path : DiskPath) (w : World)
      → same_path path path ≡ true
      → (continue encoded (write_bytes env path) w).0 ≡ ok tt
      → (bytes : Bytes) × (encoded ≡ ok bytes)
        × ((continue encoded (write_bytes env path) w).1.disk path ≡ some bytes)
  write_encoded-ok (ok bytes) path w h e = (bytes, refl, write_bytes-ok path bytes w h e)
  write_encoded-ok (err x) path w h e = cc

  pub write_record-other :
      (path other : DiskPath) (r : EncryptedRecordV1) (w : World)
      → same_path path other ≡ false
      → (write_record env path r w).1.disk other ≡ w.disk other
  unfolding write_record
  write_record-other path other r w h = write_encoded-other (Record.encode r) path other w h

  -- A record that was written is on the disk as it is encoded.
  pub write_record-ok :
      (path : DiskPath) (r : EncryptedRecordV1) (w : World)
      → same_path path path ≡ true
      → (write_record env path r w).0 ≡ ok tt
      → (bytes : Bytes) × (Record.encode r ≡ ok bytes)
        × ((write_record env path r w).1.disk path ≡ some bytes)
  unfolding write_record
  write_record-ok path r w h e = write_encoded-ok (Record.encode r) path w h e

  -- A file that is renamed takes the target's place; if the call fails, nothing moves.
  pub rename_file-cases :
      (source target : DiskPath) (w : World)
      → same_path target target ≡ true
      → same_path source target ≡ false
      → (((rename_file env source target w).0 ≡ ok tt)
          × ((rename_file env source target w).1.disk target ≡ w.disk source))
        ⊎ ((rename_file env source target w).1.disk target ≡ w.disk target)
  unfolding rename_file
  rename_file-cases source target w h k = elim (Option-cases (env.fault w.calls)) [
    | inl none_failed ↦ inl (ground arith, ground arith)
    | inr (e, some_failed) ↦ inr (ground arith)
  ]

  pub rename_file-ok :
      (source target : DiskPath) (w : World)
      → same_path target target ≡ true
      → same_path source target ≡ false
      → (rename_file env source target w).0 ≡ ok tt
      → (rename_file env source target w).1.disk target ≡ w.disk source
  unfolding rename_file
  rename_file-ok source target w h k e = ground arith

  pub flush_directory_marker-other :
      (marker other : DiskPath) (w : World)
      → same_path marker other ≡ false
      → (flush_directory_marker env marker w).1.disk other ≡ w.disk other
  unfolding flush_directory_marker
  flush_directory_marker-other marker other w h = write_bytes-other marker other _ w h

  pub rename_file-other :
      (source target other : DiskPath) (w : World)
      → same_path source other ≡ false
      → same_path target other ≡ false
      → (rename_file env source target w).1.disk other ≡ w.disk other
  unfolding rename_file
  rename_file-other source target other w h k = ground arith
