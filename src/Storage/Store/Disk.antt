-- ===== src/Storage/Store/Disk.antt =====
-- Writing records to the disk: `write_record`, `fs::rename` and `flush_directory_marker` of
-- crates/dlp-storage/src/store.rs.
pub mod Laws
use wdlp.Base.{
  ℕ, ◌==◌, Bool, true, false, ◌&&◌, List, [], ◌∷◌, Option, none, some, take, if◌then◌else◌,
}
use wdlp.Base.Bytes.{Bytes, codes, bytes_eq}
use wdlp.Base.Results.{ok, err}
use wdlp.Storage.Errors.{StorageError, Outcome}
use wdlp.Storage.Format.{EncryptedRecordV1}
use wdlp.Storage.Format.Record
use wdlp.Storage.Store.{
  DiskPath, namespace_rec, namespace_marker, namespace_tmp, chunk_rec, manifest_rec, commit_rec,
  selected_tmp, selected_commit, previous_commit, file_marker, Environment, World, Run, ◌>>=◌, ◌>>◌,
  pure, lift, modify, system_call, tick, failed,
}

-- `==` on paths
unfoldable pub same_path : DiskPath → DiskPath → Bool
same_path namespace_rec namespace_rec = true
same_path namespace_marker namespace_marker = true
same_path (namespace_tmp g) (namespace_tmp h) = g == h
same_path (chunk_rec f g i) (chunk_rec f' g' i') = bytes_eq f f' && (g == g' && i == i')
same_path (manifest_rec f g) (manifest_rec f' g') = bytes_eq f f' && g == g'
same_path (commit_rec f g) (commit_rec f' g') = bytes_eq f f' && g == g'
same_path (selected_tmp f g) (selected_tmp f' g') = bytes_eq f f' && g == g'
same_path (selected_commit f) (selected_commit f') = bytes_eq f f'
same_path (previous_commit f) (previous_commit f') = bytes_eq f f'
same_path (file_marker f) (file_marker f') = bytes_eq f f'
same_path _ _ = false

unfoldable pub put : DiskPath → Option Bytes → World → World
unfolding same_path
put path content w = record w {
  disk = λ other. if same_path path other then content else w.disk other;
}

abbrev pub moved : DiskPath → DiskPath → World → World
moved source target w = put source none (put target (w.disk source) w)

module _ (env : Environment) where
  -- `write_all`: a failed write leaves a part of the bytes.
  unfoldable pub write_all : DiskPath → Bytes → Run World (Unit {0})
  unfolding put
  write_all path bytes w =
      let content : Bytes = elim (env.fault w.calls) [
        | none ↦ bytes
        | some e ↦ take (env.torn w.calls) bytes
      ] in
      (failed (env.fault w.calls), put path (some content) (tick w))

  -- `File::create`, `write_all`, `sync_all`
  unfoldable pub write_bytes : DiskPath → Bytes → Run World (Unit {0})
  unfolding write_all put system_call
  write_bytes path bytes = do
    system_call env
    modify (put path (some []))
    write_all path bytes
    system_call env

  unfoldable pub write_record : DiskPath → EncryptedRecordV1 → Run World (Unit {0})
  write_record path r = do bytes ← lift (Record.encode r); write_bytes path bytes

  -- `fs::rename`: the target is replaced in one step, or nothing happens.
  unfoldable pub rename_file : DiskPath → DiskPath → Run World (Unit {0})
  unfolding put system_call
  rename_file source target = do system_call env; modify (moved source target)

  unfoldable pub flush_directory_marker : DiskPath → Run World (Unit {0})
  flush_directory_marker marker = write_bytes marker (codes "v1")
