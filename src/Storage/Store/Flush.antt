-- ===== src/Storage/Store/Flush.antt =====
-- `write`, `flush_file` and `seal` of crates/dlp-storage/src/store.rs: the staged content of a file
-- becomes a new generation of records, and the selected pointer moves to it.
pub mod Pointer
pub mod Generation
pub mod Frames
pub mod Selected
pub mod Staged
pub mod Chunks
pub mod Records
pub mod ChunkRecords
pub mod Generated
pub mod Written
pub mod Untouched
pub mod Kept
use wdlp.Base.{
  ℕ, suc, ◌+◌, ◌*◌, ◌==◌, Bool, true, false, not, List, [], ◌∷◌, ◌++◌, length, any, reverse,
  is_empty, Option, none, some, if◌then◌else◌,
}
use wdlp.Base.Bytes.{Bytes, codes, bytes_eq}
use wdlp.Base.Maps.{Key, Map, text_key, get, insert, remove}
use wdlp.Base.Results.{ok, err, ok_or}
use wdlp.Crypto.Aead.{RecordKind, chunk, manifest, commit, RecordAad, AeadCipher, NonceTracker}
use wdlp.Storage.Errors.{StorageError, Outcome, not_found, io_failure, integrity_failure}
use wdlp.Storage.Format.{EncryptedRecordV1, EncryptedManifestV1, CommitRecordV1, format_version_v1}
use wdlp.Storage.Format.Manifest
use wdlp.Storage.Format.Commit
use wdlp.Storage.Format.Record.Sealing.{seal}
use wdlp.Storage.Store.{
  DurabilityFaultPoint, before_record_write, after_record_flush, before_manifest_write,
  after_manifest_flush, before_commit_write, after_commit_flush, before_pointer_replace,
  after_pointer_replace, before_directory_flush, after_directory_flush, FaultInjectingIo, DiskPath,
  chunk_rec, manifest_rec, commit_rec, selected_tmp, selected_commit, previous_commit, file_marker,
  Environment, World, Store, next_u64, Run, ◌>>=◌, ◌>>◌, continue, pure, raise, lift, modify,
  draw_nonce, system_call, exists, outside, tick,
}
use wdlp.Storage.Store.Disk.{put, write_all, write_record, rename_file, flush_directory_marker}

abbrev pub chunk_size : ℕ
chunk_size = 4 * 1024 * 1024

-- `data.chunks(size)`: `held` is the chunk being filled, backwards, and `n` its length.
unfoldable pub fill_chunks : ℕ → Bytes → ℕ → Bytes → List Bytes
fill_chunks size held n [] = if is_empty held then [] else reverse held ∷ []
fill_chunks size held n (b ∷ bs) =
    let full = n == size in
    let rest =
      fill_chunks size (if full then b ∷ [] else b ∷ held) (if full then 1 else suc n) bs in
    if full then reverse held ∷ rest else rest

abbrev pub chunks : Bytes → List Bytes
chunks = fill_chunks chunk_size [] 0

pub record CommitOutcome : Type 0 where
  pub generation : ℕ
  pub chunk_count : ℕ
  pub nonces : List Bytes
  pub trace : List Bytes

-- What the loop over the chunks carries.
pub record Progress : Type 0 where
  pub seen : NonceTracker
  pub nonce_list : List Bytes
  pub trace : List Bytes
  pub lengths : List ℕ

abbrev pub point_number : DurabilityFaultPoint → ℕ
point_number before_record_write = 0
point_number after_record_flush = 1
point_number before_manifest_write = 2
point_number after_manifest_flush = 3
point_number before_commit_write = 4
point_number after_commit_flush = 5
point_number before_pointer_replace = 6
point_number after_pointer_replace = 7
point_number before_directory_flush = 8
point_number after_directory_flush = 9

abbrev pub is_point : DurabilityFaultPoint → Option DurabilityFaultPoint → Bool
is_point point none = false
is_point point (some other) = point_number other == point_number point

-- `FaultInjectingIo::hit`: the fault at hand is spent.
unfoldable pub hit : DurabilityFaultPoint → Run Store (Unit {0})
hit point s =
    if is_point point s.fault_io.fault
    then (err s.fault_io.error, record s { fault_io = record (s.fault_io) { fault = none } })
    else (ok tt, s)

unfoldable pub write : Bytes → Bytes → Run Store (Unit {0})
write file bytes s = (ok tt, record s { staged = insert file bytes s.staged })

abbrev pub file_aad : Bytes → Bytes → ℕ → RecordKind → ℕ → ℕ → RecordAad
file_aad store_id file generation kind index plaintext_length = record {
  format_version = format_version_v1;
  store_id = store_id;
  file_id = file;
  generation = generation;
  record_kind = kind;
  chunk_index = index;
  plaintext_length = plaintext_length;
}

unfoldable pub fresh_generation : Run Store ℕ
fresh_generation s = (
  ok s.world.next_generation,
  record s { world = record (s.world) { next_generation = next_u64 (s.world.next_generation) } },
)

abbrev pub chunk_flush : Bytes
chunk_flush = codes "chunk-flush"

-- Even an empty file reaches the boundary of the staged records.
abbrev pub with_chunk_flush : List Bytes → List Bytes
with_chunk_flush trace =
    if any (bytes_eq chunk_flush) trace then trace else trace ++ (chunk_flush ∷ [])

module _ (env : Environment) where
  -- `fs::copy`: the source is read, and the target written like any file.
  abbrev pub copy_content : DiskPath → Option Bytes → Run World (Unit {0})
  copy_content target none w = (err io_failure, tick w)
  copy_content target (some bytes) w = (do system_call env; write_all env target bytes) w

  unfoldable pub copy_file : DiskPath → DiskPath → Run World (Unit {0})
  unfolding system_call write_all put
  copy_file source target w = copy_content target (w.disk source) w

  -- `fs::remove_file`
  unfoldable pub remove_file : DiskPath → Run World (Unit {0})
  unfolding system_call put
  remove_file path = do system_call env; modify (put path none)

  -- A pointer that is seen is copied before it is replaced.
  abbrev pub keep_if : Bytes → Bool → Run World (Unit {0})
  keep_if file false = pure tt
  keep_if file true = do
    copy_file (selected_commit file) (previous_commit file)
    flush_directory_marker env (file_marker file)

  unfoldable pub keep_prior : Bytes → Run World (Unit {0})
  keep_prior file = do there ← exists env (selected_commit file); keep_if file there

  abbrev pub drop_if : Bytes → Bool → Run World (Unit {0})
  drop_if file false = pure tt
  drop_if file true = remove_file (selected_commit file)

  unfoldable pub drop_selected : Bytes → Run World (Unit {0})
  drop_selected file = do there ← exists env (selected_commit file); drop_if file there

  unfoldable pub replace_pointer : Bytes → ℕ → EncryptedRecordV1 → Run World (Unit {0})
  replace_pointer file generation record_ = do
    write_record env (selected_tmp file generation) record_
    drop_selected file
    rename_file env (selected_tmp file generation) (selected_commit file)

module _ (aead : AeadCipher) (env : Environment) where
  abbrev pub refuse_duplicate :
      Bool → EncryptedRecordV1 × NonceTracker → Outcome (EncryptedRecordV1 × NonceTracker)
  refuse_duplicate forced made = if forced then err integrity_failure else ok made

  -- `LocalEncryptedStore::seal`, with the nonce that encryption draws
  unfoldable pub seal_record :
      Bytes → RecordAad → Bytes → NonceTracker → Run Store (EncryptedRecordV1 × NonceTracker)
  seal_record file aad plaintext seen = do
    nonce ← outside (draw_nonce env)
    made ← λ s. (seal aead s.key nonce aad plaintext seen, s)
    λ s. (refuse_duplicate (any (bytes_eq file) s.forced_duplicate) made, s)

  unfoldable pub write_chunk : Bytes → Bytes → ℕ → ℕ → Bytes → Progress → Run Store Progress
  write_chunk store_id file generation index bytes p = do
    made ←
        seal_record file (file_aad store_id file generation chunk index (length bytes)) bytes
          (p.seen)
    hit before_record_write
    outside (write_record env (chunk_rec file generation index) made.0)
    hit after_record_flush
    pure (record {
      seen = made.1;
      nonce_list = p.nonce_list ++ (made.0.nonce ∷ []);
      trace = p.trace ++ (chunk_flush ∷ []);
      lengths = p.lengths ++ (length bytes ∷ []);
    })

  unfoldable pub write_chunks : Bytes → Bytes → ℕ → ℕ → List Bytes → Progress → Run Store Progress
  write_chunks store_id file generation index [] p = pure p
  write_chunks store_id file generation index (bytes ∷ rest) p =
      write_chunk store_id file generation index bytes p >>= λ p'.
      write_chunks store_id file generation (suc index) rest p'

  -- The records of a generation: its chunks, its manifest and its commit, the last of which is
  -- returned with what the loop carried.
  unfoldable pub write_generation :
      Bytes → Bytes → ℕ → Bytes → Run Store (EncryptedRecordV1 × (Bytes × Progress))
  write_generation store_id file generation content = do
    outside (system_call env)
    p ←
        write_chunks store_id file generation 0 (chunks content)
          (record { seen = []; nonce_list = []; trace = []; lengths = [] })
    manifest_bytes ← lift (
        Manifest.encode (record {
          generation = generation;
          file_id = file;
          logical_length = length content;
          chunk_lengths = p.lengths;
        }))
    m ←
        seal_record file (file_aad store_id file generation manifest 0 (length manifest_bytes))
          manifest_bytes (p.seen)
    hit before_manifest_write
    outside (write_record env (manifest_rec file generation) m.0)
    hit after_manifest_flush
    commit_bytes ← lift (Commit.encode (record { generation = generation; file_id = file }))
    c ←
        seal_record file (file_aad store_id file generation commit 0 (length commit_bytes))
          commit_bytes m.1
    hit before_commit_write
    outside (write_record env (commit_rec file generation) c.0)
    hit after_commit_flush
    pure (c.0, (m.0.nonce, p))

  unfoldable pub publish_pointer : Bytes → ℕ → EncryptedRecordV1 → Run Store (Unit {0})
  publish_pointer file generation record_ = do
    outside (keep_prior env file)
    hit before_pointer_replace
    outside (replace_pointer env file generation record_)

  unfoldable pub flush_marker : Bytes → Run Store (Unit {0})
  flush_marker file = do
    hit after_pointer_replace
    hit before_directory_flush
    outside (flush_directory_marker env (file_marker file))
    hit after_directory_flush

  unfoldable pub finish_flush : Bytes → Run Store (Unit {0})
  finish_flush file = do flush_marker file; modify (λ t. record t { staged = remove file t.staged })

  unfoldable pub flush_content : Bytes → Bytes → Bytes → Run Store CommitOutcome
  flush_content store_id file content = do
    generation ← fresh_generation
    made ← write_generation store_id file generation content
    publish_pointer file generation made.0
    finish_flush file
    pure (record {
      generation = generation;
      chunk_count = length (made.1.1.lengths);
      nonces = made.1.1.nonce_list ++ (made.1.0 ∷ made.0.nonce ∷ []);
      trace =
          with_chunk_flush (made.1.1.trace)
          ++ (codes "manifest-flush"
              ∷ codes "commit-flush"
              ∷ codes "pointer-publish"
              ∷ codes "directory-flush"
              ∷ []);
    })

  abbrev pub flush_staged : Bytes → Option Bytes → Run Store CommitOutcome
  flush_staged file none s = (err not_found, s)
  flush_staged file (some content) s = flush_content s.store_id file content s

  -- A write that is to fail, fails once.
  abbrev pub flush_unless : Bytes → Bool → Run Store CommitOutcome
  flush_unless file true s = (err io_failure, record s { fail_next_write = false })
  flush_unless file false s = flush_staged file (get file s.staged) s

  unfoldable pub flush_file : Bytes → Run Store CommitOutcome
  unfolding flush_content
  flush_file file s = flush_unless file s.fail_next_write s
