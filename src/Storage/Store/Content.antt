-- ===== src/Storage/Store/Content.antt =====
-- `read`, `write_at` and what they use in crates/dlp-storage/src/store.rs: the content that a file's
-- pointer selects, and the changes staged over it. Memory is taken to suffice for a content: what
-- `resize` does when it cannot grow is not modelled.
pub mod Yields
pub mod ReadChunks
pub mod ReadPointer
pub mod ReadBack
pub mod Crash
use wdlp.Base.{
  ℕ, suc, ◌+◌, ◌-◌, ◌≤◌, ◌≡◌, refl, ◌==◌, Bool, false, not, ◌||◌, List, [], ◌∷◌, ◌++◌, length, take,
  drop, replicate, ltb, leb, Option, none, some, arith, if◌then◌else◌, take-append, drop-append,
  length-append, length-replicate, length-take_of_le, drop-nil_of_le, append_assoc, append-nil, sym,
  ap, ◌∙◌, Bool-cases, inl, inr,
}
use wdlp.Base.Bytes.{Bytes, bytes_eq}
use wdlp.Base.Reader.{usize_limit}
use wdlp.Base.Maps.{text_key, get, insert, get-insert_same}
use wdlp.Base.Results.{ok, err}
use wdlp.Crypto.Aead.{RecordKind, chunk, manifest, commit, as_byte, AeadCipher, NonceTracker}
use wdlp.Crypto.Aead.{insert as insert_nonce}
use wdlp.Storage.Errors.{StorageError, Outcome, not_found, io_failure, integrity_failure}
use wdlp.Storage.Format.{EncryptedRecordV1, EncryptedManifestV1, CommitRecordV1, format_version_v1}
use wdlp.Storage.Format.Record
use wdlp.Storage.Format.Manifest
use wdlp.Storage.Format.Commit
use wdlp.Storage.Format.Record.Sealing.{open_record, or_integrity_failure}
use wdlp.Storage.Store.{
  DiskPath, chunk_rec, manifest_rec, commit_rec, selected_commit, Environment, World, Store, Run,
  ◌>>=◌, ◌>>◌, pure, raise, lift, refuse_if, system_call, outside,
}
use wdlp.Storage.Store.Flush.{chunk_size}

abbrev pub foreign : Bytes → Bytes → RecordKind → ℕ → EncryptedRecordV1 → Bool
foreign store_id file kind index r =
    not (r.format_version == format_version_v1)
    || not (bytes_eq r.store_id store_id)
    || not (bytes_eq r.file_id file)
    || not (as_byte r.record_kind == as_byte kind)
    || not (r.chunk_index == index)

unfoldable pub ensure_identity :
    Bytes → Bytes → RecordKind → ℕ → EncryptedRecordV1 → Outcome (Unit {0})
ensure_identity store_id file kind index r =
    if foreign store_id file kind index r then err integrity_failure else ok tt

module _ (env : Environment) where
  -- A file that is there is opened and read, either of which may fail; opening one that is not there
  -- finds that out, or fails otherwise.
  abbrev pub read_found : Option Bytes → Run World EncryptedRecordV1
  read_found none w = (do system_call env; raise not_found) w
  read_found (some bytes) w = (do system_call env; system_call env; lift (Record.decode bytes)) w

  unfoldable pub read_record : DiskPath → Run World EncryptedRecordV1
  read_record path w = read_found (w.disk path) w

module _ (aead : AeadCipher) (env : Environment) (store_id key file : Bytes) where
  -- A record of the file, of a kind and an index, and what it holds.
  unfoldable pub read_own : DiskPath → RecordKind → ℕ → Run World EncryptedRecordV1
  read_own path kind index = do
    r ← read_record env path
    lift (ensure_identity store_id file kind index r)
    pure r

  abbrev pub open_commit : EncryptedRecordV1 → Outcome CommitRecordV1
  open_commit r = elim (open_record aead key r) [ ok bytes ↦ Commit.decode bytes | err e ↦ err e ]

  abbrev pub open_manifest : EncryptedRecordV1 → Outcome EncryptedManifestV1
  open_manifest r = elim (open_record aead key r) [
    | ok bytes ↦ Manifest.decode bytes
    | err e ↦ err e
  ]

  abbrev pub other_commit : CommitRecordV1 → CommitRecordV1 → Bool
  other_commit a b = not (a.generation == b.generation) || not (bytes_eq a.file_id b.file_id)

  unfoldable pub commit_generation : DiskPath → Run World ℕ
  unfolding read_own
  commit_generation pointer = do
    selected ← read_own pointer commit 0
    c ← lift (open_commit selected)
    refuse_if (not (bytes_eq (c.file_id) file)) integrity_failure
    pure (c.generation)

  unfoldable pub read_chunks : ℕ → ℕ → List ℕ → NonceTracker → Bytes → Run World Bytes
  unfolding read_own
  read_chunks generation index [] nonces out = pure out
  read_chunks generation index (amount ∷ rest) nonces out = do
    refuse_if (ltb chunk_size amount) integrity_failure
    r ← read_own (chunk_rec file generation index) chunk index
    refuse_if (not (r.generation == generation) || not (r.plaintext_length == amount))
        integrity_failure
    nonces' ← lift (or_integrity_failure (insert_nonce nonces (r.nonce)))
    bytes ← lift (open_record aead key r)
    read_chunks generation (suc index) rest nonces' (out ++ bytes)

  unfoldable pub read_from_pointer : DiskPath → Run World Bytes
  unfolding read_own read_chunks
  read_from_pointer pointer = do
    selected ← read_own pointer commit 0
    c ← lift (open_commit selected)
    refuse_if (not (bytes_eq (c.file_id) file)) integrity_failure
    committed_record ← read_own (commit_rec file (c.generation)) commit 0
    refuse_if (not (committed_record.generation == c.generation)) integrity_failure
    committed ← lift (open_commit committed_record)
    refuse_if (other_commit committed c) integrity_failure
    manifest_record ← read_own (manifest_rec file (c.generation)) manifest 0
    refuse_if (not (manifest_record.generation == c.generation)) integrity_failure
    m ← lift (open_manifest manifest_record)
    refuse_if (not (bytes_eq (m.file_id) file) || not (m.generation == c.generation))
        integrity_failure
    nonces ← lift (or_integrity_failure (insert_nonce [] (selected.nonce)))
    nonces' ← lift (or_integrity_failure (insert_nonce nonces (manifest_record.nonce)))
    out ← read_chunks (c.generation) 0 (m.chunk_lengths) nonces' []
    refuse_if (not (length out == m.logical_length)) integrity_failure
    pure out

-- `resize(end, 0)` where the content is shorter, and `copy_from_slice` over the range
abbrev pub extended : ℕ → Bytes → Bytes
extended end content =
    if ltb (length content) end then content ++ replicate (end - length content) 0 else content

unfoldable pub overlay : ℕ → Bytes → Bytes → Bytes
overlay offset bytes content =
    let grown = extended (offset + length bytes) content in
    take offset grown ++ (bytes ++ drop (offset + length bytes) grown)

abbrev pub or_read : Option Bytes → Outcome Bytes → Bytes
or_read (some staged) r = staged
or_read none (ok content) = content
or_read none (err e) = []

module _ (aead : AeadCipher) (env : Environment) where
  unfoldable pub read : Bytes → Run Store Bytes
  unfolding read_from_pointer
  read file s = outside (read_from_pointer aead env s.store_id s.key file (selected_commit file)) s

  -- The content is read and staged before the range is checked.
  unfoldable pub write_at : Bytes → ℕ → Bytes → Run Store (Unit {0})
  unfolding read overlay
  write_at file offset bytes s =
      let (r, t) = read file s in
      let content = or_read (get file t.staged) r in
      if leb usize_limit (offset + length bytes)
      then (err io_failure, record t { staged = insert file content t.staged })
      else (ok tt, record t { staged = insert file (overlay offset bytes content) t.staged })

extended-length : (end : ℕ) (content : Bytes) → end ≤ length (extended end content)
extended-length end content = ground (
  arith,
  length-append content (replicate (end - length content) 0),
  length-replicate {A = ℕ} (end - length content) 0,
)

extended-eq :
    (end : ℕ) (content : Bytes)
    → extended end content ≡ content ++ replicate (end - length content) 0
extended-eq end content = elim (Bool-cases (ltb (length content) end)) [
  | inl short ↦ rw short refl
  | inr long ↦
      let nothing : end - length content ≡ 0 = ground arith in
      rw (long, nothing) (sym (append-nil content))
]

drop-extended : (end : ℕ) (content : Bytes) → drop end (extended end content) ≡ drop end content
drop-extended end content = elim (Bool-cases (ltb (length content) end)) [
  | inl short ↦
      let size : length (content ++ replicate (end - length content) 0) ≡ end = ground (
        arith,
        length-append content (replicate (end - length content) 0),
        length-replicate {A = ℕ} (end - length content) 0,
      ) in
      rw short (
        drop-nil_of_le end (content ++ replicate (end - length content) 0) (omega (arith, size))
        ∙ sym (drop-nil_of_le end content (ground arith)))
  | inr long ↦ rw long refl
]

-- The content with the bytes at an offset: what is before them is as it was, with zeros where there
-- was nothing, and what is after them is as it was.
pub record Overlaid (offset : ℕ) (bytes base content : Bytes) : Type 0 where
  pub before :
      take offset content ≡ take offset (base ++ replicate (offset + length bytes - length base) 0)
  pub there : take (length bytes) (drop offset content) ≡ bytes
  pub after : drop (offset + length bytes) content ≡ drop (offset + length bytes) base

pub overlay-Overlaid :
    (offset : ℕ) (bytes content : Bytes)
    → Overlaid offset bytes content (overlay offset bytes content)
unfolding overlay
overlay-Overlaid offset bytes content =
    let end : ℕ = offset + length bytes in
    let grown = extended end content in
    let rest : Bytes = bytes ++ drop end grown in
    let enough : offset ≤ length grown = omega (arith, extended-length end content) in
    let size : length (take offset grown) ≡ offset = length-take_of_le offset grown enough in
    let dropped : drop offset (take offset grown ++ rest) ≡ rest =
      rw size at (drop-append (take offset grown) rest) in
    let both : length (take offset grown ++ bytes) ≡ end =
      length-append (take offset grown) bytes ∙ rw size refl in
    record {
      before =
          (rw size at (take-append (take offset grown) rest))
          ∙ ap (take offset) (extended-eq end content);
      there = rw dropped (take-append bytes (drop end grown));
      after =
          ap (drop end) (sym (append_assoc (take offset grown) bytes (drop end grown)))
          ∙ (rw both at (drop-append (take offset grown ++ bytes) (drop end grown)))
          ∙ drop-extended end content;
    }

-- What a write starts from: what is staged for the file, what can be read of it where nothing is, or
-- nothing where that cannot be read.
pub record StartsFrom (staged : Option Bytes) (r : Outcome Bytes) (base : Bytes) : Type 0 where
  pub from_staged : (content : Bytes) → staged ≡ some content → base ≡ content
  pub from_disk : (content : Bytes) → staged ≡ none → r ≡ ok content → base ≡ content
  pub from_nothing : (e : StorageError) → staged ≡ none → r ≡ err e → base ≡ []

or_read-StartsFrom :
    (staged : Option Bytes) (r : Outcome Bytes) → StartsFrom staged r (or_read staged r)
or_read-StartsFrom (some staged) r = record {
  from_staged = λ content e. cc;
  from_disk = λ content e. cc;
  from_nothing = λ e h. cc;
}
or_read-StartsFrom none (ok read) = record {
  from_staged = λ content e. cc;
  from_disk = λ content e h. cc;
  from_nothing = λ e h k. cc;
}
or_read-StartsFrom none (err why) = record {
  from_staged = λ content e. cc;
  from_disk = λ content e h. cc;
  from_nothing = λ e h k. refl;
}

module _ (aead : AeadCipher) (env : Environment) where
  pub write_at-staged :
      (file : Bytes) (offset : ℕ) (bytes : Bytes) (s : Store)
      → leb usize_limit (offset + length bytes) ≡ false
      → ((write_at aead env file offset bytes s).0 ≡ ok tt)
        × (base : Bytes) × StartsFrom (get file s.staged) (read aead env file s).0 base
        × (content : Bytes) × (get file (write_at aead env file offset bytes s).1.staged
            ≡ some content)
        × Overlaid offset bytes base content
  unfolding write_at read
  write_at-staged file offset bytes s fits =
      let (r, t) = read aead env file s in
      let base : Bytes = or_read (get file t.staged) r in
      rw fits (
        refl,
        base,
        or_read-StartsFrom (get file s.staged) (read aead env file s).0,
        overlay offset bytes base,
        get-insert_same file (overlay offset bytes base) t.staged,
        overlay-Overlaid offset bytes base,
      )
