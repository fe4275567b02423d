-- ===== src/Storage/Store/Transfer.antt =====
-- `read_path`, `write_handle`, `read_handle`, `truncate_handle` and `flush_handle` of
-- crates/dlp-storage/src/store.rs: the content of a file by its path and by an open handle.
use wdlp.Base.{
  ℕ, ◌+◌, ◌-◌, ◌≡◌, refl, Bool, true, false, [], ◌++◌, length, take, replicate, leb, Option, none,
  some, if◌then◌else◌, Option-cases, inl, inr,
}
use wdlp.Base.Bytes.{Bytes}
use wdlp.Base.Reader.{usize_limit}
use wdlp.Base.Maps.{text_key, number_key, get, insert, contains}
use wdlp.Base.Results.{ok, err}
use wdlp.Crypto.Aead.{AeadCipher}
use wdlp.Storage.Errors.{Outcome, not_found}
use wdlp.Storage.Path.{VirtualPath}
use wdlp.Storage.Store.{
  FileEntry, HandleState, Environment, Store, Run, ◌>>=◌, ◌>>◌, pure, lift, modify, outside,
  current_filetime,
}
use wdlp.Storage.Store.Namespace.{persist_namespace}
use wdlp.Storage.Store.Entries.{touched}
use wdlp.Storage.Store.Entries.Listing.{handle_file}
use wdlp.Storage.Store.Flush.{write, flush_file}
use wdlp.Storage.Store.Content.{read, write_at, write_at-staged, StartsFrom, Overlaid}

abbrev pub path_key_of : Option HandleState → Outcome Bytes
path_key_of none = err not_found
path_key_of (some state) = ok state.path_key

abbrev pub handle_path_key : ℕ → Run Store Bytes
handle_path_key handle s = (path_key_of (get handle s.handles), s)

abbrev pub written : Bytes → FileEntry → ℕ → Store → Store
written key entry now t = record t {
  files =
      insert key
        (record entry {
          metadata = record (entry.metadata) { last_write_time = now; change_time = now };
        })
        t.files;
}

-- `Vec::resize(length, 0)`
abbrev pub resize : ℕ → Bytes → Bytes
resize size content = take size content ++ replicate (size - length content) 0

abbrev pub shown_file : Option FileEntry → Outcome Bytes
shown_file none = err not_found
shown_file (some entry) = if entry.delete_pending then err not_found else ok entry.file_id

module _ (env : Environment) where
  -- The times of the entry at a key, where there is one.
  abbrev pub mark_written_entry : Bytes → Option FileEntry → Run Store (Unit {0})
  mark_written_entry key none = pure tt
  mark_written_entry key (some entry) = do
    now ← outside (current_filetime env)
    modify (written key entry now)

  abbrev pub mark_written : Bytes → Run Store (Unit {0})
  mark_written key s = mark_written_entry key (get key s.files) s

  abbrev pub mark_read_entry : Bytes → Option FileEntry → Run Store (Unit {0})
  mark_read_entry key none = pure tt
  mark_read_entry key (some entry) = do
    now ← outside (current_filetime env)
    modify (touched key entry now)

  abbrev pub mark_read : Bytes → Run Store (Unit {0})
  mark_read key s = mark_read_entry key (get key s.files) s

module _ (aead : AeadCipher) (env : Environment) where
  unfoldable pub read_path : VirtualPath → Run Store Bytes
  read_path path s =
      (do
        file ← lift (shown_file (get path.lookup s.files))
        data_read ← read aead env file
        mark_read env (path.lookup)
        pure data_read)
        s

  unfoldable pub write_handle : ℕ → ℕ → Bytes → Run Store (Unit {0})
  write_handle handle offset bytes s =
      (do
        file ← lift (handle_file handle s)
        write_at aead env file offset bytes
        key ← handle_path_key handle
        mark_written env key)
        s

  unfoldable pub read_handle : ℕ → Run Store Bytes
  read_handle handle s =
      (do
        file ← lift (handle_file handle s)
        data_read ← read aead env file
        key ← handle_path_key handle
        mark_read env key
        pure data_read)
        s

  -- What is staged for a file or, where nothing is, what can be read of it.
  abbrev pub or_else_read : Bytes → Option Bytes → Run Store Bytes
  or_else_read file (some staged) s = (ok staged, s)
  or_else_read file none s = settled (read aead env file s)
    where
      settled : Outcome Bytes × Store → Outcome Bytes × Store
      settled (ok content, t) = (ok content, t)
      settled (err e, t) = (ok [], t)

  unfoldable pub truncate_handle : ℕ → ℕ → Run Store (Unit {0})
  truncate_handle handle size s =
      (do
        file ← lift (handle_file handle s)
        key ← handle_path_key handle
        content ← or_else_read file (get file s.staged)
        write file (resize size content)
        mark_written env key)
        s

  abbrev pub flush_where_staged : ℕ → Bytes → Bool → Run Store (Unit {0})
  flush_where_staged handle file false s = (ok tt, s)
  flush_where_staged handle file true s =
      (do flush_file aead env file; key ← handle_path_key handle; mark_written env key) s

  unfoldable pub flush_handle : ℕ → Run Store (Unit {0})
  flush_handle handle s =
      (do
        file ← lift (handle_file handle s)
        flush_where_staged handle file (contains file s.staged)
        persist_namespace aead env)
        s

module _ (aead : AeadCipher) (env : Environment) where
  mark_written-staged :
      (key : Bytes) (s : Store)
      → ((mark_written env key s).0 ≡ ok tt) × ((mark_written env key s).1.staged ≡ s.staged)
  mark_written-staged key s = elim (Option-cases (get key s.files)) [
    | inl missing ↦ rw missing (refl, refl)
    | inr (entry, found) ↦ rw found (refl, refl)
  ]

  write_at-handles :
      (file : Bytes) (offset : ℕ) (bytes : Bytes) (s : Store)
      → leb usize_limit (offset + length bytes) ≡ false
      → (write_at aead env file offset bytes s).1.handles ≡ s.handles
  unfolding write_at read
  write_at-handles file offset bytes s fits = rw fits refl

  handle_file-open :
      (handle : ℕ) (s : Store) {file : Bytes}
      → handle_file handle s ≡ ok file
      → (state : HandleState) × (get handle s.handles ≡ some state)
  unfolding handle_file
  handle_file-open handle s {file} on_file = elim (Option-cases (get handle s.handles)) [
    | inl missing ↦ let failing : err not_found ≡ ok file = rw missing at on_file in cc failing
    | inr open_on ↦ open_on
  ]

  -- Where memory suffices, writing a range that ends below 2^64 through a handle that is on a file
  -- succeeds. It stages for that file a content that has the bytes at the offset and is otherwise
  -- what it starts from, with zeros up to the offset where that is shorter. It starts from what is
  -- staged for the file; where nothing is, from what can be read of the file on the disk; and from
  -- the empty content where the reading fails, for whatever reason.
  pub write_handle-staged :
      (handle offset : ℕ) (bytes : Bytes) (s : Store) {file : Bytes}
      → handle_file handle s ≡ ok file
      → leb usize_limit (offset + length bytes) ≡ false
      → ((write_handle aead env handle offset bytes s).0 ≡ ok tt)
        × (base : Bytes) × StartsFrom (get file s.staged) (read aead env file s).0 base
        × (content : Bytes) × (get file (write_handle aead env handle offset bytes s).1.staged
            ≡ some content)
        × Overlaid offset bytes base content
  unfolding write_handle
  write_handle-staged handle offset bytes s {file} on_file fits =
      let t : Store = (write_at aead env file offset bytes s).1 in
      let (done, base, start, content, staged, overlaid) =
        write_at-staged aead env file offset bytes s fits in
      let (state, open_on) = handle_file-open handle s on_file in
      let still_open : get handle t.handles ≡ some state =
        rw (write_at-handles file offset bytes s fits) open_on in
      let (marked, kept) = mark_written-staged state.path_key t in
      rw (on_file, done, still_open) (marked, base, start, content, rw kept staged, overlaid)
