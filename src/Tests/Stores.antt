-- ===== src/Tests/Stores.antt =====
-- Runs of crates/dlp-storage/src/store.rs.
use wdlp.Base.{◌≡◌, ◌⊎◌, refl, true, false, [], some, none, arith, is_empty}
use wdlp.Base.Bytes.{bytes_eq, starts_with}
use wdlp.Base.BytesOrder.{before}
use wdlp.Base.Maps.{text_key, number_key, get, insert, remove, contains, any_value, any_key}
use wdlp.Base.Results.{ok, err}
use wdlp.Crypto.Aead.{encrypt, insert as insert_nonce}
use wdlp.Storage.Errors.{io_failure}
use wdlp.Storage.Format.Record
use wdlp.Storage.Format.Record.Sealing.{seal}
use wdlp.Domain.{parse_identifier}
use wdlp.Base.Decimal.{to_decimal}
use wdlp.Storage.Path.{split, init, join, parent_key, display_name}
use wdlp.Storage.Store.{
  system_call, FileEntry, DirectoryEntry, namespace_rec, Store, next_u64, tick,
}
use wdlp.Storage.Store.Disk.{write_record, write_bytes, rename_file, flush_directory_marker}
use wdlp.Storage.Store.Namespace.{publish_namespace, namespace_text, persist_namespace}
use wdlp.Storage.Store.Namespace.Durable.{Published, persist_namespace-atomic, persist_namespace-ok}
use wdlp.Storage.Store.Entries.{
  persist_or, require_parent, new_entry, open_handle, delete_file, delete_directory, is_directory,
  create_directory, create_or_open, close_handle, delete, on_path, blocks_delete, is_pending,
  has_below,
}
use wdlp.Storage.Store.Entries.Frames.{SameEntries}
use wdlp.Storage.Store.Entries.Named.{HasName, MadeAt, ParentThere}
use wdlp.Storage.Store.Namespace.Persisted.{IsPersisted}
use wdlp.Storage.Store.Entries.Creation.{create_directory-ok, create_directory-err}
use wdlp.Storage.Store.Entries.Deletion.{
  marked_pending, without_file, without_directory, delete-err, delete-ok_file, delete-ok_directory,
}
use wdlp.Storage.Store.Entries.Handles.{close_handle-ok}
use wdlp.Storage.Store.Entries.Opening.{Opened, create_or_open-ok, create_or_open-err}
use wdlp.Storage.Store.Entries.Invariant.{HandlesOnFiles}
use wdlp.Storage.Store.Entries.Reachable.{Steps, done, next, closes, deletes, Steps-HandlesOnFiles}
use wdlp.Tests.Values.{on_a, tagging, calm, broken, a_store, path_a, path_b, path_docs}

persist_namespace-atomic_example :
    ((persist_namespace tagging broken (a_store false true)).1.world.disk namespace_rec ≡ none)
    ⊎ Published tagging broken
        (a_store false true)
        (persist_namespace tagging broken (a_store false true)).1
persist_namespace-atomic_example = persist_namespace-atomic tagging broken (a_store false true)

persists : (persist_namespace tagging calm (a_store false true)).0 ≡ ok tt
unfolding persist_namespace publish_namespace seal encrypt insert_nonce write_record Record.encode
    namespace_text write_bytes rename_file flush_directory_marker
persists = refl

persist_namespace-ok_example :
    Published tagging calm
      (a_store false true)
      (persist_namespace tagging calm (a_store false true)).1
    × ((persist_namespace tagging calm (a_store false true)).1.namespace_generation ≡ 2)
persist_namespace-ok_example = persist_namespace-ok tagging calm (a_store false true) persists

makes : (create_directory tagging calm path_b (a_store false true)).0 ≡ ok tt
unfolding bytes_eq before display_name create_directory persist_or require_parent parent_key split
    init join contains get insert persist_namespace publish_namespace seal encrypt insert_nonce
    write_record Record.encode namespace_text write_bytes rename_file flush_directory_marker
makes = refl

create_directory-ok_example :
    (contains path_b.lookup (a_store false true).files ≡ false)
    × (contains path_b.lookup (a_store false true).directories ≡ false)
    × ParentThere (parent_key path_b) (a_store false true).directories
    × (entry : DirectoryEntry) × HasName path_b.display entry.display
    × MadeAt (calm.time 0) entry.metadata
    × IsPersisted tagging calm
        (record (a_store false true) {
          directories = insert path_b.lookup entry (a_store false true).directories;
          world = tick (a_store false true).world;
        })
        (create_directory tagging calm path_b (a_store false true)).1
create_directory-ok_example = create_directory-ok tagging calm path_b (a_store false true) makes

makes_not : (create_directory tagging broken path_b (a_store false true)).0 ≡ err io_failure
unfolding bytes_eq before display_name create_directory persist_or require_parent parent_key split
    init join contains get insert system_call persist_namespace publish_namespace seal encrypt
    insert_nonce write_record Record.encode namespace_text write_bytes rename_file
    flush_directory_marker
makes_not = refl

create_directory-err_example :
    SameEntries (a_store false true) (create_directory tagging broken path_b (a_store false true)).1
create_directory-err_example =
    create_directory-err tagging broken path_b (a_store false true) makes_not

creates_b : (create_or_open tagging calm path_b true false (a_store false true)).0 ≡ ok 2
unfolding bytes_eq before display_name create_or_open new_entry open_handle persist_or
    require_parent parent_key split init join contains get insert parse_identifier to_decimal
    persist_namespace publish_namespace seal encrypt insert_nonce write_record Record.encode
    namespace_text write_bytes rename_file flush_directory_marker
creates_b = refl

create_or_open-ok_example :
    (2 ≡ (a_store false true).world.next_handle)
    × Opened tagging calm path_b true
        (record (a_store false true) {
          handles =
              insert 2
                (record { path_key = path_b.lookup; allow_delete = false })
                (a_store false true).handles;
          world = record ((a_store false true).world) { next_handle = next_u64 2 };
        })
        (create_or_open tagging calm path_b true false (a_store false true)).1
create_or_open-ok_example =
    create_or_open-ok tagging calm path_b (a_store false true) true false creates_b

creates_not :
    (create_or_open tagging broken path_b true false (a_store false true)).0 ≡ err io_failure
unfolding bytes_eq before display_name create_or_open new_entry open_handle persist_or
    require_parent parent_key split init join contains get insert parse_identifier to_decimal
    system_call persist_namespace publish_namespace seal encrypt insert_nonce write_record
    Record.encode namespace_text write_bytes rename_file flush_directory_marker
creates_not = refl

create_or_open-err_example :
    SameEntries
      (a_store false true)
      (create_or_open tagging broken path_b true false (a_store false true)).1
create_or_open-err_example =
    create_or_open-err tagging broken path_b (a_store false true) true false creates_not

marks_a : (delete tagging calm path_a (a_store false true)).0 ≡ ok tt
unfolding delete is_directory delete_file contains get any_value bytes_eq persist_or
    persist_namespace publish_namespace seal encrypt insert_nonce write_record Record.encode
    namespace_text write_bytes rename_file flush_directory_marker
marks_a = refl

delete-ok_file_example :
    (entry : FileEntry) × (get path_a.lookup (a_store false true).files ≡ some entry)
    × (any_value (blocks_delete path_a.lookup) (a_store false true).handles ≡ false)
    × (((any_value (on_path path_a.lookup) (a_store false true).handles ≡ true)
          × ((delete tagging calm path_a (a_store false true)).1 ≡ record (a_store false true) {
            files = insert path_a.lookup (marked_pending entry) (a_store false true).files;
          }))
        ⊎ ((any_value (on_path path_a.lookup) (a_store false true).handles ≡ false)
            × SameEntries
                (without_file tagging calm path_a.lookup (a_store false true))
                (delete tagging calm path_a (a_store false true)).1
            × Published tagging calm
                (without_file tagging calm path_a.lookup (a_store false true))
                (delete tagging calm path_a (a_store false true)).1))
unfolding is_directory contains get bytes_eq
delete-ok_file_example = delete-ok_file tagging calm path_a (a_store false true) refl marks_a

deletes_not : (delete tagging broken path_a (a_store false false)).0 ≡ err io_failure
unfolding delete is_directory delete_file contains get any_value bytes_eq persist_or system_call
    persist_namespace publish_namespace seal encrypt insert_nonce write_record Record.encode
    namespace_text write_bytes rename_file flush_directory_marker remove
deletes_not = refl

delete-err_example :
    SameEntries (a_store false false) (delete tagging broken path_a (a_store false false)).1
delete-err_example = delete-err tagging broken path_a (a_store false false) deletes_not

abbrev bare_store : Store
bare_store = record (a_store false false) { files = [] }

deletes_docs : (delete tagging calm path_docs bare_store).0 ≡ ok tt
unfolding delete is_directory delete_directory contains get any_key starts_with bytes_eq persist_or
    remove persist_namespace publish_namespace seal encrypt insert_nonce write_record Record.encode
    namespace_text write_bytes rename_file flush_directory_marker
deletes_docs = refl

delete-ok_directory_example :
    (is_empty path_docs.lookup ≡ false)
    × (has_below path_docs.lookup bare_store ≡ false)
    × SameEntries
        (without_directory tagging calm path_docs.lookup bare_store)
        (delete tagging calm path_docs bare_store).1
    × Published tagging calm
        (without_directory tagging calm path_docs.lookup bare_store)
        (delete tagging calm path_docs bare_store).1
unfolding is_directory contains get bytes_eq
delete-ok_directory_example =
    delete-ok_directory tagging calm path_docs bare_store refl deletes_docs

closes_a : (close_handle tagging calm 1 (a_store true true)).0 ≡ ok tt
unfolding close_handle get remove any_value bytes_eq persist_or persist_namespace publish_namespace
    seal encrypt insert_nonce write_record Record.encode namespace_text write_bytes rename_file
    flush_directory_marker
closes_a = refl

close_handle-ok_example :
    ((is_pending (get path_a.lookup (a_store true true).files) ≡ true)
      × (any_value (on_path path_a.lookup) (remove 1 (a_store true true).handles) ≡ false)
      × IsPersisted tagging calm
          (record (a_store true true) {
            handles = remove 1 (a_store true true).handles;
            files = remove path_a.lookup (a_store true true).files;
          })
          (close_handle tagging calm 1 (a_store true true)).1)
    ⊎ (((is_pending (get path_a.lookup (a_store true true).files) ≡ false)
          ⊎ (any_value (on_path path_a.lookup) (remove 1 (a_store true true).handles) ≡ true))
        × ((close_handle tagging calm 1 (a_store true true)).1
            ≡ record (a_store true true) { handles = remove 1 (a_store true true).handles }))
unfolding get
close_handle-ok_example =
    close_handle-ok tagging calm 1 (a_store true true) {state = on_a} refl closes_a

closes_not : (close_handle tagging broken 1 (a_store true true)).0 ≡ err io_failure
unfolding close_handle get remove any_value bytes_eq persist_or system_call persist_namespace
    publish_namespace seal encrypt insert_nonce write_record Record.encode namespace_text
    write_bytes rename_file flush_directory_marker
closes_not = refl

pub a_store-HandlesOnFiles : HandlesOnFiles (a_store false true)
unfolding get contains bytes_eq
a_store-HandlesOnFiles handle state open_on = ground arith

deletes_and_closes :
    Steps tagging calm
      (a_store false true)
      (close_handle tagging calm 1 (delete tagging calm path_a (a_store false true)).1).1
deletes_and_closes =
    next (a_store false true) (delete tagging calm path_a (a_store false true)).1 _
      (deletes path_a (a_store false true))
      (next (delete tagging calm path_a (a_store false true)).1 _ _
        (closes 1 (delete tagging calm path_a (a_store false true)).1) (done _))

Steps-HandlesOnFiles_example :
    HandlesOnFiles
      (close_handle tagging calm 1 (delete tagging calm path_a (a_store false true)).1).1
Steps-HandlesOnFiles_example =
    Steps-HandlesOnFiles tagging calm (a_store false true)
      (close_handle tagging calm 1 (delete tagging calm path_a (a_store false true)).1).1
      deletes_and_closes a_store-HandlesOnFiles
