-- ===== src/Tests/Renames.antt =====
-- Runs of the renaming, and of the questions asked, in crates/dlp-storage/src/store.rs.
use wdlp.Base.{ℕ, ◌≡◌, refl, true, false, some, none}
use wdlp.Base.Bytes.{Bytes, bytes_eq, starts_with}
use wdlp.Base.BytesOrder.{before}
use wdlp.Base.Maps.{Map, text_key, number_key, get, insert, remove, contains, any_value, any_key}
use wdlp.Base.Results.{ok, err}
use wdlp.Crypto.Aead.{encrypt, insert as insert_nonce}
use wdlp.Storage.Errors.{not_found, sharing_violation}
use wdlp.Storage.Format.Record
use wdlp.Storage.Format.Record.Sealing.{seal}
use wdlp.Storage.Path.{split, init, join, parent_key, display_name}
use wdlp.Storage.Store.{FileEntry, HandleState, tick}
use wdlp.Storage.Store.Disk.{write_record, write_bytes, rename_file, flush_directory_marker}
use wdlp.Storage.Store.Namespace.{publish_namespace, namespace_text, persist_namespace}
use wdlp.Storage.Store.Entries.{persist_or, require_parent, delete_file, is_directory, delete}
use wdlp.Storage.Store.Entries.Listing.{ensure_delete_allowed}
use wdlp.Storage.Store.Entries.Renaming.{rename, rename_file_or_directory, rekey}
use wdlp.Storage.Store.Entries.Named.{HasName, ParentThere}
use wdlp.Storage.Store.Entries.Rekeyed.{HandlesMoved}
use wdlp.Storage.Store.Namespace.Persisted.{IsPersisted}
use wdlp.Storage.Store.Entries.FileRenaming.{rename-ok, rename_itself}
use wdlp.Tests.Values.{a_file, tagging, calm, a_store, path_a, path_b, path_docs}

renames_a : (rename tagging calm path_a path_b false (a_store false true)).0 ≡ ok tt
unfolding rename rename_file_or_directory rekey is_directory require_parent parent_key split init
    join contains get insert remove bytes_eq before persist_or display_name any_value delete
    delete_file persist_namespace publish_namespace seal encrypt insert_nonce write_record
    Record.encode namespace_text write_bytes rename_file flush_directory_marker
renames_a = refl

rename-ok_example :
    (entry : FileEntry) × (get path_a.lookup (a_store false true).files ≡ some entry)
    × (entry.delete_pending ≡ false)
    × (get path_b.lookup (a_store false true).files ≡ none)
    × ParentThere (parent_key path_b) (a_store false true).directories
    × (name : Bytes) × HasName path_b.display name
    × (handles : Map ℕ HandleState) × HandlesMoved path_a.lookup path_b.lookup
        (a_store false true).handles
        handles
    × IsPersisted tagging calm
        (record (a_store false true) {
          files =
              insert path_b.lookup
                (record entry {
                  display = name;
                  metadata = record (entry.metadata) { change_time = calm.time 0 };
                })
                (remove path_a.lookup (a_store false true).files);
          handles = handles;
          world = tick (a_store false true).world;
        })
        (rename tagging calm path_a path_b false (a_store false true)).1
unfolding is_directory contains get bytes_eq
rename-ok_example = rename-ok tagging calm path_a path_b (a_store false true) refl renames_a

deletes_a : (delete tagging calm path_a (a_store false false)).0 ≡ ok tt
unfolding delete is_directory delete_file contains get any_value bytes_eq persist_or remove
    persist_namespace publish_namespace seal encrypt insert_nonce write_record Record.encode
    namespace_text write_bytes rename_file flush_directory_marker
deletes_a = refl

rename_itself_example :
    ((rename tagging calm path_a path_a true (a_store false false)).0 ≡ err not_found)
    × (get path_a.lookup (rename tagging calm path_a path_a true (a_store false false)).1.files
        ≡ none)
unfolding is_directory parent_key split init join contains get bytes_eq any_value
rename_itself_example =
    rename_itself tagging calm path_a (a_store false false) refl refl {entry = a_file false} refl
      refl refl deletes_a

refuses_docs : ensure_delete_allowed path_docs (a_store false true) ≡ err sharing_violation
unfolding ensure_delete_allowed is_directory contains get any_key starts_with bytes_eq
refuses_docs = refl
