-- ===== src/Storage/Store/Namespace.antt =====
-- `persist_namespace` of crates/dlp-storage/src/store.rs: the text of the namespace, sealed as a
-- record and put in place of the old one.
pub mod Durable
pub mod Listed
pub mod Persisted
use wdlp.Base.{
  ℕ, ◌+◌, ◌^◌, ◌==◌, Bool, true, false, List, [], ◌∷◌, ◌++◌, length, leb, Option, none, some,
  if◌then◌else◌,
}
use wdlp.Base.Bytes.{Bytes, codes}
use wdlp.Base.Decimal.{to_decimal}
use wdlp.Base.Maps.{Map}
use wdlp.Base.Reader.{usize_limit}
use wdlp.Base.Results.{ok, err}
use wdlp.Crypto.Aead.{AeadCipher, RecordAad, manifest}
use wdlp.Storage.Errors.{StorageError, Outcome, io_failure}
use wdlp.Storage.Format.{format_version_v1}
use wdlp.Storage.Format.Record.Sealing.{seal}
use wdlp.Storage.Store.{
  EntryMetadata, FileEntry, DirectoryEntry, namespace_rec, namespace_marker, namespace_tmp,
  Environment, World, Store, Run, ◌>>=◌, ◌>>◌, pure, lift, draw_nonce, continue,
}
use wdlp.Storage.Store.Disk.{write_record, rename_file, flush_directory_marker}

abbrev pub tab : Bytes
tab = 9 ∷ []

abbrev pub newline : Bytes
newline = 10 ∷ []

abbrev pub header_v2 : Bytes
header_v2 = codes "dlp-namespace/v2" ++ newline

unfoldable pub times : EntryMetadata → Bytes
unfolding to_decimal
times m =
    to_decimal m.creation_time
    ++ (tab
        ++ (to_decimal m.last_access_time
            ++ (tab
                ++ (to_decimal m.last_write_time
                    ++ (tab ++ (to_decimal m.change_time ++ newline))))))

unfoldable pub directory_lines : Map Bytes DirectoryEntry → Bytes
unfolding times
directory_lines [] = []
directory_lines ((key, entry) ∷ m) =
    (codes "D" ++ (tab ++ (key ++ (tab ++ (entry.display ++ (tab ++ times entry.metadata))))))
    ++ directory_lines m

-- Entries that are pending deletion are left out.
unfoldable pub file_lines : Map Bytes FileEntry → Bytes
unfolding times
file_lines [] = []
file_lines ((key, entry) ∷ m) =
    let rest = file_lines m in
    if entry.delete_pending
    then rest
    else (codes "F"
        ++ (tab
            ++ (key
                ++ (tab
                    ++ (entry.file_id
                        ++ (tab ++ (entry.display ++ (tab ++ times entry.metadata))))))))
      ++ rest

unfoldable pub namespace_text : Store → Bytes
unfolding directory_lines file_lines
namespace_text s = header_v2 ++ (directory_lines s.directories ++ file_lines s.files)

abbrev pub namespace_file_id : Bytes
namespace_file_id = codes "namespace-index"

abbrev pub namespace_aad : Bytes → Bytes → ℕ → RecordAad
namespace_aad store_id plaintext generation = record {
  format_version = format_version_v1;
  store_id = store_id;
  file_id = namespace_file_id;
  generation = generation;
  record_kind = manifest;
  chunk_index = 0;
  plaintext_length = length plaintext;
}

module _ (aead : AeadCipher) (env : Environment) where
  -- What follows the choice of the generation.
  unfoldable pub publish_namespace : Bytes → Bytes → Bytes → ℕ → Run World (Unit {0})
  publish_namespace store_id key plaintext generation = do
    nonce ← draw_nonce env
    sealed ← lift (seal aead key nonce (namespace_aad store_id plaintext generation) plaintext [])
    write_record env (namespace_tmp generation) sealed.0
    rename_file env (namespace_tmp generation) namespace_rec
    flush_directory_marker env namespace_marker

  abbrev advance : Outcome (Unit {0}) → ℕ → ℕ → ℕ
  advance (ok _) generation old = generation
  advance (err _) generation old = old

  -- `checked_add(1)` fails at `u64::MAX`.
  unfoldable pub persist_namespace : Run Store (Unit {0})
  persist_namespace s =
      let generation : ℕ = s.namespace_generation + 1 in
      let (r, w) = publish_namespace s.store_id s.key (namespace_text s) generation s.world in
      if leb usize_limit generation then (err io_failure, s) else (
        r,
        record s { world = w; namespace_generation = advance r generation s.namespace_generation },
      )
