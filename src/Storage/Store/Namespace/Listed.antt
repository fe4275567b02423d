-- ===== src/Storage/Store/Namespace/Listed.antt =====
-- The text of the namespace file of crates/dlp-storage/src/store.rs, described line by line: a header,
-- then a line for each directory and a line for each file that is not pending deletion; a line is its
-- fields with tabs between them.
use wdlp.Base.{
  ◌≡◌, refl, ap, ◌∙◌, sym, List, [], ◌∷◌, ◌++◌, map, append_assoc, Bool-cases, inl, inr,
  if◌then◌else◌,
}
use wdlp.Base.Bytes.{Bytes, codes}
use wdlp.Base.Decimal.{to_decimal}
use wdlp.Base.Maps.{Map}
use wdlp.Storage.Path.{join}
use wdlp.Storage.Store.{EntryMetadata, FileEntry, DirectoryEntry, Store}
use wdlp.Storage.Store.Namespace.{times, directory_lines, file_lines, namespace_text}

-- Fields, and the tab and newline that end them
abbrev pub line : List Bytes → Bytes
line fields = join (9 ∷ []) fields ++ (10 ∷ [])

abbrev pub time_fields : EntryMetadata → List Bytes
time_fields m =
    to_decimal m.creation_time
    ∷ to_decimal m.last_access_time
    ∷ to_decimal m.last_write_time
    ∷ to_decimal m.change_time
    ∷ []

abbrev pub directory_fields : Bytes × DirectoryEntry → List Bytes
directory_fields (key, entry) = codes "D" ∷ key ∷ entry.display ∷ time_fields entry.metadata

abbrev pub file_fields : Bytes × FileEntry → List Bytes
file_fields (key, entry) =
    codes "F" ∷ key ∷ entry.file_id ∷ entry.display ∷ time_fields entry.metadata

abbrev pub kept_files : Map Bytes FileEntry → Map Bytes FileEntry
kept_files [] = []
kept_files ((key, entry) ∷ m) =
    if entry.delete_pending then kept_files m else (key, entry) ∷ kept_files m

abbrev pub lines : List (List Bytes) → Bytes
lines [] = []
lines (fields ∷ rest) = line fields ++ lines rest

-- The text that names every directory and every file that is not pending deletion
abbrev pub listed : Store → Bytes
listed s =
    (codes "dlp-namespace/v2" ++ (10 ∷ []))
    ++ lines (map directory_fields s.directories ++ map file_fields (kept_files s.files))

lines-append : (a b : List (List Bytes)) → lines (a ++ b) ≡ lines a ++ lines b
lines-append [] b = refl
lines-append (fields ∷ a) b =
    ap (λ t. line fields ++ t) (lines-append a b)
    ∙ sym (append_assoc (line fields) (lines a) (lines b))

directory_lines-lines :
    (m : Map Bytes DirectoryEntry) → directory_lines m ≡ lines (map directory_fields m)
unfolding directory_lines times join
directory_lines-lines [] = refl
directory_lines-lines ((key, entry) ∷ m) = simp (append_assoc, directory_lines-lines m)

file_lines-lines : (m : Map Bytes FileEntry) → file_lines m ≡ lines (map file_fields (kept_files m))
unfolding file_lines times join
file_lines-lines [] = refl
file_lines-lines ((key, entry) ∷ m) = elim (Bool-cases entry.delete_pending) [
  | inl pending ↦ rw pending (file_lines-lines m)
  | inr shown ↦ rw shown (simp (append_assoc, file_lines-lines m))
]

-- The text that is sealed is the one described.
pub namespace_text-listed : (s : Store) → namespace_text s ≡ listed s
unfolding namespace_text
namespace_text-listed s =
    ap (λ t. codes "dlp-namespace/v2" ++ (10 ∷ t))
      (rw (directory_lines-lines s.directories, file_lines-lines s.files)
        (sym (
          lines-append (map directory_fields s.directories)
            (map file_fields (kept_files s.files)))))
