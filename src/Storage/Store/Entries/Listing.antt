-- ===== src/Storage/Store/Entries/Listing.antt =====
-- `read_directory`, `ensure_delete_allowed` and `entry_metadata` of
-- crates/dlp-storage/src/store.rs, which change nothing in the namespace.
use wdlp.Base.{
  ap, ℕ, ◌≡◌, refl, ◌==◌, Bool, false, not, ◌&&◌, List, [], ◌∷◌, ◌++◌, length, drop, is_empty, all,
  Option, none, some, if◌then◌else◌, Bool-cases, Option-cases, inl, inr,
}
use wdlp.Base.Bytes.{Bytes, starts_with}
use wdlp.Base.BytesOrder.{before}
use wdlp.Base.Maps.{Map, text_key, number_key, get, contains, any_value, is_some}
use wdlp.Base.Results.{ok, err}
use wdlp.Crypto.Aead.{AeadCipher}
use wdlp.Storage.Errors.{StorageError, Outcome, not_found, sharing_violation}
use wdlp.Storage.Path.{VirtualPath, to_ascii_lowercase}
use wdlp.Storage.Store.{
  EntryMetadata, FileEntry, DirectoryEntry, HandleState, Environment, Store, Run, current_filetime,
  outside,
}
use wdlp.Storage.Store.Entries.Invariant.{HandlesOnFiles}
use wdlp.Storage.Store.Entries.{
  is_directory, below, blocks_delete, has_below, stamped, delete, delete_file, delete_directory,
}

-- What `direct_child(key, prefix)` tests
unfoldable pub direct_child : Bytes → Bytes → Bool
direct_child key prefix =
    let remainder = drop (length prefix) key in
    starts_with prefix key && (not (is_empty remainder) && all (λ b. not (b == b'/')) remainder)

unfoldable pub directory_names : Bytes → Map Bytes DirectoryEntry → List Bytes
directory_names prefix [] = []
directory_names prefix ((key, entry) ∷ m) =
    let rest = directory_names prefix m in
    if direct_child key prefix then entry.display ∷ rest else rest

unfoldable pub file_names : Bytes → Map Bytes FileEntry → List Bytes
file_names prefix [] = []
file_names prefix ((key, entry) ∷ m) =
    let rest = file_names prefix m in
    if not entry.delete_pending && direct_child key prefix then entry.display ∷ rest else rest

-- `sort_by_key(|value| value.to_ascii_lowercase())`, which is stable
unfoldable pub place_name : Bytes → List Bytes → List Bytes
place_name x [] = x ∷ []
place_name x (y ∷ ys) =
    if before (to_ascii_lowercase y) (to_ascii_lowercase x) then y ∷ place_name x ys else x ∷ y ∷ ys

unfoldable pub sort_names : List Bytes → List Bytes
unfolding place_name
sort_names [] = []
sort_names (x ∷ xs) = place_name x (sort_names xs)

unfoldable pub read_directory : VirtualPath → Store → Outcome (List Bytes)
unfolding is_directory directory_names file_names sort_names
read_directory path s =
    let prefix = if is_empty path.lookup then [] else below path.lookup in
    if not (is_directory path s)
    then err not_found
    else ok (sort_names (directory_names prefix s.directories ++ file_names prefix s.files))

abbrev pub refuse_delete : Bool → Outcome (Unit {0})
refuse_delete refused = if refused then err sharing_violation else ok tt

unfoldable pub ensure_delete_allowed : VirtualPath → Store → Outcome (Unit {0})
unfolding is_directory
ensure_delete_allowed path s =
    let key = path.lookup in
    if is_directory path s
    then (if is_empty key
        then err sharing_violation
        else if contains key s.directories && not (has_below key s)
        then ok tt
        else err sharing_violation)
    else if not (contains key s.files)
    then err not_found
    else refuse_delete (any_value (blocks_delete key) s.handles)

abbrev pub directory_metadata : Option DirectoryEntry → Outcome EntryMetadata
directory_metadata none = err not_found
directory_metadata (some entry) = ok entry.metadata

abbrev pub file_metadata : Option FileEntry → Outcome EntryMetadata
file_metadata none = err not_found
file_metadata (some entry) = if entry.delete_pending then err not_found else ok entry.metadata

module _ (env : Environment) where
  unfoldable pub entry_metadata : VirtualPath → Run Store EntryMetadata
  unfolding is_directory
  entry_metadata path s =
      if is_directory path s
      then (if is_empty path.lookup
          then (ok (stamped (env.time s.world.calls)), (outside (current_filetime env) s).1)
          else (directory_metadata (get path.lookup s.directories), s))
      else (file_metadata (get path.lookup s.files), s)

-- The file that a handle is on.
abbrev pub file_of : Option FileEntry → Outcome Bytes
file_of none = err not_found
file_of (some entry) = ok entry.file_id

abbrev pub handle_file_of : Option HandleState → Store → Outcome Bytes
handle_file_of none s = err not_found
handle_file_of (some state) s = file_of (get state.path_key s.files)

unfoldable pub handle_file : ℕ → Store → Outcome Bytes
handle_file handle s = handle_file_of (get handle s.handles) s

-- In a store whose handles are all on files that are there, every open handle answers its file.
pub handle_file-HandlesOnFiles :
    (s : Store) (handle : ℕ) {state : HandleState}
    → HandlesOnFiles s
    → get handle s.handles ≡ some state
    → (entry : FileEntry) × (get state.path_key s.files ≡ some entry)
      × (handle_file handle s ≡ ok entry.file_id)
unfolding handle_file contains
handle_file-HandlesOnFiles s handle {state} holds open_on =
    elim (Option-cases (get state.path_key s.files)) [
      | inl missing ↦ cc (contains_none missing, holds handle state open_on)
      | inr (entry, found) ↦ (entry, found, rw (open_on, found) refl)
    ]
  where
    contains_none : {o : Option FileEntry} → o ≡ none → is_some o ≡ false
    contains_none e = rw e refl

module _ (aead : AeadCipher) (env : Environment) where
  -- What `ensure_delete_allowed` refuses, `delete` refuses with the same error and no change.
  pub delete-ensure_delete_allowed :
      (path : VirtualPath) (s : Store) {e : StorageError}
      → ensure_delete_allowed path s ≡ err e
      → delete aead env path s ≡ (err e, s)
  unfolding ensure_delete_allowed delete delete_file delete_directory contains
  delete-ensure_delete_allowed path s {e} = elim (Bool-cases (is_empty path.lookup)) [
    | inl is_root ↦ rw is_root (ap (λ r. (r, s)))
    | inr below ↦ elim (Option-cases (get path.lookup s.directories)) [
      | inr (directory, found) ↦ elim (Bool-cases (has_below path.lookup s)) [
        | inl full ↦ rw (below, found, full) (ap (λ r. (r, s)))
        | inr vacant ↦ rw (below, found, vacant) (λ h. cc)
      ]
      | inl no_directory ↦ elim (Option-cases (get path.lookup s.files)) [
        | inl missing ↦ rw (below, no_directory, missing) (ap (λ r. (r, s)))
        | inr (entry, there) ↦ elim (Bool-cases (any_value (blocks_delete path.lookup) s.handles)) [
          | inl blocked ↦ rw (below, no_directory, there, blocked) (ap (λ r. (r, s)))
          | inr free ↦ rw (below, no_directory, there, free) (λ h. cc)
        ]
      ]
    ]
  ]
