-- ===== src/Storage/Store/Entries/Deletion.antt =====
-- Deleting a file or a directory, and closing a handle.
use wdlp.Base.{
  ◌≡◌, refl, ap, ◌∙◌, true, false, ◌⊎◌, inl, inr, some, Bool-cases, Option-cases, is_empty,
}
use wdlp.Base.Bytes.{Bytes}
use wdlp.Base.Maps.{text_key, number_key, get, insert, remove, contains, any_value}
use wdlp.Base.Results.{ok, err}
use wdlp.Crypto.Aead.{AeadCipher}
use wdlp.Storage.Errors.{StorageError, not_found, sharing_violation}
use wdlp.Storage.Path.{VirtualPath}
use wdlp.Storage.Store.{FileEntry, Environment, Store}
use wdlp.Storage.Store.Namespace.Durable.{Published}
use wdlp.Storage.Store.Entries.{
  is_directory, on_path, blocks_delete, has_below, persist_or, remove_file, mark_pending,
  delete_file, delete_directory, delete,
}
use wdlp.Storage.Store.Entries.Frames.{
  SameEntries, persist_or-ok, persist_or-err, persist_or-IsPersisted,
}
use wdlp.Storage.Store.Namespace.Persisted.{IsPersisted}

abbrev pub marked_pending : FileEntry → FileEntry
marked_pending entry = record entry { delete_pending = true }

module _ (aead : AeadCipher) (env : Environment) where
  -- The store before a file is taken out, and what puts the files back.
  abbrev pub without_file : Bytes → Store → Store
  without_file key s = record s { files = remove key s.files }

  abbrev files_back : Store → Store → Store
  files_back s t = record t { files = s.files }

  same : {s : Store} → SameEntries s s
  same = record { directories = refl; files = refl; handles = refl }

  pub remove_file-err :
      (key : Bytes) (s : Store) {e : StorageError}
      → (remove_file aead env key s).0 ≡ err e
      → SameEntries s (remove_file aead env key s).1
  remove_file-err key s h =
      let (t, kept, back) = persist_or-err aead env (without_file key s) (files_back s) h in
      record {
        directories = ap (λ (x : Store). x.directories) back ∙ kept.directories;
        files = ap (λ (x : Store). x.files) back;
        handles = ap (λ (x : Store). x.handles) back ∙ kept.handles;
      }

  pub remove_file-ok :
      (key : Bytes) (s : Store)
      → (remove_file aead env key s).0 ≡ ok tt
      → SameEntries (without_file key s) (remove_file aead env key s).1
        × Published aead env (without_file key s) (remove_file aead env key s).1
  remove_file-ok key s h = persist_or-ok aead env (without_file key s) (files_back s) h

  pub remove_file-IsPersisted :
      (key : Bytes) (s : Store)
      → (remove_file aead env key s).0 ≡ ok tt
      → IsPersisted aead env (without_file key s) (remove_file aead env key s).1
  remove_file-IsPersisted key s h =
      persist_or-IsPersisted aead env (without_file key s) (files_back s) h

  -- What a file's deletion does: it is refused, or the file is marked, or it is taken out.
  pub delete_file-cases :
      (key : Bytes) (s : Store)
      → ((e : StorageError) × (delete_file aead env key s ≡ (err e, s)))
        ⊎ ((entry : FileEntry) × (get key s.files ≡ some entry)
            × (any_value (blocks_delete key) s.handles ≡ false)
            × (((any_value (on_path key) s.handles ≡ true)
                  × (delete_file aead env key s ≡ mark_pending key entry s))
                ⊎ ((any_value (on_path key) s.handles ≡ false)
                    × (delete_file aead env key s ≡ remove_file aead env key s))))
  unfolding delete_file
  delete_file-cases key s = elim (Option-cases (get key s.files)) [
    | inl missing ↦ inl (not_found, rw missing refl)
    | inr (entry, found) ↦ elim (Bool-cases (any_value (blocks_delete key) s.handles)) [
      | inl blocked ↦ inl (sharing_violation, rw (found, blocked) refl)
      | inr free ↦ elim (Bool-cases (any_value (on_path key) s.handles)) [
        | inl held ↦ inr (entry, found, free, inl (held, rw (found, free, held) refl))
        | inr unheld ↦ inr (entry, found, free, inr (unheld, rw (found, free, unheld) refl))
      ]
    ]
  ]

  delete_file-err :
      (key : Bytes) (s : Store) {e : StorageError}
      → (delete_file aead env key s).0 ≡ err e
      → SameEntries s (delete_file aead env key s).1
  delete_file-err key s = elim (delete_file-cases key s) [
    | inl (e, refused) ↦ rw refused (λ _. same)
    | inr (entry, found, free, inl (held, marks)) ↦ rw marks (λ h. cc)
    | inr (entry, found, free, inr (unheld, takes)) ↦ rw takes (remove_file-err key s)
  ]

  abbrev pub without_directory : Bytes → Store → Store
  without_directory key s = record s { directories = remove key s.directories }

  abbrev directories_back : Store → Store → Store
  directories_back s t = record t { directories = s.directories }

  delete_directory-cases :
      (path : VirtualPath) (s : Store)
      → ((e : StorageError) × (delete_directory aead env path s ≡ (err e, s)))
        ⊎ ((is_empty path.lookup ≡ false)
            × (contains path.lookup s.directories ≡ true)
            × (has_below path.lookup s ≡ false)
            × (delete_directory aead env path s
                ≡ persist_or aead env (directories_back s) (without_directory path.lookup s)))
  unfolding delete_directory
  delete_directory-cases path s = elim (Bool-cases (is_empty path.lookup)) [
    | inl is_root ↦ inl (sharing_violation, rw is_root refl)
    | inr below ↦ elim (Bool-cases (contains path.lookup s.directories)) [
      | inr missing ↦ inl (not_found, rw (below, missing) refl)
      | inl found ↦ elim (Bool-cases (has_below path.lookup s)) [
        | inl full ↦ inl (sharing_violation, rw (below, found, full) refl)
        | inr vacant ↦ inr (below, found, vacant, rw (below, found, vacant) refl)
      ]
    ]
  ]

  delete_directory-err :
      (path : VirtualPath) (s : Store) {e : StorageError}
      → (delete_directory aead env path s).0 ≡ err e
      → SameEntries s (delete_directory aead env path s).1
  delete_directory-err path s = elim (delete_directory-cases path s) [
    | inl (e, refused) ↦ rw refused (λ _. same)
    | inr (below, found, vacant, takes) ↦ rw takes (λ h.
        let (t, kept, back) =
          persist_or-err aead env (without_directory path.lookup s) (directories_back s) h in
        record {
          directories = ap (λ (x : Store). x.directories) back;
          files = ap (λ (x : Store). x.files) back ∙ kept.files;
          handles = ap (λ (x : Store). x.handles) back ∙ kept.handles;
        })
  ]

  -- A deletion that fails, for whatever reason, leaves the directories, the files and the handles
  -- as they were.
  pub delete-err :
      (path : VirtualPath) (s : Store) {e : StorageError}
      → (delete aead env path s).0 ≡ err e
      → SameEntries s (delete aead env path s).1
  unfolding delete
  delete-err path s = elim (Bool-cases (is_directory path s)) [
    | inl dir ↦ rw dir (delete_directory-err path s)
    | inr file ↦ rw file (delete_file-err path.lookup s)
  ]

  -- A file is deleted only if no handle on it forbids that. With handles open, the file is marked
  -- as pending deletion; with none, it is taken out and the namespace on the disk is without it.
  pub delete-ok_file :
      (path : VirtualPath) (s : Store)
      → is_directory path s ≡ false
      → (delete aead env path s).0 ≡ ok tt
      → (entry : FileEntry) × (get path.lookup s.files ≡ some entry)
        × (any_value (blocks_delete path.lookup) s.handles ≡ false)
        × (((any_value (on_path path.lookup) s.handles ≡ true)
              × ((delete aead env path s).1
                  ≡ record s { files = insert path.lookup (marked_pending entry) s.files }))
            ⊎ ((any_value (on_path path.lookup) s.handles ≡ false)
                × SameEntries (without_file path.lookup s) (delete aead env path s).1
                × Published aead env (without_file path.lookup s) (delete aead env path s).1))
  unfolding delete
  delete-ok_file path s file = rw file (elim (delete_file-cases path.lookup s) [
    | inl (e, refused) ↦ rw refused (λ h. cc)
    | inr (entry, found, free, inl (held, marks)) ↦
        rw marks (λ h. (entry, found, free, inl (held, refl)))
    | inr (entry, found, free, inr (unheld, takes)) ↦ rw takes (λ h.
        let (kept, there) = remove_file-ok path.lookup s h in
        (entry, found, free, inr (unheld, kept, there)))
  ])

  -- A directory is deleted only if it is not the root and nothing lies below it.
  pub delete-ok_directory :
      (path : VirtualPath) (s : Store)
      → is_directory path s ≡ true
      → (delete aead env path s).0 ≡ ok tt
      → (is_empty path.lookup ≡ false)
        × (has_below path.lookup s ≡ false)
        × SameEntries (without_directory path.lookup s) (delete aead env path s).1
        × Published aead env (without_directory path.lookup s) (delete aead env path s).1
  unfolding delete
  delete-ok_directory path s dir = rw dir (elim (delete_directory-cases path s) [
    | inl (e, refused) ↦ rw refused (λ h. cc)
    | inr (below, found, vacant, takes) ↦ rw takes (λ h.
        let (kept, there) =
          persist_or-ok aead env (without_directory path.lookup s) (directories_back s) h in
        (below, vacant, kept, there))
  ])
