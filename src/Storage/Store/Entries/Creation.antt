-- ===== src/Storage/Store/Entries/Creation.antt =====
-- Creating a directory.
use wdlp.Base.{◌≡◌, refl, ap, ◌∙◌, false, ◌⊎◌, inl, inr, Bool-cases}
use wdlp.Base.Maps.{text_key, number_key, insert, remove, contains, remove-insert, contains-get}
use wdlp.Base.Results.{ok, err, Result-cases}
use wdlp.Crypto.Aead.{AeadCipher}
use wdlp.Storage.Errors.{StorageError, already_exists}
use wdlp.Storage.Path.{VirtualPath, display_name, parent_key}
use wdlp.Storage.Store.{DirectoryEntry, Environment, Store, tick}
use wdlp.Storage.Store.Namespace.Persisted.{IsPersisted}
use wdlp.Storage.Store.Entries.{parent_in, stamped, name_or_empty, persist_or, create_directory}
use wdlp.Storage.Store.Entries.Frames.{SameEntries, persist_or-err, persist_or-IsPersisted}
use wdlp.Storage.Store.Entries.Named.{
  HasName, MadeAt, ParentThere, display_name-HasName, parent_in-ParentThere,
}

module _ (aead : AeadCipher) (env : Environment) where
  module _ (path : VirtualPath) (s : Store) where
    -- The entry of a directory that is made now.
    abbrev new_directory : DirectoryEntry
    new_directory = record {
      display = name_or_empty (display_name path);
      metadata = stamped (env.time s.world.calls);
    }

    abbrev with_directory : Store
    with_directory = record s {
      directories = insert path.lookup new_directory s.directories;
      world = tick s.world;
    }

    abbrev withdrawn : Store → Store
    withdrawn t = record t { directories = remove path.lookup t.directories }

    -- It fails with nothing changed, or persists the namespace with the directory in it.
    create_directory-cases :
        (((e : StorageError) × (create_directory aead env path s ≡ (err e, s))))
        ⊎ ((contains path.lookup s.files ≡ false)
            × (contains path.lookup s.directories ≡ false)
            × (parent_in (parent_key path) s.directories ≡ ok tt)
            × (create_directory aead env path s ≡ persist_or aead env withdrawn with_directory))
    unfolding create_directory
    create_directory-cases = elim (Bool-cases (contains path.lookup s.files)) [
      | inl taken ↦ inl (already_exists, rw taken refl)
      | inr no_file ↦ elim (Bool-cases (contains path.lookup s.directories)) [
        | inl taken ↦ inl (already_exists, rw (no_file, taken) refl)
        | inr no_directory ↦ elim (Result-cases (parent_in (parent_key path) s.directories)) [
          | inr (e, orphan) ↦ inl (e, rw (no_file, no_directory, orphan) refl)
          | inl (u, found) ↦
              inr (no_file, no_directory, found, rw (no_file, no_directory, found) refl)
        ]
      ]
    ]

    -- A directory that cannot be made, for whatever reason, leaves the directories, the files and
    -- the handles as they were.
    pub create_directory-err :
        {e : StorageError}
        → (create_directory aead env path s).0 ≡ err e
        → SameEntries s (create_directory aead env path s).1
    create_directory-err = elim create_directory-cases [
      | inl (e, refused) ↦
          rw refused (λ _. record { directories = refl; files = refl; handles = refl })
      | inr (no_file, no_directory, found, persisting) ↦ rw persisting (λ h.
          let (t, same, back) = persist_or-err aead env with_directory withdrawn h in
          record {
            directories =
                ap (λ (x : Store). x.directories) back
                ∙ (ap (remove path.lookup) same.directories
                    ∙ remove-insert path.lookup new_directory s.directories
                        (contains-get path.lookup s.directories no_directory));
            files = ap (λ (x : Store). x.files) back ∙ same.files;
            handles = ap (λ (x : Store). x.handles) back ∙ same.handles;
          })
    ]

    -- A directory that is made was neither a file nor a directory, and its parent, where it has one,
    -- was a directory. It is then among the directories under its key, with the last component of
    -- the path as its name, or the empty name for the root, and with the time of the call as its
    -- four times. The namespace with it is persisted; nothing else of the store changes, nor of its
    -- disk but the namespace's own files.
    pub create_directory-ok :
        (create_directory aead env path s).0 ≡ ok tt
        → (contains path.lookup s.files ≡ false)
          × (contains path.lookup s.directories ≡ false)
          × ParentThere (parent_key path) s.directories
          × (entry : DirectoryEntry) × HasName path.display entry.display
          × MadeAt (env.time s.world.calls) entry.metadata
          × IsPersisted aead env
              (record s {
                directories = insert path.lookup entry s.directories;
                world = tick s.world;
              })
              (create_directory aead env path s).1
    create_directory-ok = elim create_directory-cases [
      | inl (e, refused) ↦ rw refused (λ h. cc)
      | inr (no_file, no_directory, found, persisting) ↦ rw persisting (λ h. (
        no_file,
        no_directory,
        parent_in-ParentThere (parent_key path) s.directories found,
        new_directory,
        display_name-HasName path,
        record { created = refl; accessed = refl; written = refl; changed = refl },
        persist_or-IsPersisted aead env with_directory withdrawn h,
      ))
    ]
