-- ===== src/Storage/Store/Entries/FileRenaming.antt =====
-- Renaming a file.
use wdlp.Base.{
  ℕ, ◌≡◌, refl, ap, ◌∙◌, true, false, ◌⊎◌, inl, inr, some, none, Bool-cases, Option-cases,
}
use wdlp.Base.Bytes.{Bytes}
use wdlp.Base.Maps.{
  Map, text_key, number_key, get, insert, remove, contains, contains-get, contains_of_none,
  contains_of_get, get-remove_same, any_value,
}
use wdlp.Base.Results.{ok, err, Result-cases}
use wdlp.Crypto.Aead.{AeadCipher}
use wdlp.Storage.Errors.{StorageError, not_found, already_exists, delete_pending}
use wdlp.Storage.Path.{VirtualPath, display_name, parent_key}
use wdlp.Storage.Store.{FileEntry, HandleState, Environment, Store, tick}
use wdlp.Storage.Store.Namespace.Persisted.{IsPersisted}
use wdlp.Storage.Store.Entries.{
  on_path, is_directory, require_parent, parent_in, name_or_empty, persist_or, delete,
}
use wdlp.Storage.Store.Entries.Frames.{persist_or-IsPersisted}
use wdlp.Storage.Store.Entries.Named.{
  HasName, ParentThere, display_name-HasName, parent_in-ParentThere,
}
use wdlp.Storage.Store.Entries.Rekeyed.{HandlesMoved, rekey-HandlesMoved}
use wdlp.Storage.Store.Entries.Deletion.{delete-ok_file}
use wdlp.Storage.Store.Entries.Renaming.{
  rekey, moved_key, renamed, prior_files, rename_listed, rename_file_or_directory, rename,
}

module _ (aead : AeadCipher) (env : Environment) where
  -- The store with the file under its new key and the handles on it.
  abbrev pub with_renamed : Bytes → VirtualPath → FileEntry → Store → Store
  with_renamed source destination entry s = record s {
    files =
        insert destination.lookup
          (renamed (name_or_empty (display_name destination)) (env.time s.world.calls) entry)
          (remove source s.files);
    handles = rekey (moved_key source destination.lookup) s.handles;
    world = tick s.world;
  }

  module _ (source destination : VirtualPath) (s : Store)
      (file : is_directory source s ≡ false) where
    -- Without leave to replace, a renaming is refused, or it persists the namespace with the file
    -- under its new key.
    rename-cases :
        ((e : StorageError) × (rename aead env source destination false s ≡ (err e, s)))
        ⊎ ((entry : FileEntry) × (get source.lookup s.files ≡ some entry)
            × (entry.delete_pending ≡ false)
            × (get destination.lookup s.files ≡ none)
            × (parent_in (parent_key destination) s.directories ≡ ok tt)
            × (rename aead env source destination false s
                ≡ persist_or aead env
                    (prior_files s)
                    (with_renamed source.lookup destination entry s)))
    unfolding rename require_parent rename_file_or_directory
    rename-cases = elim (Result-cases (parent_in (parent_key destination) s.directories)) [
      | inr (e, orphan) ↦ inl (e, rw orphan refl)
      | inl (u, parent) ↦ elim (Option-cases (get source.lookup s.files)) [
        | inl missing ↦ inl (not_found, rw (parent, file, missing) refl)
        | inr (entry, found) ↦ elim (Bool-cases entry.delete_pending) [
          | inl pending ↦ inl (
            delete_pending,
            rw (parent, file, found)
                (ap (λ b. rename_listed aead env source.lookup destination false b s) pending),
          )
          | inr listed ↦ elim (Bool-cases (contains destination.lookup s.files)) [
            | inl taken ↦ inl (
              already_exists,
              rw (parent, file, found)
                  (ap (λ b. rename_listed aead env source.lookup destination false b s) listed
                    ∙ rw taken refl),
            )
            | inr free ↦ inr (
              entry,
              found,
              listed,
              contains-get destination.lookup s.files free,
              parent,
              rw (parent, file, found)
                  (ap (λ b. rename_listed aead env source.lookup destination false b s) listed
                    ∙ rw (free, found) refl),
            )
          ]
        ]
      ]
    ]

    -- A renaming without leave to replace that succeeds moves a file that is there and not pending
    -- deletion to a key that was free and whose parent, where it has one, is a directory. The entry
    -- gets the last component of the destination as its name and the time of the call as the time of
    -- its change, and is otherwise what it was. The handles on the old key are on the new one, and
    -- the other handles are as they were. The namespace is persisted so, and nothing else of the
    -- store changes, nor of its disk but the namespace's own files.
    pub rename-ok :
        (rename aead env source destination false s).0 ≡ ok tt
        → (entry : FileEntry) × (get source.lookup s.files ≡ some entry)
          × (entry.delete_pending ≡ false)
          × (get destination.lookup s.files ≡ none)
          × ParentThere (parent_key destination) s.directories
          × (name : Bytes) × HasName destination.display name
          × (handles : Map ℕ HandleState) × HandlesMoved source.lookup destination.lookup s.handles
              handles
          × IsPersisted aead env
              (record s {
                files =
                    insert destination.lookup
                      (record entry {
                        display = name;
                        metadata = record (entry.metadata) { change_time = env.time s.world.calls };
                      })
                      (remove source.lookup s.files);
                handles = handles;
                world = tick s.world;
              })
              (rename aead env source destination false s).1
    rename-ok = elim rename-cases [
      | inl (e, refused) ↦ rw refused (λ h. cc)
      | inr (entry, found, listed, free, parent, persisting) ↦ rw persisting (λ h. (
        entry,
        found,
        listed,
        free,
        parent_in-ParentThere (parent_key destination) s.directories parent,
        name_or_empty (display_name destination),
        display_name-HasName destination,
        rekey (moved_key source.lookup destination.lookup) s.handles,
        rekey-HandlesMoved source.lookup destination.lookup s.handles,
        persist_or-IsPersisted aead env (with_renamed source.lookup destination entry s)
            (prior_files s) h,
      ))
    ]

  module _ (path : VirtualPath) (s : Store) (file : is_directory path s ≡ false)
      (parent : parent_in (parent_key path) s.directories ≡ ok tt) {entry : FileEntry}
      (found : get path.lookup s.files ≡ some entry) (listed : entry.delete_pending ≡ false)
      (unheld : any_value (on_path path.lookup) s.handles ≡ false)
      (deleted : (delete aead env path s).0 ≡ ok tt) where
    gone : get path.lookup (delete aead env path s).1.files ≡ none
    gone =
        let (_, _, _, how) = delete-ok_file aead env path s file deleted in
        elim how [
          | inl (held, _) ↦ cc
          | inr (_, same, _) ↦ rw same.files (get-remove_same path.lookup s.files)
        ]

    rename_itself-eq :
        rename aead env path path true s ≡ (err not_found, (delete aead env path s).1)
    unfolding rename require_parent rename_file_or_directory
    rename_itself-eq =
        let clear : contains path.lookup (delete aead env path s).1.files ≡ false =
          contains_of_none path.lookup (delete aead env path s).1.files gone in
        rw (parent, file, found)
          (ap (λ b. rename_listed aead env path.lookup path true b s) listed
            ∙ rw (contains_of_get path.lookup s.files found, deleted, clear, gone) refl)

    -- A file that is there and not pending deletion, that no handle is on and whose parent is there,
    -- renamed to its own key with leave to replace, is deleted where deleting it succeeds, and the
    -- renaming answers that it was not found.
    pub rename_itself :
        ((rename aead env path path true s).0 ≡ err not_found)
        × (get path.lookup (rename aead env path path true s).1.files ≡ none)
    rename_itself = rw rename_itself-eq (refl, gone)
