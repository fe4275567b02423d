-- ===== src/Storage/Store/Entries/Reachable.antt =====
-- What holds of every store that the namespace operations reach.
use wdlp.Base.{ℕ, ◌≡◌, Bool, false}
use wdlp.Crypto.Aead.{AeadCipher}
use wdlp.Storage.Path.{VirtualPath}
use wdlp.Storage.Store.{Environment, Store}
use wdlp.Storage.Store.Entries.{
  is_directory, create_directory, create_or_open, close_handle, delete,
}
use wdlp.Storage.Store.Entries.Renaming.{rename}
use wdlp.Storage.Store.Entries.Invariant.{
  HandlesOnFiles, create_directory-HandlesOnFiles, create_or_open-HandlesOnFiles,
  close_handle-HandlesOnFiles, delete-HandlesOnFiles,
}
use wdlp.Storage.Store.Entries.RenamedHandles.{rename-HandlesOnFiles}

module _ (aead : AeadCipher) (env : Environment) where
  -- One call of an operation on the namespace, whatever it answers.
  pub data Step : Store → Store → Type 0 where
    creates : (path : VirtualPath) (s : Store) → Step s (create_directory aead env path s).1
    opens :
        (path : VirtualPath) (create allow_delete : Bool) (s : Store)
        → Step s (create_or_open aead env path create allow_delete s).1
    closes : (handle : ℕ) (s : Store) → Step s (close_handle aead env handle s).1
    -- a file, renamed with or without leave to replace
    renames :
        (source destination : VirtualPath) (replace : Bool) (s : Store)
        → is_directory source s ≡ false
        → Step s (rename aead env source destination replace s).1
    deletes : (path : VirtualPath) (s : Store) → Step s (delete aead env path s).1

  pub data Steps : Store → Store → Type 0 where
    done : (s : Store) → Steps s s
    next : (s t u : Store) → Step s t → Steps t u → Steps s u

  Step-HandlesOnFiles : (s s' : Store) → Step s s' → HandlesOnFiles s → HandlesOnFiles s'
  Step-HandlesOnFiles s _ (creates path _) holds =
      create_directory-HandlesOnFiles aead env path s holds
  Step-HandlesOnFiles s _ (opens path create allow_delete _) holds =
      create_or_open-HandlesOnFiles aead env path create allow_delete s holds
  Step-HandlesOnFiles s _ (closes handle _) holds =
      close_handle-HandlesOnFiles aead env handle s holds
  Step-HandlesOnFiles s _ (renames source destination replace _ file) holds =
      rename-HandlesOnFiles aead env source destination replace s file holds
  Step-HandlesOnFiles s _ (deletes path _) holds = delete-HandlesOnFiles aead env path s holds

  -- However directories and files are created, files opened and closed, both deleted and files
  -- renamed, and whichever of those calls fail, every open handle stays on a file that is there.
  pub Steps-HandlesOnFiles : (s s' : Store) → Steps s s' → HandlesOnFiles s → HandlesOnFiles s'
  Steps-HandlesOnFiles s _ (done _) holds = holds
  Steps-HandlesOnFiles s u (next _ t _ step rest) holds =
      Steps-HandlesOnFiles t u rest (Step-HandlesOnFiles s t step holds)
