-- ===== src/Storage/Store/Entries/RenamedHandles.antt =====
-- Renaming a file keeps every handle on a file.
use wdlp.Base.{◌≡◌, refl, ap, sym, ◌∙◌, Bool, true, false, inl, inr, Option, some, none, Bool-cases}
use wdlp.Base.Bytes.{Bytes, bytes_eq}
use wdlp.Base.Maps.{
  text_key, number_key, get, remove, contains, contains-insert, contains-insert_same,
  contains-remove, same_flip,
}
use wdlp.Base.Results.{Result-cases}
use wdlp.Crypto.Aead.{AeadCipher}
use wdlp.Storage.Path.{VirtualPath, parent_key}
use wdlp.Storage.Store.{FileEntry, HandleState, Environment, Store, ◌>>◌}
use wdlp.Storage.Store.Entries.{is_directory, require_parent, parent_in, persist_or, delete}
use wdlp.Storage.Store.Entries.Frames.{persist_or-ok, persist_or-err}
use wdlp.Storage.Store.Entries.Invariant.{
  HandlesOnFiles, SameEntries-HandlesOnFiles, delete-HandlesOnFiles,
}
use wdlp.Storage.Store.Entries.Renaming.{
  moved_key, prior_files, move_entry, move_file, clear_file, rename_entry, rename_listed,
  rename_file_or_directory, rename,
}
use wdlp.Storage.Store.Entries.FileRenaming.{with_renamed}
use wdlp.Storage.Store.Entries.Rekeyed.{rekeyed, get-rekey}

rekeyed-some :
    (f : Bytes → Bytes) (o : Option HandleState) {state : HandleState}
    → rekeyed f o ≡ some state
    → (old : HandleState) × (o ≡ some old) × (f old.path_key ≡ state.path_key)
rekeyed-some f none h = cc
rekeyed-some f (some old) {state} h =
    let moved : record old { path_key = f old.path_key } ≡ state = cc in
    (old, refl, ap (λ (x : HandleState). x.path_key) moved)

module _ (aead : AeadCipher) (env : Environment) where
  moved-there :
      (source : Bytes) (destination : VirtualPath) (entry : FileEntry) (s : Store) (key : Bytes)
      → contains key s.files ≡ true
      → contains
          (moved_key source destination.lookup key)
          (with_renamed aead env source destination entry s).files
        ≡ true
  moved-there source destination entry s key there = elim (Bool-cases (bytes_eq key source)) [
    | inl same ↦ rw same (contains-insert_same destination.lookup _ (remove source s.files))
    | inr differ ↦ rw differ (
        contains-insert destination.lookup key _ (remove source s.files)
          (contains-remove source key s.files (same_flip key source differ) there))
  ]

  with_renamed-HandlesOnFiles :
      (source : Bytes) (destination : VirtualPath) (entry : FileEntry) (s : Store)
      → HandlesOnFiles s
      → HandlesOnFiles (with_renamed aead env source destination entry s)
  with_renamed-HandlesOnFiles source destination entry s holds handle state open_on =
      let (old, was_open, key) =
        rekeyed-some (moved_key source destination.lookup) (get handle s.handles)
          (sym (get-rekey (moved_key source destination.lookup) handle s.handles) ∙ open_on) in
      rw key at (moved-there source destination entry s old.path_key (holds handle old was_open))

  move_entry-HandlesOnFiles :
      (source : Bytes) (destination : VirtualPath) (o : Option FileEntry) (s : Store)
      → HandlesOnFiles s
      → HandlesOnFiles (move_entry aead env source destination o s).1
  move_entry-HandlesOnFiles source destination none s holds = holds
  move_entry-HandlesOnFiles source destination (some entry) s holds =
      let t : Store = with_renamed aead env source destination entry s in
      elim (Result-cases (persist_or aead env (prior_files s) t).0) [
        | inl (u, done) ↦
            let (same, _) = persist_or-ok aead env t (prior_files s) done in
            SameEntries-HandlesOnFiles t _ same
              (with_renamed-HandlesOnFiles source destination entry s holds)
        | inr (e, failed) ↦
            let (x, same, back) = persist_or-err aead env t (prior_files s) failed in rw back holds
      ]

  clear_and_move-HandlesOnFiles :
      (source : Bytes) (destination : VirtualPath) (s : Store)
      → HandlesOnFiles s
      → HandlesOnFiles
          ((clear_file aead env destination >> move_file aead env source destination) s).1
  clear_and_move-HandlesOnFiles source destination s holds =
      let t : Store = (delete aead env destination s).1 in
      let kept : HandlesOnFiles t = delete-HandlesOnFiles aead env destination s holds in
      elim (Result-cases (delete aead env destination s).0) [
        | inr (e, failed) ↦ rw failed kept
        | inl (u, done) ↦ elim (Bool-cases (contains destination.lookup t.files)) [
          | inl held ↦ rw (done, held) kept
          | inr clear ↦
              rw (done, clear)
                (move_entry-HandlesOnFiles source destination (get source t.files) t kept)
        ]
      ]

  rename_listed-HandlesOnFiles :
      (source : Bytes) (destination : VirtualPath) (replace pending : Bool) (s : Store)
      → HandlesOnFiles s
      → HandlesOnFiles (rename_listed aead env source destination replace pending s).1
  rename_listed-HandlesOnFiles source destination replace true s holds = holds
  rename_listed-HandlesOnFiles source destination replace false s holds =
      elim (Bool-cases (contains destination.lookup s.files)) [
        | inr free ↦
            rw free (move_entry-HandlesOnFiles source destination (get source s.files) s holds)
        | inl taken ↦ elim (Bool-cases replace) [
          | inr refused ↦ rw (taken, refused) holds
          | inl replaced ↦
              rw (taken, replaced) (clear_and_move-HandlesOnFiles source destination s holds)
        ]
      ]

  rename_entry-HandlesOnFiles :
      (source : Bytes) (destination : VirtualPath) (replace : Bool) (o : Option FileEntry)
      (s : Store)
      → HandlesOnFiles s
      → HandlesOnFiles (rename_entry aead env source destination replace o s).1
  rename_entry-HandlesOnFiles source destination replace none s holds = holds
  rename_entry-HandlesOnFiles source destination replace (some entry) s holds =
      rename_listed-HandlesOnFiles source destination replace entry.delete_pending s holds

  pub rename-HandlesOnFiles :
      (source destination : VirtualPath) (replace : Bool) (s : Store)
      → is_directory source s ≡ false
      → HandlesOnFiles s
      → HandlesOnFiles (rename aead env source destination replace s).1
  unfolding rename require_parent rename_file_or_directory
  rename-HandlesOnFiles source destination replace s file holds =
      elim (Result-cases (parent_in (parent_key destination) s.directories)) [
        | inr (e, orphan) ↦ rw orphan holds
        | inl (u, parent) ↦
            rw (parent, file)
              (rename_entry-HandlesOnFiles source.lookup destination replace
                (get source.lookup s.files) s holds)
      ]
