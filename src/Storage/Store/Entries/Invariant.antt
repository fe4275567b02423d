-- ===== src/Storage/Store/Entries/Invariant.antt =====
-- Every open handle is on a file: what creating, opening, deleting and closing do to that.
use wdlp.Base.{ℕ, ◌≡◌, ap, subst, Bool, true, false, inl, inr, some, Bool-cases, Option-cases}
use wdlp.Base.Bytes.{Bytes}
use wdlp.Base.Maps.{
  text_key, number_key, get, insert, remove, contains, any_value, any_value-get, get-insert,
  contains-insert, contains-insert_same, contains-remove, get-remove-some, same_flip,
}
use wdlp.Base.Results.{Result-cases}
use wdlp.Crypto.Aead.{AeadCipher}
use wdlp.Storage.Path.{VirtualPath}
use wdlp.Storage.Store.{FileEntry, HandleState, Environment, Store, next_u64}
use wdlp.Storage.Store.Entries.{
  is_directory, on_path, create_directory, create_or_open, close_handle, delete,
}
use wdlp.Storage.Store.Entries.Frames.{SameEntries}
use wdlp.Storage.Store.Entries.Creation.{create_directory-ok, create_directory-err}
use wdlp.Storage.Store.Entries.Opening.{Opened, create_or_open-ok, create_or_open-err}
use wdlp.Storage.Store.Entries.Deletion.{
  delete-ok_file, delete-ok_directory, delete-err, marked_pending,
}
use wdlp.Storage.Store.Entries.Handles.{
  without_handle, close_handle-ok, close_handle-err, close_handle-missing,
}

-- Every open handle is on a file that is there.
abbrev pub HandlesOnFiles : Store → Type 0
HandlesOnFiles s =
    (handle : ℕ) (state : HandleState)
    → get handle s.handles ≡ some state
    → contains state.path_key s.files ≡ true

-- The invariant asks for less when there are fewer handles, and no fewer files.
pub HandlesOnFiles-mono :
    (s s' : Store)
    → HandlesOnFiles s
    → ((handle : ℕ) (state : HandleState)
        → get handle s'.handles ≡ some state
        → (get handle s.handles ≡ some state)
          × (contains state.path_key s.files ≡ true → contains state.path_key s'.files ≡ true))
    → HandlesOnFiles s'
HandlesOnFiles-mono s s' holds less handle state open_on =
    let (was_open, kept) = less handle state open_on in kept (holds handle state was_open)

pub SameEntries-HandlesOnFiles :
    (s s' : Store) → SameEntries s s' → HandlesOnFiles s → HandlesOnFiles s'
SameEntries-HandlesOnFiles s s' same holds =
    HandlesOnFiles-mono s s' holds
      (λ handle state open_on. (rw same.handles at open_on, rw same.files (λ there. there)))

module _ (aead : AeadCipher) (env : Environment) where
  pub create_directory-HandlesOnFiles :
      (path : VirtualPath) (s : Store)
      → HandlesOnFiles s
      → HandlesOnFiles (create_directory aead env path s).1
  create_directory-HandlesOnFiles path s holds =
      let s' : Store = (create_directory aead env path s).1 in
      elim (Result-cases (create_directory aead env path s).0) [
        | inr (e, failed) ↦
            SameEntries-HandlesOnFiles s s' (create_directory-err aead env path s failed) holds
        | inl (u, done) ↦
            let (_, _, _, _, _, _, kept) = create_directory-ok aead env path s done in
            let files : s'.files ≡ s.files = ap (λ (x : Store). x.files) kept.rest in
            let handles : s'.handles ≡ s.handles = ap (λ (x : Store). x.handles) kept.rest in
            HandlesOnFiles-mono s s' holds
              (λ handle state open_on. (rw handles at open_on, rw files (λ there. there)))
      ]

  -- A handle is put on a file that is there, with its entry.
  with_handle-HandlesOnFiles :
      (key : Bytes) (entry : FileEntry) (allow_delete : Bool) (handle : ℕ) (s t : Store)
      → HandlesOnFiles s
      → t.files ≡ insert key entry s.files
      → t.handles ≡ insert handle (record { path_key = key; allow_delete = allow_delete }) s.handles
      → HandlesOnFiles t
  with_handle-HandlesOnFiles key entry allow_delete handle s t holds files handles other state =
      rw
        (
          files,
          handles,
          get-insert handle other (record { path_key = key; allow_delete = allow_delete })
              s.handles,
        )
        (elim (Bool-cases (number_key.same handle other)) [
          | inl is_new ↦ rw is_new (λ open_on.
              let on_it : key ≡ state.path_key = cc in
              subst (λ k. contains k (insert key entry s.files) ≡ true) on_it
                (contains-insert_same key entry s.files))
          | inr old ↦ rw old (λ open_on.
              contains-insert key state.path_key entry s.files (holds other state open_on))
        ])

  Opened-HandlesOnFiles :
      (path : VirtualPath) (create allow_delete : Bool) (handle : ℕ) (s t : Store)
      → HandlesOnFiles s
      → Opened aead env path create
          (record s {
            handles =
                insert handle
                  (record { path_key = path.lookup; allow_delete = allow_delete })
                  s.handles;
            world = record (s.world) { next_handle = next_u64 handle };
          })
          t
      → HandlesOnFiles t
  Opened-HandlesOnFiles path create allow_delete handle s t holds
        (inl (old, found, listed, after)) =
      with_handle-HandlesOnFiles path.lookup _ allow_delete handle s t holds
        (ap (λ (x : Store). x.files) after) (ap (λ (x : Store). x.handles) after)
  Opened-HandlesOnFiles path create allow_delete handle s t holds
        (inr (asked, absent, parent, entry, listed, named, made, id, kept)) =
      with_handle-HandlesOnFiles path.lookup entry allow_delete handle s t holds
        (ap (λ (x : Store). x.files) kept.rest) (ap (λ (x : Store). x.handles) kept.rest)

  pub create_or_open-HandlesOnFiles :
      (path : VirtualPath) (create allow_delete : Bool) (s : Store)
      → HandlesOnFiles s
      → HandlesOnFiles (create_or_open aead env path create allow_delete s).1
  create_or_open-HandlesOnFiles path create allow_delete s holds =
      elim (Result-cases (create_or_open aead env path create allow_delete s).0) [
        | inr (e, failed) ↦
            SameEntries-HandlesOnFiles s _
              (create_or_open-err aead env path s create allow_delete failed) holds
        | inl (handle, done) ↦
            Opened-HandlesOnFiles path create allow_delete handle s _ holds
              (create_or_open-ok aead env path s create allow_delete done).1
      ]

  delete_file-HandlesOnFiles :
      (key : Bytes) (s s' : Store)
      → HandlesOnFiles s
      → any_value (on_path key) s.handles ≡ false
      → SameEntries (record s { files = remove key s.files }) s'
      → HandlesOnFiles s'
  delete_file-HandlesOnFiles key s s' holds unheld same =
      HandlesOnFiles-mono s s' holds (λ handle state open_on.
        let was_open : get handle s.handles ≡ some state = rw same.handles at open_on in
        (
          was_open,
          rw same.files (
              contains-remove key state.path_key s.files (
                same_flip state.path_key key
                  (any_value-get (on_path key) handle s.handles was_open unheld))),
        ))

  pub delete-HandlesOnFiles :
      (path : VirtualPath) (s : Store)
      → HandlesOnFiles s
      → HandlesOnFiles (delete aead env path s).1
  delete-HandlesOnFiles path s holds =
      let s' : Store = (delete aead env path s).1 in
      elim (Result-cases (delete aead env path s).0) [
        | inr (e, failed) ↦
            SameEntries-HandlesOnFiles s s' (delete-err aead env path s failed) holds
        | inl (u, done) ↦ elim (Bool-cases (is_directory path s)) [
          | inl dir ↦
              let (_, _, same, _) = delete-ok_directory aead env path s dir done in
              HandlesOnFiles-mono s s' holds (λ handle state open_on.
                (rw same.handles at open_on, rw same.files (λ there. there)))
          | inr file ↦
              let (entry, found, free, how) = delete-ok_file aead env path s file done in
              elim how [
                | inl (held, after) ↦ rw after (λ handle state open_on.
                    contains-insert path.lookup state.path_key (marked_pending entry) s.files
                      (holds handle state open_on))
                | inr (unheld, same, _) ↦
                    delete_file-HandlesOnFiles path.lookup s s' holds unheld same
              ]
        ]
      ]

  fewer-HandlesOnFiles :
      (handle : ℕ) (s : Store)
      → HandlesOnFiles s
      → HandlesOnFiles (without_handle aead env handle s)
  fewer-HandlesOnFiles handle s holds =
      HandlesOnFiles-mono s (without_handle aead env handle s) holds
        (λ other state open_on. (get-remove-some handle other s.handles open_on, λ there. there))

  pub close_handle-HandlesOnFiles :
      (handle : ℕ) (s : Store)
      → HandlesOnFiles s
      → HandlesOnFiles (close_handle aead env handle s).1
  close_handle-HandlesOnFiles handle s holds =
      let s' : Store = (close_handle aead env handle s).1 in
      let fewer : HandlesOnFiles (without_handle aead env handle s) =
        fewer-HandlesOnFiles handle s holds in
      elim (Option-cases (get handle s.handles)) [
        | inl missing ↦ rw (close_handle-missing aead env handle s missing) holds
        | inr (state, found) ↦ elim (Result-cases (close_handle aead env handle s).0) [
          | inr (e, failed) ↦
              let (handles, directories, files) = close_handle-err aead env handle s failed in
              SameEntries-HandlesOnFiles (without_handle aead env handle s) s'
                (record { directories = directories; files = files; handles = handles }) fewer
          | inl (u, done) ↦ elim (close_handle-ok aead env handle s found done) [
            | inl (_, last, kept) ↦
                delete_file-HandlesOnFiles state.path_key (without_handle aead env handle s) s'
                  fewer last
                  (record {
                    directories = ap (λ (x : Store). x.directories) kept.rest;
                    files = ap (λ (x : Store). x.files) kept.rest;
                    handles = ap (λ (x : Store). x.handles) kept.rest;
                  })
            | inr (_, leaves) ↦ rw leaves fewer
          ]
        ]
      ]
