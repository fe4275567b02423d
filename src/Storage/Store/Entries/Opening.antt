-- ===== src/Storage/Store/Entries/Opening.antt =====
-- Opening a file that is there, or creating it.
use wdlp.Base.{
  ℕ, ◌+◌, ◌-◌, ◌++◌, length, replicate, ◌≡◌, refl, ap, sym, ◌∙◌, Bool, true, false, ◌⊎◌, inl, inr,
  Option, some, none, Bool-cases,
}
use wdlp.Base.Bytes.{Bytes, codes}
use wdlp.Base.Decimal.{to_decimal}
use wdlp.Base.Maps.{text_key, number_key, get, insert, remove, remove-insert}
use wdlp.Base.Results.{Result, ok, err, Result-cases}
use wdlp.Crypto.Aead.{AeadCipher}
use wdlp.Storage.Errors.{StorageError, Outcome, io_failure}
use wdlp.Domain.Laws.{parse_identifier-IsSafeName}
use wdlp.Storage.Path.{VirtualPath, display_name, parent_key}
use wdlp.Storage.Store.{FileEntry, Environment, Store, tick, next_u64}
use wdlp.Storage.Store.Entries.{
  map_err, padded, require_parent, parent_in, stamped, name_or_empty, new_file_id, fresh_file,
  persist_or, new_entry, open_entry, open_handle, create_or_open,
}
use wdlp.Storage.Store.Entries.Frames.{SameEntries, persist_or-err, persist_or-IsPersisted}
use wdlp.Storage.Store.Entries.Named.{
  HasName, MadeAt, ParentThere, display_name-HasName, parent_in-ParentThere,
}
use wdlp.Storage.Store.Namespace.Persisted.{IsPersisted}

mapped : {E F A : Type 0} (e : F) (r : Result E A) {x : A} → map_err e r ≡ ok x → r ≡ ok x
mapped e (ok a) h = cc
mapped e (err _) h = cc

new_file_id-ok :
    (n : ℕ) {file_id : Bytes} → new_file_id n ≡ ok file_id → file_id ≡ codes "file-" ++ padded n
new_file_id-ok n h = (parse_identifier-IsSafeName false _ (mapped io_failure _ h)).0

module _ (aead : AeadCipher) (env : Environment) where
  -- What opening does to the entries: the file was there and not pending deletion, and all that
  -- changes is the time of its last access; or it was not there and `create` is asked for, its parent
  -- is, and a new entry for it is persisted.
  abbrev pub Existing : VirtualPath → Store → Store → Type 0
  Existing path s t =
      (old : FileEntry) × (get path.lookup s.files ≡ some old)
      × (old.delete_pending ≡ false)
      × (t ≡ record s {
        files =
            insert path.lookup
              (record old {
                metadata = record (old.metadata) { last_access_time = env.time s.world.calls };
              })
              s.files;
        world = tick s.world;
      })

  abbrev pub Created : VirtualPath → Bool → Store → Store → Type 0
  Created path create s t =
      (create ≡ true)
      × (get path.lookup s.files ≡ none)
      × ParentThere (parent_key path) s.directories
      × (entry : FileEntry) × (entry.delete_pending ≡ false)
      × HasName path.display entry.display
      × MadeAt (env.time s.world.calls) entry.metadata
      × (entry.file_id
          ≡ codes "file-"
            ++ (replicate (20 - length (to_decimal s.world.next_file)) b'0'
                ++ to_decimal s.world.next_file))
      × IsPersisted aead env
          (record s {
            files = insert path.lookup entry s.files;
            world = tick (record (s.world) { next_file = next_u64 (s.world.next_file) });
          })
          t

  abbrev pub Opened : VirtualPath → Bool → Store → Store → Type 0
  Opened path create s t = Existing path s t ⊎ Created path create s t

  -- The next handle on the file, and nothing else
  abbrev pub handed : VirtualPath → Bool → Store → Store
  handed path allow_delete t = record t {
    handles =
        insert t.world.next_handle (record { path_key = path.lookup; allow_delete = allow_delete })
          t.handles;
    world = record (t.world) { next_handle = next_u64 t.world.next_handle };
  }

  handed-IsPersisted :
      (path : VirtualPath) (allow_delete : Bool) (s t : Store)
      → IsPersisted aead env s t
      → IsPersisted aead env (handed path allow_delete s) (handed path allow_delete t)
  handed-IsPersisted path allow_delete s t kept =
      let next : t.world.next_handle ≡ s.world.next_handle = ap (λ c. c.1.0) kept.counted in
      record {
        rest =
            ap (handed path allow_delete) kept.rest
            ∙ ap
                (λ (n : ℕ). record s {
                  handles =
                      insert n (record { path_key = path.lookup; allow_delete = allow_delete })
                        s.handles;
                  namespace_generation = s.namespace_generation + 1;
                  world = record (t.world) { next_handle = next_u64 t.world.next_handle };
                })
                next;
        published = kept.published;
        counted = ap (λ c. (c.0, (next_u64 c.1.0, c.1.1))) kept.counted;
        other_files = kept.other_files;
      }

  module _ (path : VirtualPath) (s : Store) where
    abbrev numbered : Store
    numbered = (fresh_file s).1

    abbrev fresh_entry : Bytes → FileEntry
    fresh_entry file_id = record {
      file_id = file_id;
      display = name_or_empty (display_name path);
      delete_pending = false;
      metadata = stamped (env.time s.world.calls);
    }

    abbrev with_file : Bytes → Store
    with_file file_id = record s {
      files = insert path.lookup (fresh_entry file_id) s.files;
      world = tick (numbered.world);
    }

    abbrev file_withdrawn : Store → Store
    file_withdrawn t = record t { files = remove path.lookup t.files }

    new_entry-cases :
        ((e : StorageError) × (new_entry aead env path s ≡ (err e, numbered)))
        ⊎ ((file_id : Bytes) × (new_file_id s.world.next_file ≡ ok file_id)
            × (new_entry aead env path s ≡ persist_or aead env file_withdrawn (with_file file_id)))
    unfolding new_entry
    new_entry-cases = elim (Result-cases (new_file_id s.world.next_file)) [
      | inr (e, bad) ↦ inl (e, rw bad refl)
      | inl (file_id, named) ↦ inr (file_id, named, rw named refl)
    ]

    new_entry-err :
        {e : StorageError}
        → get path.lookup s.files ≡ none
        → (new_entry aead env path s).0 ≡ err e
        → SameEntries s (new_entry aead env path s).1
    new_entry-err absent = elim new_entry-cases [
      | inl (e, refused) ↦
          rw refused (λ _. record { directories = refl; files = refl; handles = refl })
      | inr (file_id, named, persisting) ↦ rw persisting (λ h.
          let (t, same, back) = persist_or-err aead env (with_file file_id) file_withdrawn h in
          record {
            directories = ap (λ (x : Store). x.directories) back ∙ same.directories;
            files =
                ap (λ (x : Store). x.files) back
                ∙ (ap (remove path.lookup) same.files
                    ∙ remove-insert path.lookup (fresh_entry file_id) s.files absent);
            handles = ap (λ (x : Store). x.handles) back ∙ same.handles;
          })
    ]

    new_entry-ok :
        (create : Bool) {u : Unit {0}}
        → create ≡ true
        → get path.lookup s.files ≡ none
        → parent_in (parent_key path) s.directories ≡ ok u
        → (new_entry aead env path s).0 ≡ ok tt
        → Created path create s (new_entry aead env path s).1
    new_entry-ok create asked absent found = elim new_entry-cases [
      | inl (e, refused) ↦ rw refused (λ h. cc)
      | inr (file_id, named, persisting) ↦ rw persisting (λ h. (
        asked,
        absent,
        parent_in-ParentThere (parent_key path) s.directories found,
        fresh_entry file_id,
        refl,
        display_name-HasName path,
        record { created = refl; accessed = refl; written = refl; changed = refl },
        new_file_id-ok s.world.next_file named,
        persist_or-IsPersisted aead env (with_file file_id) file_withdrawn h,
      ))
    ]

    open_entry-err :
        (create : Bool) {e : StorageError} (o : Option FileEntry)
        → get path.lookup s.files ≡ o
        → (open_entry aead env path create o s).0 ≡ err e
        → SameEntries s (open_entry aead env path create o s).1
    unfolding require_parent
    open_entry-err create (some entry) found = elim (Bool-cases entry.delete_pending) [
      | inl pending ↦ rw pending (λ _. record { directories = refl; files = refl; handles = refl })
      | inr listed ↦ rw listed (λ h. cc)
    ]
    open_entry-err false none absent =
        λ _. record { directories = refl; files = refl; handles = refl }
    open_entry-err true none absent =
        elim (Result-cases (parent_in (parent_key path) s.directories)) [
          | inr (e, orphan) ↦
              rw orphan (λ _. record { directories = refl; files = refl; handles = refl })
          | inl (u, found) ↦ rw found (new_entry-err absent)
        ]

    open_entry-ok :
        (create : Bool) (o : Option FileEntry)
        → get path.lookup s.files ≡ o
        → (open_entry aead env path create o s).0 ≡ ok tt
        → Opened path create s (open_entry aead env path create o s).1
    unfolding require_parent
    open_entry-ok create (some entry) found = elim (Bool-cases entry.delete_pending) [
      | inl pending ↦ rw pending (λ h. cc)
      | inr listed ↦ rw listed (λ h. inl (entry, found, listed, rw listed refl))
    ]
    open_entry-ok false none absent = λ h. cc
    open_entry-ok true none absent =
        elim (Result-cases (parent_in (parent_key path) s.directories)) [
          | inr (e, orphan) ↦ rw orphan (λ h. cc)
          | inl (u, found) ↦ rw found (λ h. inr (new_entry-ok true refl absent found h))
        ]

    abbrev opened : Bool → Store
    opened create = (open_entry aead env path create (get path.lookup s.files) s).1

    abbrev outcome : Bool → Outcome (Unit {0})
    outcome create = (open_entry aead env path create (get path.lookup s.files) s).0

    -- A file that cannot be opened or created, for whatever reason, leaves the directories, the
    -- files and the handles as they were.
    pub create_or_open-err :
        (create allow_delete : Bool) {e : StorageError}
        → (create_or_open aead env path create allow_delete s).0 ≡ err e
        → SameEntries s (create_or_open aead env path create allow_delete s).1
    unfolding create_or_open
    create_or_open-err create allow_delete = elim (Result-cases (outcome create)) [
      | inr (e, refused) ↦
          rw refused (λ _. open_entry-err create (get path.lookup s.files) refl refused)
      | inl (u, done) ↦ rw done (λ h. cc)
    ]

    handed-Opened :
        (create allow_delete : Bool) (t : Store)
        → Opened path create s t
        → Opened path create (handed path allow_delete s) (handed path allow_delete t)
    handed-Opened create allow_delete t (inl (old, found, listed, after)) =
        inl (old, found, listed, ap (handed path allow_delete) after)
    handed-Opened create allow_delete t
          (inr (asked, absent, parent, entry, listed, named, made, id, kept)) =
        inr (
          asked,
          absent,
          parent,
          entry,
          listed,
          named,
          made,
          id,
          handed-IsPersisted path allow_delete _ t kept,
        )

    Opened-next_handle :
        (create : Bool) (t : Store)
        → Opened path create s t
        → t.world.next_handle ≡ s.world.next_handle
    Opened-next_handle create t (inl (_, _, _, after)) =
        ap (λ (x : Store). x.world.next_handle) after
    Opened-next_handle create t (inr (_, _, _, _, _, _, _, _, kept)) = ap (λ c. c.1.0) kept.counted

    -- Opening a file answers the next handle and puts it on the file. Besides, either the file was
    -- there and not pending deletion, and all else that changes is the time of its last access,
    -- which is the time of the call; or it was not there and is created, where that is asked for
    -- and its parent is a directory: a new entry, not pending deletion, with the last component of
    -- the path as its name, the time of the call as its four times, and the next file number, padded
    -- to twenty digits, in its identifier. The namespace with a new entry is persisted, and nothing
    -- else of the store changes, nor of its disk but the namespace's own files.
    pub create_or_open-ok :
        (create allow_delete : Bool) {handle : ℕ}
        → (create_or_open aead env path create allow_delete s).0 ≡ ok handle
        → (handle ≡ s.world.next_handle)
          × Opened path create
              (record s {
                handles =
                    insert handle
                      (record { path_key = path.lookup; allow_delete = allow_delete })
                      s.handles;
                world = record (s.world) { next_handle = next_u64 handle };
              })
              (create_or_open aead env path create allow_delete s).1
    unfolding create_or_open open_handle
    create_or_open-ok create allow_delete {handle} = elim (Result-cases (outcome create)) [
      | inr (e, refused) ↦ rw refused (λ h. cc)
      | inl (u, done) ↦ rw done (λ h.
          let t : Store = opened create in
          let agree : t.world.next_handle ≡ handle = cc in
          let did : Opened path create s t =
            open_entry-ok create (get path.lookup s.files) refl done in
          let next : handle ≡ s.world.next_handle = sym agree ∙ Opened-next_handle create t did in
          (next, rw next (handed-Opened create allow_delete t did)))
    ]
