-- ===== src/Storage/Store/Entries/Renaming.antt =====
-- `rename` and `rename_directory` of crates/dlp-storage/src/store.rs.
use wdlp.Base.{
  ℕ, Bool, true, false, not, ◌||◌, List, [], ◌∷◌, ◌++◌, length, drop, is_empty, Option, none, some,
  if◌then◌else◌,
}
use wdlp.Base.Bytes.{Bytes, bytes_eq, starts_with}
use wdlp.Base.Maps.{Map, text_key, number_key, get, insert, remove, contains}
use wdlp.Base.Results.{ok, err}
use wdlp.Crypto.Aead.{AeadCipher}
use wdlp.Storage.Errors.{not_found, already_exists, sharing_violation, delete_pending}
use wdlp.Storage.Path.{VirtualPath, display_name}
use wdlp.Storage.Store.{
  FileEntry, DirectoryEntry, HandleState, Environment, Store, Run, ◌>>◌, modify, refuse_if, tick,
}
use wdlp.Storage.Store.Entries.{
  is_directory, require_parent, below, name_or_empty, stamped, persist_or, delete,
}

-- `for state in self.handles.values_mut()`
unfoldable pub rekey : (Bytes → Bytes) → Map ℕ HandleState → Map ℕ HandleState
rekey f [] = []
rekey f ((handle, state) ∷ m) = (handle, record state { path_key = f state.path_key }) ∷ rekey f m

abbrev pub moved_key : Bytes → Bytes → Bytes → Bytes
moved_key source destination key = if bytes_eq key source then destination else key

abbrev pub moved_below : Bytes → Bytes → Bytes → Bytes
moved_below source destination key =
    if starts_with (below source) key then destination ++ drop (length source) key else key

-- `keys().filter(..).collect()`
unfoldable pub keys_where : {V : Type 0} → (Bytes → Bool) → Map Bytes V → List Bytes
keys_where p [] = []
keys_where p ((key, v) ∷ m) = let rest = keys_where p m in if p key then key ∷ rest else rest

abbrev pub blank_directory : DirectoryEntry
blank_directory = record { display = []; metadata = stamped 0 }

abbrev pub or_blank : Option DirectoryEntry → DirectoryEntry
or_blank none = blank_directory
or_blank (some entry) = entry

abbrev pub renamed : Bytes → ℕ → FileEntry → FileEntry
renamed name now entry = record entry {
  display = name;
  metadata = record (entry.metadata) { change_time = now };
}

-- The directories, files and handles of an earlier store.
abbrev pub prior : Store → Store → Store
prior s t = record t { directories = s.directories; files = s.files; handles = s.handles }

abbrev pub prior_files : Store → Store → Store
prior_files s t = record t { files = s.files; handles = s.handles }

module _ (aead : AeadCipher) (env : Environment) where
  -- One turn of the loop over the directories: the entry goes under its new key.
  abbrev pub move_directory : Bytes → Bytes → Bytes → Bytes → Store → Store
  move_directory source destination name key s =
      let suffix = drop (length source) key in
      let entry = or_blank (get key s.directories) in
      let now : ℕ = env.time s.world.calls in
      record s {
        directories =
            insert (destination ++ suffix)
              (record {
                display = if is_empty suffix then name else entry.display;
                metadata = record (entry.metadata) { change_time = now };
              })
              (remove key s.directories);
        world = tick s.world;
      }

  unfoldable pub move_directories : Bytes → Bytes → Bytes → List Bytes → Store → Store
  move_directories source destination name [] s = s
  move_directories source destination name (key ∷ keys) s =
      move_directories source destination name keys (move_directory source destination name key s)

  abbrev pub move_file_below : Bytes → Bytes → Bytes → Option FileEntry → Store → Store
  move_file_below source destination key none s = s
  move_file_below source destination key (some entry) s =
      let now : ℕ = env.time s.world.calls in
      record s {
        files =
            insert (destination ++ drop (length source) key)
              (record entry { metadata = record (entry.metadata) { change_time = now } })
              (remove key s.files);
        world = tick s.world;
      }

  unfoldable pub move_files : Bytes → Bytes → List Bytes → Store → Store
  move_files source destination [] s = s
  move_files source destination (key ∷ keys) s =
      move_files source destination keys
        (move_file_below source destination key (get key s.files) s)

  -- An entry in the way is deleted, if it may be replaced.
  abbrev pub make_way : Bool → VirtualPath → Run Store (Unit {0})
  make_way replace destination s =
      if contains destination.lookup s.files || contains destination.lookup s.directories
      then (do refuse_if (not replace) already_exists; delete aead env destination) s
      else (ok tt, s)

  abbrev pub move_tree : Bytes → VirtualPath → Run Store (Unit {0})
  move_tree source destination s =
      let target = destination.lookup in
      let inside = starts_with (below source) in
      let directories = keys_where (λ key. bytes_eq key source || inside key) s.directories in
      let files = keys_where inside s.files in
      (do
        modify
            (move_directories source target (name_or_empty (display_name destination)) directories)
        modify (move_files source target files)
        modify (λ t. record t { handles = rekey (moved_below source target) t.handles })
        persist_or aead env (prior s))
        s

  unfoldable pub rename_directory : VirtualPath → VirtualPath → Bool → Run Store (Unit {0})
  unfolding persist_or require_parent keys_where move_directories move_files rekey
  rename_directory source destination replace = do
    refuse_if (is_empty (source.lookup) || starts_with (below (source.lookup)) (destination.lookup))
        already_exists
    require_parent destination
    make_way replace destination
    move_tree (source.lookup) destination

  abbrev pub move_entry : Bytes → VirtualPath → Option FileEntry → Run Store (Unit {0})
  move_entry source destination none s = (err not_found, s)
  move_entry source destination (some entry) s =
      let now : ℕ = env.time s.world.calls in
      let target = destination.lookup in
      persist_or aead env (prior_files s) (record s {
        files =
            insert target (renamed (name_or_empty (display_name destination)) now entry)
              (remove source s.files);
        handles = rekey (moved_key source target) s.handles;
        world = tick s.world;
      })

  abbrev pub move_file : Bytes → VirtualPath → Run Store (Unit {0})
  move_file source destination s = move_entry source destination (get source s.files) s

  -- A file in the way is deleted, if it may be replaced and nothing holds it.
  abbrev pub clear_file : VirtualPath → Run Store (Unit {0})
  clear_file destination s =
      (do
        delete aead env destination
        λ t. (refuse_if (contains destination.lookup t.files) sharing_violation) t)
        s

  abbrev pub rename_listed : Bytes → VirtualPath → Bool → Bool → Run Store (Unit {0})
  rename_listed source destination replace true s = (err delete_pending, s)
  rename_listed source destination replace false s =
      if not (contains destination.lookup s.files)
      then move_file source destination s
      else if not replace
      then (err already_exists, s)
      else (clear_file destination >> move_file source destination) s

  abbrev pub rename_entry : Bytes → VirtualPath → Bool → Option FileEntry → Run Store (Unit {0})
  rename_entry source destination replace none s = (err not_found, s)
  rename_entry source destination replace (some entry) s =
      rename_listed source destination replace entry.delete_pending s

  unfoldable pub rename_file_or_directory : VirtualPath → VirtualPath → Bool → Run Store (Unit {0})
  unfolding is_directory rekey persist_or rename_directory
  rename_file_or_directory source destination replace s =
      if is_directory source s
      then rename_directory source destination replace s
      else rename_entry source.lookup destination replace (get source.lookup s.files) s

  unfoldable pub rename : VirtualPath → VirtualPath → Bool → Run Store (Unit {0})
  unfolding require_parent rename_file_or_directory
  rename source destination replace = do
    require_parent destination
    rename_file_or_directory source destination replace
