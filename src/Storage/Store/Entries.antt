-- ===== src/Storage/Store/Entries.antt =====
-- The namespace operations of crates/dlp-storage/src/store.rs: directories, opening and closing
-- files, and deletion.
pub mod Frames
pub mod Named
pub mod Creation
pub mod Deletion
pub mod Handles
pub mod Opening
pub mod Invariant
pub mod Reachable
pub mod Listing
pub mod Renaming
pub mod Rekeyed
pub mod FileRenaming
pub mod RenamedHandles
use wdlp.Base.{
  ℕ, ◌+◌, ◌-◌, ◌==◌, ltb, Bool, true, false, not, ◌&&◌, ◌||◌, List, [], ◌∷◌, ◌++◌, length, drop,
  replicate, is_empty, all, Option, none, some, if◌then◌else◌,
}
use wdlp.Base.Bytes.{Bytes, codes, bytes_eq, starts_with}
use wdlp.Base.BytesOrder.{before}
use wdlp.Base.Decimal.{to_decimal}
use wdlp.Base.Maps.{
  Key, text_key, number_key, Map, get, insert, remove, contains, any_value, any_key,
}
use wdlp.Base.Results.{Result, ok, err}
use wdlp.Crypto.Aead.{AeadCipher}
use wdlp.Domain.{parse_opaque_id}
use wdlp.Storage.Errors.{
  StorageError, Outcome, not_found, io_failure, already_exists, sharing_violation, delete_pending,
}
use wdlp.Storage.Path.{VirtualPath, display_name, parent_key, to_ascii_lowercase}
use wdlp.Storage.Store.{
  EntryMetadata, FileEntry, DirectoryEntry, HandleState, Environment, World, Store, next_u64, Run,
  ◌>>=◌, ◌>>◌, pure, raise, lift, gets, modify, refuse_if, current_filetime, outside, continue,
}
use wdlp.Storage.Store.Namespace.{persist_namespace}

-- `unwrap_or_default()` of a name
abbrev pub name_or_empty : Option Bytes → Bytes
name_or_empty none = []
name_or_empty (some name) = name

abbrev pub map_err {ℓ} : {E F : Type 0} {A : Type ℓ} → F → Result E A → Result F A
map_err e (ok a) = ok a
map_err e (err _) = err e

abbrev pub stamped : ℕ → EntryMetadata
stamped now = record {
  creation_time = now;
  last_access_time = now;
  last_write_time = now;
  change_time = now;
}

unfoldable pub is_directory : VirtualPath → Store → Bool
unfolding contains
is_directory path s = is_empty path.lookup || contains path.lookup s.directories

abbrev pub parent_in : Option Bytes → Map Bytes DirectoryEntry → Outcome (Unit {0})
parent_in none directories = ok tt
parent_in (some parent) directories = if contains parent directories then ok tt else err not_found

unfoldable pub require_parent : VirtualPath → Run Store (Unit {0})
require_parent path s = (parent_in (parent_key path) s.directories, s)

abbrev pub below : Bytes → Bytes
below key = key ++ (b'/' ∷ [])

abbrev pub on_path : Bytes → HandleState → Bool
on_path key handle = bytes_eq handle.path_key key

abbrev pub blocks_delete : Bytes → HandleState → Bool
blocks_delete key handle = bytes_eq handle.path_key key && not handle.allow_delete

abbrev pub has_below : Bytes → Store → Bool
has_below key s =
    any_key (starts_with (below key)) s.directories || any_key (starts_with (below key)) s.files

-- The error of the persisted namespace takes back what was done in memory.
abbrev pub settle : (Store → Store) → Outcome (Unit {0}) × Store → Outcome (Unit {0}) × Store
settle undo (ok a, s) = (ok a, s)
settle undo (err e, s) = (err e, undo s)

-- `format!("file-{id:020}")`
abbrev pub padded : ℕ → Bytes
padded n = let digits = to_decimal n in replicate (20 - length digits) b'0' ++ digits

abbrev pub new_file_id : ℕ → Outcome Bytes
new_file_id n = map_err io_failure (parse_opaque_id (codes "file-" ++ padded n))

abbrev pub fresh_file : Run Store ℕ
fresh_file s = (
  ok s.world.next_file,
  record s { world = record (s.world) { next_file = next_u64 (s.world.next_file) } },
)

unfoldable pub open_handle : Bytes → Bool → Run Store ℕ
open_handle key allow_delete s =
    let h : ℕ = s.world.next_handle in
    (
      ok h,
      record s {
        handles = insert h (record { path_key = key; allow_delete = allow_delete }) s.handles;
        world = record (s.world) { next_handle = next_u64 h };
      },
    )

abbrev pub touched : Bytes → FileEntry → ℕ → Store → Store
touched key entry now t = record t {
  files =
      insert key (record entry { metadata = record (entry.metadata) { last_access_time = now } })
        t.files;
}

abbrev pub is_pending : Option FileEntry → Bool
is_pending none = false
is_pending (some entry) = entry.delete_pending

abbrev pub mark_pending : Bytes → FileEntry → Run Store (Unit {0})
mark_pending key entry =
    modify (λ t. record t { files = insert key (record entry { delete_pending = true }) t.files })

module _ (aead : AeadCipher) (env : Environment) where
  unfoldable pub persist_or : (Store → Store) → Run Store (Unit {0})
  persist_or undo s = settle undo (persist_namespace aead env s)

  unfoldable pub create_directory : VirtualPath → Run Store (Unit {0})
  unfolding require_parent persist_or
  create_directory path s =
      let key = path.lookup in
      (do
        refuse_if (contains key s.files || contains key s.directories) already_exists
        require_parent path
        now ← outside (current_filetime env)
        modify (λ t. record t {
          directories =
              insert key
                (record { display = name_or_empty (display_name path); metadata = stamped now })
                t.directories;
        })
        persist_or (λ t. record t { directories = remove key t.directories }))
        s

  unfoldable pub new_entry : VirtualPath → Run Store (Unit {0})
  unfolding persist_or
  new_entry path = do
    id ← fresh_file
    file_id ← lift (new_file_id id)
    now ← outside (current_filetime env)
    modify (λ t. record t {
      files =
          insert (path.lookup)
            (record {
              file_id = file_id;
              display = name_or_empty (display_name path);
              delete_pending = false;
              metadata = stamped now;
            })
            t.files;
    })
    persist_or (λ t. record t { files = remove (path.lookup) t.files })

  abbrev pub open_entry : VirtualPath → Bool → Option FileEntry → Run Store (Unit {0})
  open_entry path create (some entry) = do
    refuse_if entry.delete_pending delete_pending
    now ← outside (current_filetime env)
    modify (touched path.lookup entry now)
  open_entry path create none = do
    refuse_if (not create) not_found
    require_parent path
    new_entry path

  unfoldable pub create_or_open : VirtualPath → Bool → Bool → Run Store ℕ
  unfolding new_entry open_handle require_parent
  create_or_open path create allow_delete s =
      (do open_entry path create (get path.lookup s.files); open_handle path.lookup allow_delete) s

  abbrev pub remove_file : Bytes → Run Store (Unit {0})
  remove_file key s =
      (do
        modify (λ t. record t { files = remove key t.files })
        persist_or (λ t. record t { files = s.files }))
        s

  -- The file goes with its last handle, if it is pending deletion.
  abbrev pub release : Bytes → Run Store (Unit {0})
  release key s =
      if is_pending (get key s.files) && not (any_value (on_path key) s.handles)
      then remove_file key s
      else (ok tt, s)

  abbrev pub close_found : ℕ → Option HandleState → Run Store (Unit {0})
  close_found handle none s = (err not_found, s)
  close_found handle (some state) s =
      release (state.path_key) (record s { handles = remove handle s.handles })

  unfoldable pub close_handle : ℕ → Run Store (Unit {0})
  unfolding persist_or
  close_handle handle s = close_found handle (get handle s.handles) s

  unfoldable pub delete_directory : VirtualPath → Run Store (Unit {0})
  unfolding persist_or
  delete_directory path s =
      let key = path.lookup in
      (do
        refuse_if (is_empty key) sharing_violation
        refuse_if (not (contains key s.directories)) not_found
        refuse_if (has_below key s) sharing_violation
        modify (λ t. record t { directories = remove key t.directories })
        persist_or (λ t. record t { directories = s.directories }))
        s

  abbrev pub delete_entry : Bytes → Option FileEntry → Run Store (Unit {0})
  delete_entry key none s = (err not_found, s)
  delete_entry key (some entry) s =
      if any_value (blocks_delete key) s.handles
      then (err sharing_violation, s)
      else if any_value (on_path key) s.handles
      then mark_pending key entry s
      else remove_file key s

  unfoldable pub delete_file : Bytes → Run Store (Unit {0})
  unfolding persist_or
  delete_file key s = delete_entry key (get key s.files) s

  unfoldable pub delete : VirtualPath → Run Store (Unit {0})
  unfolding is_directory delete_directory delete_file
  delete path s = if is_directory path s then delete_directory path s else delete_file path.lookup s
