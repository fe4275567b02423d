-- ===== src/Storage/Store.antt =====
-- crates/dlp-storage/src/store.rs: the state of `LocalEncryptedStore` and of what it touches: the
-- disk, the clock, the nonces and the counters. A method is a `Run`: it returns a result and the
-- state that it leaves, also where it fails.
pub mod Disk
pub mod Namespace
pub mod Entries
pub mod Flush
pub mod Keeps
pub mod Content
pub mod Ensures
pub mod Transfer
use wdlp.Base.{
  ℕ, suc, ◌+◌, ◌%◌, ◌^◌, Bool, true, false, List, [], Option, none, some, if◌then◌else◌,
}
use wdlp.Base.Bytes.{Bytes}
use wdlp.Base.Maps.{Map, is_some}
use wdlp.Base.Results.{Result, ok, err}
use wdlp.Storage.Errors.{StorageError, Outcome, io_failure}

pub record EntryMetadata : Type 0 where
  pub creation_time : ℕ
  pub last_access_time : ℕ
  pub last_write_time : ℕ
  pub change_time : ℕ

pub record FileEntry : Type 0 where
  pub file_id : Bytes
  pub display : Bytes
  pub delete_pending : Bool
  pub metadata : EntryMetadata

pub record DirectoryEntry : Type 0 where
  pub display : Bytes
  pub metadata : EntryMetadata

pub record HandleState : Type 0 where
  pub path_key : Bytes
  pub allow_delete : Bool

pub data DurabilityFaultPoint : Type 0 where
  before_record_write after_record_flush before_manifest_write : DurabilityFaultPoint
  after_manifest_flush before_commit_write after_commit_flush : DurabilityFaultPoint
  before_pointer_replace after_pointer_replace : DurabilityFaultPoint
  before_directory_flush after_directory_flush : DurabilityFaultPoint

pub record FaultInjectingIo : Type 0 where
  pub fault : Option DurabilityFaultPoint
  pub error : StorageError

-- The files of a store's directory on the host, named by what their names are made of.
pub data DiskPath : Type 0 where
  namespace_rec namespace_marker : DiskPath
  namespace_tmp : (generation : ℕ) → DiskPath
  chunk_rec : (file : Bytes) (generation index : ℕ) → DiskPath
  manifest_rec commit_rec selected_tmp : (file : Bytes) (generation : ℕ) → DiskPath
  selected_commit previous_commit file_marker : (file : Bytes) → DiskPath

-- What the host decides: the clock's readings, the nonces drawn, whether a system call fails (as
-- `map_io` reports it), how much of a failed write reaches the disk, and whether the query of
-- `Path::exists` fails. Each is asked by a count
-- of the calls made so far, which never falls, so that every answer is free.
pub record Environment : Type 0 where
  pub time : ℕ → ℕ
  pub nonce : ℕ → Bytes
  pub fault : ℕ → Option StorageError
  pub torn : ℕ → ℕ
  pub unseen : ℕ → Bool

pub record World : Type 0 where
  pub disk : DiskPath → Option Bytes
  pub calls : ℕ
  pub next_file : ℕ
  pub next_handle : ℕ
  pub next_generation : ℕ

pub record Store : Type 0 where
  pub store_id : Bytes
  pub key : Bytes
  pub staged : Map Bytes Bytes
  pub forced_duplicate : List Bytes
  pub directories : Map Bytes DirectoryEntry
  pub files : Map Bytes FileEntry
  pub handles : Map ℕ HandleState
  pub namespace_generation : ℕ
  pub fail_next_write : Bool
  pub fault_io : FaultInjectingIo
  pub world : World

-- `fetch_add(1)` on an `AtomicU64`: the old value, and the next one modulo 2^64.
abbrev pub next_u64 : ℕ → ℕ
next_u64 n = (n + 1) % 2 ^ 64

abbrev pub Run {ℓ} : Type 0 → Type ℓ → Type ℓ
Run S A = S → Outcome A × S

module _ {ℓ κ} {S : Type 0} {A : Type ℓ} {B : Type κ} where
  abbrev pub continue : Outcome A → (A → Run S B) → Run S B
  continue (ok a) f s = f a s
  continue (err e) f s = (err e, s)

  infixl 5 ◌>>=◌ ◌>>◌
  abbrev pub ◌>>=◌ : Run S A → (A → Run S B) → Run S B
  ◌>>=◌ m f s = let (r, s') = m s in continue r f s'

  abbrev pub ◌>>◌ : Run S A → Run S B → Run S B
  m >> k = m >>= λ _. k

module _ {ℓ} {S : Type 0} {A : Type ℓ} where
  abbrev pub pure : A → Run S A
  pure a s = (ok a, s)

  abbrev pub raise : StorageError → Run S A
  raise e s = (err e, s)

  abbrev pub lift : Outcome A → Run S A
  lift r s = (r, s)

  abbrev pub gets : (S → A) → Run S A
  gets f s = (ok (f s), s)

module _ {S : Type 0} where
  abbrev pub modify : (S → S) → Run S (Unit {0})
  modify f s = (ok tt, f s)

  abbrev pub refuse_if : Bool → StorageError → Run S (Unit {0})
  refuse_if bad e = if bad then raise e else pure tt

abbrev pub failed : Option StorageError → Outcome (Unit {0})
failed none = ok tt
failed (some e) = err e

abbrev pub tick : World → World
tick w = record w { calls = suc w.calls }

module _ (env : Environment) where
  -- `current_filetime()`, the nonce of `Nonce::generate()`, and a system call
  abbrev pub current_filetime : Run World ℕ
  current_filetime w = (ok (env.time w.calls), tick w)

  abbrev pub draw_nonce : Run World Bytes
  draw_nonce w = (ok (env.nonce w.calls), tick w)

  -- `Path::exists` answers false where it cannot tell.
  abbrev pub exists : DiskPath → Run World Bool
  exists path w = (ok (if env.unseen w.calls then false else is_some (w.disk path)), tick w)

  unfoldable pub system_call : Run World (Unit {0})
  system_call w = (failed (env.fault w.calls), tick w)

-- A step of the store that touches only its world.
abbrev pub outside {ℓ} : {A : Type ℓ} → Run World A → Run Store A
outside m s = let (r, w) = m s.world in (r, record s { world = w })
