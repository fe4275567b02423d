-- ===== src/Agent/Cache/Activation.antt =====
-- The operations of `ConfigurationCache` of crates/dlp-agent-core/src/config_cache.rs. The directory
-- is a function from names to contents. `Host` answers each call made to the operating system by the
-- number of calls made before: whether it fails, how much of a failed write is left, whether
-- `Path::exists` cannot see the file, and what a directory lists.
pub mod Files
pub mod Admission
pub mod Invariant
pub mod Staging
pub mod Publishing
pub mod Soundness
pub mod Outcomes
pub mod Versions
pub mod Loading
use wdlp.Base.{
  ℕ, suc, ◌+◌, ◌-◌, ◌^◌, Bool, true, false, not, ◌&&◌, ◌||◌, ◌==◌, ltb, leb, List, [], ◌∷◌, ◌++◌,
  take, any, if◌then◌else◌, Option, none, some,
}
use wdlp.Base.Bytes.{Bytes, codes, bytes_eq}
use wdlp.Base.Results.{Result, ok, err}
use wdlp.Crypto.Verifier.{Ed25519, ConfigurationVerifier, verify}
use wdlp.Protocol.Envelope.{SignedConfigurationV1, canonical_bytes}
use wdlp.Agent.Cache.{
  CacheError, invalid_content_hash, wrong_audience, io_failure, corrupt_pointer, missing_bundle,
  stale_version, CachePointers, no_pointers, map_crypto_error, parse_bundle_version,
}
use wdlp.Agent.Cache.Wire.{deserialize_signed_configuration}
use wdlp.Agent.Cache.Pointers.{serialize_pointers, deserialize_pointers}
use wdlp.Agent.Cache.Hex.{encode, parse}

pub data CachePath : Type 0 where
  pointers_path temp_pointers_path : CachePath
  staging : Bytes → CachePath

unfoldable pub same_path : CachePath → CachePath → Bool
same_path pointers_path pointers_path = true
same_path temp_pointers_path temp_pointers_path = true
same_path (staging a) (staging b) = bytes_eq a b
same_path _ _ = false

pub record Host : Type 0 where
  pub fault : ℕ → Bool
  pub torn : ℕ → ℕ
  pub unseen : ℕ → Bool
  pub listing : ℕ → List Bytes

-- The directory, the generation that the mutex guards, and the calls made to the host.
pub record Cache : Type 0 where
  pub disk : CachePath → Option Bytes
  pub generation : ℕ
  pub calls : ℕ

abbrev pub Act : Type 0 → Type 0
Act A = Cache → Result CacheError A × Cache

module _ {A B : Type 0} where
  abbrev pub continue : Result CacheError A → (A → Act B) → Act B
  continue (ok a) f s = f a s
  continue (err e) f s = (err e, s)

  infixl 5 ◌>>=◌ ◌>>◌
  abbrev pub ◌>>=◌ : Act A → (A → Act B) → Act B
  ◌>>=◌ m f s = let (r, s') = m s in continue r f s'

  abbrev pub ◌>>◌ : Act A → Act B → Act B
  m >> k = m >>= λ _. k

module _ {A : Type 0} where
  abbrev pub pure : A → Act A
  pure a s = (ok a, s)

  abbrev pub lift : Result CacheError A → Act A
  lift r s = (r, s)

abbrev pub modify : (Cache → Cache) → Act (Unit {0})
modify f s = (ok tt, f s)

abbrev pub tick : Cache → Cache
tick s = record s { calls = suc s.calls }

unfoldable pub put : CachePath → Option Bytes → Cache → Cache
unfolding same_path
put path content s = record s {
  disk = λ other. if same_path path other then content else s.disk other;
}

abbrev pub answered : Bool → Result CacheError (Unit {0})
answered failed = if failed then err io_failure else ok tt

abbrev pub staging_path : Bytes → CachePath
staging_path digest = staging (encode digest)

-- `path.with_extension("tmp")`
abbrev pub staging_temp : Bytes → CachePath
staging_temp digest = staging (encode digest ++ codes ".tmp")

module _ (host : Host) where
  unfoldable pub system_call : Act (Unit {0})
  system_call s = (answered (host.fault s.calls), tick s)

  -- A write that fails leaves a part of the bytes.
  unfoldable pub write_all : CachePath → Bytes → Act (Unit {0})
  unfolding put
  write_all path bytes s =
      let content = if host.fault s.calls then take (host.torn s.calls) bytes else bytes in
      (answered (host.fault s.calls), put path (some content) (tick s))

  unfoldable pub rename : CachePath → CachePath → Act (Unit {0})
  unfolding put system_call
  rename source target = do
    system_call
    modify (λ s. put source none (put target (s.disk source) s))

  -- `File::create`, `write_all`, `sync_all`, `fs::rename`
  unfoldable pub write_file_atomic : CachePath → CachePath → Bytes → Act (Unit {0})
  unfolding system_call write_all rename put
  write_file_atomic path temp bytes = do
    system_call
    modify (put temp (some []))
    write_all temp bytes
    system_call
    rename temp path

  abbrev pub write_staged_bundle : Bytes → Bytes → Act (Unit {0})
  write_staged_bundle digest bytes =
      write_file_atomic (staging_path digest) (staging_temp digest) bytes

  abbrev pub write_pointers : CachePointers → ℕ → Act (Unit {0})
  write_pointers pointers generation =
      write_file_atomic pointers_path temp_pointers_path (serialize_pointers pointers generation)

  -- `fs::read`, with the error for a file that is missing or cannot be read
  abbrev pub read_content : CacheError → Option Bytes → Act Bytes
  read_content e none s = (err e, tick s)
  read_content e (some bytes) s = (if host.fault s.calls then err e else ok bytes, tick s)

  unfoldable pub read_file : CacheError → CachePath → Act Bytes
  read_file e path s = read_content e (s.disk path) s

  abbrev pub read_staged_bundle : Bytes → Act Bytes
  read_staged_bundle digest = read_file missing_bundle (staging_path digest)

  abbrev pub is_there : Option Bytes → Bool
  is_there none = false
  is_there (some bytes) = true

  -- `Path::exists` answers false where it cannot tell.
  abbrev pub exists : CachePath → Act Bool
  exists path s = (ok (if host.unseen s.calls then false else is_there (s.disk path)), tick s)

  abbrev pub read_if : Bool → Act CachePointers
  read_if false = pure no_pointers
  read_if true = do bytes ← read_file io_failure pointers_path; lift (deserialize_pointers bytes)

  unfoldable pub read_pointers : Act CachePointers
  unfolding read_file
  read_pointers = do there ← exists pointers_path; read_if there

  abbrev pub is_digest : Option Bytes → Bytes → Bool
  is_digest none digest = false
  is_digest (some other) digest = bytes_eq other digest

  abbrev pub referenced : CachePointers → Bytes → Bool
  referenced pointers digest =
      is_digest pointers.current_digest digest || is_digest pointers.lkg_digest digest

  -- `let _ = fs::remove_file(path)`
  abbrev pub remove_file : CachePath → Cache → Cache
  remove_file path s = if host.fault s.calls then tick s else put path none (tick s)

  abbrev pub clean_name : CachePointers → Bytes → Option Bytes → Cache → Cache
  clean_name pointers name none s = s
  clean_name pointers name (some digest) s =
      if referenced pointers digest then s else remove_file (staging name) s

  -- Each entry is read, which may fail and end the loop.
  unfoldable pub clean_names : CachePointers → List Bytes → Act (Unit {0})
  unfolding system_call put
  clean_names pointers [] s = (ok tt, s)
  clean_names pointers (name ∷ names) s =
      (do system_call; modify (clean_name pointers name (parse name)); clean_names pointers names) s

  unfoldable pub clean_staging : CachePointers → Act (Unit {0})
  unfolding clean_names system_call
  clean_staging pointers s = (do system_call; clean_names pointers (host.listing s.calls)) s

pub data ActivationOutcome : Type 0 where
  activated : (version : ℕ) (digest : Bytes) → ActivationOutcome
  unchanged : ActivationOutcome

-- The bundle that the host keeps, and its version.
pub record Admitted : Type 0 where
  pub signed : SignedConfigurationV1
  pub version : ℕ

module _ (sha256 : Bytes → Bytes) (ed25519 : Ed25519) where
  abbrev pub check_version :
      SignedConfigurationV1 → Result CacheError ℕ → Result CacheError Admitted
  check_version signed (ok version) = ok (record { signed = signed; version = version })
  check_version signed (err e) = err e

  module _ (verifier : ConfigurationVerifier) (device_id : Bytes) where
    -- The checks of the signature and of the audience, and the version.
    abbrev pub check_signed : SignedConfigurationV1 → Result CacheError Admitted
    check_signed signed =
        if not (bytes_eq signed.content_digest (sha256 (canonical_bytes signed.envelope)))
        then err invalid_content_hash
        else elim (verify ed25519 verifier signed.envelope.schema_version signed.key_id
            (canonical_bytes signed.envelope) signed.signature) [
              | err e ↦ err (map_crypto_error e)
              | ok _ ↦
                  if not (bytes_eq signed.audience device_id)
                  then err wrong_audience
                  else check_version signed (parse_bundle_version signed.envelope.bundle_version)
            ]

    abbrev pub check_read : Result CacheError SignedConfigurationV1 → Result CacheError Admitted
    check_read (ok signed) = check_signed signed
    check_read (err e) = err e

    -- What `stage_verify_activate` checks of the bytes alone.
    unfoldable pub admit : Bytes → Result CacheError Admitted
    admit bytes = check_read (deserialize_signed_configuration sha256 bytes)

abbrev pub stale : Option ℕ → ℕ → Result CacheError (Unit {0})
stale none version = ok tt
stale (some current) version =
    if leb version current then err (stale_version version current) else ok tt

-- `saturating_add(1)`
abbrev pub next_generation : ℕ → ℕ
next_generation generation = if ltb generation (2 ^ 64 - 1) then generation + 1 else 2 ^ 64 - 1

abbrev pub advanced : CachePointers → Bytes → ℕ → CachePointers
advanced pointers digest version = record {
  current_digest = some digest;
  current_version = some version;
  lkg_digest = pointers.current_digest;
  lkg_version = pointers.current_version;
}

module _ (host : Host) where
  -- What is written of a bundle that is admitted and newer.
  unfoldable pub activate : Bytes → Admitted → CachePointers → Act ActivationOutcome
  activate bytes a pointers s =
      let digest = a.signed.content_digest in
      let generation = next_generation s.generation in
      (do
        write_staged_bundle host digest bytes
        write_pointers host (advanced pointers digest a.version) generation
        modify (λ t. record t { generation = generation })
        modify (λ t. (clean_staging host (advanced pointers digest a.version) t).1)
        pure (activated a.version digest))
        s

  module _ (sha256 : Bytes → Bytes) (ed25519 : Ed25519) (verifier : ConfigurationVerifier)
      (device_id : Bytes) where
    unfoldable pub stage_verify_activate : Bytes → Act ActivationOutcome
    unfolding activate
    stage_verify_activate bytes = do
      system_call host
      a ← lift (admit sha256 ed25519 verifier device_id bytes)
      pointers ← read_pointers host
      lift (stale pointers.current_version a.version)
      activate bytes a pointers

  module _ (sha256 : Bytes → Bytes) where
    abbrev pub with_digest : Bytes → SignedConfigurationV1 → Result CacheError SignedConfigurationV1
    with_digest digest signed =
        if not (bytes_eq signed.content_digest digest) then err corrupt_pointer else ok signed

    unfoldable pub load_bundle_at_digest : Bytes → Act SignedConfigurationV1
    load_bundle_at_digest digest = do
      bytes ← read_staged_bundle host digest
      signed ← lift (deserialize_signed_configuration sha256 bytes)
      lift (with_digest digest signed)

    abbrev pub load_bundle : Option Bytes → Act (Option SignedConfigurationV1)
    load_bundle none = pure none
    load_bundle (some digest) = do signed ← load_bundle_at_digest digest; pure (some signed)

    unfoldable pub current_bundle : Act (Option SignedConfigurationV1)
    unfolding load_bundle_at_digest
    current_bundle = do pointers ← read_pointers host; load_bundle (pointers.current_digest)

    unfoldable pub lkg_bundle : Act (Option SignedConfigurationV1)
    unfolding load_bundle_at_digest
    lkg_bundle = do pointers ← read_pointers host; load_bundle (pointers.lkg_digest)
