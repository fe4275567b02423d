-- ===== src/Agent/Cache/Activation/Loading.antt =====
-- `current_bundle` and `lkg_bundle` of crates/dlp-agent-core/src/config_cache.rs, and what happens
-- where the pointers' file cannot be seen.
use wdlp.Base.{
  ℕ, suc, ◌≡◌, refl, ap, ◌∙◌, true, false, leb, Option, none, some, Option-cases, inl, inr, arith,
}
use wdlp.Base.Bytes.{Bytes, bytes_eq, bytes_eq_refl}
use wdlp.Base.Results.{ok}
use wdlp.Protocol.Envelope.{SignedConfigurationV1}
use wdlp.Agent.Cache.{CachePointers, no_pointers}
use wdlp.Agent.Cache.Wire.{deserialize_signed_configuration}
use wdlp.Agent.Cache.Pointers.{serialize_pointers}
use wdlp.Agent.Cache.Pointers.RoundTrip.{deserialize_pointers-serialize}
use wdlp.Agent.Cache.Activation.{
  CachePath, pointers_path, temp_pointers_path, staging_path, staging_temp, advanced,
  next_generation, Host, Cache, tick, Admitted, activated, stale, admit, read_file, read_pointers,
  write_file_atomic, activate, stage_verify_activate, current_bundle, lkg_bundle,
  load_bundle_at_digest, load_bundle, system_call,
}
use wdlp.Agent.Cache.Activation.Files.{pointers_in, read_pointers-disk, read_pointers-unseen}
use wdlp.Agent.Cache.Activation.Admission.{Trust, IsAdmitted}
use wdlp.Agent.Cache.Activation.Invariant.{Disk, Backs, Selects, IsSound}
use wdlp.Agent.Cache.Activation.Soundness.{activation}
use wdlp.Agent.Cache.Activation.Outcomes.{Newer}

-- No call fails.
pub record IsCalm (host : Host) : Type 0 where
  pub works : (k : ℕ) → host.fault k ≡ false
  pub seen : (k : ℕ) → host.unseen k ≡ false

module _ (trust : Trust) (host : Host) (calm : IsCalm host) where
  open trust use {sha256}

  pub read_pointers-calm :
      (s : Cache) → (read_pointers host s).0 ≡ pointers_in (s.disk pointers_path)
  unfolding read_pointers
  read_pointers-calm s = elim (Option-cases (s.disk pointers_path)) [
    | inl missing ↦ rw (calm.seen s.calls, missing) refl
    | inr (bytes, found) ↦ rw (calm.seen s.calls, found, found, calm.works (suc s.calls)) refl
  ]

  load-stored :
      (s : Cache) (digest bytes : Bytes) (signed : SignedConfigurationV1)
      → s.disk (staging_path digest) ≡ some bytes
      → deserialize_signed_configuration sha256 bytes ≡ ok signed
      → signed.content_digest ≡ digest
      → (load_bundle host sha256 (some digest) s).0 ≡ ok (some signed)
  unfolding load_bundle_at_digest read_file
  load-stored s digest bytes signed stored content named =
      let same : bytes_eq signed.content_digest digest ≡ true = rw named (bytes_eq_refl digest) in
      rw (stored, calm.works s.calls, content, same) refl

  load-selected :
      (s : Cache) (p : CachePointers) (o : Option SignedConfigurationV1)
      → pointers_in (s.disk pointers_path) ≡ ok p
      → ((t : Cache) → t.disk ≡ s.disk → (load_bundle host sha256 p.current_digest t).0 ≡ ok o)
      → (current_bundle host sha256 s).0 ≡ ok o
  unfolding current_bundle
  load-selected s p o selected loads =
      rw (read_pointers-calm s ∙ selected)
        (loads (read_pointers host s).1 (read_pointers-disk host s).0)

  -- A bundle that was admitted, or none.
  abbrev pub Trusted : Option SignedConfigurationV1 → Type 0
  Trusted none = Unit
  Trusted (some signed) =
      (bytes : Bytes) × (a : Admitted) × IsAdmitted trust bytes a × (a.signed ≡ signed)

  load-Backs :
      (s : Cache) (digest : Option Bytes)
      → Backs trust s.disk digest
      → (o : Option SignedConfigurationV1) × ((t : Cache)
          → t.disk ≡ s.disk
          → (load_bundle host sha256 digest t).0 ≡ ok o)
        × Trusted o
  load-Backs s none b = (none, λ t same. refl, tt)
  load-Backs s (some digest) b = (
    some b.bundle.signed,
    λ t same.
        load-stored t digest b.file b.bundle.signed
          (ap (λ (d : Disk). d (staging_path digest)) same ∙ b.stored) b.admitted.content b.named,
    (b.file, b.bundle, b.admitted, refl),
  )

  load-lkg :
      (s : Cache) (p : CachePointers) (o : Option SignedConfigurationV1)
      → pointers_in (s.disk pointers_path) ≡ ok p
      → ((t : Cache) → t.disk ≡ s.disk → (load_bundle host sha256 p.lkg_digest t).0 ≡ ok o)
      → (lkg_bundle host sha256 s).0 ≡ ok o
  unfolding lkg_bundle
  load-lkg s p o selected loads =
      rw (read_pointers-calm s ∙ selected)
        (loads (read_pointers host s).1 (read_pointers-disk host s).0)

  abbrev Loads : Cache → Type 0
  Loads s =
      ((o : Option SignedConfigurationV1) × ((current_bundle host sha256 s).0 ≡ ok o) × Trusted o)
      × ((o : Option SignedConfigurationV1) × ((lkg_bundle host sha256 s).0 ≡ ok o) × Trusted o)

  Loads-Selects :
      (s : Cache) (file : Option Bytes)
      → s.disk pointers_path ≡ file
      → Selects trust s.disk file
      → Loads s
  Loads-Selects s none e k = (
    (none, load-selected s no_pointers none (rw e refl) (λ t same. refl), tt),
    (none, load-lkg s no_pointers none (rw e refl) (λ t same. refl), tt),
  )
  Loads-Selects s (some file) e k =
      let selected : pointers_in (s.disk pointers_path) ≡ ok k.pointers =
        rw (e ∙ ap some k.written)
          (deserialize_pointers-serialize k.pointers k.paired k.generation k.generation_fits) in
      let (current, loads, trusted) = load-Backs s k.pointers.current_digest k.current in
      let (lkg, loads', trusted') = load-Backs s k.pointers.lkg_digest k.lkg in
      (
        (current, load-selected s k.pointers current selected loads, trusted),
        (lkg, load-lkg s k.pointers lkg selected loads', trusted'),
      )

  -- In a sound cache, both bundles load where no call fails: each is absent, or one that the verifier
  -- accepts for this device.
  pub bundles-IsSound :
      (s : Cache)
      → IsSound trust s
      → ((o : Option SignedConfigurationV1) × ((current_bundle host sha256 s).0 ≡ ok o) × Trusted o)
        × ((o : Option SignedConfigurationV1) × ((lkg_bundle host sha256 s).0 ≡ ok o) × Trusted o)
  bundles-IsSound s is = Loads-Selects s (s.disk pointers_path) refl is.selected

module _ (trust : Trust) (host : Host) where
  open trust use {sha256, ed25519, verifier, device_id}

  write-works :
      (path temp : CachePath) (bytes : Bytes) (s : Cache)
      → ((k : ℕ) → host.fault k ≡ false)
      → (write_file_atomic host path temp bytes s).0 ≡ ok tt
  unfolding write_file_atomic
  write-works path temp bytes s works =
      rw
        (
          works s.calls,
          works (suc s.calls),
          works (suc (suc s.calls)),
          works (suc (suc (suc s.calls))),
        )
        refl

  activate-works :
      (bytes : Bytes) (a : Admitted) (p : CachePointers) (s : Cache)
      → ((k : ℕ) → host.fault k ≡ false)
      → (activate host bytes a p s).0 ≡ ok (activated a.version a.signed.content_digest)
  unfolding activate
  activate-works bytes a p s works =
      let d = a.signed.content_digest in
      let t : Cache = (write_file_atomic host (staging_path d) (staging_temp d) bytes s).1 in
      rw
        (
          write-works (staging_path d) (staging_temp d) bytes s works,
          write-works pointers_path temp_pointers_path
              (serialize_pointers (advanced p d a.version) (next_generation s.generation)) t works,
        )
        refl

  -- Where no call fails but `Path::exists` cannot see the pointers' file, a bundle that is admitted is
  -- activated, whatever version is selected: an older one included.
  pub activation-unseen :
      (bytes : Bytes) (s : Cache) {a : Admitted}
      → ((k : ℕ) → host.fault k ≡ false)
      → host.unseen (suc s.calls) ≡ true
      → admit sha256 ed25519 verifier device_id bytes ≡ ok a
      → (activation trust host bytes s).0 ≡ ok (activated a.version a.signed.content_digest)
  unfolding stage_verify_activate system_call
  activation-unseen bytes s {a} works unseen admitted =
      rw (works s.calls, admitted, read_pointers-unseen host (tick s) unseen)
        (activate-works bytes a no_pointers (read_pointers host (tick s)).1 works)

  Newer-stale : (o : Option ℕ) (v : ℕ) → Newer o v → stale o v ≡ ok tt
  Newer-stale none v h = refl
  Newer-stale (some current) v h = let new : leb v current ≡ false = ground arith in rw new refl

  -- Where no call fails, a bundle that is admitted and newer than the one selected, if one is, is
  -- activated.
  pub activation-works :
      (bytes : Bytes) (s : Cache) {a : Admitted} {p : CachePointers}
      → IsCalm host
      → pointers_in (s.disk pointers_path) ≡ ok p
      → admit sha256 ed25519 verifier device_id bytes ≡ ok a
      → Newer p.current_version a.version
      → (activation trust host bytes s).0 ≡ ok (activated a.version a.signed.content_digest)
  unfolding stage_verify_activate system_call
  activation-works bytes s {a} {p} calm selected admitted newer =
      rw
        (
          calm.works s.calls,
          admitted,
          read_pointers-calm trust host calm (tick s) ∙ selected,
          Newer-stale p.current_version a.version newer,
        )
        (activate-works bytes a p (read_pointers host (tick s)).1 calm.works)
