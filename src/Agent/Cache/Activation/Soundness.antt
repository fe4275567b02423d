-- ===== src/Agent/Cache/Activation/Soundness.antt =====
-- `stage_verify_activate` of crates/dlp-agent-core/src/config_cache.rs keeps the cache sound.
use wdlp.Base.{suc, ◌≡◌, ◌⊎◌, inl, inr, refl, sym, ap, subst, ◌∙◌, Option, none, some, Bool-cases}
use wdlp.Base.Bytes.{Bytes}
use wdlp.Base.Results.{Result, ok, err, Result-cases}
use wdlp.Agent.Cache.{CacheError, io_failure, CachePointers, no_pointers}
use wdlp.Agent.Cache.Pointers.RoundTrip.{IsPointers, deserialize_pointers-serialize}
use wdlp.Agent.Cache.Activation.{
  pointers_path, Host, Cache, tick, system_call, Admitted, ActivationOutcome, advanced,
  next_generation, stale, admit, read_pointers, activate, stage_verify_activate,
}
use wdlp.Agent.Cache.Activation.Files.{
  pointers_in, read_pointers-disk, read_pointers-ok, read_pointers-unseen,
}
use wdlp.Agent.Cache.Activation.Admission.{
  Trust, IsAdmitted, admit-IsAdmitted, parse_bundle_version-lt,
}
use wdlp.Agent.Cache.Activation.Invariant.{
  Disk, Backs, Selects, IsSound, digest_size, IsSound-frame,
}
use wdlp.Agent.Cache.Activation.Staging.{IsBacked-stored}
use wdlp.Agent.Cache.Activation.Publishing.{IsPublished, activate-cases, next_generation-lt}

pub ok_pointers :
    {a b : CachePointers} → ◌≡◌ {A = Result CacheError CachePointers} (ok a) (ok b) → a ≡ b
ok_pointers e = cc e

module _ (trust : Trust) (host : Host) where
  open trust use {sha256, ed25519, verifier, device_id}

  abbrev pub activation : Bytes → Cache → Result CacheError ActivationOutcome × Cache
  activation bytes s = stage_verify_activate host sha256 ed25519 verifier device_id bytes s

  abbrev pub after_read : Cache → Cache
  after_read s = (read_pointers host (tick s)).1

  -- An activation that is refused before it writes.
  pub record IsUntouched (s : Cache) (result : Result CacheError ActivationOutcome × Cache)
      : Type 0 where
    pub error : CacheError
    pub failed : result.0 ≡ err error
    pub disk : result.1.disk ≡ s.disk
    pub generation : result.1.generation ≡ s.generation

  -- One that writes.
  pub record IsAttempt (bytes : Bytes) (s : Cache)
      (result : Result CacheError ActivationOutcome × Cache) : Type 0 where
    pub bundle : Admitted
    pub pointers : CachePointers
    pub checked : admit sha256 ed25519 verifier device_id bytes ≡ ok bundle
    pub read : (read_pointers host (tick s)).0 ≡ ok pointers
    pub newer : stale pointers.current_version bundle.version ≡ ok tt
    pub rest : result ≡ activate host bytes bundle pointers (after_read s)

  pub activation-cases :
      (bytes : Bytes) (s : Cache)
      → IsUntouched s (activation bytes s) ⊎ IsAttempt bytes s (activation bytes s)
  unfolding stage_verify_activate system_call
  activation-cases bytes s =
      let (disk, generation) = read_pointers-disk host (tick s) in
      elim (Bool-cases (host.fault s.calls)) [
        | inl broken ↦ inl (record {
          error = io_failure;
          failed = rw broken refl;
          disk = rw broken refl;
          generation = rw broken refl;
        })
        | inr works ↦ elim (Result-cases (admit sha256 ed25519 verifier device_id bytes)) [
          | inr (e, refused) ↦ inl (record {
            error = e;
            failed = rw (works, refused) refl;
            disk = rw (works, refused) refl;
            generation = rw (works, refused) refl;
          })
          | inl (a, checked) ↦ elim (Result-cases (read_pointers host (tick s)).0) [
            | inr (e, unread) ↦ inl (record {
              error = e;
              failed = rw (works, checked, unread) refl;
              disk = rw (works, checked, unread) disk;
              generation = rw (works, checked, unread) generation;
            })
            | inl (p, read) ↦ elim (Result-cases (stale p.current_version a.version)) [
              | inr (e, old) ↦ inl (record {
                error = e;
                failed = rw (works, checked, read, old) refl;
                disk = rw (works, checked, read, old) disk;
                generation = rw (works, checked, read, old) generation;
              })
              | inl (_, newer) ↦ inr (record {
                bundle = a;
                pointers = p;
                checked = checked;
                read = read;
                newer = newer;
                rest = rw (works, checked, read, newer) refl;
              })
            ]
          ]
        ]
      ]

  -- The pointers that are read, where they are those of the directory or none.
  pub record IsRead (s : Cache) (p : CachePointers) : Type 0 where
    pub paired : IsPointers p
    pub current : Backs trust s.disk p.current_digest

  no_pointers-IsRead : (s : Cache) → IsRead s no_pointers
  no_pointers-IsRead s = record { paired = record { current = tt; lkg = tt }; current = tt }

  in_file-IsRead :
      (s : Cache) {p : CachePointers} (o : Option Bytes)
      → Selects trust s.disk o
      → pointers_in o ≡ ok p
      → IsRead s p
  in_file-IsRead s none k e = subst (IsRead s) (ok_pointers e) (no_pointers-IsRead s)
  in_file-IsRead s (some file) k e =
      let whole : pointers_in (some file) ≡ ok k.pointers =
        rw k.written
          (deserialize_pointers-serialize k.pointers k.paired k.generation k.generation_fits) in
      subst (IsRead s) (ok_pointers (sym whole ∙ e))
        (record { paired = k.paired; current = k.current })

  pub read_pointers-IsRead :
      (s : Cache) {p : CachePointers}
      → IsSound trust s
      → (read_pointers host (tick s)).0 ≡ ok p
      → IsRead s p
  read_pointers-IsRead s is e = elim (Bool-cases (host.unseen (suc s.calls))) [
    | inl unseen ↦
        subst (IsRead s) (ok_pointers (sym (read_pointers-unseen host (tick s) unseen) ∙ e))
          (no_pointers-IsRead s)
    | inr seen ↦
        in_file-IsRead s (s.disk pointers_path) is.selected (read_pointers-ok host (tick s) seen e)
  ]

  -- The pointers that an activation writes.
  pub advanced-IsPointers :
      (bytes : Bytes) (a : Admitted) (p : CachePointers)
      → IsAdmitted trust bytes a
      → IsPointers p
      → IsPointers (advanced p a.signed.content_digest a.version)
  advanced-IsPointers bytes a p checked paired = record {
    current = (
      (digest_size trust checked).0,
      parse_bundle_version-lt a.signed.envelope.bundle_version checked.version,
    );
    lkg = paired.current;
  }

  pub published-IsSound :
      (bytes : Bytes) (a : Admitted) (p : CachePointers) (s : Cache)
      {result : Result CacheError ActivationOutcome × Cache}
      → (checked : IsAdmitted trust bytes a) → IsRead s p
      → IsPublished trust host bytes a checked p s result
      → IsSound trust result.1
  published-IsSound bytes a p s {result} checked read done = record {
    generation = rw done.generation (next_generation-lt s.generation);
    selected = rw done.pointers (record {
      pointers = advanced p a.signed.content_digest a.version;
      generation = next_generation s.generation;
      generation_fits = next_generation-lt s.generation;
      written = refl;
      paired = advanced-IsPointers bytes a p checked read.paired;
      current = IsBacked-stored trust host bytes a checked done.stored;
      lkg = done.lkg read.current;
    });
  }

  -- Whichever of its calls fail, an activation keeps the cache sound: the pointers' file is absent
  -- or is one that the cache wrote, and each bundle that it names is stored under its name and is one
  -- that the verifier accepts for this device.
  pub activation-IsSound :
      (bytes : Bytes) (s : Cache) → IsSound trust s → IsSound trust (activation bytes s).1
  activation-IsSound bytes s is = elim (activation-cases bytes s) [
    | inl u ↦
        IsSound-frame trust u.generation (ap (λ (d : Disk). d pointers_path) u.disk)
          (λ c b. rw u.disk b) is
    | inr t ↦ attempt t
  ]
    where
      attempt : IsAttempt bytes s (activation bytes s) → IsSound trust (activation bytes s).1
      attempt t =
          let checked = admit-IsAdmitted trust bytes t.checked in
          let (disk, generation) = read_pointers-disk host (tick s) in
          let same : IsSound trust (after_read s) =
            IsSound-frame trust generation (ap (λ (d : Disk). d pointers_path) disk)
              (λ c b. rw disk b) is in
          let read = read_pointers-IsRead s is t.read in
          let read' : IsRead (after_read s) t.pointers = record {
            paired = read.paired;
            current = rw disk read.current;
          } in
          elim (activate-cases trust host bytes t.bundle checked t.pointers (after_read s)) [
            | inl refused ↦
                rw t.rest
                  (IsSound-frame trust refused.generation refused.pointers refused.keeps same)
            | inr done ↦
                rw t.rest
                  (published-IsSound bytes t.bundle t.pointers (after_read s) checked read' done)
          ]
