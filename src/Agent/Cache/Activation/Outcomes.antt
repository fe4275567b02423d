-- ===== src/Agent/Cache/Activation/Outcomes.antt =====
-- The outcomes of `stage_verify_activate` of crates/dlp-agent-core/src/config_cache.rs: what it
-- selects, and what it leaves.
use wdlp.Base.{
  ℕ, suc, ◌<◌, ◌≡◌, ◌⊎◌, inl, inr, sym, ap, ◌∙◌, false, leb, Option, none, some, Bool-cases, arith,
}
use wdlp.Base.Bytes.{Bytes}
use wdlp.Base.Results.{Result, ok, err}
use wdlp.Agent.Cache.{CacheError, CachePointers}
use wdlp.Agent.Cache.Pointers.RoundTrip.{deserialize_pointers-serialize}
use wdlp.Agent.Cache.Activation.{
  pointers_path, staging_path, Host, Cache, tick, Admitted, ActivationOutcome, activated, advanced,
  next_generation, stale, admit, activate,
}
use wdlp.Agent.Cache.Activation.Files.{pointers_in, read_pointers-disk, read_pointers-ok}
use wdlp.Agent.Cache.Activation.Admission.{Trust, IsAdmitted, admit-IsAdmitted}
use wdlp.Agent.Cache.Activation.Invariant.{Disk, IsSound}
use wdlp.Agent.Cache.Activation.Publishing.{
  IsRefused, IsPublished, activate-cases, next_generation-lt,
}
use wdlp.Agent.Cache.Activation.Soundness.{
  activation, after_read, IsAttempt, activation-cases, read_pointers-IsRead, advanced-IsPointers,
}

-- `Newer o v`: the version is above the one selected, if one is.
abbrev pub Newer : Option ℕ → ℕ → Type 0
Newer none v = Unit
Newer (some current) v = current < v

stale-Newer : (o : Option ℕ) (v : ℕ) → stale o v ≡ ok tt → Newer o v
stale-Newer none v h = tt
stale-Newer (some current) v h = elim (Bool-cases (leb v current)) [
  | inl old ↦ absurd (refused (rw old at h))
  | inr new ↦ ground arith
]
  where
    refused : {e : CacheError} → ¬ ◌≡◌ {A = Result CacheError (Unit {0})} (err e) (ok tt)
    refused k = cc k

ok_differs : {A : Type 0} {a : A} {e : CacheError} → ¬ ◌≡◌ {A = Result CacheError A} (err e) (ok a)
ok_differs h = cc h

ok_outcome :
    {a b : ActivationOutcome} → ◌≡◌ {A = Result CacheError ActivationOutcome} (ok a) (ok b) → a ≡ b
ok_outcome h = cc h

module _ (trust : Trust) (host : Host) where
  open trust use {sha256, ed25519, verifier, device_id}

  -- What is selected after a success.
  pub record IsActivated (bytes : Bytes) (s t : Cache) (outcome : ActivationOutcome) : Type 0 where
    pub bundle : Admitted
    pub admitted : IsAdmitted trust bytes bundle
    pub reported : outcome ≡ activated bundle.version bundle.signed.content_digest
    pub former : CachePointers
    pub selected :
        pointers_in (t.disk pointers_path)
        ≡ ok (advanced former bundle.signed.content_digest bundle.version)
    pub stored : t.disk (staging_path bundle.signed.content_digest) ≡ some bytes
    pub followed :
        host.unseen (suc s.calls) ≡ false
        → (pointers_in (s.disk pointers_path) ≡ ok former)
          × Newer former.current_version bundle.version

  -- An activation of a sound cache that succeeds has admitted the bundle: it is for this device, its
  -- digest is that of its envelope, and the verifier accepts its signature. It stores the bytes
  -- and selects them as current. Where the pointers' file can be seen, it keeps as last-known-good what
  -- was current, and the version selected before, if any, was lower.
  pub activation-ok :
      (bytes : Bytes) (s : Cache) {outcome : ActivationOutcome}
      → IsSound trust s
      → (activation trust host bytes s).0 ≡ ok outcome
      → IsActivated bytes s (activation trust host bytes s).1 outcome
  activation-ok bytes s {outcome} is succeeded = elim (activation-cases trust host bytes s) [
    | inl u ↦ absurd (ok_differs (sym u.failed ∙ succeeded))
    | inr t ↦
        let checked = admit-IsAdmitted trust bytes t.checked in
        let (disk, _) = read_pointers-disk host (tick s) in
        let read = read_pointers-IsRead trust host s is t.read in
        elim (activate-cases trust host bytes t.bundle checked t.pointers
          (after_read trust host s)) [
            | inl refused ↦
                absurd (ok_differs (sym refused.failed ∙ sym (ap (λ r. r.0) t.rest) ∙ succeeded))
            | inr done ↦ record {
              bundle = t.bundle;
              admitted = checked;
              reported = ok_outcome (sym succeeded ∙ ap (λ r. r.0) t.rest ∙ done.done);
              former = t.pointers;
              selected = rw t.rest (
                  rw done.pointers (
                    deserialize_pointers-serialize
                      (advanced t.pointers t.bundle.signed.content_digest t.bundle.version)
                      (advanced-IsPointers trust host bytes t.bundle t.pointers checked read.paired)
                      (next_generation (after_read trust host s).generation)
                      (next_generation-lt (after_read trust host s).generation)));
              stored = rw t.rest done.stored;
              followed = λ seen. (
                read_pointers-ok host (tick s) seen t.read,
                stale-Newer t.pointers.current_version t.bundle.version t.newer,
              );
            }
          ]
  ]

  -- An activation that fails, wherever it does, leaves the pointers' file and the generation as they
  -- were; and where the bytes are not admitted, it fails and changes no file at all.
  pub activation-err :
      (bytes : Bytes) (s : Cache)
      → ((error : CacheError)
          → (activation trust host bytes s).0 ≡ err error
          → ((activation trust host bytes s).1.disk pointers_path ≡ s.disk pointers_path)
            × ((activation trust host bytes s).1.generation ≡ s.generation))
        × ((reason : CacheError)
            → admit sha256 ed25519 verifier device_id bytes ≡ err reason
            → (error : CacheError) × ((activation trust host bytes s).0 ≡ err error)
              × ((activation trust host bytes s).1.disk ≡ s.disk))
  activation-err bytes s = elim (activation-cases trust host bytes s) [
    | inl u ↦ (
      λ error failed. (ap (λ (d : Disk). d pointers_path) u.disk, u.generation),
      λ reason refused. (u.error, u.failed, u.disk),
    )
    | inr t ↦ (
      λ error failed.
          attempt t
            (activate-cases trust host bytes t.bundle (admit-IsAdmitted trust bytes t.checked)
              t.pointers (after_read trust host s))
            failed,
      λ reason refused. absurd (ok_differs (sym refused ∙ t.checked)),
    )
  ]
    where
      attempt :
          (t : IsAttempt trust host bytes s (activation trust host bytes s)) {error : CacheError}
          → IsRefused trust host bytes t.bundle
              (admit-IsAdmitted trust bytes t.checked)
              t.pointers
              (after_read trust host s)
              (activate host bytes t.bundle t.pointers (after_read trust host s))
            ⊎ IsPublished trust host bytes t.bundle
                (admit-IsAdmitted trust bytes t.checked)
                t.pointers
                (after_read trust host s)
                (activate host bytes t.bundle t.pointers (after_read trust host s))
          → (activation trust host bytes s).0 ≡ err error
          → ((activation trust host bytes s).1.disk pointers_path ≡ s.disk pointers_path)
            × ((activation trust host bytes s).1.generation ≡ s.generation)
      attempt t (inl refused) failed =
          let (disk, generation) = read_pointers-disk host (tick s) in
          rw t.rest (
            refused.pointers ∙ ap (λ (d : Disk). d pointers_path) disk,
            refused.generation ∙ generation,
          )
      attempt t (inr done) failed =
          absurd (ok_differs (sym failed ∙ ap (λ r. r.0) t.rest ∙ done.done))
