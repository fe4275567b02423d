-- ===== src/Agent/Cache/Activation/Publishing.antt =====
-- The second write of `stage_verify_activate` of crates/dlp-agent-core/src/config_cache.rs, which
-- selects the staged bundle, and the cleaning after it.
use wdlp.Base.{
  ℕ, ◌^◌, ◌<◌, ◌≡◌, ◌⊎◌, inl, inr, refl, sym, ap, ◌∙◌, true, length, All, Option, some, arith,
}
use wdlp.Base.Bytes.{Bytes, IsByte, bytes_eq_iff, bytes_eq_refl}
use wdlp.Base.Results.{Result, ok, err}
use wdlp.Agent.Cache.{CacheError, io_failure, CachePointers}
use wdlp.Agent.Cache.Pointers.{serialize_pointers}
use wdlp.Agent.Cache.Hex.{encode, parse, parse-encode}
use wdlp.Agent.Cache.Activation.{
  pointers_path, temp_pointers_path, staging_path, staging_temp, same_path, Host, Cache, Admitted,
  advanced, next_generation, write_pointers, clean_staging, referenced, is_digest, activate,
  activated, ActivationOutcome,
}
use wdlp.Agent.Cache.Activation.Files.{
  write-generation, write-frame, write-cases, clean_staging-frame, clean_staging-generation, Spared,
}
use wdlp.Agent.Cache.Activation.Admission.{Trust, IsAdmitted}
use wdlp.Agent.Cache.Activation.Invariant.{
  IsBacked, Backs, digest_size, backed_size, IsBacked-frame, Backs-map,
}
use wdlp.Agent.Cache.Activation.Staging.{stage, stage-cases, stage-IsBacked, stage-pointers}

pub next_generation-lt : (g : ℕ) → next_generation g < 2 ^ 64
next_generation-lt g = ground arith

module _ (trust : Trust) (host : Host) where
  -- Cleaning spares the pointers' file and every bundle that the pointers name.
  clean-pointers : (p : CachePointers) → Spared host p pointers_path
  unfolding same_path
  clean-pointers p name c e same = cc same

  clean-referenced :
      (p : CachePointers) (c : Bytes)
      → (length c ≡ 32) × All IsByte c
      → referenced host p c ≡ true
      → Spared host p (staging_path c)
  unfolding same_path
  clean-referenced p c (size, octets) named name c' e same =
      let here : some c ≡ some c' =
        sym (parse-encode c size octets)
        ∙ ap parse (sym ((bytes_eq_iff name (encode c)).0 same))
        ∙ e in
      rw (sym (unwrap here)) named
    where
      unwrap : {a b : Bytes} → some a ≡ some b → a ≡ b
      unwrap e = cc e

  is_digest_self : (o : Option Bytes) (c : Bytes) → o ≡ some c → is_digest host o c ≡ true
  is_digest_self o c e = rw (e, bytes_eq_refl) refl

  module _ (bytes : Bytes) (a : Admitted) (checked : IsAdmitted trust bytes a)
      (p : CachePointers) where
    abbrev next : CachePointers
    next = advanced p a.signed.content_digest a.version

    abbrev publish : ℕ → Cache → Result CacheError (Unit {0}) × Cache
    publish generation s = write_pointers host next generation s

    publish-cases :
        (generation : ℕ) (s : Cache)
        → (((publish generation s).0 ≡ err io_failure)
            × ((publish generation s).1.disk pointers_path ≡ s.disk pointers_path))
          ⊎ (((publish generation s).0 ≡ ok tt)
              × ((publish generation s).1.disk pointers_path
                  ≡ some (serialize_pointers next generation)))
    unfolding same_path
    publish-cases generation s =
        write-cases host pointers_path temp_pointers_path (serialize_pointers next generation) s
          refl refl refl

    publish-IsBacked :
        (generation : ℕ) (s : Cache) (c : Bytes)
        → IsBacked trust s.disk c
        → IsBacked trust (publish generation s).1.disk c
    unfolding same_path
    publish-IsBacked generation s c = IsBacked-frame trust (
        write-frame host pointers_path temp_pointers_path (serialize_pointers next generation) s
          (staging_path c) refl refl)

    abbrev finished : ℕ → Cache → Cache
    finished generation s = (clean_staging host next (record s { generation = generation })).1

    finished-pointers :
        (generation : ℕ) (s : Cache)
        → (finished generation s).disk pointers_path ≡ s.disk pointers_path
    finished-pointers generation s =
        clean_staging-frame host next pointers_path (record s { generation = generation })
          (clean-pointers next)

    finished-IsBacked :
        (generation : ℕ) (s : Cache) (c : Bytes)
        → referenced host next c ≡ true
        → IsBacked trust s.disk c
        → IsBacked trust (finished generation s).disk c
    finished-IsBacked generation s c named b =
        IsBacked-frame trust
          (clean_staging-frame host next (staging_path c) (record s { generation = generation })
            (clean-referenced next c (backed_size trust b) named))
          b

    -- An activation that fails changes neither the pointers nor a bundle that is stored.
    pub record IsRefused (s : Cache) (result : Result CacheError ActivationOutcome × Cache)
        : Type 0 where
      pub failed : result.0 ≡ err io_failure
      pub pointers : result.1.disk pointers_path ≡ s.disk pointers_path
      pub generation : result.1.generation ≡ s.generation
      pub keeps : (c : Bytes) → IsBacked trust s.disk c → IsBacked trust result.1.disk c

    -- One that succeeds selects the bundle, and keeps the one that was current.
    pub record IsPublished (s : Cache) (result : Result CacheError ActivationOutcome × Cache)
        : Type 0 where
      pub done : result.0 ≡ ok (activated a.version a.signed.content_digest)
      pub pointers :
          result.1.disk pointers_path
          ≡ some (serialize_pointers next (next_generation s.generation))
      pub generation : result.1.generation ≡ next_generation s.generation
      pub stored : result.1.disk (staging_path a.signed.content_digest) ≡ some bytes
      pub lkg : Backs trust s.disk p.current_digest → Backs trust result.1.disk p.current_digest

    names_digest : referenced host next a.signed.content_digest ≡ true
    names_digest = rw (bytes_eq_refl a.signed.content_digest) refl

    names_lkg : (c : Bytes) → p.current_digest ≡ some c → referenced host next c ≡ true
    names_lkg c e = ground (arith, is_digest_self p.current_digest c e)

    published :
        (s : Cache)
        → (stage trust host bytes a checked s).0 ≡ ok tt
        → (stage trust host bytes a checked s).1.disk (staging_path a.signed.content_digest)
          ≡ some bytes
        → (publish (next_generation s.generation) (stage trust host bytes a checked s).1).0 ≡ ok tt
        → (publish (next_generation s.generation) (stage trust host bytes a checked s).1).1.disk
            pointers_path
          ≡ some (serialize_pointers next (next_generation s.generation))
        → IsPublished s (activate host bytes a p s)
    unfolding activate same_path
    published s staged stored selected chosen =
        let g = next_generation s.generation in
        let t : Cache = (stage trust host bytes a checked s).1 in
        let u : Cache = (publish g t).1 in
        let d = a.signed.content_digest in
        record {
          done = rw (staged, selected) refl;
          pointers = rw (staged, selected) (finished-pointers g u ∙ chosen);
          generation =
              rw (staged, selected)
                (clean_staging-generation host next (record u { generation = g }));
          stored =
              rw (staged, selected)
                (clean_staging-frame host next (staging_path d) (record u { generation = g })
                    (clean-referenced next d (digest_size trust checked) names_digest)
                  ∙ write-frame host pointers_path temp_pointers_path (serialize_pointers next g) t
                      (staging_path d) refl refl
                  ∙ stored);
          lkg =
              rw (staged, selected)
                (Backs-map trust p.current_digest λ c e b.
                  finished-IsBacked g u c (names_lkg c e)
                    (publish-IsBacked g t c (stage-IsBacked trust host bytes a checked s c b)));
        }

    pub activate-cases :
        (s : Cache)
        → IsRefused s (activate host bytes a p s) ⊎ IsPublished s (activate host bytes a p s)
    unfolding activate
    activate-cases s =
        let g = next_generation s.generation in
        let t : Cache = (stage trust host bytes a checked s).1 in
        let size =
          write-generation host (staging_path a.signed.content_digest)
            (staging_temp a.signed.content_digest) bytes s in
        elim (stage-cases trust host bytes a checked s) [
          | inl (failed, _) ↦ inl (record {
            failed = rw failed refl;
            pointers = rw failed (stage-pointers trust host bytes a checked s);
            generation = rw failed size;
            keeps = rw failed (stage-IsBacked trust host bytes a checked s);
          })
          | inr (staged, stored) ↦ elim (publish-cases g t) [
            | inl (failed, kept) ↦ inl (record {
              failed = rw (staged, failed) refl;
              pointers = rw (staged, failed) (kept ∙ stage-pointers trust host bytes a checked s);
              generation =
                  rw (staged, failed)
                    (write-generation host pointers_path temp_pointers_path
                        (serialize_pointers next g) t
                      ∙ size);
              keeps =
                  rw (staged, failed)
                    (λ c b.
                      publish-IsBacked g t c (stage-IsBacked trust host bytes a checked s c b));
            })
            | inr (selected, chosen) ↦ inr (published s staged stored selected chosen)
          ]
        ]
