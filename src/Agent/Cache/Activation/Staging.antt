-- ===== src/Agent/Cache/Activation/Staging.antt =====
-- The first write of `stage_verify_activate` of crates/dlp-agent-core/src/config_cache.rs: the bundle
-- is staged under its digest.
use wdlp.Base.{
  ◌≡◌, ◌⊎◌, inl, inr, refl, sym, ap, subst, ◌∙◌, true, ◌++◌, length, All, some, Bool-cases,
}
use wdlp.Base.Bytes.{Bytes, IsByte, codes, bytes_eq_iff, bytes_eq_refl}
use wdlp.Base.Results.{Result, ok, err}
use wdlp.Agent.Cache.{CacheError, io_failure}
use wdlp.Agent.Cache.Hex.{encode, parse, parse-encode}
use wdlp.Agent.Cache.Activation.{
  pointers_path, staging_path, staging_temp, same_path, Host, Cache, Admitted, write_staged_bundle,
}
use wdlp.Agent.Cache.Activation.Files.{write-generation, write-frame, write-cases}
use wdlp.Agent.Cache.Activation.Admission.{Trust, IsAdmitted}
use wdlp.Agent.Cache.Activation.Invariant.{
  Disk, temp-differs, IsBacked, IsSound, digest_size, backed_size, IsBacked-frame, IsSound-frame,
}

some_injective : {a b : Bytes} → some a ≡ some b → a ≡ b
some_injective e = cc e

module _ (trust : Trust) (host : Host) (bytes : Bytes) (a : Admitted)
    (checked : IsAdmitted trust bytes a) where
  abbrev pub digest : Bytes
  digest = a.signed.content_digest

  abbrev pub stage : Cache → Result CacheError (Unit {0}) × Cache
  stage s = write_staged_bundle host digest bytes s

  same_name :
      (c : Bytes)
      → (length c ≡ 32) × All IsByte c
      → same_path (staging_path digest) (staging_path c) ≡ true
      → digest ≡ c
  unfolding same_path
  same_name c (size, octets) same =
      let (size', octets') = digest_size trust checked in
      some_injective (
        sym (parse-encode digest size' octets')
        ∙ ap parse ((bytes_eq_iff (encode digest) (encode c)).0 same)
        ∙ parse-encode c size octets)

  staged_self : same_path (staging_path digest) (staging_path digest) ≡ true
  unfolding same_path
  staged_self = bytes_eq_refl (encode digest)

  temp_self : same_path (staging_temp digest) (staging_temp digest) ≡ true
  unfolding same_path
  temp_self = bytes_eq_refl (encode digest ++ codes ".tmp")

  pub stage-cases :
      (s : Cache)
      → (((stage s).0 ≡ err io_failure)
          × ((stage s).1.disk (staging_path digest) ≡ s.disk (staging_path digest)))
        ⊎ (((stage s).0 ≡ ok tt) × ((stage s).1.disk (staging_path digest) ≡ some bytes))
  stage-cases s =
      let size = (digest_size trust checked).0 in
      write-cases host (staging_path digest) (staging_temp digest) bytes s
        (temp-differs digest digest size size) staged_self temp_self

  pub stage-pointers : (s : Cache) → (stage s).1.disk pointers_path ≡ s.disk pointers_path
  unfolding same_path
  stage-pointers s =
      write-frame host (staging_path digest) (staging_temp digest) bytes s pointers_path refl refl

  pub IsBacked-stored :
      {disk : Disk} → disk (staging_path digest) ≡ some bytes → IsBacked trust disk digest
  IsBacked-stored e = record {
    file = bytes;
    bundle = a;
    stored = e;
    admitted = checked;
    named = refl;
  }

  -- Staging the bundle keeps every bundle that is backed, its own included.
  pub stage-IsBacked :
      (s : Cache) (c : Bytes) → IsBacked trust s.disk c → IsBacked trust (stage s).1.disk c
  stage-IsBacked s c b = elim (Bool-cases (same_path (staging_path digest) (staging_path c))) [
    | inr other ↦
        IsBacked-frame trust
          (write-frame host (staging_path digest) (staging_temp digest) bytes s (staging_path c)
            (temp-differs digest c (digest_size trust checked).0 (backed_size trust b).0) other)
          b
    | inl same ↦
        let e = same_name c (backed_size trust b) same in
        elim (stage-cases s) [
          | inl (_, kept) ↦
              subst (IsBacked trust (stage s).1.disk) e
                (IsBacked-frame trust kept (subst (IsBacked trust s.disk) (sym e) b))
          | inr (_, new) ↦ subst (IsBacked trust (stage s).1.disk) e (IsBacked-stored new)
        ]
  ]

  pub stage-IsSound : (s : Cache) → IsSound trust s → IsSound trust (stage s).1
  stage-IsSound s is =
      IsSound-frame trust
        (write-generation host (staging_path digest) (staging_temp digest) bytes s)
        (stage-pointers s) (stage-IsBacked s) is
