-- ===== src/Agent/Cache/Activation/Invariant.antt =====
-- What holds of the directory of a cache of crates/dlp-agent-core/src/config_cache.rs after any
-- activations, whichever calls fail: the pointers are whole, and the bundles that they name are there
-- and were admitted.
use wdlp.Base.{
  ℕ, ◌^◌, ◌<◌, ◌≡◌, inl, inr, refl, sym, ap, subst, ◌∙◌, true, false, ◌++◌, length, length-append,
  All, Option, none, some, Bool-cases, arith,
}
use wdlp.Base.Bytes.{Bytes, IsByte, codes, bytes_eq, bytes_eq_iff}
use wdlp.Protocol.Envelope.{canonical_bytes}
use wdlp.Agent.Cache.{CachePointers}
use wdlp.Agent.Cache.Pointers.{serialize_pointers}
use wdlp.Agent.Cache.Pointers.RoundTrip.{IsPointers}
use wdlp.Agent.Cache.Hex.{encode, length-encode}
use wdlp.Agent.Cache.Activation.{
  CachePath, pointers_path, staging_path, staging_temp, same_path, Cache, Admitted,
}
use wdlp.Agent.Cache.Activation.Admission.{Trust, IsAdmitted}

abbrev pub Disk : Type 0
Disk = CachePath → Option Bytes

bytes_eq-length : (a b : Bytes) → bytes_eq a b ≡ true → length a ≡ length b
bytes_eq-length a b e = ap length ((bytes_eq_iff a b).0 e)

-- A temporary name is no staged bundle's.
pub temp-differs :
    (d c : Bytes)
    → length d ≡ 32
    → length c ≡ 32
    → same_path (staging_temp d) (staging_path c) ≡ false
unfolding same_path
temp-differs d c hd hc = elim (Bool-cases (bytes_eq (encode d ++ codes ".tmp") (encode c))) [
  | inr other ↦ other
  | inl same ↦ absurd (
      omega (
        arith,
        bytes_eq-length _ _ same,
        length-append (encode d) (codes ".tmp"),
        length-encode d,
        length-encode c,
      ))
]

module _ (trust : Trust) where
  -- An admitted bundle of this digest is stored under its name.
  pub record IsBacked (disk : Disk) (digest : Bytes) : Type 0 where
    pub file : Bytes
    pub bundle : Admitted
    pub stored : disk (staging_path digest) ≡ some file
    pub admitted : IsAdmitted trust file bundle
    pub named : bundle.signed.content_digest ≡ digest

  abbrev pub Backs : Disk → Option Bytes → Type 0
  Backs disk none = Unit
  Backs disk (some digest) = IsBacked disk digest

  pub record IsWritten (disk : Disk) (file : Bytes) : Type 0 where
    pub pointers : CachePointers
    pub generation : ℕ
    pub generation_fits : generation < 2 ^ 64
    pub written : file ≡ serialize_pointers pointers generation
    pub paired : IsPointers pointers
    pub current : Backs disk pointers.current_digest
    pub lkg : Backs disk pointers.lkg_digest

  abbrev pub Selects : Disk → Option Bytes → Type 0
  Selects disk none = Unit
  Selects disk (some file) = IsWritten disk file

  -- The pointers' file is absent or whole, and the bundles that it names are stored and admitted.
  pub record IsSound (s : Cache) : Type 0 where
    pub generation : s.generation < 2 ^ 64
    pub selected : Selects s.disk (s.disk pointers_path)

  pub digest_size :
      {bytes : Bytes} {a : Admitted}
      → IsAdmitted trust bytes a
      → (length a.signed.content_digest ≡ 32) × All IsByte a.signed.content_digest
  digest_size {a} h =
      subst (λ d. (length d ≡ 32) × All IsByte d) (sym h.digest)
        (trust.digest_size (canonical_bytes a.signed.envelope))

  pub backed_size : {disk : Disk} {c : Bytes} → IsBacked disk c → (length c ≡ 32) × All IsByte c
  backed_size b = subst (λ d. (length d ≡ 32) × All IsByte d) b.named (digest_size b.admitted)

  pub IsBacked-frame :
      {disk disk' : Disk} {c : Bytes}
      → disk' (staging_path c) ≡ disk (staging_path c)
      → IsBacked disk c
      → IsBacked disk' c
  IsBacked-frame e b = record {
    file = b.file;
    bundle = b.bundle;
    stored = e ∙ b.stored;
    admitted = b.admitted;
    named = b.named;
  }

  pub Backs-map :
      {disk disk' : Disk} (o : Option Bytes)
      → ((c : Bytes) → o ≡ some c → IsBacked disk c → IsBacked disk' c)
      → Backs disk o
      → Backs disk' o
  Backs-map none f b = tt
  Backs-map (some c) f b = f c refl b

  -- The directory changes, the pointers' file does not, and every bundle stays backed.
  pub IsSound-frame :
      {s t : Cache}
      → t.generation ≡ s.generation
      → t.disk pointers_path ≡ s.disk pointers_path
      → ((c : Bytes) → IsBacked s.disk c → IsBacked t.disk c)
      → IsSound s
      → IsSound t
  IsSound-frame {s} {t} eg ep keeps is = record {
    generation = rw eg is.generation;
    selected = rw ep (Selects-map (s.disk pointers_path) is.selected);
  }
    where
      Selects-map : (o : Option Bytes) → Selects s.disk o → Selects t.disk o
      Selects-map none k = tt
      Selects-map (some file) k = record {
        pointers = k.pointers;
        generation = k.generation;
        generation_fits = k.generation_fits;
        written = k.written;
        paired = k.paired;
        current = Backs-map k.pointers.current_digest (λ c e b. keeps c b) k.current;
        lkg = Backs-map k.pointers.lkg_digest (λ c e b. keeps c b) k.lkg;
      }
