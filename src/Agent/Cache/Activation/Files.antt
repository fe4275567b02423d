-- ===== src/Agent/Cache/Activation/Files.antt =====
-- What `write_file_atomic`, `read_pointers` and `clean_staging` of
-- crates/dlp-agent-core/src/config_cache.rs leave of each file, whichever of their calls fail.
use wdlp.Base.{
  suc, ◌≡◌, ◌⊎◌, inl, inr, refl, ◌∙◌, true, false, List, [], ◌∷◌, Option, none, some, Bool-cases,
  Option-cases, arith,
}
use wdlp.Base.Bytes.{Bytes}
use wdlp.Base.Results.{Result, ok, err}
use wdlp.Agent.Cache.{CacheError, io_failure, CachePointers, no_pointers}
use wdlp.Agent.Cache.Pointers.{deserialize_pointers}
use wdlp.Agent.Cache.Hex.{parse}
use wdlp.Agent.Cache.Activation.{
  CachePath, pointers_path, staging, same_path, Host, Cache, put, write_file_atomic, tick,
  read_pointers, referenced, clean_name, clean_names, clean_staging,
}

-- The pointers that a file holds: none where there is no file.
abbrev pub pointers_in : Option Bytes → Result CacheError CachePointers
pointers_in none = ok no_pointers
pointers_in (some bytes) = deserialize_pointers bytes

module _ (host : Host) where
  pub write-generation :
      (path temp : CachePath) (bytes : Bytes) (s : Cache)
      → (write_file_atomic host path temp bytes s).1.generation ≡ s.generation
  unfolding write_file_atomic
  write-generation path temp bytes s = ground arith

  pub write-frame :
      (path temp : CachePath) (bytes : Bytes) (s : Cache) (q : CachePath)
      → same_path temp q ≡ false
      → same_path path q ≡ false
      → (write_file_atomic host path temp bytes s).1.disk q ≡ s.disk q
  unfolding write_file_atomic
  write-frame path temp bytes s q ht hp = ground arith

  pub write-cases :
      (path temp : CachePath) (bytes : Bytes) (s : Cache)
      → same_path temp path ≡ false
      → same_path path path ≡ true
      → same_path temp temp ≡ true
      → (((write_file_atomic host path temp bytes s).0 ≡ err io_failure)
          × ((write_file_atomic host path temp bytes s).1.disk path ≡ s.disk path))
        ⊎ (((write_file_atomic host path temp bytes s).0 ≡ ok tt)
            × ((write_file_atomic host path temp bytes s).1.disk path ≡ some bytes))
  unfolding write_file_atomic
  write-cases path temp bytes s ht hp htt = ground arith

  pub read_pointers-disk :
      (s : Cache)
      → ((read_pointers host s).1.disk ≡ s.disk)
        × ((read_pointers host s).1.generation ≡ s.generation)
  unfolding read_pointers
  read_pointers-disk s = elim (Bool-cases (host.unseen s.calls)) [
    | inl unseen ↦ rw unseen (refl, refl)
    | inr seen ↦ elim (Option-cases (s.disk pointers_path)) [
      | inl missing ↦ rw (seen, missing) (refl, refl)
      | inr (bytes, found) ↦ elim (Bool-cases (host.fault (suc s.calls))) [
        | inl broken ↦ rw (seen, found, found, broken) (refl, refl)
        | inr works ↦ rw (seen, found, found, works) (refl, refl)
      ]
    ]
  ]

  -- Where the pointers' file can be seen, what is read is what it holds.
  pub read_pointers-ok :
      (s : Cache) {p : CachePointers}
      → host.unseen s.calls ≡ false
      → (read_pointers host s).0 ≡ ok p
      → pointers_in (s.disk pointers_path) ≡ ok p
  unfolding read_pointers
  read_pointers-ok s seen h = elim (Option-cases (s.disk pointers_path)) [
    | inl missing ↦ rw missing (rw (seen, missing) at h)
    | inr (bytes, found) ↦ elim (Bool-cases (host.fault (suc s.calls))) [
      | inl broken ↦ absurd (no_error (rw (seen, found, found, broken) at h))
      | inr works ↦ rw found (rw (seen, found, found, works) at h)
    ]
  ]
    where
      no_error :
          {p : CachePointers}
          → ◌≡◌ {A = Result CacheError CachePointers} (err io_failure) (ok p)
          → ⊥
      no_error e = cc e

  -- Where it cannot be seen, no pointers are read.
  pub read_pointers-unseen :
      (s : Cache) → host.unseen s.calls ≡ true → (read_pointers host s).0 ≡ ok no_pointers
  unfolding read_pointers
  read_pointers-unseen s h = rw h refl

  -- Cleaning leaves every file whose name does not parse to a digest that is not referenced.
  abbrev pub Spared : CachePointers → CachePath → Type 0
  Spared pointers q =
      (name digest : Bytes)
      → parse name ≡ some digest
      → same_path (staging name) q ≡ true
      → referenced host pointers digest ≡ true

  clean_name-frame :
      (pointers : CachePointers) (name : Bytes) (q : CachePath) (s : Cache) (o : Option Bytes)
      → parse name ≡ o
      → Spared pointers q
      → (clean_name host pointers name o s).disk q ≡ s.disk q
  unfolding put
  clean_name-frame pointers name q s none e spared = refl
  clean_name-frame pointers name q s (some digest) e spared =
      elim (Bool-cases (same_path (staging name) q)) [
        | inl same ↦ rw (spared name digest e same) refl
        | inr other ↦ ground arith
      ]

  clean_names-frame :
      (pointers : CachePointers) (names : List Bytes) (q : CachePath) (s : Cache)
      → Spared pointers q
      → (clean_names host pointers names s).1.disk q ≡ s.disk q
  unfolding clean_names
  clean_names-frame pointers [] q s spared = refl
  clean_names-frame pointers (name ∷ names) q s spared = elim (Bool-cases (host.fault s.calls)) [
    | inl broken ↦ rw broken refl
    | inr works ↦ rw works (
        clean_names-frame pointers names q (clean_name host pointers name (parse name) (tick s))
          spared
        ∙ clean_name-frame pointers name q (tick s) (parse name) refl spared)
  ]

  pub clean_staging-frame :
      (pointers : CachePointers) (q : CachePath) (s : Cache)
      → Spared pointers q
      → (clean_staging host pointers s).1.disk q ≡ s.disk q
  unfolding clean_staging
  clean_staging-frame pointers q s spared = elim (Bool-cases (host.fault s.calls)) [
    | inl broken ↦ rw broken refl
    | inr works ↦ rw works (clean_names-frame pointers (host.listing s.calls) q (tick s) spared)
  ]

  clean_name-generation :
      (pointers : CachePointers) (name : Bytes) (s : Cache) (o : Option Bytes)
      → (clean_name host pointers name o s).generation ≡ s.generation
  unfolding put
  clean_name-generation pointers name s none = refl
  clean_name-generation pointers name s (some digest) = ground arith

  clean_names-generation :
      (pointers : CachePointers) (names : List Bytes) (s : Cache)
      → (clean_names host pointers names s).1.generation ≡ s.generation
  unfolding clean_names
  clean_names-generation pointers [] s = refl
  clean_names-generation pointers (name ∷ names) s = elim (Bool-cases (host.fault s.calls)) [
    | inl broken ↦ rw broken refl
    | inr works ↦ rw works (
        clean_names-generation pointers names (clean_name host pointers name (parse name) (tick s))
        ∙ clean_name-generation pointers name (tick s) (parse name))
  ]

  pub clean_staging-generation :
      (pointers : CachePointers) (s : Cache)
      → (clean_staging host pointers s).1.generation ≡ s.generation
  unfolding clean_staging
  clean_staging-generation pointers s = elim (Bool-cases (host.fault s.calls)) [
    | inl broken ↦ rw broken refl
    | inr works ↦ rw works (clean_names-generation pointers (host.listing s.calls) (tick s))
  ]
