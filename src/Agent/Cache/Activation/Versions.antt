-- ===== src/Agent/Cache/Activation/Versions.antt =====
-- The version that the cache of crates/dlp-agent-core/src/config_cache.rs selects, over activations
-- and restarts.
use wdlp.Base.{ℕ, suc, ◌≤◌, ◌≡◌, inl, inr, false, Option, none, some, arith}
use wdlp.Base.Bytes.{Bytes}
use wdlp.Base.Results.{Result, ok, err, Result-cases}
use wdlp.Agent.Cache.{CacheError, CachePointers}
use wdlp.Agent.Cache.Activation.{pointers_path, Host, Cache}
use wdlp.Agent.Cache.Activation.Files.{pointers_in}
use wdlp.Agent.Cache.Activation.Admission.{Trust}
use wdlp.Agent.Cache.Activation.Invariant.{IsSound}
use wdlp.Agent.Cache.Activation.Soundness.{activation, activation-IsSound}
use wdlp.Agent.Cache.Activation.Outcomes.{Newer, activation-ok, activation-err}

-- The version that the pointers' file selects.
abbrev pub version_of : Result CacheError CachePointers → Option ℕ
version_of (ok p) = p.current_version
version_of (err e) = none

abbrev pub selected_version : Cache → Option ℕ
selected_version s = version_of (pointers_in (s.disk pointers_path))

abbrev pub NotOlder : Option ℕ → Option ℕ → Type 0
NotOlder none w = Unit
NotOlder (some v) none = ⊥
NotOlder (some v) (some w) = v ≤ w

NotOlder-refl : (o : Option ℕ) → NotOlder o o
NotOlder-refl none = tt
NotOlder-refl (some v) = omega arith

NotOlder-trans : (a b c : Option ℕ) → NotOlder a b → NotOlder b c → NotOlder a c
NotOlder-trans none b c h k = tt
NotOlder-trans (some v) none c h k = absurd h
NotOlder-trans (some v) (some w) none h k = absurd k
NotOlder-trans (some v) (some w) (some x) h k = omega arith

NotOlder-Newer : (o : Option ℕ) (v : ℕ) → Newer o v → NotOlder o (some v)
NotOlder-Newer none v h = tt
NotOlder-Newer (some current) v h = omega arith

module _ (trust : Trust) (host : Host) where
  -- What may happen to a cache: an activation of any bytes, or a restart, after which `open` counts
  -- generations from zero.
  pub data Step (s t : Cache) : Type 0 where
    activates : (bytes : Bytes) → t ≡ (activation trust host bytes s).1 → Step s t
    restarts : t ≡ record s { generation = 0 } → Step s t

  pub data Steps (s : Cache) : Cache → Type 0 where
    here : Steps s s
    then_step : {t u : Cache} → Steps s t → Step t u → Steps s u

  activation-NotOlder :
      (bytes : Bytes) (s : Cache)
      → ((k : ℕ) → host.unseen k ≡ false)
      → IsSound trust s
      → NotOlder (selected_version s) (selected_version (activation trust host bytes s).1)
  activation-NotOlder bytes s seen is = elim (Result-cases (activation trust host bytes s).0) [
    | inr (e, failed) ↦
        rw ((activation-err trust host bytes s).0 e failed).0 (NotOlder-refl (selected_version s))
    | inl (outcome, succeeded) ↦
        let done = activation-ok trust host bytes s is succeeded in
        let (former, newer) = done.followed (seen (suc s.calls)) in
        rw (former, done.selected)
          (NotOlder-Newer done.former.current_version done.bundle.version newer)
  ]

  Step-NotOlder :
      {s t : Cache}
      → ((k : ℕ) → host.unseen k ≡ false)
      → Step s t
      → IsSound trust s
      → IsSound trust t × NotOlder (selected_version s) (selected_version t)
  Step-NotOlder {s} seen (activates bytes e) is =
      rw e (activation-IsSound trust host bytes s is, activation-NotOlder bytes s seen is)
  Step-NotOlder {s} seen (restarts e) is = rw e (
    record { generation = omega arith; selected = is.selected },
    NotOlder-refl (selected_version s),
  )

  -- Over any sequence of activations and restarts, of which any calls may fail, a sound cache stays
  -- sound and the version that it selects never falls; where the pointers' file can be seen.
  pub Steps-NotOlder :
      {s t : Cache}
      → ((k : ℕ) → host.unseen k ≡ false)
      → Steps s t
      → IsSound trust s
      → IsSound trust t × NotOlder (selected_version s) (selected_version t)
  Steps-NotOlder {s} seen here is = (is, NotOlder-refl (selected_version s))
  Steps-NotOlder {s} {t = u} seen (then_step {t} steps step) is =
      let (mid, low) = Steps-NotOlder seen steps is in
      let (sound, high) = Step-NotOlder seen step mid in
      (
        sound,
        NotOlder-trans (selected_version s) (selected_version t) (selected_version u) low high,
      )
