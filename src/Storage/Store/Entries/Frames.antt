-- ===== src/Storage/Store/Entries/Frames.antt =====
-- What persisting the namespace leaves alone.
use wdlp.Base.{◌+◌, ◌≡◌, refl, sym, subst, leb, Bool-cases, inl, inr}
use wdlp.Base.Reader.{usize_limit}
use wdlp.Base.Results.{ok, err}
use wdlp.Crypto.Aead.{AeadCipher}
use wdlp.Storage.Errors.{StorageError, Outcome}
use wdlp.Storage.Store.Namespace.Durable.{Published, persist_namespace-ok}
use wdlp.Storage.Store.Namespace.Persisted.{IsPersisted, persist_namespace-IsPersisted}
use wdlp.Storage.Store.{Environment, Store}
use wdlp.Storage.Store.Namespace.{persist_namespace}
use wdlp.Storage.Store.Entries.{settle, persist_or}

-- Two stores with the same directories, files and open handles.
pub record SameEntries (s s' : Store) : Type 0 where
  pub directories : s'.directories ≡ s.directories
  pub files : s'.files ≡ s.files
  pub handles : s'.handles ≡ s.handles

module _ (aead : AeadCipher) (env : Environment) where
  pub persist_namespace-SameEntries : (s : Store) → SameEntries s (persist_namespace aead env s).1
  unfolding persist_namespace
  persist_namespace-SameEntries s =
      elim (Bool-cases (leb usize_limit (s.namespace_generation + 1))) [
        | inl full ↦ rw full (record { directories = refl; files = refl; handles = refl })
        | inr room ↦ rw room (record { directories = refl; files = refl; handles = refl })
      ]

  -- What persisting with a way back leaves, as the outcome says.
  abbrev pub Settled : Store → (Store → Store) → Outcome (Unit {0}) → Store → Type 0
  Settled s undo (ok a) s' = SameEntries s s' × Published aead env s s'
  Settled s undo (err e) s' = (t : Store) × SameEntries s t × (s' ≡ undo t)

  settle-Settled :
      (s : Store) (undo : Store → Store) (r : Outcome (Unit {0})) (t : Store)
      → SameEntries s t
      → (r ≡ ok tt → Published aead env s t)
      → Settled s undo (settle undo (r, t)).0 (settle undo (r, t)).1
  settle-Settled s undo (ok a) t same there = (same, there refl)
  settle-Settled s undo (err e) t same there = (t, same, refl)

  pub persist_or-Settled :
      (s : Store) (undo : Store → Store)
      → Settled s undo (persist_or aead env undo s).0 (persist_or aead env undo s).1
  unfolding persist_or
  persist_or-Settled s undo =
      settle-Settled s undo _ _ (persist_namespace-SameEntries s)
        (λ h. (persist_namespace-ok aead env s h).0)

  -- The same, read off one outcome at a time.
  pub persist_or-ok :
      (s : Store) (undo : Store → Store) {a : Unit {0}}
      → (persist_or aead env undo s).0 ≡ ok a
      → SameEntries s (persist_or aead env undo s).1
        × Published aead env s (persist_or aead env undo s).1
  persist_or-ok s undo h =
      subst (λ r. Settled s undo r (persist_or aead env undo s).1) h (persist_or-Settled s undo)

  pub persist_or-err :
      (s : Store) (undo : Store → Store) {e : StorageError}
      → (persist_or aead env undo s).0 ≡ err e
      → (t : Store) × SameEntries s t × ((persist_or aead env undo s).1 ≡ undo t)
  persist_or-err s undo h =
      subst (λ r. Settled s undo r (persist_or aead env undo s).1) h (persist_or-Settled s undo)

  persists :
      (undo : Store → Store) (r : Outcome (Unit {0})) (t : Store) {a : Unit {0}}
      → (settle undo (r, t)).0 ≡ ok a
      → (r ≡ ok tt) × ((settle undo (r, t)).1 ≡ t)
  persists undo (ok _) t h = (refl, refl)
  persists undo (err e) t h = cc

  -- The same of the whole store
  pub persist_or-IsPersisted :
      (s : Store) (undo : Store → Store) {a : Unit {0}}
      → (persist_or aead env undo s).0 ≡ ok a
      → IsPersisted aead env s (persist_or aead env undo s).1
  unfolding persist_or
  persist_or-IsPersisted s undo h =
      let (done, same) =
        persists undo (persist_namespace aead env s).0 (persist_namespace aead env s).1 h in
      subst (IsPersisted aead env s) (sym same) (persist_namespace-IsPersisted aead env s done)
