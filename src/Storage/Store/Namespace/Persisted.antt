-- ===== src/Storage/Store/Namespace/Persisted.antt =====
-- What `persist_namespace` of crates/dlp-storage/src/store.rs leaves alone.
use wdlp.Base.{ℕ, ◌+◌, ◌≡◌, refl, Bool, true, false, leb, [], Bool-cases, inl, inr, arith}
use wdlp.Base.Bytes.{Bytes}
use wdlp.Base.Reader.{usize_limit}
use wdlp.Base.Results.{ok, err}
use wdlp.Crypto.Aead.{AeadCipher, NonceTracker}
use wdlp.Storage.Errors.{Outcome}
use wdlp.Storage.Format.{EncryptedRecordV1}
use wdlp.Storage.Format.Record
use wdlp.Storage.Format.Record.Sealing.{seal}
use wdlp.Storage.Store.{
  DiskPath, namespace_rec, namespace_marker, namespace_tmp, Environment, World, Store, draw_nonce,
  continue,
}
use wdlp.Storage.Store.Disk.{
  same_path, write_bytes, write_record, rename_file, flush_directory_marker,
}
use wdlp.Storage.Store.Disk.Laws.{
  write_record-other, rename_file-other, flush_directory_marker-other,
}
use wdlp.Storage.Store.Keeps.{Keeps, Keeps-bind, Keeps-lift}
use wdlp.Storage.Store.Namespace.{
  namespace_aad, namespace_text, publish_namespace, persist_namespace,
}
use wdlp.Storage.Store.Namespace.Durable.{Published, persist_namespace-ok}

abbrev pub is_namespace : DiskPath → Bool
is_namespace namespace_rec = true
is_namespace namespace_marker = true
is_namespace (namespace_tmp generation) = true
is_namespace _ = false

-- The counters of files, handles and generations
abbrev pub counters : World → ℕ × (ℕ × ℕ)
counters w = (w.next_file, (w.next_handle, w.next_generation))

namespace_apart :
    (path : DiskPath) (generation : ℕ)
    → is_namespace path ≡ false
    → (same_path (namespace_tmp generation) path ≡ false)
      × ((same_path namespace_rec path ≡ false) × (same_path namespace_marker path ≡ false))
unfolding same_path
namespace_apart namespace_rec generation h = cc
namespace_apart namespace_marker generation h = cc
namespace_apart (namespace_tmp g) generation h = cc
namespace_apart _ generation h = (refl, (refl, refl))

module _ (env : Environment) where
  write_bytes-counters :
      (path : DiskPath) (bytes : Bytes) (w : World)
      → counters (write_bytes env path bytes w).1 ≡ counters w
  unfolding write_bytes
  write_bytes-counters path bytes w = ground arith

  rename_file-counters :
      (source target : DiskPath) (w : World)
      → counters (rename_file env source target w).1 ≡ counters w
  unfolding rename_file
  rename_file-counters source target w = ground arith

  write_encoded-counters :
      (encoded : Outcome Bytes) (path : DiskPath) (w : World)
      → counters (continue encoded (write_bytes env path) w).1 ≡ counters w
  write_encoded-counters (ok bytes) path w = write_bytes-counters path bytes w
  write_encoded-counters (err e) path w = refl

  write_record-counters :
      (path : DiskPath) (r : EncryptedRecordV1) (w : World)
      → counters (write_record env path r w).1 ≡ counters w
  unfolding write_record
  write_record-counters path r w = write_encoded-counters (Record.encode r) path w

  marker-counters :
      (path : DiskPath) (w : World) → counters (flush_directory_marker env path w).1 ≡ counters w
  unfolding flush_directory_marker
  marker-counters path w = write_bytes-counters path _ w

module _ (aead : AeadCipher) (env : Environment) where
  module _ (store_id key plaintext : Bytes) (generation : ℕ) where
    publish_namespace-Keeps :
        {X : Type 0} (part : World → X)
        → Keeps part (draw_nonce env)
        → ((r : EncryptedRecordV1) → Keeps part (write_record env (namespace_tmp generation) r))
        → Keeps part (rename_file env (namespace_tmp generation) namespace_rec)
        → Keeps part (flush_directory_marker env namespace_marker)
        → Keeps part (publish_namespace aead env store_id key plaintext generation)
    unfolding publish_namespace
    publish_namespace-Keeps part drawn wrote moved marked = Keeps-bind part _ _ drawn (λ nonce.
        Keeps-bind part _ _
          (Keeps-lift part
            (seal aead key nonce (namespace_aad store_id plaintext generation) plaintext []))
          (λ (made : EncryptedRecordV1 × NonceTracker).
            Keeps-bind part _ _ (wrote made.0) (λ _. Keeps-bind part _ _ moved (λ _. marked))))

    publish_namespace-counters :
        Keeps counters (publish_namespace aead env store_id key plaintext generation)
    publish_namespace-counters =
        publish_namespace-Keeps counters (record { keep = λ w. refl })
          (λ r. record { keep = write_record-counters env (namespace_tmp generation) r })
          (record { keep = rename_file-counters env (namespace_tmp generation) namespace_rec })
          (record { keep = marker-counters env namespace_marker })

    publish_namespace-other :
        (path : DiskPath)
        → is_namespace path ≡ false
        → Keeps (λ w. w.disk path) (publish_namespace aead env store_id key plaintext generation)
    publish_namespace-other path other =
        let (tmp, (rec_, marker)) = namespace_apart path generation other in
        publish_namespace-Keeps (λ w. w.disk path) (record { keep = λ w. refl })
          (λ r. record {
            keep = λ w. write_record-other env (namespace_tmp generation) path r w tmp;
          })
          (record {
            keep =
                λ w. rename_file-other env (namespace_tmp generation) namespace_rec path w tmp rec_;
          })
          (record { keep = λ w. flush_directory_marker-other env namespace_marker path w marker })

  persist_namespace-rest :
      (s : Store)
      → (persist_namespace aead env s).0 ≡ ok tt
      → (persist_namespace aead env s).1 ≡ record s {
        namespace_generation = s.namespace_generation + 1;
        world = (persist_namespace aead env s).1.world;
      }
  unfolding persist_namespace
  persist_namespace-rest s = elim (Bool-cases (leb usize_limit (s.namespace_generation + 1))) [
    | inl full ↦ rw full (λ h. cc)
    | inr room ↦ rw room (λ h. rw h refl)
  ]

  persist_namespace-counters :
      (s : Store) → counters (persist_namespace aead env s).1.world ≡ counters s.world
  unfolding persist_namespace
  persist_namespace-counters s = elim (Bool-cases (leb usize_limit (s.namespace_generation + 1))) [
    | inl full ↦ rw full refl
    | inr room ↦ rw room (
        (publish_namespace-counters s.store_id s.key (namespace_text s)
            (s.namespace_generation + 1)).keep
          s.world)
  ]

  persist_namespace-other :
      (s : Store) (path : DiskPath)
      → is_namespace path ≡ false
      → (persist_namespace aead env s).1.world.disk path ≡ s.world.disk path
  unfolding persist_namespace
  persist_namespace-other s path other =
      elim (Bool-cases (leb usize_limit (s.namespace_generation + 1))) [
        | inl full ↦ rw full refl
        | inr room ↦ rw room (
            (publish_namespace-other s.store_id s.key (namespace_text s)
                (s.namespace_generation + 1) path other).keep
              s.world)
      ]

  -- The store t is s, but for the generation of the namespace, which is one up, and the namespace's
  -- own files on the disk: the namespace file, which has what s names, its temporary and the marker.
  pub record IsPersisted (s t : Store) : Type 0 where
    pub rest : t ≡ record s { namespace_generation = s.namespace_generation + 1; world = t.world }
    pub published : Published aead env s t
    pub counted : counters t.world ≡ counters s.world
    pub other_files :
        (path : DiskPath) → is_namespace path ≡ false → t.world.disk path ≡ s.world.disk path

  pub persist_namespace-IsPersisted :
      (s : Store)
      → (persist_namespace aead env s).0 ≡ ok tt
      → IsPersisted s (persist_namespace aead env s).1
  persist_namespace-IsPersisted s h = record {
    rest = persist_namespace-rest s h;
    published = (persist_namespace-ok aead env s h).0;
    counted = persist_namespace-counters s;
    other_files = persist_namespace-other s;
  }
