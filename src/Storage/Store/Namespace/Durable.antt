-- ===== src/Storage/Store/Namespace/Durable.antt =====
-- The namespace file on the disk is replaced in one step.
use wdlp.Base.{
  Bool-cases, ℕ, ◌+◌, ◌≡◌, refl, ◌∙◌, ◌⊎◌, inl, inr, true, [], some, ==_refl, leb, subst, length,
}
use wdlp.Base.Bytes.{Bytes, codes}
use wdlp.Base.Reader.{usize_limit}
use wdlp.Base.Results.{ok, err, Result-cases}
use wdlp.Crypto.Aead.{manifest, AeadCipher, NonceTracker}
use wdlp.Storage.Errors.{Outcome}
use wdlp.Storage.Format.{EncryptedRecordV1}
use wdlp.Storage.Format.Record
use wdlp.Storage.Format.Record.Sealing.{seal}
use wdlp.Storage.Store.{
  namespace_rec, namespace_marker, namespace_tmp, Environment, World, Store, ◌>>◌, continue,
}
use wdlp.Storage.Store.Disk.{same_path, write_record, rename_file, flush_directory_marker}
use wdlp.Storage.Store.Disk.Laws.{
  write_record-other, write_record-ok, rename_file-cases, rename_file-ok,
  flush_directory_marker-other,
}
use wdlp.Storage.Store.Namespace.Listed.{listed, namespace_text-listed}
use wdlp.Storage.Store.Namespace.{
  namespace_aad, namespace_text, publish_namespace, persist_namespace,
}

module _ (aead : AeadCipher) (env : Environment) where
  -- The bytes are those of a record that seals this namespace text for this store.
  pub record Seals (store_id key plaintext : Bytes) (generation : ℕ) (bytes : Bytes) : Type 0 where
    pub nonce : Bytes
    pub sealed : EncryptedRecordV1
    pub tracker : NonceTracker
    pub made :
        seal aead key nonce
          (record {
            format_version = 1;
            store_id = store_id;
            file_id = codes "namespace-index";
            generation = generation;
            record_kind = manifest;
            chunk_index = 0;
            plaintext_length = length plaintext;
          })
          plaintext
          []
        ≡ ok (sealed, tracker)
    pub encoded : Record.encode sealed ≡ ok bytes

  module _ (store_id key plaintext : Bytes) (generation : ℕ) where
    abbrev Replaced : World → World → Type 0
    Replaced before after =
        (bytes : Bytes) × (after.disk namespace_rec ≡ some bytes)
        × Seals store_id key plaintext generation bytes

    marked :
        (r : Outcome (Unit {0})) (w : World)
        → (continue r (λ _. flush_directory_marker env namespace_marker) w).1.disk namespace_rec
          ≡ w.disk namespace_rec
    unfolding same_path
    marked (ok _) w = flush_directory_marker-other env namespace_marker namespace_rec w refl
    marked (err e) w = refl

    abbrev swap : EncryptedRecordV1 → World → Outcome (Unit {0}) × World
    swap sealed =
        write_record env (namespace_tmp generation) sealed
        >> (rename_file env (namespace_tmp generation) namespace_rec
            >> flush_directory_marker env namespace_marker)

    same_tmp : same_path (namespace_tmp generation) (namespace_tmp generation) ≡ true
    unfolding same_path
    same_tmp = ==_refl generation

    swap-cases :
        (sealed : EncryptedRecordV1) (w : World)
        → ((swap sealed w).1.disk namespace_rec ≡ w.disk namespace_rec)
          ⊎ ((bytes : Bytes) × ((swap sealed w).1.disk namespace_rec ≡ some bytes)
              × (Record.encode sealed ≡ ok bytes))
    unfolding same_path
    swap-cases sealed w =
        let tmp = namespace_tmp generation in
        let w' = (write_record env tmp sealed w).1 in
        let kept = write_record-other env tmp namespace_rec sealed w refl in
        elim (Result-cases (write_record env tmp sealed w).0) [
          | inr (e, failed) ↦ inl (rw (failed, continue) kept)
          | inl (u, done) ↦
              let (bytes, encoded, there) = write_record-ok env tmp sealed w same_tmp done in
              let after =
                marked (rename_file env tmp namespace_rec w').0
                  (rename_file env tmp namespace_rec w').1 in
              elim (rename_file-cases env tmp namespace_rec w' refl refl) [
                | inl (_, took) ↦ inr (bytes, rw (done, continue) (after ∙ took ∙ there), encoded)
                | inr stayed ↦ inl (rw (done, continue) (after ∙ stayed ∙ kept))
              ]
        ]

    sealed_swap-cases :
        (nonce : Bytes) (r : Outcome (EncryptedRecordV1 × NonceTracker)) (w : World)
        → seal aead key nonce (namespace_aad store_id plaintext generation) plaintext [] ≡ r
        → ((continue r (λ made. swap made.0) w).1.disk namespace_rec ≡ w.disk namespace_rec)
          ⊎ Replaced w (continue r (λ made. swap made.0) w).1
    sealed_swap-cases nonce (err e) w made = inl refl
    sealed_swap-cases nonce (ok (sealed, tracker)) w made = elim (swap-cases sealed w) [
      | inl kept ↦ inl kept
      | inr (bytes, there, encoded) ↦ inr (
        bytes,
        there,
        record {
          nonce = nonce;
          sealed = sealed;
          tracker = tracker;
          made = made;
          encoded = encoded;
        },
      )
    ]

    pub publish_namespace-cases :
        (w : World)
        → ((publish_namespace aead env store_id key plaintext generation w).1.disk namespace_rec
            ≡ w.disk namespace_rec)
          ⊎ Replaced w (publish_namespace aead env store_id key plaintext generation w).1
    unfolding publish_namespace
    publish_namespace-cases w = sealed_swap-cases (env.nonce w.calls) _ _ refl

    swap-ok :
        (sealed : EncryptedRecordV1) (w : World)
        → (swap sealed w).0 ≡ ok tt
        → (bytes : Bytes) × ((swap sealed w).1.disk namespace_rec ≡ some bytes)
          × (Record.encode sealed ≡ ok bytes)
    unfolding same_path
    swap-ok sealed w =
        let tmp = namespace_tmp generation in
        let w' = (write_record env tmp sealed w).1 in
        elim (Result-cases (write_record env tmp sealed w).0) [
          | inr (e, failed) ↦ rw (failed, continue) (λ h. cc)
          | inl (u, done) ↦
              let (bytes, encoded, there) = write_record-ok env tmp sealed w same_tmp done in
              elim (Result-cases (rename_file env tmp namespace_rec w').0) [
                | inr (e, failed) ↦ rw (done, continue, failed) (λ h. cc)
                | inl (v, renamed) ↦
                    rw (done, continue, renamed)
                      (λ h. (
                        bytes,
                        flush_directory_marker-other env namespace_marker namespace_rec _ refl
                            ∙ rename_file-ok env tmp namespace_rec w' refl refl renamed
                            ∙ there,
                        encoded,
                      ))
              ]
        ]

    sealed_swap-ok :
        (nonce : Bytes) (r : Outcome (EncryptedRecordV1 × NonceTracker)) (w : World)
        → seal aead key nonce (namespace_aad store_id plaintext generation) plaintext [] ≡ r
        → (continue r (λ made. swap made.0) w).0 ≡ ok tt
        → Replaced w (continue r (λ made. swap made.0) w).1
    sealed_swap-ok nonce (err e) w made h = cc
    sealed_swap-ok nonce (ok (sealed, tracker)) w made h =
        let (bytes, there, encoded) = swap-ok sealed w h in
        (
          bytes,
          there,
          record {
            nonce = nonce;
            sealed = sealed;
            tracker = tracker;
            made = made;
            encoded = encoded;
          },
        )

    pub publish_namespace-ok :
        (w : World)
        → (publish_namespace aead env store_id key plaintext generation w).0 ≡ ok tt
        → Replaced w (publish_namespace aead env store_id key plaintext generation w).1
    unfolding publish_namespace
    publish_namespace-ok w = sealed_swap-ok (env.nonce w.calls) _ _ refl

  -- The namespace of the store is what its file on the disk holds.
  abbrev pub Published : Store → Store → Type 0
  Published s s' =
      (bytes : Bytes) × (s'.world.disk namespace_rec ≡ some bytes)
      × Seals s.store_id s.key (listed s) (s.namespace_generation + 1) bytes

  -- The world after the namespace of a store was published, as far as it was
  abbrev renewed : Store → World
  renewed s =
      (publish_namespace aead env s.store_id s.key (namespace_text s) (s.namespace_generation + 1)
        s.world).1

  to_listed :
      (s : Store) (w : World)
      → Replaced s.store_id s.key (namespace_text s) (s.namespace_generation + 1) s.world w
      → Replaced s.store_id s.key (listed s) (s.namespace_generation + 1) s.world w
  to_listed s w =
      subst (λ text. Replaced s.store_id s.key text (s.namespace_generation + 1) s.world w)
        (namespace_text-listed s)

  -- Whichever call of the system fails, `persist_namespace` leaves the old namespace file as it
  -- was, or replaces it by the record that seals the whole text of the new namespace.
  pub persist_namespace-atomic :
      (s : Store)
      → ((persist_namespace aead env s).1.world.disk namespace_rec ≡ s.world.disk namespace_rec)
        ⊎ Published s (persist_namespace aead env s).1
  unfolding persist_namespace
  persist_namespace-atomic s = elim (Bool-cases (leb usize_limit (s.namespace_generation + 1))) [
    | inl full ↦ inl (rw full refl)
    | inr room ↦
        rw room
          (elim (publish_namespace-cases s.store_id s.key (namespace_text s)
            (s.namespace_generation + 1) s.world) [
              | inl kept ↦ inl kept
              | inr replaced ↦ inr (to_listed s (renewed s) replaced)
            ])
  ]

  -- Where `persist_namespace` succeeds, the file on the disk is the record that seals the new
  -- namespace, a line for each directory and for each file that is not pending deletion, under the
  -- store's generation, which is one above the old.
  pub persist_namespace-ok :
      (s : Store)
      → (persist_namespace aead env s).0 ≡ ok tt
      → Published s (persist_namespace aead env s).1
        × ((persist_namespace aead env s).1.namespace_generation ≡ s.namespace_generation + 1)
  unfolding persist_namespace
  persist_namespace-ok s = elim (Bool-cases (leb usize_limit (s.namespace_generation + 1))) [
    | inl full ↦ rw full (λ h. cc)
    | inr room ↦ rw room (λ h. (
      to_listed s (renewed s) (
          publish_namespace-ok s.store_id s.key (namespace_text s) (s.namespace_generation + 1)
            s.world h),
      rw h refl,
    ))
  ]
