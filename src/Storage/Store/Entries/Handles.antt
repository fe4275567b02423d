-- ===== src/Storage/Store/Entries/Handles.antt =====
-- Opening and closing handles, and what holds of the handles of a store.
use wdlp.Base.{
  ℕ, ◌≡◌, refl, sym, Bool, true, false, not, ◌&&◌, ◌⊎◌, inl, inr, some, none, Bool-cases,
  Option-cases,
}
use wdlp.Base.Maps.{text_key, number_key, get, remove, any_value, remove_absent}
use wdlp.Base.Results.{ok, err}
use wdlp.Crypto.Aead.{AeadCipher}
use wdlp.Storage.Errors.{StorageError, not_found}
use wdlp.Storage.Store.{HandleState, Environment, Store}
use wdlp.Storage.Store.Entries.{on_path, is_pending, remove_file, close_handle}
use wdlp.Storage.Store.Entries.Deletion.{remove_file-IsPersisted, remove_file-err}
use wdlp.Storage.Store.Namespace.Persisted.{IsPersisted}

not_both : (a b : Bool) → (a && not b) ≡ false → (a ≡ false) ⊎ (b ≡ true)
not_both false b h = inl refl
not_both true true h = inr refl
not_both true false h = cc

module _ (aead : AeadCipher) (env : Environment) where
  abbrev pub without_handle : ℕ → Store → Store
  without_handle handle s = record s { handles = remove handle s.handles }

  close_handle-cases :
      (handle : ℕ) (s : Store)
      → ((get handle s.handles ≡ none) × (close_handle aead env handle s ≡ (err not_found, s)))
        ⊎ ((state : HandleState) × (get handle s.handles ≡ some state)
            × (((is_pending (get state.path_key s.files) ≡ true)
                  × (any_value (on_path state.path_key) (remove handle s.handles) ≡ false)
                  × (close_handle aead env handle s
                      ≡ remove_file aead env state.path_key (without_handle handle s)))
                ⊎ ((is_pending (get state.path_key s.files)
                        && not (any_value (on_path state.path_key) (remove handle s.handles))
                      ≡ false)
                    × (close_handle aead env handle s ≡ (ok tt, without_handle handle s)))))
  unfolding close_handle
  close_handle-cases handle s = elim (Option-cases (get handle s.handles)) [
    | inl missing ↦ inl (missing, rw missing refl)
    | inr (state, found) ↦ elim (Bool-cases (is_pending (get state.path_key s.files))) [
      | inr listed ↦ inr (state, found, inr (rw listed refl, rw (found, listed) refl))
      | inl pending ↦
          elim (Bool-cases (any_value (on_path state.path_key) (remove handle s.handles))) [
            | inl held ↦
                inr (state, found, inr (rw (pending, held) refl, rw (found, pending, held) refl))
            | inr last ↦ inr (state, found, inl (pending, last, rw (found, pending, last) refl))
          ]
    ]
  ]

  -- A handle that is closed is gone. Where its file is pending deletion and no other handle is open
  -- on it, the file goes too, and the namespace without it is persisted; nothing else of the store
  -- changes, nor of its disk but the namespace's own files. Otherwise nothing else changes at all.
  pub close_handle-ok :
      (handle : ℕ) (s : Store) {state : HandleState}
      → get handle s.handles ≡ some state
      → (close_handle aead env handle s).0 ≡ ok tt
      → ((is_pending (get state.path_key s.files) ≡ true)
          × (any_value (on_path state.path_key) (remove handle s.handles) ≡ false)
          × IsPersisted aead env
              (record s {
                handles = remove handle s.handles;
                files = remove state.path_key s.files;
              })
              (close_handle aead env handle s).1)
        ⊎ (((is_pending (get state.path_key s.files) ≡ false)
              ⊎ (any_value (on_path state.path_key) (remove handle s.handles) ≡ true))
            × ((close_handle aead env handle s).1 ≡ record s { handles = remove handle s.handles }))
  close_handle-ok handle s {state} open_on = elim (close_handle-cases handle s) [
    | inl (missing, _) ↦ λ h. cc
    | inr (state', found, inl (pending, last, takes)) ↦ rw takes (λ h.
        let agree : state' ≡ state = cc in
        inl (
          rw (sym agree) pending,
          rw (sym agree) last,
          rw (sym agree)
              (remove_file-IsPersisted aead env state'.path_key (without_handle handle s) h),
        ))
    | inr (state', found, inr (listed, leaves)) ↦
        let agree : state' ≡ state = cc in
        rw leaves (λ h. inr (not_both _ _ (rw (sym agree) listed), refl))
  ]

  -- Where closing fails, no file and no directory changes; the handle is gone all the same.
  pub close_handle-err :
      (handle : ℕ) (s : Store) {e : StorageError}
      → (close_handle aead env handle s).0 ≡ err e
      → ((close_handle aead env handle s).1.handles ≡ remove handle s.handles)
        × ((close_handle aead env handle s).1.directories ≡ s.directories)
        × ((close_handle aead env handle s).1.files ≡ s.files)
  close_handle-err handle s = elim (close_handle-cases handle s) [
    | inl (missing, refused) ↦
        rw refused (λ _. (sym (remove_absent handle s.handles missing), refl, refl))
    | inr (state, found, inl (pending, last, takes)) ↦ rw takes (λ h.
        let kept = remove_file-err aead env state.path_key (without_handle handle s) h in
        (kept.handles, kept.directories, kept.files))
    | inr (state, found, inr (listed, leaves)) ↦ rw leaves (λ h. cc)
  ]

  pub close_handle-missing :
      (handle : ℕ) (s : Store)
      → get handle s.handles ≡ none
      → close_handle aead env handle s ≡ (err not_found, s)
  unfolding close_handle
  close_handle-missing handle s missing = rw missing refl
