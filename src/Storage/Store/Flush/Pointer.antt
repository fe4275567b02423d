-- ===== src/Storage/Store/Flush/Pointer.antt =====
-- What a flush does to the pointer that selects a file's content.
use wdlp.Base.{
  ℕ, ◌≡◌, refl, sym, ◌∙◌, Bool, true, false, if◌then◌else◌, ◌⊎◌, inl, inr, Option, some, none,
  arith, Bool-cases, Option-cases, ==_refl,
}
use wdlp.Base.Bytes.{Bytes, bytes_eq_refl}
use wdlp.Base.Maps.{is_some}
use wdlp.Base.Results.{ok, Result-cases}
use wdlp.Storage.Format.{EncryptedRecordV1}
use wdlp.Storage.Format.Record
use wdlp.Storage.Store.{
  DiskPath, selected_commit, previous_commit, selected_tmp, file_marker, Environment, World, tick,
}
use wdlp.Storage.Store.Disk.{same_path, write_record, rename_file}
use wdlp.Storage.Store.Disk.Laws.{
  write_record-other, write_record-ok, rename_file-cases, rename_file-ok, rename_file-other,
  flush_directory_marker-other,
}
use wdlp.Storage.Store.Flush.{
  copy_content, copy_file, remove_file, keep_prior, drop_selected, replace_pointer,
}

module _ (env : Environment) where
  pub remove_file-other :
      (path other : DiskPath) (w : World)
      → same_path path other ≡ false
      → (remove_file env path w).1.disk other ≡ w.disk other
  unfolding remove_file
  remove_file-other path other w h = ground arith

  remove_file-cases :
      (path : DiskPath) (w : World)
      → same_path path path ≡ true
      → ((remove_file env path w).1.disk path ≡ w.disk path)
        ⊎ ((remove_file env path w).1.disk path ≡ none)
  unfolding remove_file
  remove_file-cases path w h = elim (Option-cases (env.fault w.calls)) [
    | inl works ↦ inr (ground arith)
    | inr (e, fails) ↦ inl (ground arith)
  ]

  copy_content-other :
      (target other : DiskPath) (o : Option Bytes) (w : World)
      → same_path target other ≡ false
      → (copy_content env target o w).1.disk other ≡ w.disk other
  unfolding copy_file
  copy_content-other target other none w h = refl
  copy_content-other target other (some bytes) w h = ground arith

  copy_content-ok :
      (target : DiskPath) (o : Option Bytes) (w : World)
      → same_path target target ≡ true
      → (copy_content env target o w).0 ≡ ok tt
      → (copy_content env target o w).1.disk target ≡ o
  unfolding copy_file
  copy_content-ok target none w h e = cc
  copy_content-ok target (some bytes) w h e = ground arith

-- What `Path::exists` answers of the pointer
abbrev pub sees : Environment → Bytes → World → Bool
sees env file w = if env.unseen w.calls then false else is_some (w.disk (selected_commit file))

module _ (env : Environment) (file : Bytes) where
  -- Of the pointer: it selects what it did; or nothing, and what it did is kept as the previous one;
  -- or the bytes of the record given.
  abbrev pub Selects : Option Bytes → EncryptedRecordV1 → World → Type 0
  Selects old sealed w =
      (w.disk (selected_commit file) ≡ old)
      ⊎ (((w.disk (selected_commit file) ≡ none) × (w.disk (previous_commit file) ≡ old))
          ⊎ ((bytes : Bytes) × (Record.encode sealed ≡ ok bytes)
              × (w.disk (selected_commit file) ≡ some bytes)))

  -- The content selected, if there is any, is kept as the previous one too.
  abbrev pub Backed : Option Bytes → World → Type 0
  Backed old w =
      (w.disk (selected_commit file) ≡ old) × ((old ≡ none) ⊎ (w.disk (previous_commit file) ≡ old))

  drop_selected-cases :
      (generation : ℕ) (w : World)
      → (((drop_selected env file w).1.disk (selected_commit file) ≡ w.disk (selected_commit file))
          ⊎ ((drop_selected env file w).1.disk (selected_commit file) ≡ none))
        × ((drop_selected env file w).1.disk (selected_tmp file generation)
            ≡ w.disk (selected_tmp file generation))
        × ((drop_selected env file w).1.disk (previous_commit file) ≡ w.disk (previous_commit file))
  unfolding drop_selected same_path
  drop_selected-cases generation w = elim (Bool-cases (sees env file w)) [
    | inr absent ↦ rw absent (inl refl, refl, refl)
    | inl there ↦ rw there (
      remove_file-cases env (selected_commit file) (tick w) (bytes_eq_refl file),
      remove_file-other env (selected_commit file) (selected_tmp file generation) (tick w) refl,
      remove_file-other env (selected_commit file) (previous_commit file) (tick w) refl,
    )
  ]

  pub keep_prior-other :
      (other : DiskPath) (w : World)
      → same_path (previous_commit file) other ≡ false
      → same_path (file_marker file) other ≡ false
      → (keep_prior env file w).1.disk other ≡ w.disk other
  unfolding keep_prior copy_file
  keep_prior-other other w h k =
      let copied =
        copy_content env (previous_commit file) (w.disk (selected_commit file)) (tick w) in
      let kept =
        copy_content-other env (previous_commit file) other (w.disk (selected_commit file)) (tick w)
          h in
      elim (Bool-cases (sees env file w)) [
        | inr absent ↦ rw absent refl
        | inl there ↦ elim (Result-cases copied.0) [
          | inr (e, failed) ↦ rw (there, failed) kept
          | inl (u, done) ↦
              rw (there, done)
                (flush_directory_marker-other env (file_marker file) other copied.1 k ∙ kept)
        ]
      ]

  pub keep_prior-selected :
      (w : World)
      → (keep_prior env file w).1.disk (selected_commit file) ≡ w.disk (selected_commit file)
  unfolding same_path
  keep_prior-selected w = keep_prior-other (selected_commit file) w refl refl

  is_some-false : (o : Option Bytes) → is_some o ≡ false → o ≡ none
  is_some-false none h = refl
  is_some-false (some x) h = cc

  -- Where the query of the pointer does not fail, a pointer that is there is kept.
  pub keep_prior-Backed :
      (w : World)
      → env.unseen w.calls ≡ false
      → (keep_prior env file w).0 ≡ ok tt
      → Backed (w.disk (selected_commit file)) (keep_prior env file w).1
  unfolding keep_prior copy_file same_path
  keep_prior-Backed w seen h = (keep_prior-selected w, kept h)
    where
      kept :
          (keep_prior env file w).0 ≡ ok tt
          → (w.disk (selected_commit file) ≡ none)
            ⊎ ((keep_prior env file w).1.disk (previous_commit file)
                ≡ w.disk (selected_commit file))
      kept =
          let copied =
            copy_content env (previous_commit file) (w.disk (selected_commit file)) (tick w) in
          elim (Bool-cases (is_some (w.disk (selected_commit file)))) [
            | inr absent ↦ λ _. inl (is_some-false (w.disk (selected_commit file)) absent)
            | inl there ↦ elim (Result-cases copied.0) [
              | inr (e, failed) ↦ rw (seen, there, failed) (λ h. cc)
              | inl (u, done) ↦
                  rw (seen, there, done)
                    (λ _. inr (
                      flush_directory_marker-other env (file_marker file) (previous_commit file)
                        copied.1 refl
                      ∙ copy_content-ok env (previous_commit file) (w.disk (selected_commit file))
                          (tick w) (bytes_eq_refl file) done))
            ]
          ]

  pub Selects-agree :
      (old : Option Bytes) (sealed : EncryptedRecordV1) (w w' : World)
      → Selects old sealed w
      → w'.disk (selected_commit file) ≡ w.disk (selected_commit file)
      → w'.disk (previous_commit file) ≡ w.disk (previous_commit file)
      → Selects old sealed w'
  Selects-agree old sealed w w' (inl stays) selected prior = inl (selected ∙ stays)
  Selects-agree old sealed w w' (inr (inl (gone, kept))) selected prior =
      inr (inl (selected ∙ gone, prior ∙ kept))
  Selects-agree old sealed w w' (inr (inr (bytes, encoded, there))) selected prior =
      inr (inr (bytes, encoded, selected ∙ there))

  -- The pointer after the old one was dropped, or could not be.
  dropped-Selects :
      (old : Option Bytes) (sealed : EncryptedRecordV1) (w w' : World)
      → Backed old w
      → (w'.disk (selected_commit file) ≡ w.disk (selected_commit file))
        ⊎ (w'.disk (selected_commit file) ≡ none)
      → w'.disk (previous_commit file) ≡ w.disk (previous_commit file)
      → Selects old sealed w'
  dropped-Selects old sealed w w' (selected, _) (inl stays) prior = inl (stays ∙ selected)
  dropped-Selects old sealed w w' (_, inl absent) (inr gone) prior = inl (gone ∙ sym absent)
  dropped-Selects old sealed w w' (_, inr kept) (inr gone) prior = inr (inl (gone, prior ∙ kept))

  pub replace_pointer-Selects :
      (generation : ℕ) (sealed : EncryptedRecordV1) (w : World) (old : Option Bytes)
      → Backed old w
      → Selects old sealed (replace_pointer env file generation sealed w).1
  unfolding replace_pointer same_path
  replace_pointer-Selects generation sealed w old backed =
      let tmp = selected_tmp file generation in
      let w₁ : World = (write_record env tmp sealed w).1 in
      let w₂ : World = (drop_selected env file w₁).1 in
      let selected₁ = write_record-other env tmp (selected_commit file) sealed w refl in
      let prior₁ = write_record-other env tmp (previous_commit file) sealed w refl in
      let (dropped, staged, prior₂) = drop_selected-cases generation w₁ in
      let safe : Selects old sealed w₂ =
        dropped-Selects old sealed w w₂ backed
          (elim dropped [ inl stays ↦ inl (stays ∙ selected₁) | inr gone ↦ inr gone ])
          (prior₂ ∙ prior₁) in
      elim (Result-cases (write_record env tmp sealed w).0) [
        | inr (e, failed) ↦ rw failed (inl (selected₁ ∙ backed.0))
        | inl (u, written) ↦ elim (Result-cases (drop_selected env file w₁).0) [
          | inr (e, failed) ↦ rw (written, failed) safe
          | inl (v, done) ↦
              let (bytes, encoded, there) =
                write_record-ok env tmp sealed w (rw (bytes_eq_refl file) (==_refl generation))
                  written in
              rw (written, done)
                (elim (rename_file-cases env tmp (selected_commit file) w₂ (bytes_eq_refl file)
                  refl) [
                    | inl (_, took) ↦ inr (inr (bytes, encoded, took ∙ (staged ∙ there)))
                    | inr stays ↦
                        Selects-agree old sealed w₂
                          (rename_file env tmp (selected_commit file) w₂).1 safe stays
                          (rename_file-other env tmp (selected_commit file) (previous_commit file)
                            w₂ refl refl)
                  ])
        ]
      ]

  -- A replacement that succeeds selects the record given.
  pub replace_pointer-ok :
      (generation : ℕ) (sealed : EncryptedRecordV1) (w : World)
      → (replace_pointer env file generation sealed w).0 ≡ ok tt
      → (bytes : Bytes) × (Record.encode sealed ≡ ok bytes)
        × ((replace_pointer env file generation sealed w).1.disk (selected_commit file)
            ≡ some bytes)
  unfolding replace_pointer same_path
  replace_pointer-ok generation sealed w =
      let tmp = selected_tmp file generation in
      let w₁ : World = (write_record env tmp sealed w).1 in
      let w₂ : World = (drop_selected env file w₁).1 in
      elim (Result-cases (write_record env tmp sealed w).0) [
        | inr (e, failed) ↦ rw failed (λ h. cc)
        | inl (u, written) ↦ elim (Result-cases (drop_selected env file w₁).0) [
          | inr (e, failed) ↦ rw (written, failed) (λ h. cc)
          | inl (v, done) ↦
              let (bytes, encoded, there) =
                write_record-ok env tmp sealed w (rw (bytes_eq_refl file) (==_refl generation))
                  written in
              rw (written, done)
                (λ h. (
                  bytes,
                  encoded,
                  rename_file-ok env tmp (selected_commit file) w₂ (bytes_eq_refl file) refl h
                      ∙ ((drop_selected-cases generation w₁).1 ∙ there),
                ))
        ]
      ]
