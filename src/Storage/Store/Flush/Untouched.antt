-- ===== src/Storage/Store/Flush/Untouched.antt =====
-- What publishing a pointer does not touch, in crates/dlp-storage/src/store.rs.
use wdlp.Base.{ℕ, ◌≡◌, refl, false, true, ◌∙◌, inl, inr, Bool, ◌||◌, Bool-cases}
use wdlp.Base.Bytes.{Bytes}
use wdlp.Base.Results.{Result-cases}
use wdlp.Storage.Format.{EncryptedRecordV1}
use wdlp.Storage.Store.{
  DiskPath, selected_commit, previous_commit, selected_tmp, file_marker, Environment, World, tick,
}
use wdlp.Storage.Store.Disk.{same_path, write_record}
use wdlp.Storage.Store.Disk.Laws.{write_record-other, rename_file-other}
use wdlp.Storage.Store.Flush.{keep_prior, drop_selected, replace_pointer}
use wdlp.Storage.Store.Flush.Pointer.{sees, keep_prior-other, remove_file-other}

-- The paths that publishing writes
abbrev pub is_published : Bytes → ℕ → DiskPath → Bool
is_published file generation path =
    same_path (previous_commit file) path
    || (same_path (file_marker file) path
        || (same_path (selected_commit file) path || same_path (selected_tmp file generation) path))

pub or-false : (a b : Bool) → (a || b) ≡ false → (a ≡ false) × (b ≡ false)
or-false true b h = cc
or-false false b h = (refl, h)

module _ (env : Environment) (file : Bytes) (generation : ℕ) (path : DiskPath)
    (free : is_published file generation path ≡ false) where
  pub apart :
      (same_path (previous_commit file) path ≡ false)
      × (same_path (file_marker file) path ≡ false)
      × (same_path (selected_commit file) path ≡ false)
      × (same_path (selected_tmp file generation) path ≡ false)
  apart =
      let (a, rest) = or-false (same_path (previous_commit file) path) _ free in
      let (b, rest') = or-false (same_path (file_marker file) path) _ rest in
      let (c, d) = or-false (same_path (selected_commit file) path) _ rest' in (a, b, c, d)

  pub keep_prior-untouched : (w : World) → (keep_prior env file w).1.disk path ≡ w.disk path
  keep_prior-untouched w = keep_prior-other env file path w apart.0 apart.1

  drop_selected-untouched : (w : World) → (drop_selected env file w).1.disk path ≡ w.disk path
  unfolding drop_selected
  drop_selected-untouched w = elim (Bool-cases (sees env file w)) [
    | inr absent ↦ rw absent refl
    | inl there ↦ rw there (remove_file-other env (selected_commit file) path (tick w) apart.2)
  ]

  pub replace_pointer-untouched :
      (r : EncryptedRecordV1) (w : World)
      → (replace_pointer env file generation r w).1.disk path ≡ w.disk path
  unfolding replace_pointer
  replace_pointer-untouched r w =
      let tmp = selected_tmp file generation in
      let w₁ : World = (write_record env tmp r w).1 in
      let w₂ : World = (drop_selected env file w₁).1 in
      let first = write_record-other env tmp path r w apart.3 in
      let second = drop_selected-untouched w₁ ∙ first in
      elim (Result-cases (write_record env tmp r w).0) [
        | inr (e, failed) ↦ rw failed first
        | inl (u, written) ↦ elim (Result-cases (drop_selected env file w₁).0) [
          | inr (e, failed) ↦ rw (written, failed) second
          | inl (v, done) ↦
              rw (written, done)
                (rename_file-other env tmp (selected_commit file) path w₂ apart.3 apart.2 ∙ second)
        ]
      ]
