-- ===== src/Storage/Store/Entries/Rekeyed.antt =====
-- What renaming in crates/dlp-storage/src/store.rs does to the open handles, seen through lookups.
use wdlp.Base.{ℕ, ◌≡◌, ◌≢◌, refl, ◌∙◌, inl, inr, [], ◌∷◌, Option, some, none, Bool-cases}
use wdlp.Base.Bytes.{Bytes, bytes_eq, bytes_eq_iff}
use wdlp.Base.Maps.{Map, number_key, get}
use wdlp.Storage.Store.{HandleState}
use wdlp.Storage.Store.Entries.Renaming.{rekey, moved_key}

abbrev pub rekeyed : (Bytes → Bytes) → Option HandleState → Option HandleState
rekeyed f none = none
rekeyed f (some state) = some (record state { path_key = f state.path_key })

pub get-rekey :
    (f : Bytes → Bytes) (handle : ℕ) (m : Map ℕ HandleState)
    → get handle (rekey f m) ≡ rekeyed f (get handle m)
unfolding get rekey
get-rekey f handle [] = refl
get-rekey f handle ((h, state) ∷ m) = elim (Bool-cases (number_key.same h handle)) [
  | inl here ↦ rw here refl
  | inr there ↦ rw there (get-rekey f handle m)
]

-- The handles on the one key are on the other, and the rest are where they were.
pub record HandlesMoved (source destination : Bytes) (old new : Map ℕ HandleState) : Type 0 where
  pub moved :
      (handle : ℕ) (state : HandleState)
      → get handle old ≡ some state
      → state.path_key ≡ source
      → get handle new ≡ some (record state { path_key = destination })
  pub kept :
      (handle : ℕ) (state : HandleState)
      → get handle old ≡ some state
      → state.path_key ≢ source
      → get handle new ≡ some state
  pub closed : (handle : ℕ) → get handle old ≡ none → get handle new ≡ none

moved_key-same :
    (source destination key : Bytes) → key ≡ source → moved_key source destination key ≡ destination
moved_key-same source destination key same = rw ((bytes_eq_iff key source).1 same) refl

moved_key-other :
    (source destination key : Bytes) → key ≢ source → moved_key source destination key ≡ key
moved_key-other source destination key other = elim (Bool-cases (bytes_eq key source)) [
  | inl same ↦ absurd (other ((bytes_eq_iff key source).0 same))
  | inr differ ↦ rw differ refl
]

pub rekey-HandlesMoved :
    (source destination : Bytes) (m : Map ℕ HandleState)
    → HandlesMoved source destination m (rekey (moved_key source destination) m)
rekey-HandlesMoved source destination m = record {
  moved = λ handle state open_on on_it.
      get-rekey (moved_key source destination) handle m
      ∙ rw (open_on, moved_key-same source destination state.path_key on_it) refl;
  kept = λ handle state open_on elsewhere.
      get-rekey (moved_key source destination) handle m
      ∙ rw (open_on, moved_key-other source destination state.path_key elsewhere) refl;
  closed =
      λ handle none_open. get-rekey (moved_key source destination) handle m ∙ rw none_open refl;
}
