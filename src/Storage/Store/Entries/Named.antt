-- ===== src/Storage/Store/Entries/Named.antt =====
-- The name and the times that crates/dlp-storage/src/store.rs gives a new entry, and the parent it
-- asks for, stated of the entry and of the path.
use wdlp.Base.{
  ℕ, ◌≡◌, refl, ap, true, List, [], ◌∷◌, ◌++◌, ◌⊎◌, inl, inr, Option, some, none, Bool-cases,
}
use wdlp.Base.Bytes.{Bytes}
use wdlp.Base.Maps.{Map, text_key, contains}
use wdlp.Base.Results.{ok}
use wdlp.Storage.Path.{VirtualPath, last, display_name}
use wdlp.Storage.Store.{EntryMetadata, DirectoryEntry}
use wdlp.Storage.Store.Entries.{name_or_empty, parent_in}

-- The name is the last of the components, or empty where there are none.
abbrev pub HasName : List Bytes → Bytes → Type 0
HasName components name =
    ((parents : List Bytes) × (components ≡ parents ++ (name ∷ [])))
    ⊎ ((components ≡ []) × (name ≡ []))

-- The four times of an entry that is made now
pub record MadeAt (now : ℕ) (metadata : EntryMetadata) : Type 0 where
  pub created : metadata.creation_time ≡ now
  pub accessed : metadata.last_access_time ≡ now
  pub written : metadata.last_write_time ≡ now
  pub changed : metadata.change_time ≡ now

-- The parent, where there is one, is a directory.
abbrev pub ParentThere : Option Bytes → Map Bytes DirectoryEntry → Type 0
ParentThere parent directories = (key : Bytes) → parent ≡ some key → contains key directories ≡ true

last-HasName : (components : List Bytes) → HasName components (name_or_empty (last components))
unfolding last
last-HasName [] = inr (refl, refl)
last-HasName (x ∷ []) = inl ([], refl)
last-HasName (x ∷ y ∷ r) = elim (last-HasName (y ∷ r)) [
  | inl (parents, e) ↦ inl (x ∷ parents, ap (λ l. x ∷ l) e)
  | inr (e, _) ↦ cc
]

pub display_name-HasName :
    (path : VirtualPath) → HasName path.display (name_or_empty (display_name path))
unfolding display_name
display_name-HasName path = last-HasName path.display

pub parent_in-ParentThere :
    (parent : Option Bytes) (directories : Map Bytes DirectoryEntry) {u : Unit {0}}
    → parent_in parent directories ≡ ok u
    → ParentThere parent directories
parent_in-ParentThere none directories h = λ key e. cc
parent_in-ParentThere (some parent) directories h =
    elim (Bool-cases (contains parent directories)) [
      | inl there ↦ λ key e. let same : parent ≡ key = cc in rw (same) at there
      | inr missing ↦ cc
    ]
