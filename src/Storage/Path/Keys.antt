-- ===== src/Storage/Path/Keys.antt =====
-- What parsing establishes, lookup keys and their parents.
use wdlp.Base.{
  ◌≡◌, ◌≢◌, ◌≤◌, ◌↔◌, refl, sym, ap, ◌∙◌, true, false, not, List, [], ◌∷◌, map, length, All, any,
  arith, if◌then◌else◌, ◌==◌, is_empty, none, some,
}
use wdlp.Base.Bytes.{Bytes, codes}
use wdlp.Base.Results.{ok}
use wdlp.Storage.Path.{
  VirtualPath, parse, rejects, rejects_parts, split, join, drop_empty, init, to_ascii_lowercase,
  lookup_of, is_separator, valid_component, parent_key, max_components,
}
use wdlp.Storage.Path.Split.{
  Clean, split-Clean, split-join, drop_empty-All, IsFilled, drop_empty-IsFilled,
}

-- A path as parsing makes it: 1 to 64 components, each filled, valid and free of both separators,
-- and the lookup key of the components.
pub record IsCanonical (p : VirtualPath) : Type 0 where
  pub some_component : p.display ≢ []
  pub few_components : length p.display ≤ max_components
  pub valid : All (λ c. valid_component c ≡ true) p.display
  pub clean : All (Clean is_separator) p.display
  pub filled : All IsFilled p.display
  pub keyed : p.lookup ≡ lookup_of p.display

All-valid :
    (pieces : List Bytes)
    → any (λ p. not (valid_component p)) pieces ≡ false
    → All (λ c. valid_component c ≡ true) pieces
All-valid [] h = tt
All-valid (c ∷ pieces) h = (ground arith, All-valid pieces (ground arith))

pub any_valid :
    (pieces : List Bytes)
    → All (λ c. valid_component c ≡ true) pieces
    → any (λ p. not (valid_component p)) pieces ≡ false
any_valid [] h = refl
any_valid (c ∷ pieces) (h, hs) = rw h (any_valid pieces hs)

pub parse-cases :
    (input : Bytes) {p : VirtualPath}
    → parse input ≡ ok p
    → (rejects input ≡ false)
      × (rejects_parts (drop_empty (split is_separator input)) ≡ false)
      × (p.display ≡ drop_empty (split is_separator input))
      × (p.lookup ≡ lookup_of (drop_empty (split is_separator input)))
unfolding parse
parse-cases input h = ground arith

filled_parts :
    (pieces : List Bytes)
    → rejects_parts pieces ≡ false
    → (pieces ≢ []) × (length pieces ≤ max_components)
filled_parts [] h = cc
filled_parts (c ∷ pieces) h = (λ e. cc, ground arith)

pub parse-IsCanonical : (input : Bytes) {p : VirtualPath} → parse input ≡ ok p → IsCanonical p
parse-IsCanonical input {p} h =
    let (_, parts, d, l) = parse-cases input h in
    let pieces = drop_empty (split is_separator input) in
    let (some_piece, few) = filled_parts pieces parts in
    record {
      some_component = rw d some_piece;
      few_components = rw d few;
      valid = rw d (All-valid pieces (ground arith));
      clean = rw d (
          drop_empty-All (Clean is_separator) (split is_separator input)
            (split-Clean is_separator input));
      filled = rw d (drop_empty-IsFilled (split is_separator input));
      keyed = rw d l;
    }

lower-Clean :
    (piece : Bytes) → Clean is_separator piece → Clean (λ b. b == b'/') (to_ascii_lowercase piece)
unfolding to_ascii_lowercase
lower-Clean [] h = tt
lower-Clean (b ∷ piece) (h, hs) = (ground arith, lower-Clean piece hs)

lower_pieces-Clean :
    (pieces : List Bytes)
    → All (Clean is_separator) pieces
    → All (Clean (λ b. b == b'/')) (map to_ascii_lowercase pieces)
lower_pieces-Clean [] h = tt
lower_pieces-Clean (c ∷ pieces) (h, hs) = (lower-Clean c h, lower_pieces-Clean pieces hs)

map-ne-nil : (f : Bytes → Bytes) (l : List Bytes) → l ≢ [] → map f l ≢ []
map-ne-nil f [] h = absurd (h refl)
map-ne-nil f (x ∷ l) h = λ e. cc

split-lookup_of :
    (pieces : List Bytes)
    → pieces ≢ []
    → All (Clean is_separator) pieces
    → split (λ b. b == b'/') (lookup_of pieces) ≡ map to_ascii_lowercase pieces
split-lookup_of pieces some_piece h =
    unfold lookup_of in
    split-join (λ b. b == b'/') b'/' (map to_ascii_lowercase pieces) refl
      (map-ne-nil to_ascii_lowercase pieces some_piece) (lower_pieces-Clean pieces h)

-- Two parsed paths have one lookup key exactly when their components agree up to ASCII case: no
-- component can imitate two, and no case or separator makes a second entry.
pub lookup-eq_iff :
    (input input' : Bytes) {p q : VirtualPath}
    → parse input ≡ ok p
    → parse input' ≡ ok q
    → (p.lookup ≡ q.lookup) ↔ (map to_ascii_lowercase p.display ≡ map to_ascii_lowercase q.display)
lookup-eq_iff input input' {p} {q} h k =
    let a = parse-IsCanonical input h in
    let b = parse-IsCanonical input' k in
    (
      λ e.
          sym (split-lookup_of p.display a.some_component a.clean)
          ∙ ap (split (λ x. x == b'/')) (sym a.keyed ∙ e ∙ b.keyed)
          ∙ split-lookup_of q.display b.some_component b.clean,
      λ e. a.keyed ∙ unfold lookup_of in ap (join (codes "/")) e ∙ sym b.keyed,
    )

init-map : (f : Bytes → Bytes) (l : List Bytes) → init (map f l) ≡ map f (init l)
unfolding init
init-map f [] = refl
init-map f (x ∷ []) = refl
init-map f (x ∷ y ∷ l) = ap (λ r. f x ∷ r) (init-map f (y ∷ l))

empty_map : (f : Bytes → Bytes) (l : List Bytes) → is_empty (map f l) ≡ is_empty l
empty_map f [] = refl
empty_map f (x ∷ l) = refl

-- The parent key of a parsed path is the lookup key of its components without the last one, and
-- there is none exactly for a path of one component.
pub parent_key_lem :
    (input : Bytes) {p : VirtualPath}
    → parse input ≡ ok p
    → parent_key p ≡ (if is_empty (init p.display) then none else some (lookup_of (init p.display)))
unfolding parent_key
parent_key_lem input {p} h =
    let a = parse-IsCanonical input h in
    let e = split-lookup_of p.display a.some_component a.clean in
    rw (a.keyed, e, init-map, empty_map) (unfold lookup_of in refl)
