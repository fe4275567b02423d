-- ===== src/Storage/Path/Reparse.antt =====
-- The display form of a parsed path parses to the same path.
use wdlp.Base.{
  ℕ, ◌≡◌, ◌≢◌, ◌≤◌, refl, sym, ap, ◌∙◌, false, List, [], ◌∷◌, ◌++◌, length, All, any, arith, ◌==◌,
}
use wdlp.Base.Bytes.{Bytes, codes, starts_with, bytes_eq}
use wdlp.Base.Results.{ok}
use wdlp.Storage.Path.{
  VirtualPath, parse, rejects, rejects_parts, split, join, drop_empty, lookup_of, is_separator,
  display_path, is_device_or_unc, max_path_length,
}
use wdlp.Storage.Path.Split.{
  Clean, split-join, drop_empty-All, IsFilled, drop_empty_of_filled, split-All, join-All,
  length-join-split,
}
use wdlp.Storage.Path.Keys.{parse-IsCanonical, parse-cases}

abbrev Quiet : ℕ → Type 0
Quiet b = ((b == 0) ≡ false) × ((b == b':') ≡ false)

Quiet-bytes :
    (bs : Bytes) → any (λ b. b == 0) bs ≡ false → any (λ b. b == b':') bs ≡ false → All Quiet bs
Quiet-bytes [] h k = tt
Quiet-bytes (b ∷ bs) h k =
    ((ground arith, ground arith), Quiet-bytes bs (ground arith) (ground arith))

no_nul : (bs : Bytes) → All Quiet bs → any (λ b. b == 0) bs ≡ false
no_nul [] h = refl
no_nul (b ∷ bs) (h, hs) = ground (arith, no_nul bs hs)

no_colon : (bs : Bytes) → All Quiet bs → any (λ b. b == b':') bs ≡ false
no_colon [] h = refl
no_colon (b ∷ bs) (h, hs) = ground (arith, no_colon bs hs)

-- A path that does not begin with a backslash is no device or UNC path.
pub is_device_or_unc_relative :
    (b : ℕ) (bs : Bytes) → (b == b'\\') ≡ false → is_device_or_unc (b ∷ bs) ≡ false
unfolding is_device_or_unc starts_with bytes_eq
is_device_or_unc_relative b bs h = ground arith

join_begins :
    (s : ℕ) (pieces : List Bytes)
    → pieces ≢ []
    → All IsFilled pieces
    → All (Clean is_separator) pieces
    → (b : ℕ) × (bs : Bytes) × (join (s ∷ []) pieces ≡ b ∷ bs) × (is_separator b ≡ false)
unfolding join
join_begins s [] n f c = absurd (n refl)
join_begins s ([] ∷ pieces) n (f, fs) c = cc
join_begins s ((b ∷ bs) ∷ []) n f ((c, cs), _) = (b, bs, refl, c)
join_begins s ((b ∷ bs) ∷ next ∷ pieces) n f ((c, cs), _) =
    (b, bs ++ (s ∷ join (s ∷ []) (next ∷ pieces)), refl, c)

accepts :
    (b : ℕ) (bs : Bytes)
    → is_separator b ≡ false
    → length (b ∷ bs) ≤ max_path_length
    → any (λ x. x == 0) (b ∷ bs) ≡ false
    → any (λ x. x == b':') (b ∷ bs) ≡ false
    → rejects (b ∷ bs) ≡ false
unfolding starts_with bytes_eq
accepts b bs first short nul colon = ground (arith, is_device_or_unc_relative b bs)

parse_pieces :
    (input : Bytes) (pieces : List Bytes)
    → rejects input ≡ false
    → drop_empty (split is_separator input) ≡ pieces
    → rejects_parts pieces ≡ false
    → parse input ≡ ok (record { display = pieces; lookup = lookup_of pieces })
unfolding parse
parse_pieces input pieces h e k = rw (h, e, k)

display_accepted :
    (input : Bytes) {p : VirtualPath} → parse input ≡ ok p → rejects (display_path p) ≡ false
unfolding display_path
display_accepted input {p} h =
    let a = parse-IsCanonical input h in
    let (fine, _, d, _) = parse-cases input h in
    let quiet : All Quiet (join (codes "\\") p.display) = rw d (
      join-All Quiet b'\\' (drop_empty (split is_separator input)) (refl, refl)
        (drop_empty-All (All Quiet) (split is_separator input) (
          split-All Quiet is_separator input (Quiet-bytes input (ground arith) (ground arith))))) in
    let short : length (join (codes "\\") p.display) ≤ length input =
      rw d (length-join-split is_separator b'\\' input (rw d at a.some_component)) in
    let bounded : length input ≤ max_path_length = ground arith in
    let (b, bs, e, first) = join_begins b'\\' p.display a.some_component a.filled a.clean in
    let short' : length (b ∷ bs) ≤ max_path_length = omega (arith, ap length e) in
    let quiet' : All Quiet (b ∷ bs) = (rw e at quiet) in
    rw e (accepts b bs first short' (no_nul (b ∷ bs) quiet') (no_colon (b ∷ bs) quiet'))

-- Displaying a parsed path and parsing it again returns the path, whatever separators, empty
-- components and case the input had.
pub parse-display_path :
    (input : Bytes) {p : VirtualPath} → parse input ≡ ok p → parse (display_path p) ≡ ok p
parse-display_path input {p} h =
    let a = parse-IsCanonical input h in
    let (_, parts, d, _) = parse-cases input h in
    let back : drop_empty (split is_separator (display_path p)) ≡ p.display =
      unfold display_path in
      (ap drop_empty (split-join is_separator b'\\' p.display refl a.some_component a.clean)
        ∙ drop_empty_of_filled p.display a.filled) in
    parse_pieces (display_path p) p.display (display_accepted input h) back (rw (← d) at parts)
    ∙ ap (λ k. ok (record { display = p.display; lookup = k })) (sym a.keyed)
