-- ===== src/Storage/Path/Safe.antt =====
-- What a path that `VirtualPath::parse` of crates/dlp-storage/src/path.rs accepts is, described
-- without its tests.
use wdlp.Base.{
  ℕ, ◌≡◌, ◌≢◌, ◌≤◌, refl, sym, ap, ◌∙◌, Bool, true, false, not, ◌||◌, List, [], ◌∷◌, ◌++◌, map,
  length, All, any, all, ltb, arith, ◌==◌, Bool-cases, inl, inr, is_empty,
}
use wdlp.Base.Bytes.{Bytes, codes, bytes_eq, bytes_eq_iff, starts_with, starts_with-append}
use wdlp.Base.Results.{ok}
use wdlp.Domain.{ends_with}
use wdlp.Storage.Path.{
  VirtualPath, parse, split, join, drop_empty, is_separator, has_control, is_wild, stem, upper,
  to_ascii_lowercase, to_ascii_uppercase, valid_component, lookup_of,
}
use wdlp.Storage.Path.Split.{Clean}
use wdlp.Storage.Path.Keys.{parse-IsCanonical, parse-cases}

-- A byte of a component: no control byte, no wildcard and no separator
abbrev pub PlainByte : ℕ → Type 0
PlainByte b = (32 ≤ b) × (b ≢ 127) × All (λ other. b ≢ other) (b'"' ∷ codes "<>|?*/\\")

abbrev numbered : Bytes → List Bytes
numbered prefix = map (λ digit. prefix ++ (digit ∷ [])) (codes "123456789")

-- The names of devices
abbrev pub reserved : List Bytes
reserved =
    codes "CON"
    ∷ codes "PRN"
    ∷ codes "AUX"
    ∷ codes "NUL"
    ∷ (numbered (codes "COM") ++ numbered (codes "LPT"))

-- In capitals it is not the name, alone or with an extension.
abbrev pub NotNamed : Bytes → Bytes → Type 0
NotNamed component name =
    (to_ascii_uppercase component ≢ name)
    × ((extension : Bytes) → to_ascii_uppercase component ≢ name ++ (b'.' ∷ extension))

-- One component of a path
pub record IsSafeComponent (c : Bytes) : Type 0 where
  pub some_byte : c ≢ []
  pub short : length c ≤ 128
  pub not_here : c ≢ codes "."
  pub not_above : c ≢ codes ".."
  pub no_last_dot : (start : Bytes) → c ≢ start ++ (b'.' ∷ [])
  pub no_last_space : (start : Bytes) → c ≢ start ++ (b' ' ∷ [])
  pub plain : All PlainByte c
  pub no_c1 : (start rest : Bytes) (b : ℕ) → 0x80 ≤ b → b ≤ 0x9f → c ≢ start ++ (0xc2 ∷ b ∷ rest)
  pub no_device : All (NotNamed c) reserved

ends_with-append : (b : ℕ) (start : Bytes) → ends_with b (start ++ (b ∷ [])) ≡ true
ends_with-append b [] = ground arith
ends_with-append b (x ∷ []) = ground arith
ends_with-append b (x ∷ y ∷ r) = ends_with-append b (y ∷ r)

ends_other : (b : ℕ) (c : Bytes) → ends_with b c ≡ false → (start : Bytes) → c ≢ start ++ (b ∷ [])
ends_other b c h start e = let yes : ends_with b c ≡ true = rw e (ends_with-append b start) in cc

differ : (b k : ℕ) → (b == k) ≡ false → b ≢ k
differ b k h e = ground arith

plain_byte :
    (b : ℕ)
    → ltb b 0x20 ≡ false
    → (b == 0x7f) ≡ false
    → is_wild b ≡ false
    → is_separator b ≡ false
    → PlainByte b
plain_byte b visible rubout wild separator = (
  ground arith,
  differ b 127 rubout,
  (
    differ b b'"' (ground arith),
    (
      differ b b'<' (ground arith),
      (
        differ b b'>' (ground arith),
        (
          differ b b'|' (ground arith),
          (
            differ b b'?' (ground arith),
            (
              differ b b'*' (ground arith),
              (differ b b'/' (ground arith), (differ b b'\\' (ground arith), tt)),
            ),
          ),
        ),
      ),
    ),
  ),
)

All-plain :
    (c : Bytes)
    → has_control c ≡ false
    → any is_wild c ≡ false
    → Clean is_separator c
    → All PlainByte c
unfolding has_control
All-plain [] h k l = tt
All-plain (b ∷ []) h k (l, _) = (plain_byte b (ground arith) (ground arith) (ground arith) l, tt)
All-plain (b ∷ x ∷ bs) h k (l, ls) = (
  plain_byte b (ground arith) (ground arith) (ground arith) l,
  All-plain (x ∷ bs) (ground arith) (ground arith) ls,
)

no_control_pair :
    (start rest : Bytes) (b : ℕ)
    → 0x80 ≤ b
    → b ≤ 0x9f
    → has_control (start ++ (0xc2 ∷ b ∷ rest)) ≡ true
unfolding has_control
no_control_pair [] rest b low high = ground arith
no_control_pair (x ∷ []) rest b low high = ground (arith, no_control_pair [] rest b low high)
no_control_pair (x ∷ y ∷ start) rest b low high =
    ground (arith, no_control_pair (y ∷ start) rest b low high)

any-All : {A : Type 0} (p : A → Bool) (l : List A) → any p l ≡ false → All (λ x. p x ≡ false) l
any-All p [] h = tt
any-All p (x ∷ l) h = (ground arith, any-All p l (ground arith))

upper_dot : (b : ℕ) → (upper b == b'.') ≡ (b == b'.')
upper_dot b = ground arith

stem-upper : (c : Bytes) → stem (to_ascii_uppercase c) ≡ to_ascii_uppercase (stem c)
unfolding stem to_ascii_uppercase
stem-upper [] = refl
stem-upper (b ∷ c) = elim (Bool-cases (b == b'.')) [
  | inl dot ↦ rw (upper_dot, dot) refl
  | inr other ↦ rw (upper_dot, other) (ap (λ r. upper b ∷ r) (stem-upper c))
]

NotNamed-of_stem :
    (c name : Bytes)
    → stem name ≡ name
    → ((extension : Bytes) → stem (name ++ (b'.' ∷ extension)) ≡ name)
    → bytes_eq (to_ascii_uppercase (stem c)) name ≡ false
    → NotNamed c name
NotNamed-of_stem c name alone extended h =
    let other : to_ascii_uppercase (stem c) ≢ name = λ e.
      let yes : bytes_eq (to_ascii_uppercase (stem c)) name ≡ true = (bytes_eq_iff _ _).1 e in cc in
    (
      λ e. other (sym (stem-upper c) ∙ ap stem e ∙ alone),
      λ extension e. other (sym (stem-upper c) ∙ ap stem e ∙ extended extension),
    )

abbrev undotted : Bytes → Bool
undotted name = not (any (λ b. b == b'.') name)

stem-append :
    (name extension : Bytes)
    → undotted name ≡ true
    → (stem name ≡ name) × (stem (name ++ (b'.' ∷ extension)) ≡ name)
unfolding stem
stem-append [] extension h = (refl, refl)
stem-append (b ∷ name) extension h =
    let other : (b == b'.') ≡ false = ground arith in
    let (alone, extended) = stem-append name extension (ground arith) in
    rw (other, alone, extended) (refl, refl)

All-NotNamed :
    (c : Bytes) (names : List Bytes)
    → all undotted names ≡ true
    → any (bytes_eq (to_ascii_uppercase (stem c))) names ≡ false
    → All (NotNamed c) names
All-NotNamed c [] h k = tt
All-NotNamed c (name ∷ names) h k =
    let plain : undotted name ≡ true = ground arith in
    (
      NotNamed-of_stem c name (stem-append name [] plain).0
          (λ extension. (stem-append name extension plain).1) (ground arith),
      All-NotNamed c names (ground arith) (ground arith),
    )

filled : (c : Bytes) → is_empty c ≡ false → c ≢ []
filled [] h = cc
filled (b ∷ c) h = λ e. cc

not_equal : (c d : Bytes) → bytes_eq c d ≡ false → c ≢ d
not_equal c d h e = let yes : bytes_eq c d ≡ true = (bytes_eq_iff c d).1 e in cc

valid_component-IsSafeComponent :
    (c : Bytes) → valid_component c ≡ true → Clean is_separator c → IsSafeComponent c
unfolding valid_component
valid_component-IsSafeComponent c h clean =
    let control : has_control c ≡ false = ground arith in
    record {
      some_byte = filled c (ground arith);
      short = ground arith;
      not_here = not_equal c (codes ".") (ground arith);
      not_above = not_equal c (codes "..") (ground arith);
      no_last_dot = ends_other b'.' c (ground arith);
      no_last_space = ends_other b' ' c (ground arith);
      plain = All-plain c control (ground arith) clean;
      no_c1 = λ start rest b low high e.
          let yes : has_control c ≡ true = rw e (no_control_pair start rest b low high) in cc;
      no_device = All-NotNamed c reserved refl (ground arith);
    }

-- A path that is parsed from an input
pub record IsSafePath (input : Bytes) (p : VirtualPath) : Type 0 where
  pub short : length input ≤ 260
  pub relative : (rest : Bytes) → (input ≢ b'/' ∷ rest) × (input ≢ b'\\' ∷ rest)
  pub no_stream : All (λ b. (b ≢ 0) × (b ≢ b':')) input
  pub pieces : p.display ≡ drop_empty (split (λ b. b == b'\\' || b == b'/') input)
  pub some_component : p.display ≢ []
  pub few_components : length p.display ≤ 64
  pub safe : All IsSafeComponent p.display
  pub key : p.lookup ≡ join (codes "/") (map to_ascii_lowercase p.display)

All-safe :
    (components : List Bytes)
    → All (λ c. valid_component c ≡ true) components
    → All (Clean is_separator) components
    → All IsSafeComponent components
All-safe [] h k = tt
All-safe (c ∷ components) (h, hs) (k, ks) =
    (valid_component-IsSafeComponent c h k, All-safe components hs ks)

All-no_stream :
    (bs : Bytes)
    → any (λ b. b == 0) bs ≡ false
    → any (λ b. b == b':') bs ≡ false
    → All (λ b. (b ≢ 0) × (b ≢ b':')) bs
All-no_stream [] h k = tt
All-no_stream (b ∷ bs) h k = (
  (differ b 0 (ground arith), differ b b':' (ground arith)),
  All-no_stream bs (ground arith) (ground arith),
)

begins : (b : ℕ) (bs rest : Bytes) → starts_with (b ∷ []) bs ≡ false → bs ≢ b ∷ rest
begins b bs rest h e =
    let yes : starts_with (b ∷ []) bs ≡ true = rw e (starts_with-append (b ∷ []) rest) in cc

-- A path that parses is safe. The input has at most 260 bytes, none of them NUL or a colon, and
-- does not begin with a separator. The components are the non-empty pieces between the separators,
-- 1 to 64 of them. Each has 1 to 128 bytes, no control character, wildcard or separator among them;
-- it is not "." or "..", does not end in a dot or a space, and is not the name of a device, alone or
-- with an extension and in whatever case. The lookup key is the components in ASCII lower case with
-- slashes between them.
pub parse-IsSafePath : (input : Bytes) {p : VirtualPath} → parse input ≡ ok p → IsSafePath input p
parse-IsSafePath input h =
    let (accepted, _, display, _) = parse-cases input h in
    let canonical = parse-IsCanonical input h in
    record {
      short = ground arith;
      relative =
          λ rest. (begins b'/' input rest (ground arith), begins b'\\' input rest (ground arith));
      no_stream = All-no_stream input (ground arith) (ground arith);
      pieces = display;
      some_component = canonical.some_component;
      few_components = canonical.few_components;
      safe = All-safe _ canonical.valid canonical.clean;
      key = canonical.keyed ∙ unfold lookup_of in refl;
    }
