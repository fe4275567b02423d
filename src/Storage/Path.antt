-- ===== src/Storage/Path.antt =====
-- crates/dlp-storage/src/path.rs: virtual paths, with the display form and the lookup key.
pub mod Split
pub mod Keys
pub mod Reparse
pub mod Safe
use wdlp.Base.{
  ℕ, ◌+◌, ◌-◌, ◌≡◌, Bool, true, false, not, ◌&&◌, ◌||◌, List, [], ◌∷◌, ◌++◌, map, length, all, any,
  ltb, leb, ◌==◌, is_empty, if◌then◌else◌, Option, none, some,
}
use wdlp.Base.Bytes.{Bytes, codes, bytes_eq, starts_with}
use wdlp.Base.Utf8.{between}
use wdlp.Base.Results.{Result, ok, err}
use wdlp.Domain.{ends_with}

abbrev pub max_path_length : ℕ
max_path_length = 260

abbrev pub max_component_length : ℕ
max_component_length = 128

abbrev pub max_components : ℕ
max_components = 64

pub data PathError : Type 0 where
  invalid_path : PathError

pub record VirtualPath : Type 0 where
  pub display : List Bytes
  pub lookup : Bytes

abbrev pub is_separator : ℕ → Bool
is_separator b = b == b'\\' || b == b'/'

-- `input.split(..)`: the pieces between the bytes that the test accepts, empty ones included.
abbrev pub cons_piece : ℕ → List Bytes → List Bytes
cons_piece b [] = (b ∷ []) ∷ []
cons_piece b (piece ∷ pieces) = (b ∷ piece) ∷ pieces

unfoldable pub split : (ℕ → Bool) → Bytes → List Bytes
split sep [] = [] ∷ []
split sep (b ∷ bs) = let pieces = split sep bs in if sep b then [] ∷ pieces else cons_piece b pieces

-- `.filter(|part| !part.is_empty())`
unfoldable pub drop_empty : List Bytes → List Bytes
drop_empty [] = []
drop_empty ([] ∷ pieces) = drop_empty pieces
drop_empty ((b ∷ bs) ∷ pieces) = (b ∷ bs) ∷ drop_empty pieces

-- `pieces.join(sep)`
unfoldable pub join : Bytes → List Bytes → Bytes
join sep [] = []
join sep (piece ∷ []) = piece
join sep (piece ∷ next ∷ pieces) = piece ++ (sep ++ join sep (next ∷ pieces))

abbrev pub lower : ℕ → ℕ
lower b = if between b'A' b'Z' b then b + 32 else b

abbrev pub upper : ℕ → ℕ
upper b = if between b'a' b'z' b then b - 32 else b

unfoldable pub to_ascii_lowercase : Bytes → Bytes
to_ascii_lowercase [] = []
to_ascii_lowercase (b ∷ bs) = lower b ∷ to_ascii_lowercase bs

unfoldable pub to_ascii_uppercase : Bytes → Bytes
to_ascii_uppercase [] = []
to_ascii_uppercase (b ∷ bs) = upper b ∷ to_ascii_uppercase bs

-- `char::is_control` over UTF-8: U+0000 to U+001F, U+007F, and U+0080 to U+009F in two bytes.
unfoldable pub has_control : Bytes → Bool
has_control [] = false
has_control (b ∷ []) = ltb b 0x20 || b == 0x7f
has_control (b ∷ c ∷ bs) =
    ltb b 0x20 || b == 0x7f || (b == 0xc2 && between 0x80 0x9f c) || has_control (c ∷ bs)

abbrev pub is_wild : ℕ → Bool
is_wild b = b == b'<' || b == b'>' || b == b'"' || b == b'|' || b == b'?' || b == b'*'

-- `component.split('.').next().unwrap_or_default()`
unfoldable pub stem : Bytes → Bytes
stem [] = []
stem (b ∷ bs) = let rest = stem bs in if b == b'.' then [] else b ∷ rest

abbrev pub device_names : List Bytes
device_names =
    codes "CON"
    ∷ codes "PRN"
    ∷ codes "AUX"
    ∷ codes "NUL"
    ∷ codes "COM1"
    ∷ codes "COM2"
    ∷ codes "COM3"
    ∷ codes "COM4"
    ∷ codes "COM5"
    ∷ codes "COM6"
    ∷ codes "COM7"
    ∷ codes "COM8"
    ∷ codes "COM9"
    ∷ codes "LPT1"
    ∷ codes "LPT2"
    ∷ codes "LPT3"
    ∷ codes "LPT4"
    ∷ codes "LPT5"
    ∷ codes "LPT6"
    ∷ codes "LPT7"
    ∷ codes "LPT8"
    ∷ codes "LPT9"
    ∷ []

abbrev pub is_device_name : Bytes → Bool
is_device_name s = any (bytes_eq s) device_names

unfoldable pub valid_component : Bytes → Bool
valid_component c =
    not (
      is_empty c
      || ltb max_component_length (length c)
      || bytes_eq c (codes ".")
      || bytes_eq c (codes "..")
      || ends_with b'.' c
      || ends_with b' ' c
      || has_control c
      || any is_wild c)
    && not (is_device_name (to_ascii_uppercase (stem c)))

unfoldable pub is_device_or_unc : Bytes → Bool
unfolding to_ascii_uppercase
is_device_or_unc input =
    let u = to_ascii_uppercase input in
    starts_with (codes "\\\\") u
    || starts_with (codes "\\DEVICE\\") u
    || starts_with (codes "\\?\\") u

abbrev pub rejects : Bytes → Bool
rejects input =
    is_empty input
    || ltb max_path_length (length input)
    || any (λ b. b == 0) input
    || starts_with (b'\\' ∷ []) input
    || starts_with (b'/' ∷ []) input
    || any (λ b. b == b':') input
    || is_device_or_unc input

abbrev pub rejects_parts : List Bytes → Bool
rejects_parts display =
    is_empty display
    || ltb max_components (length display)
    || any (λ p. not (valid_component p)) display

abbrev pub root : VirtualPath
root = record { display = []; lookup = [] }

unfoldable pub lookup_of : List Bytes → Bytes
unfolding to_ascii_lowercase join
lookup_of display = join (codes "/") (map to_ascii_lowercase display)

unfoldable pub parse : Bytes → Result PathError VirtualPath
parse input =
    let display = drop_empty (split is_separator input) in
    if rejects input
    then err invalid_path
    else if rejects_parts display
    then err invalid_path
    else ok (record { display = display; lookup = lookup_of display })

-- `self.display.last()`
unfoldable pub last : List Bytes → Option Bytes
last [] = none
last (x ∷ []) = some x
last (x ∷ y ∷ r) = last (y ∷ r)

unfoldable pub display_name : VirtualPath → Option Bytes
unfolding last
display_name path = last path.display

unfoldable pub display_path : VirtualPath → Bytes
unfolding join
display_path path = join (codes "\\") path.display

-- `pieces.pop()`
unfoldable pub init : List Bytes → List Bytes
init [] = []
init (x ∷ []) = []
init (x ∷ y ∷ r) = x ∷ init (y ∷ r)

unfoldable pub parent_key : VirtualPath → Option Bytes
unfolding split init join
parent_key path =
    let pieces = init (split (λ b. b == b'/') path.lookup) in
    if is_empty pieces then none else some (join (codes "/") pieces)
