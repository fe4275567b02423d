-- ===== src/Base/Bytes.antt =====
-- Bytes, byte strings and the fixed-width integers of the wire formats. A Rust string is the list
-- of its UTF-8 bytes, a `[u8; n]` a list of that length.
use Prim.Native.Char.{code}
use Prim.Native.String.{String}
use mathlib.Core.Path.{◌≡◌, refl, ap, sym, ◌∙◌, ◌≡⟨◌⟩◌, ◌∎}
use mathlib.Core.Bool.{Bool, true, false, ◌&&◌}
use mathlib.Core.Logic.{◌↔◌}
use mathlib.Core.List.{List, [], ◌∷◌, ◌++◌, reverse, reverse-append, reverse-reverse}
use Prim.Native.Nat.{ℕ, zero, suc, ◌+◌, ◌*◌, ◌/◌, ◌%◌, ◌^◌, ◌<◌}
use native.Mathlib.Omega.{arith}
use native.Mathlib.Nat.{pow-suc}
use wdlp.Base.Tests.{◌==◌}
use wdlp.Base.Lists.{length, length-append, All, take, drop, take-append, take-append-drop}

abbrev pub Bytes : Type 0
Bytes = List ℕ

-- The bytes of an ASCII literal.
abbrev pub codes : String → Bytes
codes String.[] = []
codes (String.◌∷◌ c s) = code c ∷ codes s

abbrev pub IsByte : ℕ → Type 0
IsByte b = b < 256

-- `==` on strings and slices
unfoldable pub bytes_eq : Bytes → Bytes → Bool
bytes_eq [] [] = true
bytes_eq (x ∷ xs) (y ∷ ys) = x == y && bytes_eq xs ys
bytes_eq _ _ = false

pub bytes_eq_sound : (xs ys : Bytes) → bytes_eq xs ys ≡ true → xs ≡ ys
unfolding bytes_eq
bytes_eq_sound [] [] h = refl
bytes_eq_sound [] (y ∷ ys) h = cc
bytes_eq_sound (x ∷ xs) [] h = cc
bytes_eq_sound (x ∷ xs) (y ∷ ys) h = ground (arith, bytes_eq_sound xs ys)

pub bytes_eq_refl : (xs : Bytes) → bytes_eq xs xs ≡ true
unfolding bytes_eq
bytes_eq_refl [] = refl
bytes_eq_refl (x ∷ xs) = ground (arith, bytes_eq_refl xs)

pub bytes_eq_iff : (xs ys : Bytes) → (bytes_eq xs ys ≡ true) ↔ (xs ≡ ys)
bytes_eq_iff xs ys = (bytes_eq_sound xs ys, λ e. ground (arith, bytes_eq_refl xs, e))

-- `to_le_bytes` of an integer of `k` bytes, and `from_le_bytes`
unfoldable pub to_le_bytes : ℕ → ℕ → Bytes
to_le_bytes zero x = []
to_le_bytes (suc k) x = (x % 256) ∷ to_le_bytes k (x / 256)

unfoldable pub from_le_bytes : Bytes → ℕ
from_le_bytes [] = 0
from_le_bytes (b ∷ bs) = b + 256 * from_le_bytes bs

pub length-to_le_bytes : (k x : ℕ) → length (to_le_bytes k x) ≡ k
unfolding to_le_bytes
length-to_le_bytes zero x = refl
length-to_le_bytes (suc k) x = ap suc (length-to_le_bytes k (x / 256))

pub from_le_bytes-to_le_bytes : (k x : ℕ) → x < 256 ^ k → from_le_bytes (to_le_bytes k x) ≡ x
unfolding from_le_bytes to_le_bytes
from_le_bytes-to_le_bytes zero x h = omega arith
from_le_bytes-to_le_bytes (suc k) x h =
    omega
      (arith, from_le_bytes-to_le_bytes k (x / 256) (omega (arith, pow-suc 256 k)), pow-suc 256 k)

pub to_le_bytes-from_le_bytes :
    (bs : Bytes) → All IsByte bs → to_le_bytes (length bs) (from_le_bytes bs) ≡ bs
unfolding from_le_bytes to_le_bytes
to_le_bytes-from_le_bytes [] h = refl
to_le_bytes-from_le_bytes (b ∷ bs) (h, hs) =
    let low : (b + 256 * from_le_bytes bs) % 256 ≡ b = omega arith in
    let high : (b + 256 * from_le_bytes bs) / 256 ≡ from_le_bytes bs = omega arith in
    rw (low, high, to_le_bytes-from_le_bytes bs hs)

pub from_le_bytes-lt : (bs : Bytes) → All IsByte bs → from_le_bytes bs < 256 ^ length bs
unfolding from_le_bytes
from_le_bytes-lt [] h = omega arith
from_le_bytes-lt (b ∷ bs) (h, hs) = omega (arith, from_le_bytes-lt bs hs, pow-suc 256 (length bs))

pub to_le_bytes-All : (k x : ℕ) → All IsByte (to_le_bytes k x)
unfolding to_le_bytes
to_le_bytes-All zero x = tt
to_le_bytes-All (suc k) x = (omega arith, to_le_bytes-All k (x / 256))

-- `to_be_bytes` and `from_be_bytes`
unfoldable pub to_be_bytes : ℕ → ℕ → Bytes
unfolding to_le_bytes
to_be_bytes k x = reverse (to_le_bytes k x)

unfoldable pub from_be_bytes : Bytes → ℕ
unfolding from_le_bytes
from_be_bytes bs = from_le_bytes (reverse bs)

pub length-reverse : (xs : Bytes) → length (reverse xs) ≡ length xs
length-reverse [] = refl
length-reverse (x ∷ xs) =
    length (reverse (x ∷ xs))
    ≡⟨ ap length (reverse-append (x ∷ []) xs) ⟩ length (reverse xs ++ x ∷ [])
    ≡⟨ omega (arith, length-append (reverse xs) (x ∷ []), length-reverse xs) ⟩ length (x ∷ xs) ∎

pub length-to_be_bytes : (k x : ℕ) → length (to_be_bytes k x) ≡ k
length-to_be_bytes k x =
    unfold to_be_bytes in length-reverse (to_le_bytes k x) ∙ length-to_le_bytes k x

pub from_be_bytes-to_be_bytes : (k x : ℕ) → x < 256 ^ k → from_be_bytes (to_be_bytes k x) ≡ x
from_be_bytes-to_be_bytes k x h =
    unfold from_be_bytes to_be_bytes in
    ap from_le_bytes (reverse-reverse (to_le_bytes k x)) ∙ from_le_bytes-to_le_bytes k x h

pub length-to_be_bytes_as :
    {k : ℕ} (bs : Bytes) (x : ℕ) → length bs ≡ k → length (to_be_bytes k x) ≡ length bs
length-to_be_bytes_as {k} bs x h = length-to_be_bytes k x ∙ sym h

-- `slice.starts_with(prefix)`
unfoldable pub starts_with : Bytes → Bytes → Bool
starts_with prefix bs = bytes_eq prefix (take (length prefix) bs)

pub starts_with-append : (prefix rest : Bytes) → starts_with prefix (prefix ++ rest) ≡ true
unfolding starts_with
starts_with-append prefix rest = rw (take-append, bytes_eq_refl)

pub starts_with_sound :
    (prefix bs : Bytes) → starts_with prefix bs ≡ true → bs ≡ prefix ++ drop (length prefix) bs
unfolding starts_with
starts_with_sound prefix bs h =
    let e = bytes_eq_sound prefix (take (length prefix) bs) h in
    sym (ap (λ t. t ++ drop (length prefix) bs) e ∙ take-append-drop (length prefix) bs)
