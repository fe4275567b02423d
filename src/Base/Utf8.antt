-- ===== src/Base/Utf8.antt =====
-- `str::from_utf8`: which byte strings are UTF-8. A lead byte fixes the ranges of the bytes that
-- must follow it (the Unicode standard's table of well-formed sequences).
use wdlp.Base.Tests.{leb, ltb, if◌then◌else◌}
use wdlp.Base.Lists.{all}
use wdlp.Base.Bytes.{Bytes}
use Prim.Native.Nat.{ℕ}
use mathlib.Core.Path.{◌≡◌, refl}
use mathlib.Core.Bool.{Bool, true, false, ◌&&◌}
use mathlib.Core.Option.{Option, none, some}
use mathlib.Core.List.{List, [], ◌∷◌}
use native.Mathlib.Omega.{arith}

abbrev pub between : ℕ → ℕ → ℕ → Bool
between lo hi b = leb lo b && leb b hi

abbrev tail_byte : ℕ × ℕ
tail_byte = (0x80, 0xbf)

following : ℕ → Option (List (ℕ × ℕ))
following b =
    if ltb b 0x80
    then some []
    else if between 0xc2 0xdf b
    then some (tail_byte ∷ [])
    else if between 0xe0 0xe0 b
    then some ((0xa0, 0xbf) ∷ tail_byte ∷ [])
    else if between 0xed 0xed b
    then some ((0x80, 0x9f) ∷ tail_byte ∷ [])
    else if between 0xe1 0xef b
    then some (tail_byte ∷ tail_byte ∷ [])
    else if between 0xf0 0xf0 b
    then some ((0x90, 0xbf) ∷ tail_byte ∷ tail_byte ∷ [])
    else if between 0xf1 0xf3 b
    then some (tail_byte ∷ tail_byte ∷ tail_byte ∷ [])
    else if between 0xf4 0xf4 b
    then some ((0x80, 0x8f) ∷ tail_byte ∷ tail_byte ∷ [])
    else none

utf8_after : List (ℕ × ℕ) → Bytes → Bool
utf8_after [] [] = true
utf8_after (_ ∷ _) [] = false
utf8_after ((lo, hi) ∷ pending) (b ∷ bs) = between lo hi b && utf8_after pending bs
utf8_after [] (b ∷ bs) = elim (following b) [ none ↦ false | some pending ↦ utf8_after pending bs ]

unfoldable pub utf8_valid : Bytes → Bool
unfolding utf8_after following
utf8_valid bs = utf8_after [] bs

abbrev pub is_ascii : ℕ → Bool
is_ascii b = ltb b 0x80

pub utf8_valid_of_ascii : (bs : Bytes) → all is_ascii bs ≡ true → utf8_valid bs ≡ true
unfolding utf8_valid
utf8_valid_of_ascii [] h = refl
utf8_valid_of_ascii (b ∷ bs) h = ground (arith, utf8_valid_of_ascii bs)

-- "é" in two bytes is accepted, an overlong "/" and a cut sequence are not
utf8_tests :
    (utf8_valid (0xc3 ∷ 0xa9 ∷ []) ≡ true)
    × (utf8_valid (0xc0 ∷ 0xaf ∷ []) ≡ false)
    × (utf8_valid (0xe2 ∷ 0x82 ∷ []) ≡ false)
unfolding utf8_valid
utf8_tests = (refl, refl, refl)
