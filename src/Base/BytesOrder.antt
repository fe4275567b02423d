-- ===== src/Base/BytesOrder.antt =====
-- `Ord` of strings: byte by byte, a prefix first.
use wdlp.Base.Tests.{ltb, ◌==◌}
use wdlp.Base.Bytes.{Bytes}
use mathlib.Core.Path.{◌≡◌, refl}
use mathlib.Core.Bool.{Bool, true, false, ◌&&◌, ◌||◌}
use mathlib.Core.List.{[], ◌∷◌}
use native.Mathlib.Omega.{arith}

unfoldable pub before : Bytes → Bytes → Bool
before [] [] = false
before [] (y ∷ ys) = true
before (x ∷ xs) [] = false
before (x ∷ xs) (y ∷ ys) = ltb x y || (x == y && before xs ys)

pub before_irrefl : (a : Bytes) → before a a ≡ false
unfolding before
before_irrefl [] = refl
before_irrefl (x ∷ xs) = ground (arith, before_irrefl xs)

pub before_trans : (a b c : Bytes) → before a b ≡ true → before b c ≡ true → before a c ≡ true
unfolding before
before_trans [] [] c h k = cc
before_trans [] (y ∷ b) [] h k = cc
before_trans [] (y ∷ b) (z ∷ c) h k = refl
before_trans (x ∷ a) [] c h k = cc
before_trans (x ∷ a) (y ∷ b) [] h k = cc
before_trans (x ∷ a) (y ∷ b) (z ∷ c) h k = ground (arith, before_trans a b c)

pub before-total : (a b : Bytes) → before a b ≡ false → before b a ≡ false → a ≡ b
unfolding before
before-total [] [] h k = refl
before-total [] (y ∷ b) h k = cc
before-total (x ∷ a) [] h k = cc
before-total (x ∷ a) (y ∷ b) h k = ground (arith, before-total a b)

pub before-neg_trans :
    (a b c : Bytes) → before a b ≡ false → before b c ≡ false → before a c ≡ false
unfolding before
before-neg_trans [] [] [] h k = refl
before-neg_trans [] [] (z ∷ c) h k = cc
before-neg_trans [] (y ∷ b) c h k = cc
before-neg_trans (x ∷ a) [] [] h k = refl
before-neg_trans (x ∷ a) [] (z ∷ c) h k = cc
before-neg_trans (x ∷ a) (y ∷ b) [] h k = refl
before-neg_trans (x ∷ a) (y ∷ b) (z ∷ c) h k = ground (arith, before-neg_trans a b c)

pub before-asym : (a b : Bytes) → before a b ≡ true → before b a ≡ false
unfolding before
before-asym [] [] h = refl
before-asym [] (y ∷ b) h = refl
before-asym (x ∷ a) [] h = cc
before-asym (x ∷ a) (y ∷ b) h = ground (arith, before-asym a b)
