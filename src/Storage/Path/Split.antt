-- ===== src/Storage/Path/Split.antt =====
-- Splitting a byte string at separators and joining its pieces.
use wdlp.Base.{
  ℕ, suc, All-append, ◌+◌, ◌≡◌, ◌≢◌, ◌≤◌, refl, ap, ◌∙◌, Bool, true, false, List, [], ◌∷◌, ◌++◌,
  length, length-append, All, arith, Bool-cases, inl, inr, is_empty,
}
use wdlp.Base.Bytes.{Bytes}
use wdlp.Storage.Path.{split, cons_piece, join, drop_empty}

-- No byte of the piece is a separator.
abbrev pub Clean : (ℕ → Bool) → Bytes → Type 0
Clean sep piece = All (λ b. sep b ≡ false) piece

cons_piece-Clean :
    (sep : ℕ → Bool) (b : ℕ) (pieces : List Bytes)
    → sep b ≡ false
    → All (Clean sep) pieces
    → All (Clean sep) (cons_piece b pieces)
cons_piece-Clean sep b [] h k = ((h, tt), tt)
cons_piece-Clean sep b (piece ∷ pieces) h (c, cs) = ((h, c), cs)

pub split-Clean : (sep : ℕ → Bool) (bs : Bytes) → All (Clean sep) (split sep bs)
unfolding split
split-Clean sep [] = (tt, tt)
split-Clean sep (b ∷ bs) = elim (Bool-cases (sep b)) [
  | inl cut ↦ rw cut (tt, split-Clean sep bs)
  | inr kept ↦ rw kept (cons_piece-Clean sep b (split sep bs) kept (split-Clean sep bs))
]

split_of_Clean : (sep : ℕ → Bool) (piece : Bytes) → Clean sep piece → split sep piece ≡ piece ∷ []
unfolding split
split_of_Clean sep [] h = refl
split_of_Clean sep (b ∷ piece) (h, hs) = rw (h, split_of_Clean sep piece hs)

split_first :
    (sep : ℕ → Bool) (s : ℕ) (piece rest : Bytes)
    → sep s ≡ true
    → Clean sep piece
    → split sep (piece ++ s ∷ rest) ≡ piece ∷ split sep rest
unfolding split
split_first sep s [] rest cut h = rw cut
split_first sep s (b ∷ piece) rest cut (h, hs) = rw (h, split_first sep s piece rest cut hs)

-- Pieces that hold no separator are found again in the joined string.
pub split-join :
    (sep : ℕ → Bool) (s : ℕ) (pieces : List Bytes)
    → sep s ≡ true
    → pieces ≢ []
    → All (Clean sep) pieces
    → split sep (join (s ∷ []) pieces) ≡ pieces
unfolding join
split-join sep s [] cut some_piece h = absurd (some_piece refl)
split-join sep s (piece ∷ []) cut some_piece (h, _) = split_of_Clean sep piece h
split-join sep s (piece ∷ next ∷ pieces) cut some_piece (h, hs) =
    split_first sep s piece (join (s ∷ []) (next ∷ pieces)) cut h
    ∙ ap (λ r. piece ∷ r) (split-join sep s (next ∷ pieces) cut (λ e. cc) hs)

module _ (P : Bytes → Type 0) where
  pub drop_empty-All : (pieces : List Bytes) → All P pieces → All P (drop_empty pieces)
  unfolding drop_empty
  drop_empty-All [] h = tt
  drop_empty-All ([] ∷ pieces) (h, hs) = drop_empty-All pieces hs
  drop_empty-All ((b ∷ bs) ∷ pieces) (h, hs) = (h, drop_empty-All pieces hs)

abbrev pub IsFilled : Bytes → Type 0
IsFilled piece = is_empty piece ≡ false

pub drop_empty-IsFilled : (pieces : List Bytes) → All IsFilled (drop_empty pieces)
unfolding drop_empty
drop_empty-IsFilled [] = tt
drop_empty-IsFilled ([] ∷ pieces) = drop_empty-IsFilled pieces
drop_empty-IsFilled ((b ∷ bs) ∷ pieces) = (refl, drop_empty-IsFilled pieces)

pub drop_empty_of_filled : (pieces : List Bytes) → All IsFilled pieces → drop_empty pieces ≡ pieces
unfolding drop_empty
drop_empty_of_filled [] h = refl
drop_empty_of_filled ([] ∷ pieces) (h, hs) = cc
drop_empty_of_filled ((b ∷ bs) ∷ pieces) (h, hs) = rw (drop_empty_of_filled pieces hs)

-- A property of bytes passes to the pieces, and from the pieces and the separator to the string.
module _ (Q : ℕ → Type 0) where
  cons_piece-All :
      (b : ℕ) (pieces : List Bytes) → Q b → All (All Q) pieces → All (All Q) (cons_piece b pieces)
  cons_piece-All b [] q h = ((q, tt), tt)
  cons_piece-All b (piece ∷ pieces) q (c, cs) = ((q, c), cs)

  pub split-All : (sep : ℕ → Bool) (bs : Bytes) → All Q bs → All (All Q) (split sep bs)
  unfolding split
  split-All sep [] h = (tt, tt)
  split-All sep (b ∷ bs) (q, h) = elim (Bool-cases (sep b)) [
    | inl cut ↦ rw cut (tt, split-All sep bs h)
    | inr kept ↦ rw kept (cons_piece-All b (split sep bs) q (split-All sep bs h))
  ]

  pub join-All :
      (s : ℕ) (pieces : List Bytes) → Q s → All (All Q) pieces → All Q (join (s ∷ []) pieces)
  unfolding join
  join-All s [] q h = tt
  join-All s (piece ∷ []) q (h, _) = h
  join-All s (piece ∷ next ∷ pieces) q (h, hs) =
      All-append Q piece (s ∷ join (s ∷ []) (next ∷ pieces)) h (q, join-All s (next ∷ pieces) q hs)

-- The bytes of the pieces, and one more for each piece.
pub weight : List Bytes → ℕ
weight [] = 0
weight (piece ∷ pieces) = suc (length piece) + weight pieces

weight-cons_piece :
    (b : ℕ) (pieces : List Bytes)
    → 1 ≤ weight pieces
    → weight (cons_piece b pieces) ≡ suc (weight pieces)
unfolding weight
weight-cons_piece b [] h = absurd (omega arith)
weight-cons_piece b (piece ∷ pieces) h = omega arith

weight-split : (sep : ℕ → Bool) (bs : Bytes) → weight (split sep bs) ≡ suc (length bs)
unfolding split weight
weight-split sep [] = omega arith
weight-split sep (b ∷ bs) = elim (Bool-cases (sep b)) [
  | inl cut ↦ rw cut (omega (arith, weight-split sep bs))
  | inr kept ↦ rw kept (
      omega (
        arith,
        weight-split sep bs,
        weight-cons_piece b (split sep bs) (omega (arith, weight-split sep bs)),
      ))
]

weight-drop_empty : (pieces : List Bytes) → weight (drop_empty pieces) ≤ weight pieces
unfolding drop_empty weight
weight-drop_empty [] = omega arith
weight-drop_empty ([] ∷ pieces) = omega (arith, weight-drop_empty pieces)
weight-drop_empty ((b ∷ bs) ∷ pieces) = omega (arith, weight-drop_empty pieces)

length-join :
    (s : ℕ) (pieces : List Bytes)
    → pieces ≢ []
    → suc (length (join (s ∷ []) pieces)) ≡ weight pieces
unfolding join weight
length-join s [] h = absurd (h refl)
length-join s (piece ∷ []) h = omega arith
length-join s (piece ∷ next ∷ pieces) h = omega (
  arith,
  length-append piece (s ∷ join (s ∷ []) (next ∷ pieces)),
  length-join s (next ∷ pieces) (λ e. cc),
)

-- Joining what was split, without the empty pieces, makes no longer string.
pub length-join-split :
    (sep : ℕ → Bool) (s : ℕ) (bs : Bytes)
    → drop_empty (split sep bs) ≢ []
    → length (join (s ∷ []) (drop_empty (split sep bs))) ≤ length bs
length-join-split sep s bs h = omega (
  arith,
  length-join s (drop_empty (split sep bs)) h,
  weight-drop_empty (split sep bs),
  weight-split sep bs,
)
