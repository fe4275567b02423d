-- ===== src/Drive/Wildmatch/Search.antt =====
-- The loop of `matches` ends within its fuel, and answers whether the name matches.
use wdlp.Base.{
  ℕ, zero, suc, ◌+◌, ◌-◌, ◌*◌, ◌<◌, ◌≡◌, ◌≢◌, ◌↔◌, refl, Bool, true, false, List, [], ◌∷◌, length,
  All, All-append, Option, none, some, arith,
}
use wdlp.Drive.Wildmatch.Meaning.{Matches, Starred-leave}
use wdlp.Drive.Wildmatch.{
  Scan, Turn, answer, proceed, turn, after, run, start, matches_lowered, lowered, matches,
}
use wdlp.Drive.Wildmatch.Turns.{Answer, Inv, measure, Sound, turn-Sound}

fuel : (n p : ℕ) → (n - 0) * (p + 1) + (p - 0) < (n + 1) * (p + 1)
fuel n p = grind arith

module _ (pattern name : List ℕ) where
  abbrev Decides : Option Bool → Type 0
  Decides none = ⊥
  Decides (some true) = Answer pattern name
  Decides (some false) = ¬ Answer pattern name

  Decides-cases :
      (o : Option Bool) → Decides o → (b : Bool) × (o ≡ some b) × ((b ≡ true) ↔ Answer pattern name)
  Decides-cases (some true) d = (true, refl, ((λ _. d), λ _. refl))
  Decides-cases (some false) d = (false, refl, ((λ e. cc e), λ k. absurd (d k)))
  Decides-cases none d = elim d [ ]

  module _ (plain : All (λ x. x ≢ b'*') name) where
    after-Decides :
        (fuel : ℕ) (s : Scan) (t : Turn)
        → measure pattern name s < suc fuel
        → ((s' : Scan)
            → Inv pattern name s'
            → measure pattern name s' < fuel
            → Decides (run fuel pattern name s'))
        → Sound pattern name s t
        → Decides (after (run fuel pattern name) t)
    after-Decides fuel s (answer true) h next sound = sound
    after-Decides fuel s (answer false) h next sound = sound
    after-Decides fuel s (proceed s') h next (i, less) = next s' i (omega arith)

    run-Decides :
        (fuel : ℕ) (s : Scan)
        → Inv pattern name s
        → measure pattern name s < fuel
        → Decides (run fuel pattern name s)
    unfolding run
    run-Decides zero s i h = absurd (omega arith)
    run-Decides (suc fuel) s i h =
        after-Decides fuel s (turn pattern name s) h (run-Decides fuel)
          (turn-Sound pattern name plain s i)

    start-Inv : Inv pattern name start
    start-Inv = record {
      now = λ d. d;
      later = Starred-leave;
      saved = λ d. d;
      behind = omega arith;
      name_bound = omega arith;
      pattern_bound = omega arith;
    }

    matches_lowered-Decides : Decides (matches_lowered pattern name)
    unfolding matches_lowered
    matches_lowered-Decides = run-Decides _ start start-Inv (fuel (length name) (length pattern))

module _ (lower : ℕ → List ℕ) where
  -- Every star of a text in lower case was one before.
  lowered-plain :
      (name : List ℕ)
      → ((x : ℕ) → x ≢ b'*' → All (λ y. y ≢ b'*') (lower x))
      → All (λ x. x ≢ b'*') name
      → All (λ x. x ≢ b'*') (lowered lower name)
  unfolding lowered
  lowered-plain [] keeps plain = tt
  lowered-plain (x ∷ name) keeps (h, plain) =
      All-append (λ y. y ≢ b'*') (lower x) (lowered lower name) (keeps x h)
        (lowered-plain name keeps plain)

  -- The search ends within its fuel, for every pattern and every name without a star (no name of a
  -- file has one), and answers true exactly when the name matches the pattern, both in lower case;
  -- where lower case makes no star of another character.
  pub matches_iff :
      (pattern name : List ℕ)
      → ((x : ℕ) → x ≢ b'*' → All (λ y. y ≢ b'*') (lower x))
      → All (λ x. x ≢ b'*') name
      → (b : Bool) × (matches lower pattern name ≡ some b)
        × ((b ≡ true) ↔ Matches (lowered lower pattern) (lowered lower name))
  unfolding matches
  matches_iff pattern name keeps plain =
      Decides-cases (lowered lower pattern) (lowered lower name)
        (matches_lowered (lowered lower pattern) (lowered lower name))
        (matches_lowered-Decides (lowered lower pattern) (lowered lower name)
          (lowered-plain name keeps plain))
