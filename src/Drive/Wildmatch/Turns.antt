-- ===== src/Drive/Wildmatch/Turns.antt =====
-- A round of the loop of `matches`: what it keeps, and that it comes nearer to the end.
use wdlp.Base.{
  ℕ, suc, ◌+◌, ◌-◌, ◌*◌, ◌≤◌, ◌<◌, ◌≡◌, ◌≢◌, ◌↔◌, inl, inr, refl, sym, subst, Bool, true, false,
  List, [], ◌∷◌, length, drop, get_elem?, drop_at, drop_past, drop_below, All, All-get_elem?, ◌==◌,
  Option, none, some, Bool-cases, Option-cases, arith,
}
use wdlp.Drive.Wildmatch.Meaning.{
  OneChar, Matches, one, under_star, Starred, one_inverse, Starred-leave, Starred-end,
  Starred-Starred, Starred-must_take, Starred-drop_one,
}
use wdlp.Drive.Wildmatch.{
  Scan, Turn, answer, proceed, accepts, is_star, at_end, go_back, turn_at, turn,
}
use wdlp.Drive.Wildmatch.Characters.{
  at_end_iff, accepts→OneChar, OneChar→accepts, OneChar-not_star, no_text,
}

paid : (a b k p q : ℕ) → suc a ≡ b → p ≤ k → a * (k + 1) + p < b * (k + 1) + q
paid a b k p q e h = rw (sym e) (grind arith)

cheaper : (a b k p q : ℕ) → a ≤ b → p < q → a * k + p < b * k + q
cheaper a b k p q e h = grind arith

-- A reading of the pattern and of the name, and the answer to the question asked at the start.
module _ (pattern name : List ℕ) where
  abbrev pub Answer : Type 0
  Answer = Matches pattern name

  abbrev pub Saved : Option ℕ → ℕ → List ℕ → List ℕ → Type 0
  Saved none m p n = Answer → Matches p n
  Saved (some star) m p n =
      (Answer ↔ Starred (drop (suc star) pattern) (drop m name))
      × (Matches (drop (suc star) pattern) (drop m name) → Matches p n)
      × (star < length pattern)

  pub record Inv (s : Scan) : Type 0 where
    pub now : Matches (drop s.pattern_index pattern) (drop s.name_index name) → Answer
    pub later : Answer → Starred (drop s.pattern_index pattern) (drop s.name_index name)
    pub saved :
        Saved s.star_index s.match_index (drop s.pattern_index pattern) (drop s.name_index name)
    pub behind : s.match_index ≤ s.name_index
    pub name_bound : s.name_index ≤ length name
    pub pattern_bound : s.pattern_index ≤ length pattern

  abbrev pub measure : Scan → ℕ
  measure s =
      (length name - s.match_index) * (length pattern + 1) + (length pattern - s.pattern_index)

  abbrev pub Sound : Scan → Turn → Type 0
  Sound s (answer true) = Answer
  Sound s (answer false) = ¬ Answer
  Sound s (proceed s') = Inv s' × (measure s' < measure s)

  answer-Sound : (s : Scan) (b : Bool) → ((b ≡ true) ↔ Answer) → Sound s (answer b)
  answer-Sound s true e = e.0 refl
  answer-Sound s false e = λ d. cc (e.1 d)

  Saved-one :
      (o : Option ℕ) (m : ℕ) {c x : ℕ} {p p' n n' : List ℕ}
      → c ≢ b'*'
      → p ≡ c ∷ p'
      → n ≡ x ∷ n'
      → Saved o m p n
      → Saved o m p' n'
  Saved-one none m other ep en saved = λ d. (one_inverse other (rw (ep, en) at (saved d))).1
  Saved-one (some star) m other ep en (question, down, in_pattern) =
      (question, λ d. (one_inverse other (rw (ep, en) at (down d))).1, in_pattern)

  module _ (s : Scan) (i : Inv s) where
    -- The name is at its end.
    ending : drop s.name_index name ≡ [] → Sound s (answer (at_end pattern s.pattern_index))
    ending e =
        let (sound, complete) = at_end_iff pattern s.pattern_index i.pattern_bound in
        answer-Sound s (at_end pattern s.pattern_index)
          (λ h. i.now (rw e (sound h)), λ d. complete (Starred-end (rw e at (i.later d))))

    -- The last star takes one more character.
    returning :
        (saved_star : Option ℕ)
        → Saved saved_star s.match_index (drop s.pattern_index pattern) (drop s.name_index name)
        → s.match_index < length name
        → ¬ Matches (drop s.pattern_index pattern) (drop s.name_index name)
        → Sound s (go_back saved_star s.match_index)
    returning none saved lt mismatch = λ d. mismatch (saved d)
    returning (some star) (question, down, in_pattern) lt mismatch =
        let (y, e) = drop_below name s.match_index lt in
        let onward : Answer → Starred (drop (suc star) pattern) (drop (suc s.match_index) name) =
          λ d. Starred-must_take (rw e at (question.0 d)) (λ k. mismatch (down (rw e k))) in
        let back : Starred (drop (suc star) pattern) (drop (suc s.match_index) name) → Answer =
          λ d. question.1 (rw e (under_star refl d)) in
        (
          record {
            now = λ d. back (Starred-leave d);
            later = onward;
            saved = ((onward, back), λ d. d, in_pattern);
            behind = omega arith;
            name_bound = omega arith;
            pattern_bound = omega arith;
          },
          paid (length name - suc s.match_index) (length name - s.match_index) (length pattern)
              (length pattern - suc star) (length pattern - s.pattern_index) (omega arith)
              (omega arith),
        )

    -- A character of the pattern and one of the name are read.
    reading :
        {c x : ℕ}
        → drop s.pattern_index pattern ≡ c ∷ drop (suc s.pattern_index) pattern
        → drop s.name_index name ≡ x ∷ drop (suc s.name_index) name
        → s.pattern_index < length pattern
        → s.name_index < length name
        → OneChar c x
        → Sound s (
            proceed
              (record s { pattern_index = suc s.pattern_index; name_index = suc s.name_index }))
    reading ep en pl nl h =
        let other = OneChar-not_star h in
        (
          record {
            now = λ d. i.now (rw (ep, en) (one h d));
            later = λ d. Starred-drop_one other (rw (ep, en) at (i.later d));
            saved = Saved-one s.star_index s.match_index other ep en i.saved;
            behind = omega (arith, i.behind);
            name_bound = nl;
            pattern_bound = pl;
          },
          omega arith,
        )

    -- A star of the pattern becomes the last star.
    starring :
        {c : ℕ}
        → drop s.pattern_index pattern ≡ c ∷ drop (suc s.pattern_index) pattern
        → s.pattern_index < length pattern
        → c ≡ b'*'
        → Sound s (
            proceed (record s {
              pattern_index = suc s.pattern_index;
              star_index = some s.pattern_index;
              match_index = s.name_index;
            }))
    starring {c} ep pl star =
        let rest = drop (suc s.pattern_index) pattern in
        let here = drop s.name_index name in
        let into : Answer → Starred rest here = λ d.
          subst (λ k. Matches (k ∷ rest) here) star (Starred-Starred star (rw ep at (i.later d))) in
        let back : Starred rest here → Answer =
          λ d. i.now (rw ep (subst (λ k. Matches (k ∷ rest) here) (sym star) d)) in
        (
          record {
            now = λ d. back (Starred-leave d);
            later = into;
            saved = ((into, back), λ d. d, pl);
            behind = omega arith;
            name_bound = i.name_bound;
            pattern_bound = pl;
          },
          cheaper (length name - s.name_index) (length name - s.match_index) (length pattern + 1)
              (length pattern - suc s.pattern_index) (length pattern - s.pattern_index)
              (omega (arith, i.behind)) (omega arith),
        )

    -- No character of the pattern, or one that is no star and does not accept the name's.
    mismatch_at :
        (o : Option ℕ) {x : ℕ} {n : List ℕ}
        → get_elem? pattern s.pattern_index ≡ o
        → drop s.name_index name ≡ x ∷ n
        → accepts o x ≡ false
        → is_star o ≡ false
        → ¬ Matches (drop s.pattern_index pattern) (drop s.name_index name)
    mismatch_at none e en a t = λ d. no_text (rw ((drop_past pattern s.pattern_index e).0, en) at d)
    mismatch_at (some c) {x} e en a t = λ d.
        let (h, _) =
          one_inverse (ground arith) (rw ((drop_at pattern s.pattern_index e).0, en) at d) in
        cc (a, OneChar→accepts h)

    on_pattern :
        {x : ℕ} (o : Option ℕ)
        → drop s.name_index name ≡ x ∷ drop (suc s.name_index) name
        → s.name_index < length name
        → x ≢ b'*'
        → get_elem? pattern s.pattern_index ≡ o
        → Sound s (turn_at pattern o (some x) s)
    on_pattern none en nl plain e =
        returning s.star_index i.saved (omega (arith, i.behind)) (mismatch_at none e en refl refl)
    on_pattern {x} (some c) en nl plain e = elim (Bool-cases (accepts (some c) x)) [
      | inl yes_one ↦
          let (ep, pl) = drop_at pattern s.pattern_index e in
          rw yes_one (reading ep en pl nl (accepts→OneChar plain yes_one))
      | inr not_one ↦ elim (Bool-cases (c == b'*')) [
        | inl star ↦
            let (ep, pl) = drop_at pattern s.pattern_index e in
            rw (not_one, star) (starring ep pl (ground arith))
        | inr other ↦
            rw (not_one, other)
              (returning s.star_index i.saved (omega (arith, i.behind))
                (mismatch_at (some c) e en not_one other))
      ]
    ]

  pub turn-Sound : All (λ x. x ≢ b'*') name → (s : Scan) → Inv s → Sound s (turn pattern name s)
  unfolding turn
  turn-Sound plain s i = elim (Option-cases (get_elem? name s.name_index)) [
    | inl past ↦ rw past (ending s i (drop_past name s.name_index past).0)
    | inr (x, found) ↦ rw found (
        let (en, nl) = drop_at name s.name_index found in
        let plain_x = All-get_elem? (λ x. x ≢ b'*') name s.name_index plain found in
        on_pattern s i (get_elem? pattern s.pattern_index) en nl plain_x refl)
  ]
