-- ===== src/Drive/Wildmatch.antt =====
-- crates/dlp-windows-drive/src/wildmatch.rs: `matches`, which tells whether a name matches a pattern.
-- Texts are lists of characters by their code points. `char::to_lowercase` is the parameter `lower`.
pub mod Meaning
pub mod Characters
pub mod Turns
pub mod Search
use wdlp.Base.{
  ℕ, zero, suc, ◌+◌, ◌*◌, Bool, true, false, ◌&&◌, ◌||◌, List, [], ◌∷◌, ◌++◌, length, drop,
  get_elem?, ltb, ◌==◌, if◌then◌else◌, Option, none, some,
}

-- The variables of the loop.
pub record Scan : Type 0 where
  pub pattern_index : ℕ
  pub name_index : ℕ
  pub star_index : Option ℕ
  pub match_index : ℕ

-- A round of the loop returns, or moves the variables.
pub data Turn : Type 0 where
  answer : Bool → Turn
  proceed : Scan → Turn

-- `pattern_index < pattern.len() && (pattern[pattern_index] == name[name_index] || .. == '?')`
abbrev pub accepts : Option ℕ → ℕ → Bool
accepts none x = false
accepts (some c) x = c == x || c == b'?'

abbrev pub is_star : Option ℕ → Bool
is_star none = false
is_star (some c) = c == b'*'

-- The second loop: where it stops.
unfoldable pub skip_stars : List ℕ → ℕ → ℕ
skip_stars [] i = i
skip_stars (c ∷ rest) i = if c == b'*' then skip_stars rest (suc i) else i

-- What follows the first loop.
unfoldable pub at_end : List ℕ → ℕ → Bool
unfolding skip_stars
at_end pattern i = skip_stars (drop i pattern) i == length pattern

-- The branch that goes back to the last star.
abbrev pub go_back : Option ℕ → ℕ → Turn
go_back none match_index = answer false
go_back (some star) match_index = proceed (record {
  pattern_index = suc star;
  name_index = suc match_index;
  star_index = some star;
  match_index = suc match_index;
})

-- A round, at the pattern's character (if any is left) and the name's (if any is left).
abbrev pub turn_at : List ℕ → Option ℕ → Option ℕ → Scan → Turn
turn_at pattern c none s = answer (at_end pattern s.pattern_index)
turn_at pattern c (some x) s =
    if accepts c x
    then proceed (record s { pattern_index = suc s.pattern_index; name_index = suc s.name_index })
    else if is_star c
    then proceed (record s {
      pattern_index = suc s.pattern_index;
      star_index = some s.pattern_index;
      match_index = s.name_index;
    })
    else go_back s.star_index s.match_index

unfoldable pub turn : List ℕ → List ℕ → Scan → Turn
unfolding at_end
turn pattern name s =
    turn_at pattern (get_elem? pattern s.pattern_index) (get_elem? name s.name_index) s

abbrev pub after : (Scan → Option Bool) → Turn → Option Bool
after loop (answer b) = some b
after loop (proceed s) = loop s

-- The loop with fuel: `none` where the fuel runs out.
unfoldable pub run : ℕ → List ℕ → List ℕ → Scan → Option Bool
unfolding turn
run zero pattern name s = none
run (suc fuel) pattern name s = after (run fuel pattern name) (turn pattern name s)

abbrev pub start : Scan
start = record { pattern_index = 0; name_index = 0; star_index = none; match_index = 0 }

-- `matches` on texts that are in lower case.
unfoldable pub matches_lowered : List ℕ → List ℕ → Option Bool
unfolding run
matches_lowered pattern name = run ((length name + 1) * (length pattern + 1)) pattern name start

-- `chars().flat_map(|c| c.to_lowercase())`
unfoldable pub lowered : (ℕ → List ℕ) → List ℕ → List ℕ
lowered lower [] = []
lowered lower (c ∷ text) = lower c ++ lowered lower text

unfoldable pub matches : (ℕ → List ℕ) → List ℕ → List ℕ → Option Bool
unfolding matches_lowered lowered
matches lower pattern name = matches_lowered (lowered lower pattern) (lowered lower name)
