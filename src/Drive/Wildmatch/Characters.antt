-- ===== src/Drive/Wildmatch/Characters.antt =====
-- How `matches` reads a character of the pattern, and what is left of it at the end of the name.
use wdlp.Base.{
  ℕ, zero, suc, ◌+◌, ◌≤◌, ◌≡◌, ◌≢◌, ◌↔◌, inl, inr, sym, ◌∙◌, true, List, [], ◌∷◌, length, drop,
  ◌==◌, some, Bool-cases, arith,
}
use wdlp.Drive.Wildmatch.Meaning.{OneChar, Matches, nothing, leave_star}
use wdlp.Drive.Wildmatch.{accepts, skip_stars, at_end}

skip_stars→Matches : (p : List ℕ) (i : ℕ) → skip_stars p i ≡ i + length p → Matches p []
unfolding skip_stars
skip_stars→Matches [] i h = nothing
skip_stars→Matches (c ∷ p) i h = elim (Bool-cases (c == b'*')) [
  | inl star ↦ leave_star (ground arith) (skip_stars→Matches p (suc i) (ground arith))
  | inr other ↦ absurd (ground arith)
]

Matches→skip_stars : {p : List ℕ} (i : ℕ) → Matches p [] → skip_stars p i ≡ i + length p
unfolding skip_stars
Matches→skip_stars i nothing = omega arith
Matches→skip_stars {p = c ∷ p} i (leave_star e d) = ground (arith, Matches→skip_stars (suc i) d)

length-drop : (p : List ℕ) (i : ℕ) → i ≤ length p → i + length (drop i p) ≡ length p
length-drop p zero h = omega arith
length-drop [] (suc i) h = absurd (omega arith)
length-drop (c ∷ p) (suc i) h = omega (arith, length-drop p i)

-- The answer after the loop: nothing but stars is left of the pattern.
pub at_end_iff :
    (pattern : List ℕ) (i : ℕ)
    → i ≤ length pattern
    → (at_end pattern i ≡ true) ↔ Matches (drop i pattern) []
unfolding at_end
at_end_iff pattern i h = (
  λ e. skip_stars→Matches (drop i pattern) i (ground (arith, length-drop pattern i)),
  λ d. ground (arith, length-drop pattern i, Matches→skip_stars {p = drop i pattern} i d),
)

pub accepts→OneChar : {c x : ℕ} → x ≢ b'*' → accepts (some c) x ≡ true → OneChar c x
accepts→OneChar {c} {x} plain h = elim (Bool-cases (c == b'?')) [
  | inl any ↦ inl (ground arith)
  | inr other ↦ let same : c ≡ x = ground arith in inr ((λ star. plain (sym same ∙ star)), same)
]

pub OneChar→accepts : {c x : ℕ} → OneChar c x → accepts (some c) x ≡ true
OneChar→accepts (inl any) = ground arith
OneChar→accepts (inr (_, same)) = ground arith

pub OneChar-not_star : {c x : ℕ} → OneChar c x → c ≢ b'*'
OneChar-not_star (inl any) = λ star. absurd (omega arith)
OneChar-not_star (inr (other, _)) = other

pub no_text : {x : ℕ} {n : List ℕ} → ¬ Matches [] (x ∷ n)
no_text d = elim d [ ]
