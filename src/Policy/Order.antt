-- ===== src/Policy/Order.antt =====
-- The decision does not depend on the order in which the rules are listed.
use mathlib.Core.List.{Perm, Permᴰ}
use mathlib.Core.Logic.{∥∥₁_elim}
use wdlp.Base.{◌≡◌, refl, sym, ◌∙◌, ap, true, List, [], ◌∷◌, arith, is_empty, Bool-cases, inl, inr}
use wdlp.Base.Bytes.{bytes_eq_sound}
use wdlp.Domain.{EnforcementAction, PolicyInput, PolicyDecision}
use wdlp.Policy.{PolicyRule, matches, candidates, place, sort, evaluate}
use wdlp.Policy.Best.{precedes-total, precedes_trans, precedes-neg_trans, precedes-asym}

matches-extension :
    (input : PolicyInput) (a b : PolicyRule)
    → matches input a ≡ true
    → matches input b ≡ true
    → a.extension ≡ b.extension
matches-extension input a b h k =
    bytes_eq_sound a.extension input.extension h
    ∙ sym (bytes_eq_sound b.extension input.extension k)

place_comm :
    (a b : PolicyRule) (l : List PolicyRule)
    → a.extension ≡ b.extension
    → place a (place b l) ≡ place b (place a l)
unfolding place
place_comm a b [] e = ground (arith, precedes-total a b e, precedes-asym a b)
place_comm a b (t ∷ u) e = ground (
  arith,
  precedes-total a b e,
  precedes-asym a b,
  place_comm a b u e,
  precedes_trans a b t,
  precedes_trans b a t,
  precedes-neg_trans t a b,
  precedes-neg_trans t b a,
  precedes_trans t a b,
  precedes_trans t b a,
  precedes-asym t a,
  precedes-asym t b,
)

abbrev SameCandidates : PolicyInput → List PolicyRule → List PolicyRule → Type 0
SameCandidates input l l' =
    (sort (candidates input l) ≡ sort (candidates input l')) × (is_empty l ≡ is_empty l')

swap_candidates :
    (input : PolicyInput) (a b : PolicyRule) (l : List PolicyRule)
    → sort (candidates input (a ∷ b ∷ l)) ≡ sort (candidates input (b ∷ a ∷ l))
unfolding candidates sort
swap_candidates input a b l =
    ground (arith, matches-extension input a b, place_comm a b (sort (candidates input l)))

cons_candidates :
    (input : PolicyInput) (a : PolicyRule) (l l' : List PolicyRule)
    → sort (candidates input l) ≡ sort (candidates input l')
    → sort (candidates input (a ∷ l)) ≡ sort (candidates input (a ∷ l'))
unfolding candidates sort
cons_candidates input a l l' e = elim (Bool-cases (matches input a)) [
  | inl fits ↦ rw fits (ap (place a) e)
  | inr differs ↦ rw differs e
]

Permᴰ-SameCandidates :
    (input : PolicyInput) {l l' : List PolicyRule} → Permᴰ l l' → SameCandidates input l l'
Permᴰ-SameCandidates input Permᴰ.nil = (refl, refl)
Permᴰ-SameCandidates input (Permᴰ.cons {a} {b} {l₁} {l₂} e p) =
    (rw e (cons_candidates input b l₁ l₂ (Permᴰ-SameCandidates input p).0), refl)
Permᴰ-SameCandidates input (Permᴰ.swap {a} {b} {a'} {b'} {l} e e') =
    (rw (e, e') (swap_candidates input b' a' l), refl)
Permᴰ-SameCandidates input (Permᴰ.trans p q) =
    let (s, n) = Permᴰ-SameCandidates input p in
    let (s', n') = Permᴰ-SameCandidates input q in (s ∙ s', n ∙ n')

PolicyDecision-set : IsSet PolicyDecision
PolicyDecision-set = hlevel

-- Listing the same rules in another order gives the same decision: its action, its reason and its
-- rule.
pub evaluate-Perm :
    (default : EnforcementAction) (input : PolicyInput) (rules rules' : List PolicyRule)
    → Perm rules rules'
    → evaluate default input rules ≡ evaluate default input rules'
unfolding evaluate
evaluate-Perm default input rules rules' p =
    ∥∥₁_elim p (PolicyDecision-set _ _)
      λ q. let (s, n) = Permᴰ-SameCandidates input q in rw (s, n) refl
