-- ===== src/Policy/Best.antt =====
-- The rule that is selected is the best of those that match.
use wdlp.Base.{◌≡◌, refl, true, false, List, [], ◌∷◌, All, arith, Bool-cases, inl, inr}
use wdlp.Base.BytesOrder.{before_irrefl, before_trans, before-total, before-neg_trans, before-asym}
use wdlp.Domain.{EnforcementAction, restrictiveness}
use wdlp.Policy.{PolicyRule, precedes, place, sort}

pub precedes_irrefl : (a : PolicyRule) → precedes a a ≡ false
unfolding precedes
precedes_irrefl a = ground (arith, before_irrefl a.rule_id)

-- `precedes` is transitive on complements: it is a weak order.
pub precedes_trans :
    (a b c : PolicyRule) → precedes a b ≡ true → precedes b c ≡ true → precedes a c ≡ true
unfolding precedes
precedes_trans a b c h k = ground (arith, before_trans a.rule_id b.rule_id c.rule_id)

restrictiveness-injective :
    (a b : EnforcementAction) → restrictiveness a ≡ restrictiveness b → a ≡ b
restrictiveness-injective a b h = ground arith

-- Rules for one extension that do not precede each other are equal.
pub precedes-total :
    (a b : PolicyRule)
    → a.extension ≡ b.extension
    → precedes a b ≡ false
    → precedes b a ≡ false
    → a ≡ b
unfolding precedes
precedes-total a b e h k =
    ground (arith, before-total a.rule_id b.rule_id, restrictiveness-injective a.action b.action)

pub precedes-neg_trans :
    (a b c : PolicyRule) → precedes a b ≡ false → precedes b c ≡ false → precedes a c ≡ false
unfolding precedes
precedes-neg_trans a b c h k = ground (arith, before-neg_trans a.rule_id b.rule_id c.rule_id)

pub precedes-asym : (a b : PolicyRule) → precedes a b ≡ true → precedes b a ≡ false
unfolding precedes
precedes-asym a b h = ground (arith, before-asym a.rule_id b.rule_id)

-- No rule of the list precedes `s`.
abbrev pub IsBest : PolicyRule → List PolicyRule → Type 0
IsBest s rules = All (λ r. precedes r s ≡ false) rules

IsBest-trans :
    (s t : PolicyRule) (rules : List PolicyRule)
    → IsBest t rules
    → precedes t s ≡ false
    → IsBest s rules
IsBest-trans s t [] h k = tt
IsBest-trans s t (r ∷ rules) (h, hs) k = (precedes-neg_trans r t s h k, IsBest-trans s t rules hs k)

-- The head of a sorted list, if there is one, is best; there is one if the list is not empty.
abbrev pub HeadIsBest : List PolicyRule → List PolicyRule → Type 0
HeadIsBest [] rules = rules ≡ []
HeadIsBest (s ∷ _) rules = IsBest s rules

place-HeadIsBest :
    (rule : PolicyRule) (sorted rules : List PolicyRule)
    → HeadIsBest sorted rules
    → HeadIsBest (place rule sorted) (rule ∷ rules)
unfolding place
place-HeadIsBest rule [] rules h = rw h (precedes_irrefl rule, tt)
place-HeadIsBest rule (t ∷ u) rules h = elim (Bool-cases (precedes t rule)) [
  | inl first ↦ rw first (precedes-asym t rule first, h)
  | inr later ↦ rw later (precedes_irrefl rule, IsBest-trans rule t rules h later)
]

pub sort-HeadIsBest : (rules : List PolicyRule) → HeadIsBest (sort rules) rules
unfolding sort
sort-HeadIsBest [] = refl
sort-HeadIsBest (rule ∷ rules) = place-HeadIsBest rule (sort rules) rules (sort-HeadIsBest rules)
