-- ===== src/Policy/Selection.antt =====
-- What a decision says, in terms of the rules alone.
use wdlp.Base.{
  ◌<◌, ℕ, suc, ◌≡◌, refl, sym, ◌∙◌, true, false, ◌⊎◌, inl, inr, List, [], ◌∷◌, any, ltb, ◌==◌,
  is_empty, if◌then◌else◌, none, some, All, arith, Bool-cases, ap,
}
use wdlp.Base.Bytes.{bytes_eq_sound}
use wdlp.Base.BytesOrder.{before}
use wdlp.Domain.{
  restrictiveness, EnforcementAction, PolicyInput, matched_rule, equal_priority_conflict,
  default_action, empty_policy,
}
use wdlp.Policy.{PolicyRule, matches, precedes, candidates, place, sort, evaluate}
use wdlp.Policy.Best.{IsBest, sort-HeadIsBest, precedes-total}

abbrev pub Among : PolicyRule → List PolicyRule → Type 0
Among s [] = ⊥
Among s (r ∷ rules) = (s ≡ r) ⊎ Among s rules

-- The matching rules of a priority.
unfoldable pub tally : PolicyInput → ℕ → List PolicyRule → ℕ
tally input p [] = 0
tally input p (r ∷ rules) =
    let rest = tally input p rules in
    if matches input r then (if r.priority == p then suc rest else rest) else rest

-- `r` does not win against `s`: it has a lower priority; or the same and a less restrictive action;
-- or the same of both and an identifier that is not smaller.
abbrev pub NoBetter : PolicyRule → PolicyRule → Type 0
NoBetter r s =
    (r.priority < s.priority)
    ⊎ ((r.priority ≡ s.priority)
        × ((restrictiveness r.action < restrictiveness s.action)
            ⊎ ((restrictiveness r.action ≡ restrictiveness s.action)
                × (before r.rule_id s.rule_id ≡ false))))

-- Every rule of the list does not match, or does not win against `s`.
abbrev pub IsBestMatch : PolicyInput → PolicyRule → List PolicyRule → Type 0
IsBestMatch input s rules = All (λ r. (matches input r ≡ false) ⊎ NoBetter r s) rules

NoBetter-precedes : (r s : PolicyRule) → NoBetter r s → precedes r s ≡ false
unfolding precedes
NoBetter-precedes r s h = ground arith

count : ℕ → List PolicyRule → ℕ
count p [] = 0
count p (r ∷ rules) = let rest = count p rules in if r.priority == p then suc rest else rest

count-place : (p : ℕ) (r : PolicyRule) (l : List PolicyRule) → count p (place r l) ≡ count p (r ∷ l)
unfolding count place
count-place p r [] = refl
count-place p r (t ∷ u) = ground (arith, count-place p r u)

count-sort : (p : ℕ) (l : List PolicyRule) → count p (sort l) ≡ count p l
unfolding count sort
count-sort p [] = refl
count-sort p (r ∷ l) = ground (arith, count-place p r (sort l), count-sort p l)

count-candidates :
    (input : PolicyInput) (p : ℕ) (l : List PolicyRule)
    → count p (candidates input l) ≡ tally input p l
unfolding count candidates tally
count-candidates input p [] = refl
count-candidates input p (r ∷ l) = ground (arith, count-candidates input p l)

any-count : (p : ℕ) (l : List PolicyRule) → any (λ c. c.priority == p) l ≡ ltb 0 (count p l)
unfolding count
any-count p [] = refl
any-count p (r ∷ l) = ground (arith, any-count p l)

module _ (P : PolicyRule → Type 0) where
  All-place : (r : PolicyRule) (l : List PolicyRule) → P r → All P l → All P (place r l)
  unfolding place
  All-place r [] p h = (p, tt)
  All-place r (t ∷ u) p (q, h) = elim (Bool-cases (precedes t r)) [
    | inl first ↦ rw first (q, All-place r u p h)
    | inr later ↦ rw later (p, (q, h))
  ]

  All-sort : (l : List PolicyRule) → All P l → All P (sort l)
  unfolding sort
  All-sort [] h = tt
  All-sort (r ∷ l) (p, h) = All-place r (sort l) p (All-sort l h)

  All-candidates :
      (input : PolicyInput) (l : List PolicyRule)
      → All (λ r. matches input r ≡ true → P r) l
      → All P (candidates input l)
  unfolding candidates
  All-candidates input [] h = tt
  All-candidates input (r ∷ l) (p, h) = elim (Bool-cases (matches input r)) [
    | inl fits ↦ rw fits (p fits, All-candidates input l h)
    | inr differs ↦ rw differs (All-candidates input l h)
  ]

  -- What holds of all candidates holds of a matching rule of the list.
  candidate :
      (input : PolicyInput) (s : PolicyRule) (l : List PolicyRule)
      → matches input s ≡ true
      → Among s l
      → All P (candidates input l)
      → P s
  unfolding candidates
  candidate input s [] fits m h = absurd m
  candidate input s (r ∷ l) fits (inl e) h =
      let fits' : matches input r ≡ true = (rw e at fits) in rw e ((rw fits' at h).0)
  candidate input s (r ∷ l) fits (inr m) h = elim (Bool-cases (matches input r)) [
    | inl here ↦ candidate input s l fits m (rw here at h).1
    | inr there ↦ candidate input s l fits m (rw there at h)
  ]

unpreceded :
    (input : PolicyInput) (s : PolicyRule) (rules : List PolicyRule)
    → IsBestMatch input s rules
    → All (λ r. matches input r ≡ true → precedes r s ≡ false) rules
unpreceded input s [] h = tt
unpreceded input s (r ∷ rules) (inl differs, hs) = (λ fits. cc, unpreceded input s rules hs)
unpreceded input s (r ∷ rules) (inr worse, hs) =
    (λ fits. NoBetter-precedes r s worse, unpreceded input s rules hs)

IsBest-of_match :
    (input : PolicyInput) (s : PolicyRule) (rules : List PolicyRule)
    → IsBestMatch input s rules
    → IsBest s (candidates input rules)
IsBest-of_match input s rules h =
    All-candidates (λ r. precedes r s ≡ false) input rules (unpreceded input s rules h)

extensions :
    (input : PolicyInput) (rules : List PolicyRule)
    → All (λ r. matches input r ≡ true → r.extension ≡ input.extension) rules
extensions input [] = tt
extensions input (r ∷ rules) = (bytes_eq_sound r.extension input.extension, extensions input rules)

-- The sorted candidates begin with the best match.
sorted_head :
    (input : PolicyInput) (s : PolicyRule) (rules sorted : List PolicyRule)
    → matches input s ≡ true
    → Among s rules
    → IsBestMatch input s rules
    → sort (candidates input rules) ≡ sorted
    → (others : List PolicyRule) × (sorted ≡ s ∷ others)
sorted_head input s rules [] fits m best e =
    let none_there : candidates input rules ≡ [] =
      (rw e at (sort-HeadIsBest (candidates input rules))) in
    absurd (candidate (λ r. ⊥) input s rules fits m (rw none_there tt))
sorted_head input s rules (t ∷ others) fits m best e =
    let leading : IsBest t (candidates input rules) =
      (rw e at (sort-HeadIsBest (candidates input rules))) in
    let below : precedes s t ≡ false =
      candidate (λ r. precedes r t ≡ false) input s rules fits m leading in
    let above : All (λ r. precedes r s ≡ false) (t ∷ others) =
      (rw e at (
        All-sort (λ r. precedes r s ≡ false) (candidates input rules)
          (IsBest-of_match input s rules best))) in
    let same : All (λ r. r.extension ≡ input.extension) (t ∷ others) =
      (rw e at (
        All-sort (λ r. r.extension ≡ input.extension) (candidates input rules)
          (All-candidates (λ r. r.extension ≡ input.extension) input rules
            (extensions input rules)))) in
    let ext : s.extension ≡ t.extension =
      bytes_eq_sound s.extension input.extension fits ∙ sym same.0 in
    (others, ap (λ r. r ∷ others) (sym (precedes-total s t ext below above.0)))

conflict_iff_more :
    (input : PolicyInput) (s : PolicyRule) (rules others : List PolicyRule)
    → sort (candidates input rules) ≡ s ∷ others
    → any (λ c. c.priority == s.priority) others ≡ ltb 1 (tally input s.priority rules)
conflict_iff_more input s rules others e =
    let total : count s.priority (s ∷ others) ≡ tally input s.priority rules =
      rw (← e) (
        count-sort s.priority (candidates input rules) ∙ count-candidates input s.priority rules) in
    unfold count in ground (arith, any-count s.priority others, total)

-- If `s` is a rule of the list that matches, and no matching rule wins against it by priority, then
-- by the more restrictive action, then by the smaller identifier, the decision is its action under
-- its identifier, and it reports a conflict exactly when another matching rule has the same priority.
pub evaluate_of_best :
    (default : EnforcementAction) (input : PolicyInput) (rules : List PolicyRule) (s : PolicyRule)
    → Among s rules
    → matches input s ≡ true
    → IsBestMatch input s rules
    → evaluate default input rules ≡ record {
      action = s.action;
      reason =
          if ltb 1 (tally input s.priority rules) then equal_priority_conflict else matched_rule;
      rule_id = some s.rule_id;
    }
unfolding evaluate
evaluate_of_best default input rules s m fits best =
    let (others, e) = sorted_head input s rules (sort (candidates input rules)) fits m best refl in
    rw e (
      ap
        (λ b. record {
          action = s.action;
          reason = if b then equal_priority_conflict else matched_rule;
          rule_id = some s.rule_id;
        })
        (conflict_iff_more input s rules others e))

-- If no rule matches, the decision is the default action without a rule, for the reason that the
-- policy is empty or else that no rule matched.
pub evaluate_default :
    (default : EnforcementAction) (input : PolicyInput) (rules : List PolicyRule)
    → All (λ r. matches input r ≡ false) rules
    → evaluate default input rules ≡ record {
      action = default;
      reason = if is_empty rules then empty_policy else default_action;
      rule_id = none;
    }
unfolding evaluate sort
evaluate_default default input rules h = rw (no_candidates input rules h) refl
  where
    no_candidates :
        (input : PolicyInput) (rules : List PolicyRule)
        → All (λ r. matches input r ≡ false) rules
        → candidates input rules ≡ []
    no_candidates input [] h = refl
    no_candidates input (r ∷ rules) (d, h) = unfold candidates in rw d (no_candidates input rules h)
