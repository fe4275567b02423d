-- ===== src/Policy.antt =====
-- crates/dlp-policy/src/lib.rs: the selection of a policy rule.
pub mod Best
pub mod Selection
pub mod Order
use wdlp.Base.{
  ℕ, Bool, true, false, not, ◌&&◌, ◌||◌, List, [], ◌∷◌, any, ltb, ◌==◌, is_empty, if◌then◌else◌,
  none, some,
}
use wdlp.Base.Bytes.{Bytes, bytes_eq}
use wdlp.Base.BytesOrder.{before}
use wdlp.Domain.{
  EnforcementAction, restrictiveness, PolicyInput, PolicyDecision, matched_rule,
  equal_priority_conflict, default_action, empty_policy,
}

pub record PolicyRule : Type 0 where
  pub rule_id : Bytes
  pub extension : Bytes
  pub priority : ℕ
  pub action : EnforcementAction

abbrev pub matches : PolicyInput → PolicyRule → Bool
matches input rule = bytes_eq rule.extension input.extension

-- `cmp(left, right) == Less` of the closure that orders the candidates: the higher priority first,
-- then the more restrictive action, then the smaller identifier.
unfoldable pub precedes : PolicyRule → PolicyRule → Bool
precedes left right =
    ltb right.priority left.priority
    || (left.priority == right.priority
        && (ltb (restrictiveness right.action) (restrictiveness left.action)
            || (restrictiveness left.action == restrictiveness right.action
                && before left.rule_id right.rule_id)))

-- `filter(..).collect()`
unfoldable pub candidates : PolicyInput → List PolicyRule → List PolicyRule
candidates input [] = []
candidates input (rule ∷ rules) =
    let rest = candidates input rules in if matches input rule then rule ∷ rest else rest

-- `sort_unstable_by`: rules that compare equal are the same rule here, so that the order in which
-- the library leaves them cannot be seen.
unfoldable pub place : PolicyRule → List PolicyRule → List PolicyRule
place rule [] = rule ∷ []
place rule (other ∷ rest) =
    if precedes other rule then other ∷ place rule rest else rule ∷ other ∷ rest

unfoldable pub sort : List PolicyRule → List PolicyRule
unfolding place precedes
sort [] = []
sort (rule ∷ rules) = place rule (sort rules)

abbrev pub decide : EnforcementAction → Bool → List PolicyRule → PolicyDecision
decide default no_rules [] = record {
  action = default;
  reason = if no_rules then empty_policy else default_action;
  rule_id = none;
}
decide default no_rules (selected ∷ others) = record {
  action = selected.action;
  reason =
      if any (λ c. c.priority == selected.priority) others
      then equal_priority_conflict
      else matched_rule;
  rule_id = some selected.rule_id;
}

-- `PolicyEvaluator::evaluate`, with the evaluator's `default_action`
unfoldable pub evaluate : EnforcementAction → PolicyInput → List PolicyRule → PolicyDecision
unfolding candidates sort
evaluate default input rules = decide default (is_empty rules) (sort (candidates input rules))
