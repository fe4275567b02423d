-- ===== src/Tests/Policies.antt =====
-- Runs of crates/dlp-domain/src/lib.rs and crates/dlp-policy/src/lib.rs.
use mathlib.Core.List.{Perm, Permᴰ}
use wdlp.Base.{arith, ℕ, true, ◌≡◌, refl, inl, inr, [], ◌∷◌, some, none}
use wdlp.Base.Bytes.{Bytes, codes, bytes_eq}
use wdlp.Base.BytesOrder.{before}
use wdlp.Base.Decimal.{to_decimal}
use wdlp.Base.Results.{ok}
use wdlp.Domain.{
  parse_identifier, PolicyInput, allow, block, warn, equal_priority_conflict, default_action,
  EnforcementAction, input_canonical_bytes, decision_canonical_bytes,
}
use wdlp.Policy.{PolicyRule, evaluate}
use wdlp.Policy.Selection.{evaluate_of_best, tally}
use wdlp.Policy.Order.{evaluate-Perm}

a_device : parse_identifier true (codes "host.1") ≡ ok (codes "host.1")
unfolding parse_identifier
a_device = refl

abbrev a_rule : Bytes → ℕ → EnforcementAction → PolicyRule
a_rule rule_id priority action = record {
  rule_id = rule_id;
  extension = codes "pdf";
  priority = priority;
  action = action;
}

abbrev an_input : PolicyInput
an_input = record {
  file_name = codes "a.pdf";
  extension = codes "pdf";
  path = codes "docs";
  owner = codes "me";
  size_bytes = 1;
}

abbrev blocking : PolicyRule
blocking = a_rule (codes "r2") 5 block

abbrev warning : PolicyRule
warning = a_rule (codes "r1") 5 warn

evaluate_of_best_example :
    evaluate allow an_input (warning ∷ blocking ∷ [])
    ≡ record { action = block; reason = equal_priority_conflict; rule_id = some (codes "r2") }
unfolding tally bytes_eq before
evaluate_of_best_example =
    evaluate_of_best allow an_input (warning ∷ blocking ∷ []) blocking (inr (inl refl)) refl
      (inr (inr (refl, inl (omega arith))), (inr (inr (refl, inr (refl, refl))), tt))

swapped : Perm (warning ∷ blocking ∷ []) (blocking ∷ warning ∷ [])
swapped = ∣ Permᴰ.swap refl refl ∣₁

evaluate-Perm_example :
    evaluate allow an_input (warning ∷ blocking ∷ [])
    ≡ evaluate allow an_input (blocking ∷ warning ∷ [])
evaluate-Perm_example =
    evaluate-Perm allow an_input (warning ∷ blocking ∷ []) (blocking ∷ warning ∷ []) swapped

a_canonical_input :
    input_canonical_bytes (record {
      file_name = codes "a.pdf";
      extension = codes "pdf";
      path = codes "C:/a.pdf";
      owner = codes "S-1";
      size_bytes = 42;
    })
    ≡ codes "file_name=a.pdf;extension=pdf;path=C:/a.pdf;owner=S-1;size_bytes=42"
unfolding input_canonical_bytes to_decimal
a_canonical_input = refl

a_canonical_decision :
    decision_canonical_bytes (record { action = block; reason = default_action; rule_id = none })
    ≡ codes "action=block;reason=default_action;rule_id="
unfolding decision_canonical_bytes
a_canonical_decision = refl
