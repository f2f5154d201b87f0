-- ===== src/Unattended/Tests.antt =====
-- A fix that earned its trust, as the policy sees it.
use ma_klaude.Prelude.{string_comparable, ◌≡◌, refl, none, some, [], ◌∷◌, String}
use ma_klaude.Prelude.Int.{pos}
use ma_klaude.Prelude.Text.{trim_space}
use ma_klaude.Prelude.Assoc.{fetch}
use ma_klaude.Autonomy.Verdict.{auto_apply, verdict}
use ma_klaude.Autonomy.Rule.{
  Ruleset, permits_reversibility, covers_namespace, covers_operation, covers_cluster,
  catalog_operation, validate_reversibility, validate_operations, validate_selector, validate_name,
  rule_problem, validate_from, validate, validate_rule,
}
use ma_klaude.Autonomy.Request.{Request, class_remediation, may_auto_apply, gate_reason}
use ma_klaude.Autonomy.Decide.{
  decide_request, subject_of, unconditional, match_rules, covers, near_miss, decide_trust,
}
use ma_klaude.Trust.Entry.{
  Entry, human, converged, promotes, demotes, outcome_promotes, outcome_demotes, human_reviewed,
}
use ma_klaude.Trust.Ledger.{
  Ledger, Standing, same_shape, history, trust, standing, standing_over, scope_of, last_demoting,
  unobserved_streak, all_inconclusive, tally,
}
use ma_klaude.Trust.Ledger.Earning.{HasEarned}
use ma_klaude.Unattended.{unattended_has_earned}
use ma_klaude.Prelude.{contains}

abbrev rules : Ruleset
rules =
    record {
      name = "prod-web";
      clusters = "prod" ∷ [];
      namespaces = "web" ∷ [];
      operations = "rolloutrestart" ∷ [];
      max_reversibility = pos 0;
    }
    ∷ []

abbrev restart : Request
restart = record {
  class = class_remediation;
  cluster = "prod";
  proposal_cluster = "prod";
  operation = "rolloutrestart";
  target = record {
    cluster = "prod";
    kind = "deployment";
    namespace = "web";
    name = "shop";
    resource_version = "7";
  };
  reversibility = pos 0;
  fingerprint = "v1:ab";
}

abbrev worked : Entry
worked = record {
  key = "a@1";
  identity = "a";
  shape = record { cluster = "prod"; operation = "rolloutrestart" };
  fingerprint = "v1:ab";
  authority = human;
  outcome = converged;
  at = 10;
  ref = "issue/1";
}

abbrev earned : Ledger
earned = record {
  log = none;
  keys = "a@1" ∷ "a@2" ∷ "a@3" ∷ [];
  by_shape =
      (
        worked.shape,
        worked
            ∷ record worked { key = "a@2"; at = 20 }
            ∷ record worked { key = "a@3"; at = 30 }
            ∷ [],
      )
      ∷ [];
}

abbrev cite : Standing → String
cite st = "three approved executions"

runs : (decide_request restart rules (some (trust cite earned))).decision ≡ auto_apply
unfolding decide_request unconditional may_auto_apply gate_reason catalog_operation match_rules
    covers covers_cluster covers_operation covers_namespace permits_reversibility near_miss
    decide_trust verdict trim_space validate validate_from rule_problem validate_rule validate_name
    validate_selector validate_operations validate_reversibility contains trust standing
    standing_over history fetch same_shape scope_of last_demoting unobserved_streak all_inconclusive
    tally promotes outcome_promotes human_reviewed demotes outcome_demotes subject_of
runs = refl

unattended_has_earned_example :
    HasEarned (subject_of restart) (history earned (subject_of restart).shape)
unattended_has_earned_example = unattended_has_earned cite earned restart rules runs
