-- ===== src/Autonomy/Decide/Tests.antt =====
-- The decision of internal/autonomy on a small configuration, and the theorems at work on it.
use mathlib.Core.List.Perm
use ma_klaude.Prelude.{
  contains, ◌≡◌, ◌↔◌, refl, true, none, some, [], ◌∷◌, arith, eq_iff, All, NoDup,
}
use ma_klaude.Prelude.Int.{pos}
use ma_klaude.Prelude.Text.{trim_space}
use ma_klaude.Autonomy.Verdict.{Decision, gate, auto_apply, refuse, verdict}
use ma_klaude.Autonomy.Rule.{
  permits_reversibility, covers_namespace, covers_operation, covers_cluster, catalog_operation,
  validate_reversibility, validate_operations, validate_selector, validate_name, rule_problem,
  validate_from, Rule, Ruleset, validate, validate_rule,
}
use ma_klaude.Autonomy.Rule.Validity.{IsWellFormed, names, validate_iff}
use ma_klaude.Autonomy.Request.{
  may_auto_apply, Request, TrustOracle, class_remediation, class_chaos, gate_reason,
}
use ma_klaude.Autonomy.Decide.{
  decide_trust, near_miss, conclude, consult, unconditional, decide_request, match_rules, covers,
}
use ma_klaude.Autonomy.Decide.Matching.{
  match_rules-none_iff, Permits, IsNearest, match_rules_nearest,
}
use ma_klaude.Autonomy.Decide.Ladder.{OneCluster, MayRun}
use ma_klaude.Autonomy.Decide.Answers.{
  IsRefused, decide_request-auto_apply_iff, decide_request-refuse_iff, decide_request_class,
}
use ma_klaude.Autonomy.Decide.Order.{decide_request-perm}

abbrev web : Rule
web = record {
  name = "staging-web";
  clusters = "staging" ∷ [];
  namespaces = "web" ∷ "api" ∷ [];
  operations = "rolloutrestart" ∷ [];
  max_reversibility = pos 0;
}

abbrev jobs : Rule
jobs = record web { name = "staging-jobs"; namespaces = "jobs" ∷ [] }

abbrev restart : Request
restart = record {
  class = class_remediation;
  cluster = "staging";
  proposal_cluster = "staging";
  operation = "rolloutrestart";
  target = record {
    cluster = "staging";
    kind = "deployment";
    namespace = "web";
    name = "shop";
    resource_version = "7";
  };
  reversibility = pos 0;
  fingerprint = "v1:ab";
}

abbrev trusting : TrustOracle
trusting s = record { trusted = true; citation = "3 converged " }

abbrev rules : Ruleset
rules = web ∷ jobs ∷ []

-- What a run of the whole decision computes with.
abbrev run : Request → Ruleset → Decision
unfolding decide_request unconditional may_auto_apply gate_reason catalog_operation consult conclude
    match_rules covers covers_cluster covers_operation covers_namespace permits_reversibility
    near_miss decide_trust verdict trim_space validate validate_from rule_problem validate_rule
    validate_name validate_selector validate_operations validate_reversibility contains
run req rs = (decide_request req rs (some trusting)).decision

valid : validate rules ≡ none
unfolding validate validate_from rule_problem validate_rule validate_name validate_selector
    validate_operations validate_reversibility catalog_operation trim_space contains
valid = refl

runs : (decide_request restart rules (some trusting)).decision ≡ auto_apply
unfolding run
runs = refl

abbrev other_namespace : Request
other_namespace = record restart { target = record restart.target { namespace = "db" } }

-- The chaos class on the same input.
abbrev experiment : Request
experiment = record restart { class = class_chaos }

abbrev elsewhere : Request
elsewhere = record restart { target = record restart.target { cluster = "prod" } }

gates_elsewhere : run other_namespace rules ≡ gate
unfolding run
gates_elsewhere = refl

refuses_mismatch : run elsewhere rules ≡ refuse
unfolding run
refuses_mismatch = refl

agreed : OneCluster experiment
agreed = record { given = ground (arith, eq_iff "staging" ""); proposal = refl; target = refl }

restart-MayRun : MayRun restart rules (some trusting)
restart-MayRun = (decide_request-auto_apply_iff restart rules (some trusting)).0 runs

decide_request-auto_apply_iff_example :
    ((decide_request restart rules (some trusting)).decision ≡ auto_apply)
    ↔ MayRun restart rules (some trusting)
decide_request-auto_apply_iff_example = decide_request-auto_apply_iff restart rules (some trusting)

decide_request-refuse_iff_example :
    ((decide_request elsewhere rules (some trusting)).decision ≡ refuse) ↔ IsRefused elsewhere
decide_request-refuse_iff_example = decide_request-refuse_iff elsewhere rules (some trusting)

decide_request_class_example :
    (decide_request experiment rules (some trusting) ≡ verdict (gate_reason class_chaos) "")
    × ((decide_request experiment rules (some trusting)).decision ≡ gate)
decide_request_class_example =
    decide_request_class experiment rules (some trusting) agreed (λ e. cc)

decide_request-perm_example :
    (decide_request restart rules (some trusting)).decision
    ≡ (decide_request restart (jobs ∷ web ∷ []) (some trusting)).decision
decide_request-perm_example =
    decide_request-perm restart (some trusting) rules (jobs ∷ web ∷ []) (Perm.swap jobs web [])

validate_iff_example : (validate rules ≡ none) ↔ (All IsWellFormed rules × NoDup (names rules))
validate_iff_example = validate_iff rules

misses : All (λ r. ¬ Permits r other_namespace) rules
unfolding run
misses = (match_rules-none_iff other_namespace rules).0 refl

match_rules_nearest_example :
    IsNearest other_namespace rules
      (match_rules other_namespace rules).nearest
      (match_rules other_namespace rules).nearest_reason
match_rules_nearest_example = match_rules_nearest other_namespace rules (λ e. cc) misses
