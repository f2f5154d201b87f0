-- ===== src/Autonomy/Decide.antt =====
-- internal/autonomy/decide.go: the ladder of questions, in the order of the source.
pub mod Matching
pub mod Ladder
pub mod Answers
pub mod Order
mod Tests
use ma_klaude.Prelude.{
  ℕ, String, Bool, true, false, not, ◌||◌, Option, none, some, [], ◌∷◌, ltb, ◌==◌,
  string_comparable, if◌then◌else◌,
}
use ma_klaude.Prelude.Int.{ltb_ℤ, eqb_ℤ}
use ma_klaude.Prelude.Text.{trim_space}
use ma_klaude.Remediate.{reversible, irreversible}
use ma_klaude.Autonomy.Verdict.{
  Reason, Verdict, verdict, no_rule_matched, autonomy_not_configured, ruleset_invalid,
  cluster_mismatch, operation_off_catalog, irreversible_action, reversibility_unknown,
  cluster_out_of_scope, operation_not_allowed, above_reversibility_floor, cluster_scoped_target,
  namespace_out_of_scope, no_trust_ledger, untrusted_shape, trust_evidence_missing, earned_trust,
}
use ma_klaude.Autonomy.Rule.{
  Rule, Ruleset, RulesetError, validate, catalog_operation, covers_cluster, covers_namespace,
  covers_operation, permits_reversibility,
}
use ma_klaude.Autonomy.Request.{
  Request, Subject, TrustEvidence, TrustOracle, may_auto_apply, gate_reason,
}

-- The checks that no configuration can reach; `none` if no check fired.
unfoldable pub unconditional : Request → Option Verdict
unconditional req =
    if req.cluster == ""
      || not (req.proposal_cluster == req.cluster)
      || not (req.target.cluster == req.cluster)
    then some (verdict cluster_mismatch "")
    else if not (may_auto_apply req.class)
    then some (verdict (gate_reason req.class) "")
    else if not (catalog_operation req.operation)
    then some (verdict operation_off_catalog "")
    else if eqb_ℤ req.reversibility irreversible
    then some (verdict irreversible_action "")
    else if ltb_ℤ req.reversibility reversible || ltb_ℤ irreversible req.reversibility
    then some (verdict reversibility_unknown "")
    else none

unfoldable pub near_miss : Reason → ℕ
near_miss operation_not_allowed = 2
near_miss above_reversibility_floor = 3
near_miss cluster_scoped_target = 4
near_miss namespace_out_of_scope = 4
near_miss _ = 1

-- `covers`: whether one rule permits the request, and the dimension that refused.
unfoldable pub covers : Rule → Request → Reason × Bool
covers r req =
    if not (covers_cluster r req.cluster)
    then (cluster_out_of_scope, false)
    else if not (covers_operation r req.operation)
    then (operation_not_allowed, false)
    else if not (permits_reversibility r req.reversibility)
    then (above_reversibility_floor, false)
    else if req.target.namespace == ""
    then (cluster_scoped_target, false)
    else if not (covers_namespace r req.target.namespace)
    then (namespace_out_of_scope, false)
    else (no_rule_matched, true)

pub record Match : Type 0 where
  pub matched : Option Rule
  pub nearest : String
  pub nearest_reason : Reason

-- The loop of `match`, with the best rank so far and what it belongs to.
match_from : Request → ℕ → String → Reason → Ruleset → Match
match_from req best nearest why [] = record {
  matched = none;
  nearest = nearest;
  nearest_reason = why;
}
match_from req best nearest why (r ∷ rs) =
    let (refused, permits) = covers r req in
    let closer = ltb best (near_miss refused) in
    let rest =
      match_from req (if closer then near_miss refused else best)
        (if closer then r.name else nearest) (if closer then refused else why) rs in
    if permits
    then record { matched = some r; nearest = ""; nearest_reason = no_rule_matched }
    else rest

unfoldable pub match_rules : Request → Ruleset → Match
unfolding match_from
match_rules req rs = match_from req 0 "" no_rule_matched rs

unfoldable pub subject_of : Request → Subject
subject_of req = record {
  shape = record { cluster = req.cluster; operation = req.operation };
  fingerprint = req.fingerprint;
}

-- What follows from the oracle's answer.
weigh : TrustEvidence → String → Verdict
weigh evidence rule =
    if not evidence.trusted
    then verdict untrusted_shape rule
    else let citation = trim_space evidence.citation in
      if citation == ""
      then verdict trust_evidence_missing rule
      else record (verdict earned_trust rule) { evidence = citation }

unfoldable pub decide_trust : Request → String → Option TrustOracle → Verdict
unfolding weigh
decide_trust req rule none = verdict no_trust_ledger rule
decide_trust req rule (some oracle) = weigh (oracle (subject_of req)) rule

-- What follows from the match.
conclude : Request → Match → Option TrustOracle → Verdict
conclude req m trust = elim m.matched [
  | none ↦ verdict m.nearest_reason m.nearest
  | some r ↦ decide_trust req r.name trust
]

-- Steps 5 to 8 of the ladder, for a ruleset that validation answered.
pub consult : Request → Ruleset → Option TrustOracle → Option RulesetError → Verdict
unfolding conclude
consult req rs trust (some err) = verdict ruleset_invalid ""
consult req [] trust none = verdict autonomy_not_configured ""
consult req (r ∷ rs) trust none = conclude req (match_rules req (r ∷ rs)) trust

-- `DecideRequest`.
unfoldable pub decide_request : Request → Ruleset → Option TrustOracle → Verdict
unfolding consult
decide_request req rs trust = elim (unconditional req) [
  | some v ↦ v
  | none ↦ consult req rs trust (validate rs)
]
