-- ===== src/Autonomy/Verdict.antt =====
-- internal/autonomy/autonomy.go: decisions, the closed list of reasons, and the verdict that the
-- decision function returns. A decision is a function of its reason.
use Prim.Native.String.{◌++◌}
use ma_klaude.Prelude.{String, Bool, true, false, ◌==◌, string_comparable, not, ◌||◌, if◌then◌else◌}
use ma_klaude.Remediate.{Operation}

pub data Decision : Type 0 where
  gate auto_apply refuse : Decision

pub data Reason : Type 0 where
  no_rule_matched autonomy_not_configured ruleset_invalid cluster_mismatch : Reason
  operation_off_catalog irreversible_action reversibility_unknown : Reason
  cluster_out_of_scope operation_not_allowed above_reversibility_floor : Reason
  cluster_scoped_target namespace_out_of_scope : Reason
  no_trust_ledger untrusted_shape trust_evidence_missing earned_trust : Reason
  chaos_never_promotes proposal_class_unknown : Reason

-- `Decision.AutoApplies`.
abbrev pub auto_applies : Decision → Bool
auto_applies auto_apply = true
auto_applies _ = false

-- `Reason.String`.
unfoldable pub reason_token : Reason → String
reason_token no_rule_matched = "no-rule-matched"
reason_token autonomy_not_configured = "autonomy-not-configured"
reason_token ruleset_invalid = "ruleset-invalid"
reason_token cluster_mismatch = "cluster-mismatch"
reason_token operation_off_catalog = "operation-off-catalog"
reason_token irreversible_action = "irreversible"
reason_token reversibility_unknown = "reversibility-unknown"
reason_token cluster_out_of_scope = "cluster-out-of-scope"
reason_token operation_not_allowed = "operation-not-allowed"
reason_token above_reversibility_floor = "above-reversibility-floor"
reason_token cluster_scoped_target = "cluster-scoped-target"
reason_token namespace_out_of_scope = "namespace-out-of-scope"
reason_token no_trust_ledger = "no-trust-ledger"
reason_token untrusted_shape = "untrusted-shape"
reason_token trust_evidence_missing = "trust-evidence-missing"
reason_token earned_trust = "earned-trust"
reason_token chaos_never_promotes = "chaos-never-promotes"
reason_token proposal_class_unknown = "proposal-class-unknown"

-- `Reason.Decision`: one reason permits, four refuse, and any other gates.
unfoldable pub reason_decision : Reason → Decision
reason_decision earned_trust = auto_apply
reason_decision cluster_mismatch = refuse
reason_decision operation_off_catalog = refuse
reason_decision irreversible_action = refuse
reason_decision reversibility_unknown = refuse
reason_decision _ = gate

pub record Shape : Type 0 where
  pub cluster : String
  pub operation : Operation

pub record Verdict : Type 0 where
  pub decision : Decision
  pub reason : Reason
  pub rule : String
  pub evidence : String

-- The unexported constructor of every verdict.
unfoldable pub verdict : Reason → String → Verdict
unfolding reason_decision
verdict r rule = record { decision = reason_decision r; reason = r; rule = rule; evidence = "" }

abbrev pub policy_prefix : String
policy_prefix = "policy:"

-- `Verdict.PolicyIdentity`: who is recorded as the authority of an unattended action.
unfoldable pub policy_identity : Verdict → String
policy_identity v =
    if not (auto_applies v.decision) || v.rule == "" then "" else policy_prefix ++ v.rule
