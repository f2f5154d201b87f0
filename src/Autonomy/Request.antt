-- ===== src/Autonomy/Request.antt =====
-- internal/autonomy/class.go and trust.go: what the policy is asked, and whom it asks about trust.
use ma_klaude.Prelude.{String, Bool, true, false}
use ma_klaude.Prelude.Int.{ℤ}
use ma_klaude.Remediate.{Operation, Reversibility, Target}
use ma_klaude.Autonomy.Verdict.{Reason, chaos_never_promotes, proposal_class_unknown, Shape}

-- `Class` is an `int`; `other` is any value that the package does not name.
pub data Class : Type 0 where
  class_unset class_remediation class_chaos : Class
  other : ℤ → Class

-- `Class.MayAutoApply`.
unfoldable pub may_auto_apply : Class → Bool
may_auto_apply class_remediation = true
may_auto_apply _ = false

-- `Class.gateReason`.
unfoldable pub gate_reason : Class → Reason
gate_reason class_chaos = chaos_never_promotes
gate_reason _ = proposal_class_unknown

abbrev pub Fingerprint : Type 0
Fingerprint = String

pub record Request : Type 0 where
  pub class : Class
  pub cluster : String
  pub proposal_cluster : String
  pub operation : Operation
  pub target : Target
  pub reversibility : Reversibility
  pub fingerprint : Fingerprint

pub record Subject : Type 0 where
  pub shape : Shape
  pub fingerprint : Fingerprint

pub record TrustEvidence : Type 0 where
  pub trusted : Bool
  pub citation : String

-- The interface: a pure answer for each subject.
abbrev pub TrustOracle : Type 0
TrustOracle = Subject → TrustEvidence
