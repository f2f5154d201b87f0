-- ===== src/Execute/Run/Checks.antt =====
-- What `Runner.execute` of internal/execute/execute.go checks before it reads the cluster, on what it
-- is given, with the plans of internal/execute/plan.go.
use ma_klaude.Prelude.{
  ℕ, Bool, true, false, not, ◌&&◌, ◌||◌, String, List, [], ◌∷◌, Option, none, some, if◌then◌else◌,
  ◌==◌, string_comparable,
}
use ma_klaude.Prelude.Int.{ℤ, pos, leb_ℤ, eqb_ℤ}
use ma_klaude.Prelude.Text.{trim_space}
use ma_klaude.Health.{Snapshot}
use ma_klaude.Remediate.{
  Operation, Reversibility, Target, op_rollout_restart, op_rollback_revision, op_delete_pod,
  op_cordon_node, reversible, recreated_by_controller,
}
use ma_klaude.Execute.Preconditions.{Precondition}

-- What `execute` reads of a `remediate.Proposal`.
pub record Proposal : Type 0 where
  pub identity : String
  pub cluster : String
  pub operation : Operation
  pub target : Target
  pub reversibility : Reversibility

-- What `execute` reads of an `approve.Authorization`.
pub record Authorization : Type 0 where
  pub granted : Bool
  pub identity : String
  pub cluster : String
  pub operation : Operation
  pub target : Target
  pub preconditions : List Precondition

pub data ExecuteMode : Type 0 where
  execute_disabled execute_dry_run execute_enabled : ExecuteMode
  execute_unnamed : ℤ → ExecuteMode

pub data FailureClass : Type 0 where
  failure_none failure_not_authorized failure_cluster_mismatch : FailureClass
  failure_refused failure_kill_switch failure_unobservable failure_drifted : FailureClass
  failure_conflict failure_execute failure_record : FailureClass

-- The answer of one call of the write client: an outcome with its `DryRun`, neither an outcome nor
-- an error, or an error by its class.
pub data Reply : Type 0 where
  outcome : Bool → Reply
  no_outcome revision_not_found conflict too_many_requests other_error : Reply

-- The method of the write client that an operation calls, with the revision of a rollback.
pub data Call : Type 0 where
  restart_rollout cordon_node delete_pod : Call
  rollback_to : ℤ → Call

pub record Write : Type 0 where
  pub call : Call
  pub target : Target

pub record World : Type 0 where
  pub mode : ExecuteMode
  pub client_name : String
  pub snapshot : Option Snapshot
  pub reply : ℕ → Reply
  pub awake : ℕ → Bool
  pub records : Bool
  pub parse_int : String → Option ℤ
  pub format_int : ℤ → String

-- `Valid`, on a pointer that may be nil.
unfoldable pub is_valid : Option Authorization → Bool
is_valid none = false
is_valid (some auth) = auth.granted

-- Go's `==` on targets.
abbrev pub same_target : Target → Target → Bool
same_target t u =
    t.cluster == u.cluster
    && t.kind == u.kind
    && t.namespace == u.namespace
    && t.name == u.name
    && t.resource_version == u.resource_version

-- `Matches` of a valid authorization.
unfoldable pub matches : Authorization → Proposal → Bool
matches auth p =
    auth.identity == p.identity && auth.operation == p.operation && same_target auth.target p.target

-- `modePermitsAction`.
unfoldable pub mode_permits_action : ExecuteMode → Bool
mode_permits_action execute_disabled = false
mode_permits_action execute_dry_run = true
mode_permits_action execute_enabled = true
mode_permits_action (execute_unnamed n) = false

-- `checkAuthorization` of a valid authorization, and of any.
unfoldable pub check_granted : World → Authorization → Proposal → FailureClass
check_granted w auth p =
    if not (matches auth p)
    then failure_not_authorized
    else if not (auth.cluster == p.cluster) || not (p.cluster == w.client_name)
    then failure_cluster_mismatch
    else failure_none

unfoldable pub check_authorization : World → Option Authorization → Proposal → FailureClass
check_authorization w none p = failure_not_authorized
check_authorization w (some auth) p =
    if not auth.granted then failure_not_authorized else check_granted w auth p

-- `checkActionable` of an operation that has a plan: every plan has a rollback classification, a
-- send path, and no reason against it.
unfoldable pub is_actionable : Proposal → Bool
is_actionable p = eqb_ℤ p.reversibility reversible || eqb_ℤ p.reversibility recreated_by_controller

-- `resolveRollbackRevision`.
unfoldable pub resolve_revision : (String → Option ℤ) → List Precondition → Option ℤ
resolve_revision parse_int [] = none
resolve_revision parse_int (pc ∷ pcs) =
    let rest = resolve_revision parse_int pcs in
    if not (pc.kind == "revisionexists") then rest else elim (parse_int (trim_space pc.expect)) [
      | none ↦ none
      | some revision ↦ if leb_ℤ revision (pos 0) then none else some revision
    ]

pub data Planned : Type 0 where
  unplanned unresolved : Planned
  planned : Call → Planned

-- `planFor` and `resolveParams`: the call that an operation makes.
unfoldable pub plan_for : (String → Option ℤ) → Operation → List Precondition → Planned
plan_for parse_int op conditions =
    if op == op_rollout_restart
    then planned restart_rollout
    else if op == op_cordon_node
    then planned cordon_node
    else if op == op_delete_pod
    then planned delete_pod
    else if op == op_rollback_revision
    then elim (resolve_revision parse_int conditions) [
      | none ↦ unresolved
      | some revision ↦ planned (rollback_to revision)
    ]
    else unplanned
