-- ===== src/Execute/Run.antt =====
-- `Runner.execute` of internal/execute/execute.go, with the plans of plan.go and the retries of
-- mutate.go. The write client, the observer and the recorder answer as World says; a write is
-- recorded with what it asks for.
pub mod Checks
use ma_klaude.Prelude.{
  ℕ, zero, suc, Bool, true, false, not, ◌&&◌, ◌||◌, String, List, [], ◌∷◌, Option, none, some,
  nat_beq, is_empty, if◌then◌else◌, ◌==◌, string_comparable,
}
use ma_klaude.Prelude.Int.{ℤ, pos, negsuc, leb_ℤ, eqb_ℤ}
use ma_klaude.Prelude.Text.{trim_space}
use ma_klaude.Health.{Snapshot}
use ma_klaude.Remediate.{
  Operation, Reversibility, Target, op_rollout_restart, op_rollback_revision, op_delete_pod,
  op_cordon_node, reversible, recreated_by_controller,
}
use ma_klaude.Execute.Index.{ClusterIndex, new_cluster_index}
use ma_klaude.Execute.PreState.{capture_pre_state}
use ma_klaude.Execute.Preconditions.{Precondition, recheck_preconditions, all_held}
unfoldable pub use ma_klaude.Execute.Run.Checks.{
  is_valid, matches, mode_permits_action, check_granted, check_authorization, is_actionable,
  resolve_revision, plan_for,
}
pub use ma_klaude.Execute.Run.Checks.{
  Proposal, Authorization, ExecuteMode, FailureClass, Reply, Call, Write, World, same_target,
  Planned, execute_disabled, execute_dry_run, execute_enabled, execute_unnamed, failure_none,
  failure_not_authorized, failure_cluster_mismatch, failure_refused, failure_kill_switch,
  failure_unobservable, failure_drifted, failure_conflict, failure_execute, failure_record, outcome,
  no_outcome, revision_not_found, conflict, too_many_requests, other_error, restart_rollout,
  cordon_node, delete_pod, rollback_to, unplanned, unresolved, planned,
}

pub record Report : Type 0 where
  pub failure : FailureClass
  pub preconditions : List (Precondition × Bool)
  pub attempts : ℕ
  pub executed : Bool
  pub dry_run : Bool
  pub recorded : Bool

-- `fail` on a report that has seen no write.
abbrev pub unsent : FailureClass → List (Precondition × Bool) → Report
unsent class checks = record {
  failure = class;
  preconditions = checks;
  attempts = 0;
  executed = false;
  dry_run = false;
  recorded = false;
}

-- The calls of the write client that `send` makes, and the last answer; none if the wait before
-- another attempt was cut short.
pub record Sent : Type 0 where
  pub calls : ℕ
  pub last : Option Reply

-- `isRetryable`, and no error.
unfoldable pub is_retryable : Reply → Bool
is_retryable too_many_requests = true
is_retryable (outcome dry) = false
is_retryable no_outcome = false
is_retryable revision_not_found = false
is_retryable conflict = false
is_retryable other_error = false

-- The loop of `send`, with the attempts that are left.
unfoldable pub send_from : World → ℕ → ℕ → ℕ → Sent
send_from w max zero attempt = record { calls = max; last = some no_outcome }
send_from w max (suc left) attempt =
    let rest = send_from w max left (suc attempt) in
    if not (is_retryable (w.reply attempt)) || nat_beq attempt max
    then record { calls = attempt; last = some (w.reply attempt) }
    else if not (w.awake attempt)
    then record { calls = attempt; last = none }
    else rest

-- `MaxAttempts` after `normalized`.
unfoldable pub max_attempts : ℤ → ℕ
max_attempts (pos zero) = 3
max_attempts (pos (suc n)) = suc n
max_attempts (negsuc n) = 3

-- `send`.
unfoldable pub send : World → ℤ → Sent
send w policy = send_from w (max_attempts policy) (max_attempts policy) 1

-- A preview: the mode or the outcome says so.
abbrev pub is_preview : World → Bool → Bool
is_preview w dry = elim w.mode [
  | execute_dry_run ↦ true
  | execute_disabled ↦ dry
  | execute_enabled ↦ dry
  | execute_unnamed n ↦ dry
]

abbrev pub is_there : {A : Type 0} → Option A → Bool
is_there none = false
is_there (some a) = true

-- The part of `execute` after a successful call, up to the watch of the cluster: a preview is over,
-- a change is recorded.
unfoldable pub after_outcome : World → List (Precondition × Bool) → ℕ → Bool → Report
after_outcome w checks calls dry = record {
  failure =
      (if is_preview w dry
        then failure_none
        else if w.records
        then failure_none
        else failure_record);
  preconditions = checks;
  attempts = calls;
  executed = not (is_preview w dry);
  dry_run = is_preview w dry;
  recorded = not (is_preview w dry) && w.records;
}

-- The switch of `execute` on the answer.
unfoldable pub after_send : World → List (Precondition × Bool) → Sent → Report
after_send w checks sent = elim sent.last [
  | none ↦ record (unsent failure_execute checks) { attempts = sent.calls }
  | some (outcome dry) ↦ after_outcome w checks sent.calls dry
  | some no_outcome ↦ record (unsent failure_execute checks) { attempts = sent.calls }
  | some revision_not_found ↦ unsent failure_drifted checks
  | some conflict ↦ record (unsent failure_conflict checks) { attempts = sent.calls }
  | some too_many_requests ↦ record (unsent failure_execute checks) { attempts = sent.calls }
  | some other_error ↦ record (unsent failure_execute checks) { attempts = sent.calls }
]

-- One write for each call.
abbrev pub writes_of : ℕ → Write → List Write
writes_of zero write = []
writes_of (suc n) write = write ∷ writes_of n write

-- `capturePreState` gives no error.
unfoldable pub captures : (ℤ → String) → ClusterIndex → Target → Bool
captures format_int idx t = is_there (capture_pre_state format_int idx t)

-- A run: its report, and the writes that the cluster was asked for.
pub record Run : Type 0 where
  pub report : Report
  pub writes : List Write

abbrev pub refuse : FailureClass → List (Precondition × Bool) → Run
refuse class checks = record { report = unsent class checks; writes = [] }

-- `execute` from the read of the cluster on, with the call that the plan makes.
unfoldable pub act_on : World → ℤ → List Precondition → Proposal → Call → Snapshot → Run
act_on w policy conditions p call snap =
    let idx = new_cluster_index snap in
    let checks = recheck_preconditions w.parse_int idx conditions p.target in
    let sent = send w policy in
    if not snap.reachability.reachable
    then refuse failure_unobservable []
    else if not (snap.cluster == p.cluster)
    then refuse failure_cluster_mismatch []
    else if not (all_held checks)
    then refuse failure_drifted checks
    else if not (captures w.format_int idx p.target)
    then refuse failure_refused checks
    else record {
      report = after_send w checks sent;
      writes = writes_of sent.calls (record { call = call; target = p.target });
    }

-- `execute` from the plan on.
unfoldable pub act_planned : World → ℤ → List Precondition → Proposal → Planned → Run
act_planned w policy conditions p unplanned = refuse failure_refused []
act_planned w policy conditions p unresolved = refuse failure_refused []
act_planned w policy conditions p (planned call) =
    if not (is_actionable p) || is_empty conditions
    then refuse failure_refused []
    else elim w.snapshot [
      | none ↦ refuse failure_unobservable []
      | some snap ↦ act_on w policy conditions p call snap
    ]

-- `execute` from the mode on, with the preconditions of the authorization.
unfoldable pub act : World → ℤ → List Precondition → Proposal → Run
act w policy conditions p =
    if not (mode_permits_action w.mode)
    then refuse failure_kill_switch []
    else act_planned w policy conditions p (plan_for w.parse_int p.operation conditions)

-- `Preconditions` of an authorization.
unfoldable pub conditions_of : Option Authorization → List Precondition
conditions_of none = []
conditions_of (some auth) = if auth.granted then auth.preconditions else []

-- What follows the authorization check.
abbrev pub run_if_passed : FailureClass → Run → Run
run_if_passed failure_none run = run
run_if_passed class run = refuse class []

-- `execute`.
unfoldable pub execute : World → ℤ → Option Authorization → Proposal → Run
execute w policy auth p =
    run_if_passed (check_authorization w auth p) (act w policy (conditions_of auth) p)
