-- ===== src/Execute/Tests.antt =====
-- A rollout restart of a deployment that is there, with a first answer `TooManyRequests`.
use Prim.Native.Char.{code}
use Prim.Native.Nat.{ℕ, zero, suc}
use Prim.Native.Nat.{◌+◌, ◌*◌, ◌≤◌}
use ma_klaude.Prelude.{none}
use ma_klaude.Prelude.{◌==◌, string_comparable, arith}
use ma_klaude.Execute.Observe.{
  Watch, Convergence, convergence_converged, observe, observe_from, held, sees,
  room_for_another_read, window_of, interval_of,
}
use ma_klaude.Prelude.{ap, nat_beq, String, Option}
use ma_klaude.Prelude.Int.{negsuc, ℤ}
use ma_klaude.Health.{DeploymentSignal}
use ma_klaude.Execute.Index.{ClusterIndex}
use ma_klaude.Execute.PreState.{deployment_state, rollout_restart_converged}
use ma_klaude.Execute.Unchanged.{restart-unconverged}
use ma_klaude.Prelude.{
  subst, sym, if◌then◌else◌, true, false, [], ◌∷◌, some, ◌≡◌, inl, refl, Elem, nat_beq,
}
use ma_klaude.Prelude.Int.{pos}
use ma_klaude.Health.{Snapshot}
use ma_klaude.Remediate.{Target, op_rollout_restart, reversible}
use ma_klaude.Execute.Preconditions.{
  recheck_preconditions, check_precondition, check_unchanged, all_held,
}
use ma_klaude.Execute.Index.{resource_version_of, new_cluster_index, object_key, index_replica_sets}
use ma_klaude.Prelude.Text.{trim_space}
use ma_klaude.Prelude.Assoc.{fetch, store}
use ma_klaude.Execute.Run.{
  Proposal, Authorization, execute_enabled, World, outcome, too_many_requests, Write,
  restart_rollout, execute, check_authorization, check_granted, matches, conditions_of, act,
  mode_permits_action, act_planned, plan_for, is_actionable, act_on, captures, send, send_from,
  is_retryable, max_attempts, writes_of,
}
use ma_klaude.Execute.Run.{after_send, after_outcome}
use ma_klaude.Execute.Marked.{IsMarked, execute-IsMarked}
use ma_klaude.Execute.PreState.{capture_pre_state}
use ma_klaude.Execute.Licensed.{IsLicensed, execute-IsLicensed}
use ma_klaude.Execute.Observe.Verdict.{IsLast, Says, observe-Ends}
use ma_klaude.Execute.Marked.{HasChanged}
use ma_klaude.Execute.Made.{execute-AreTries}
use ma_klaude.Execute.Attempts.{AreTries}

abbrev deployment : DeploymentSignal
deployment = record {
  namespace = "web";
  name = "api";
  resource_version = "7";
  desired_replicas = pos 2;
  ready_replicas = pos 1;
  available_replicas = pos 1;
  updated_replicas = pos 2;
}

abbrev snap : Snapshot
snap = record {
  cluster = "prod";
  collected_at = 9;
  reachability = record { reachable = true; server_version = "v1"; error = "" };
  nodes = [];
  pods = [];
  deployments = deployment ∷ [];
  replica_sets = [];
  warning_events = [];
}

abbrev api : Target
api = record {
  cluster = "prod";
  kind = "deployment";
  namespace = "web";
  name = "api";
  resource_version = "7";
}

abbrev restart : Proposal
restart = record {
  identity = "p1";
  cluster = "prod";
  operation = op_rollout_restart;
  target = api;
  reversibility = reversible;
}

abbrev slip : Authorization
slip = record {
  granted = true;
  identity = "p1";
  cluster = "prod";
  operation = op_rollout_restart;
  target = api;
  preconditions = record { kind = "unchanged"; expect = "7" } ∷ [];
}

abbrev busy_once : World
busy_once = record {
  mode = execute_enabled;
  client_name = "prod";
  snapshot = some snap;
  reply = λ n. if nat_beq n 1 then too_many_requests else outcome false;
  awake = λ n. true;
  records = true;
  parse_int = λ s. some (pos 2);
  format_int = λ n. "2";
}

abbrev restarts : Write
restarts = record { call = restart_rollout; target = api }

two_writes : (execute busy_once (pos 3) (some slip) restart).writes ≡ restarts ∷ restarts ∷ []
unfolding execute check_authorization check_granted matches conditions_of act mode_permits_action
    act_planned plan_for is_actionable act_on recheck_preconditions check_precondition
    check_unchanged resource_version_of new_cluster_index object_key index_replica_sets captures
    all_held send send_from is_retryable max_attempts trim_space fetch store capture_pre_state
two_writes = refl

a_write : Elem restarts (execute busy_once (pos 3) (some slip) restart).writes
a_write = subst (λ ws. Elem restarts ws) (sym two_writes) (inl refl)

execute-IsLicensed_example : IsLicensed busy_once (some slip) restart restarts
execute-IsLicensed_example =
    execute-IsLicensed busy_once (pos 3) (some slip) restart restarts a_write

execute-AreTries_example :
    (calls : ℕ) × ((execute busy_once (pos 3) (some slip) restart).writes
      ≡ writes_of calls restarts)
    × AreTries busy_once 3 calls
unfolding max_attempts
execute-AreTries_example =
    execute-AreTries busy_once (pos 3) (some slip) restart restarts
      (execute-IsLicensed busy_once (pos 3) (some slip) restart restarts a_write)

claims : (execute busy_once (pos 3) (some slip) restart).report.executed ≡ true
unfolding execute check_authorization check_granted matches conditions_of act mode_permits_action
    act_planned plan_for is_actionable act_on recheck_preconditions check_precondition
    check_unchanged resource_version_of new_cluster_index object_key index_replica_sets captures
    all_held send send_from is_retryable max_attempts trim_space fetch store after_send
    after_outcome capture_pre_state
claims = refl

execute-IsMarked_example :
    IsMarked busy_once
      (execute busy_once (pos 3) (some slip) restart).report
      (HasChanged busy_once (pos 3) (execute busy_once (pos 3) (some slip) restart))
execute-IsMarked_example = execute-IsMarked busy_once (pos 3) (some slip) restart

-- Numbers printed in strokes, and read again.
abbrev strokes : ℕ → String
strokes zero = ""
strokes (suc n) = String.◌∷◌ "|" (strokes n)

abbrev count : String → ℕ
count String.[] = 0
count (String.◌∷◌ c s) = suc (count s)

abbrev unary : ℤ → String
unary (pos n) = strokes n
unary (negsuc n) = String.◌∷◌ "-" (strokes n)

abbrev read_unary : String → Option ℤ
read_unary String.[] = some (pos 0)
read_unary (String.◌∷◌ c s) =
    if nat_beq (code c) 45 then some (negsuc (count s)) else some (pos (suc (count s)))

count-strokes : (n : ℕ) → count (strokes n) ≡ n
count-strokes zero = refl
count-strokes (suc n) = ap suc (count-strokes n)

read_unary-unary : (n : ℤ) → read_unary (unary n) ≡ some n
read_unary-unary (pos zero) = refl
read_unary-unary (pos (suc n)) = ap (λ k. some (pos (suc k))) (count-strokes n)
read_unary-unary (negsuc n) = ap (λ k. some (negsuc k)) (count-strokes n)

abbrev idx : ClusterIndex
idx = record {
  snapshot = snap;
  pods = [];
  nodes = [];
  deployments = ("web/api", deployment) ∷ [];
  replica_sets_by_deployment = ("web/api", record { name = "api-1"; revision = pos 2 } ∷ []) ∷ [];
}

taken : capture_pre_state unary idx api ≡ some (deployment_state unary idx api deployment)
unfolding capture_pre_state object_key fetch
taken = refl

restart-unconverged_example :
    rollout_restart_converged read_unary idx (deployment_state unary idx api deployment) api ≡ false
restart-unconverged_example =
    restart-unconverged unary read_unary idx api (deployment_state unary idx api deployment)
      read_unary-unary refl taken

-- The first read fails, and the second one sees the deployment.
abbrev second_look : Watch
second_look = record {
  observe_window = pos 10;
  observe_interval = pos 5;
  read = λ n. if nat_beq n 0 then none else some snap;
  elapsed = λ n. n * 5;
  awake = λ n. true;
}

seen_second : observe second_look (λ s. s.cluster == "prod") ≡ some convergence_converged
unfolding observe observe_from held sees room_for_another_read window_of interval_of
seen_second = refl

sleeps :
    (n : ℕ)
    → second_look.awake n ≡ true
    → second_look.elapsed n + interval_of second_look ≤ second_look.elapsed (suc n)
unfolding interval_of
sleeps n a = omega arith

observe-Ends_example :
    (v : Convergence) × (last : ℕ) × (observe second_look (λ s. s.cluster == "prod") ≡ some v)
    × IsLast second_look (λ s. s.cluster == "prod") last
    × Says second_look (λ s. s.cluster == "prod") last v
observe-Ends_example = observe-Ends second_look (λ s. s.cluster == "prod") sleeps
