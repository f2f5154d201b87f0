-- ===== src/Detect/Rules.antt =====
-- The rules of internal/detect/detector.go. Each returns the findings that its Go function adds.
use Prim.Native.String.{◌++◌}
use mathlib.Core.List.{◌++◌ as ◌+++◌}
use ma_klaude.Prelude.{
  is_empty, Bool, not, ◌&&◌, ◌||◌, String, List, [], ◌∷◌, if◌then◌else◌, ◌==◌, string_comparable,
}
use ma_klaude.Prelude.Int.{ℤ, pos, leb_ℤ, eqb_ℤ}
use ma_klaude.Health.{Snapshot, NodeSignal, PodSignal, DeploymentSignal, ReplicaSetSignal}
use ma_klaude.Detect.Finding.{
  Finding, Object, Severity, new_identity, severity_warning, severity_critical,
}

-- Of Go's standard library: `%q` of a string, `%d` of an integer, and `strings.ToLower`.
pub record Printing : Type 0 where
  pub quoted : String → String
  pub decimal : ℤ → String
  pub to_lower : String → String

abbrev pub high_restart_threshold : ℤ
high_restart_threshold = pos 5

-- An `add` under an `if`.
abbrev pub when : Bool → Finding → List Finding
when b f = if b then f ∷ [] else []

-- The findings of a loop over the signals of one kind.
abbrev pub each : {A : Type 0} → (A → List Finding) → List A → List Finding
each rule [] = []
each rule (x ∷ xs) = rule x +++ each rule xs

abbrev pub join_text : String → List String → String
join_text sep [] = ""
join_text sep (s ∷ []) = s
join_text sep (s ∷ t ∷ ss) = s ++ sep ++ join_text sep (t ∷ ss)

-- `len(p.CrashLoopingContainers) > 0`.
abbrev pub crashlooping : PodSignal → Bool
crashlooping p = not (is_empty p.crash_looping_containers)

-- The guard of the loops over the workloads: nothing is asked for, or enough is available.
abbrev pub enough : ℤ → ℤ → Bool
enough desired available = leb_ℤ desired (pos 0) || leb_ℤ desired available

module _ (go : Printing) (snap : Snapshot) where
  -- The fields that every rule fills alike.
  abbrev pub finding : String → Severity → Object → String → String → Finding
  finding rule sev obj title message = record {
    identity = new_identity snap.cluster rule obj;
    severity = sev;
    cluster = snap.cluster;
    object = obj;
    title = title;
    message = message;
    detected_at = snap.collected_at;
  }

  -- `analyzeReachability`.
  unfoldable pub analyze_reachability : List Finding
  analyze_reachability =
      let obj : Object = record { kind = "cluster"; namespace = ""; name = snap.cluster } in
      when (not snap.reachability.reachable) (
        finding "cluster.unreachable" severity_critical obj "Cluster API server unreachable" (
          "API server for cluster "
          ++ go.quoted snap.cluster
          ++ " did not respond: "
          ++ snap.reachability.error))

  -- `pressureFinding`.
  unfoldable pub pressure_finding : Object → String → String → String → Finding
  pressure_finding obj rule human node =
      finding ("node." ++ rule) severity_warning obj ("Node under " ++ human ++ " pressure")
        ("Node " ++ go.quoted node ++ " is reporting " ++ human ++ " pressure")

  -- The body of the loop of `analyzeNodes`.
  unfoldable pub analyze_node : NodeSignal → List Finding
  analyze_node n =
      let obj : Object = record { kind = "node"; namespace = ""; name = n.name } in
      when (not n.ready) (
        finding "node.notready" severity_critical obj "Node NotReady"
          ("Node " ++ go.quoted n.name ++ " is not Ready"))
      +++ when n.memory_pressure (pressure_finding obj "memorypressure" "memory" n.name)
      +++ when n.disk_pressure (pressure_finding obj "diskpressure" "disk" n.name)
      +++ when n.pid_pressure (pressure_finding obj "pidpressure" "PID" n.name)
      +++ when n.unschedulable (
          finding "node.cordoned" severity_warning obj "Node cordoned"
            ("Node " ++ go.quoted n.name ++ " is cordoned (unschedulable)"))

  -- The body of the loop of `analyzePods`.
  unfoldable pub analyze_pod : PodSignal → List Finding
  analyze_pod p =
      let obj : Object = record { kind = "pod"; namespace = p.namespace; name = p.name } in
      let pod = "Pod " ++ p.namespace ++ "/" ++ p.name in
      when (crashlooping p) (
        finding "pod.crashloop" severity_critical obj "Pod crashlooping"
          (pod ++ " has crashlooping container(s): " ++ join_text ", " p.crash_looping_containers))
      +++ when p.failed (
          finding "pod.failed" severity_warning obj "Pod Failed" (
            pod
            ++ " is in the Failed phase"
            ++ (if p.reason == "" then "" else " (reason: " ++ p.reason ++ ")")))
      +++ when p.pending (
          finding "pod.pending" severity_warning obj "Pod Pending"
            (pod ++ " is Pending and not yet running"))
      +++ when (not (crashlooping p) && leb_ℤ high_restart_threshold p.restart_count) (
          finding "pod.highrestarts" severity_warning obj "Pod high restart count" (
            pod
            ++ " has restarted "
            ++ go.decimal p.restart_count
            ++ " times (threshold "
            ++ go.decimal high_restart_threshold
            ++ ")"))

  abbrev replicas_message : String → ℤ → ℤ → String
  replicas_message workload available desired =
      workload
      ++ " has "
      ++ go.decimal available
      ++ "/"
      ++ go.decimal desired
      ++ " replicas available"

  -- The body of the loop of `analyzeDeployments`.
  unfoldable pub analyze_deployment : DeploymentSignal → List Finding
  analyze_deployment d =
      let obj : Object = record { kind = "deployment"; namespace = d.namespace; name = d.name } in
      let down = eqb_ℤ d.available_replicas (pos 0) in
      when (not (enough d.desired_replicas d.available_replicas)) (
        finding "deployment.underreplicated" (if down then severity_critical else severity_warning)
          obj (if down then "Deployment unavailable" else "Deployment degraded")
          (replicas_message ("Deployment " ++ d.namespace ++ "/" ++ d.name) d.available_replicas
            d.desired_replicas))

  -- The body of the loop of `analyzeReplicaSets`.
  unfoldable pub analyze_replica_set : ReplicaSetSignal → List Finding
  analyze_replica_set r =
      let obj : Object = record { kind = "replicaset"; namespace = r.namespace; name = r.name } in
      let down = eqb_ℤ r.available_replicas (pos 0) in
      when (not (enough r.desired_replicas r.available_replicas)) (
        finding "replicaset.underreplicated" (if down then severity_critical else severity_warning)
          obj (if down then "ReplicaSet unavailable" else "ReplicaSet degraded")
          (replicas_message ("ReplicaSet " ++ r.namespace ++ "/" ++ r.name) r.available_replicas
            r.desired_replicas))

  -- What `Analyze` has found in a reachable cluster before it turns to the events.
  unfoldable pub structural : List Finding
  structural =
      analyze_reachability
      +++ each analyze_node snap.nodes
      +++ each analyze_pod snap.pods
      +++ each analyze_deployment snap.deployments
      +++ each analyze_replica_set snap.replica_sets
