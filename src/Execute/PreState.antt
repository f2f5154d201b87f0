-- ===== src/Execute/PreState.antt =====
-- internal/execute/prestate.go and the checks of plan.go that read a pre-state: what the target was
-- before the action, and whether the cluster has come to the state that the action, or its undoing,
-- asks for. The sentence that goes with an answer is left out. `format_int` and `parse_int` are
-- strconv.FormatInt and strconv.ParseInt in base ten.
use Prim.Native.String.{◌++◌}
use ma_klaude.Prelude.{
  Bool, true, false, not, ◌||◌, String, List, [], ◌∷◌, Option, none, some, if◌then◌else◌, ◌==◌,
  string_comparable,
}
use ma_klaude.Prelude.Int.{Time}
use ma_klaude.Prelude.Int.{ℤ, pos, leb_ℤ, ltb_ℤ, eqb_ℤ}
use ma_klaude.Health.{OwnerRef, NodeSignal, DeploymentSignal, PodSignal}
use ma_klaude.Remediate.{Target}
use ma_klaude.Execute.Index.{
  ClusterIndex, ReplicaSetRevision, pod_of, node_of, deployment_of, revisions, object_key, owned_by,
}

pub record PreStateField : Type 0 where
  pub name : String
  pub value : String

pub record PreState : Type 0 where
  pub captured : Bool
  pub kind : String
  pub resource_version : String
  pub observed_at : Time
  pub fields : List PreStateField

unfoldable pub field_among : List PreStateField → String → Option String
field_among [] name = none
field_among (f ∷ fs) name =
    let rest = field_among fs name in if f.name == name then some f.value else rest

-- `Field`.
unfoldable pub field_of : PreState → String → Option String
field_of pre name = field_among pre.fields name

-- `strconv.FormatBool`.
abbrev pub format_bool : Bool → String
format_bool true = "true"
format_bool false = "false"

abbrev pub field : String → String → PreStateField
field name value = record { name = name; value = value }

-- `maxRevision`, from the highest so far.
unfoldable pub max_revision_from : ℤ → List ℤ → ℤ
max_revision_from highest [] = highest
max_revision_from highest (rev ∷ revs) =
    max_revision_from (if ltb_ℤ highest rev then rev else highest) revs

unfoldable pub max_revision : List ℤ → ℤ
max_revision revs = max_revision_from (pos 0) revs

-- The loop of `currentReplicaSet`.
unfoldable pub latest_of : ReplicaSetRevision → List ReplicaSetRevision → ReplicaSetRevision
latest_of current [] = current
latest_of current (rs ∷ sets) =
    latest_of (if ltb_ℤ current.revision rs.revision then rs else current) sets

-- `currentReplicaSet`.
unfoldable pub current_replica_set : ClusterIndex → String → String → Option String
current_replica_set idx namespace name =
    let current =
      latest_of (record { name = ""; revision = pos 0 })
        (owned_by idx.replica_sets_by_deployment (object_key namespace name)) in
    if ltb_ℤ (pos 0) current.revision then some current.name else none

abbrev pub no_replica_set : String
no_replica_set = "none"

-- The name of the first controller among the owners of a pod.
unfoldable pub controller_of : List OwnerRef → String
controller_of [] = "none"
controller_of (o ∷ owners) =
    let rest = controller_of owners in if o.controller then o.kind ++ "/" ++ o.name else rest

abbrev pub node_state : ClusterIndex → Target → NodeSignal → PreState
node_state idx t node = record {
  captured = true;
  kind = t.kind;
  resource_version = node.resource_version;
  observed_at = idx.snapshot.collected_at;
  fields =
      field "unschedulable" (format_bool node.unschedulable)
      ∷ field "ready" (format_bool node.ready)
      ∷ [];
}

abbrev pub pod_state : ClusterIndex → Target → PodSignal → PreState
pod_state idx t pod = record {
  captured = true;
  kind = t.kind;
  resource_version = pod.resource_version;
  observed_at = idx.snapshot.collected_at;
  fields =
      field "phase" pod.phase
      ∷ field "node" pod.node
      ∷ field "controller" (controller_of pod.owners)
      ∷ [];
}

-- `noReplicaSet` where there is none.
abbrev pub or_no_replica_set : Option String → String
or_no_replica_set none = no_replica_set
or_no_replica_set (some name) = name

module _ (format_int : ℤ → String) where
  abbrev pub deployment_state : ClusterIndex → Target → DeploymentSignal → PreState
  deployment_state idx t dep = record {
    captured = true;
    kind = t.kind;
    resource_version = dep.resource_version;
    observed_at = idx.snapshot.collected_at;
    fields =
        field "desiredReplicas" (format_int dep.desired_replicas)
        ∷ field "readyReplicas" (format_int dep.ready_replicas)
        ∷ field "updatedReplicas" (format_int dep.updated_replicas)
        ∷ field "availableReplicas" (format_int dep.available_replicas)
        ∷ field "maxRevision" (format_int (max_revision (revisions idx t.namespace t.name)))
        ∷ field "currentReplicaSet" (or_no_replica_set (current_replica_set idx t.namespace t.name))
        ∷ [];
  }

  -- `capturePreState`.
  unfoldable pub capture_pre_state : ClusterIndex → Target → Option PreState
  capture_pre_state idx t =
      if t.kind == "node"
      then elim (node_of idx t.name) [ none ↦ none | some node ↦ some (node_state idx t node) ]
      else if t.kind == "deployment"
      then elim (deployment_of idx t.namespace t.name) [
        | none ↦ none
        | some dep ↦ some (deployment_state idx t dep)
      ]
      else if t.kind == "pod"
      then elim (pod_of idx t.namespace t.name) [
        | none ↦ none
        | some pod ↦ some (pod_state idx t pod)
      ]
      else none

-- `preRevision`.
unfoldable pub pre_revision : (String → Option ℤ) → PreState → ℤ
pre_revision parse_int pre = elim (field_of pre "maxRevision") [
  | none ↦ pos 0
  | some raw ↦ elim (parse_int raw) [ none ↦ pos 0 | some rev ↦ rev ]
]

-- `rolloutRestartConverged`.
unfoldable pub rollout_restart_converged :
    (String → Option ℤ) → ClusterIndex → PreState → Target → Bool
rollout_restart_converged parse_int idx pre t = elim (deployment_of idx t.namespace t.name) [
  | none ↦ false
  | some dep ↦
      if leb_ℤ (max_revision (revisions idx t.namespace t.name)) (pre_revision parse_int pre)
      then false
      else if not (eqb_ℤ dep.updated_replicas dep.desired_replicas)
          || not (eqb_ℤ dep.ready_replicas dep.desired_replicas)
          || not (eqb_ℤ dep.available_replicas dep.desired_replicas)
      then false
      else true
]

-- `cordonConverged`.
unfoldable pub cordon_converged : ClusterIndex → Target → Bool
cordon_converged idx t = elim (node_of idx t.name) [ none ↦ false | some node ↦ node.unschedulable ]

-- `deletePodConverged`.
unfoldable pub delete_pod_converged : ClusterIndex → Target → Bool
delete_pod_converged idx t = elim (pod_of idx t.namespace t.name) [ none ↦ true | some pod ↦ false ]

-- `rollForwardSatisfied` against the recorded name.
unfoldable pub back_on : ClusterIndex → Target → String → Bool
back_on idx t was =
    if was == "" || was == no_replica_set
    then false
    else elim (deployment_of idx t.namespace t.name) [
      | none ↦ false
      | some dep ↦ elim (current_replica_set idx t.namespace t.name) [
        | none ↦ false
        | some now ↦ now == was
      ]
    ]

-- `rollForwardSatisfied`.
unfoldable pub roll_forward_satisfied : ClusterIndex → PreState → Target → Bool
roll_forward_satisfied idx pre t = elim (field_of pre "currentReplicaSet") [
  | none ↦ false
  | some was ↦ back_on idx t was
]

-- The empty string for a missing field.
abbrev pub or_empty : Option String → String
or_empty none = ""
or_empty (some value) = value

-- `uncordonSatisfied`.
unfoldable pub uncordon_satisfied : ClusterIndex → PreState → Target → Bool
uncordon_satisfied idx pre t = elim (node_of idx t.name) [
  | none ↦ false
  | some node ↦ format_bool node.unschedulable == or_empty (field_of pre "unschedulable")
]
