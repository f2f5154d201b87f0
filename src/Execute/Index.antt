-- ===== src/Execute/Index.antt =====
-- The index of a snapshot, of internal/execute/precondition.go.
use Prim.Native.String.{◌++◌}
use ma_klaude.Prelude.{
  String, List, [], ◌∷◌, map, Option, none, some, if◌then◌else◌, ◌==◌, string_comparable,
}
use ma_klaude.Prelude.Int.{ℤ, pos, leb_ℤ}
use ma_klaude.Prelude.Assoc.{fetch, store}
use ma_klaude.Health.{Snapshot, PodSignal, NodeSignal, DeploymentSignal, ReplicaSetSignal, OwnerRef}
use ma_klaude.Remediate.{Target}

pub record ReplicaSetRevision : Type 0 where
  pub name : String
  pub revision : ℤ

pub record ClusterIndex : Type 0 where
  pub snapshot : Snapshot
  pub pods : List (String × PodSignal)
  pub nodes : List (String × NodeSignal)
  pub deployments : List (String × DeploymentSignal)
  pub replica_sets_by_deployment : List (String × List ReplicaSetRevision)

-- `objectKey`.
unfoldable pub object_key : String → String → String
object_key namespace name = namespace ++ "/" ++ name

-- A loop that stores each element under its key.
abbrev pub store_all : {A : Type 0} → (A → String) → List (String × A) → List A → List (String × A)
store_all key m [] = m
store_all key m (x ∷ xs) = store_all key (store m (key x) x) xs

-- A nil slice for a missing key.
abbrev pub owned_by : List (String × List ReplicaSetRevision) → String → List ReplicaSetRevision
owned_by m key = elim (fetch m key) [ none ↦ [] | some sets ↦ sets ]

abbrev pub snoc : {A : Type 0} → List A → A → List A
snoc [] y = y ∷ []
snoc (x ∷ xs) y = x ∷ snoc xs y

-- The inner loop over the owners of a replica set.
unfoldable pub index_owners :
    ReplicaSetSignal
    → List (String × List ReplicaSetRevision)
    → List OwnerRef
    → List (String × List ReplicaSetRevision)
index_owners rs m [] = m
index_owners rs m (o ∷ owners) =
    let key = object_key rs.namespace o.name in
    let added =
      store m key (snoc (owned_by m key) (record { name = rs.name; revision = rs.revision })) in
    index_owners rs (if o.kind == "Deployment" then added else m) owners

-- The loop over the replica sets.
unfoldable pub index_replica_sets :
    List (String × List ReplicaSetRevision)
    → List ReplicaSetSignal
    → List (String × List ReplicaSetRevision)
index_replica_sets m [] = m
index_replica_sets m (rs ∷ sets) =
    index_replica_sets (if leb_ℤ rs.revision (pos 0) then m else index_owners rs m rs.owners) sets

-- `newClusterIndex`.
unfoldable pub new_cluster_index : Snapshot → ClusterIndex
new_cluster_index snap = record {
  snapshot = snap;
  pods = store_all (λ p. object_key p.namespace p.name) [] snap.pods;
  nodes = store_all (λ n. n.name) [] snap.nodes;
  deployments = store_all (λ d. object_key d.namespace d.name) [] snap.deployments;
  replica_sets_by_deployment = index_replica_sets [] snap.replica_sets;
}

-- `pod`, `node` and `deployment` of the index.
abbrev pub pod_of : ClusterIndex → String → String → Option PodSignal
pod_of idx namespace name = fetch idx.pods (object_key namespace name)

abbrev pub node_of : ClusterIndex → String → Option NodeSignal
node_of idx name = fetch idx.nodes name

abbrev pub deployment_of : ClusterIndex → String → String → Option DeploymentSignal
deployment_of idx namespace name = fetch idx.deployments (object_key namespace name)

-- `revisions`.
unfoldable pub revisions : ClusterIndex → String → String → List ℤ
revisions idx namespace name =
    map (λ rs. rs.revision) (owned_by idx.replica_sets_by_deployment (object_key namespace name))

-- `resourceVersion`.
unfoldable pub resource_version_of : ClusterIndex → Target → Option String
resource_version_of idx t =
    if t.kind == "deployment"
    then elim (deployment_of idx t.namespace t.name) [
      | none ↦ none
      | some d ↦ some d.resource_version
    ]
    else if t.kind == "pod"
    then elim (pod_of idx t.namespace t.name) [ none ↦ none | some p ↦ some p.resource_version ]
    else if t.kind == "node"
    then elim (node_of idx t.name) [ none ↦ none | some n ↦ some n.resource_version ]
    else none
