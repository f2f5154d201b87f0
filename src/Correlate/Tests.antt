-- ===== src/Correlate/Tests.antt =====
-- A node that is not ready, a crashlooping pod on it, and a pod elsewhere.
use mathlib.Core.List.{Permᴰ}
use ma_klaude.Prelude.{true, false, String, List, [], ◌∷◌, map, refl, ◌≡◌, ◌↔◌, arith}
use ma_klaude.Prelude.Int.{pos}
use ma_klaude.Prelude.Sorts.{text_less, insert_by, sort_by}
use ma_klaude.Health.{Snapshot, PodSignal}
use ma_klaude.Detect.Finding.{
  Finding, object_of, object_text, severity_critical, severity_warning, Severity,
}
use ma_klaude.Correlate.UnionFind.{new_union_find, halve, find_loop, find, link, swaps, join, union}
use ma_klaude.Correlate.UnionFind.Find.{Finds, find-Finds}
use ma_klaude.Prelude.Assoc.{fetch, store}
use ma_klaude.Correlate.Edges.{
  cause_precedence, cause_objects, pod_cause_objects, owners_objects, owner_objects,
  match_deployment, longest_owner, lower_kind,
}
use ma_klaude.Correlate.Groups.{
  index_objects, deploy_names, index_pods, union_same, union_targets, union_causes, causes_of,
  unions,
}
use ma_klaude.Correlate.Groups.Classes.{Related, unions-IsForest}
use ma_klaude.Correlate.Incident.{
  Incident, new_incident_identity, gather, more_primary, pick, others, build_incident, build_all,
  components, correlate,
}
use ma_klaude.Correlate.Incident.Partition.{all_findings, correlate-perm}
use ma_klaude.Correlate.Incident.Partition.Components.{InOneComponent, components-Related}

abbrev pod_on : String → String → PodSignal
pod_on node name = record {
  namespace = "web";
  name = name;
  resource_version = "1";
  phase = "Running";
  reason = "";
  restart_count = pos 9;
  crash_looping_containers = "main" ∷ [];
  pending = false;
  failed = false;
  node = node;
  owners = record { kind = "ReplicaSet"; name = "shop-5f9"; controller = true } ∷ [];
  containers = [];
  requests = record { cpu = ""; memory = "" };
}

abbrev snap : Snapshot
snap = record {
  cluster = "prod";
  collected_at = 9;
  reachability = record { reachable = true; server_version = "v1"; error = "" };
  nodes = [];
  pods = pod_on "n1" "shop-5f9-a" ∷ pod_on "n2" "cart-77c-b" ∷ [];
  deployments = [];
  replica_sets = [];
  warning_events = [];
}

abbrev about : String → String → String → Severity → Finding
about kind namespace name severity = record {
  identity = name;
  severity = severity;
  cluster = "prod";
  object = object_of kind namespace name;
  title = "";
  message = "";
  detected_at = 9;
}

abbrev findings : List Finding
findings =
    about "pod" "web" "shop-5f9-a" severity_critical
    ∷ about "node" "" "n1" severity_critical
    ∷ about "deployment" "web" "shop" severity_warning
    ∷ about "pod" "web" "other" severity_warning
    ∷ []

abbrev names : List Incident → List (String × List String)
names = map (λ incident. (incident.identity, map (λ f. f.identity) incident.effects))

groups_the_pod :
    names (correlate snap findings)
    ≡ (("incident|n1", "shop" ∷ "shop-5f9-a" ∷ []) ∷ ("incident|other", []) ∷ [])
unfolding correlate components gather build_all build_incident pick others more_primary
    cause_precedence unions union_same union_causes union_targets causes_of cause_objects
    pod_cause_objects owners_objects owner_objects match_deployment longest_owner lower_kind
    index_objects deploy_names index_pods union join swaps link find find_loop halve new_union_find
    object_text sort_by insert_by text_less new_incident_identity fetch store
groups_the_pod = refl

find-Finds_example : Finds 4 (unions snap findings) 2 (find (unions snap findings) 2)
find-Finds_example =
    find-Finds 4 (unions snap findings) 2 (unions-IsForest snap findings) (omega arith)

components-Related_example :
    InOneComponent snap findings 0 2 ↔ Related (causes_of snap findings) findings 0 2
components-Related_example = components-Related snap findings 0 2 (omega arith) (omega arith)

correlate-perm_example : Permᴰ (all_findings (correlate snap findings)) findings
correlate-perm_example = correlate-perm snap findings
