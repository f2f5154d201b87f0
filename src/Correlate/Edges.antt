-- ===== src/Correlate/Edges.antt =====
-- The structural edges of internal/correlate/correlate.go: the objects that a finding points to as
-- its likely causes.
use Prim.Native.String.{◌++◌, len}
use mathlib.Core.List.{◌++◌ as ◌+++◌}
use text.Mathlib.Text.{starts_with}
use ma_klaude.Prelude.{
  ℕ, ◌&&◌, ◌||◌, String, List, [], ◌∷◌, Option, none, some, ltb, if◌then◌else◌, ◌==◌,
  string_comparable,
}
use ma_klaude.Prelude.Assoc.{fetch}
use ma_klaude.Health.{PodSignal, OwnerRef}
use ma_klaude.Detect.Finding.{Finding, Object, object_of}

-- `causePrecedence`.
unfoldable pub cause_precedence : Finding → ℕ
cause_precedence f =
    if f.object.kind == "cluster"
    then 0
    else if f.object.kind == "node"
    then 1
    else if f.object.kind == "deployment" || f.object.kind == "statefulset"
    then 2
    else if f.object.kind == "replicaset"
    then 3
    else if f.object.kind == "pod"
    then 4
    else if f.object.kind == "event"
    then 5
    else 6

-- The loop of `matchDeployment`.
unfoldable pub longest_owner : String → List String → String → String
longest_owner best [] rs_name = best
longest_owner best (d ∷ names) rs_name =
    longest_owner (if ltb (len best) (len d) && starts_with rs_name (d ++ "-") then d else best)
      names rs_name

-- `matchDeployment`.
unfoldable pub match_deployment : List String → String → Option String
match_deployment deploy_names rs_name =
    let best = longest_owner "" deploy_names rs_name in if best == "" then none else some best

-- Go's nil slice for a missing key.
abbrev pub names_in : List (String × List String) → String → List String
names_in m ns = elim (fetch m ns) [ none ↦ [] | some names ↦ names ]

-- The deployment behind a replica set, as a list of none or one.
abbrev pub owning_deployment : List (String × List String) → String → String → List Object
owning_deployment deploys namespace rs_name =
    elim (match_deployment (names_in deploys namespace) rs_name) [
      | none ↦ []
      | some dep ↦ object_of "deployment" namespace dep ∷ []
    ]

-- `strings.ToLower` on the three kinds that reach it.
unfoldable pub lower_kind : String → String
lower_kind kind =
    if kind == "Deployment"
    then "deployment"
    else if kind == "StatefulSet"
    then "statefulset"
    else "job"

-- The body of the loop of `podCauseObjects`.
unfoldable pub owner_objects : List (String × List String) → String → OwnerRef → List Object
owner_objects deploys namespace o =
    if o.kind == "ReplicaSet"
    then object_of "replicaset" namespace o.name ∷ owning_deployment deploys namespace o.name
    else if o.kind == "Deployment" || o.kind == "StatefulSet" || o.kind == "Job"
    then object_of (lower_kind o.kind) namespace o.name ∷ []
    else []

unfoldable pub owners_objects : List (String × List String) → String → List OwnerRef → List Object
owners_objects deploys namespace [] = []
owners_objects deploys namespace (o ∷ owners) =
    owner_objects deploys namespace o +++ owners_objects deploys namespace owners

-- `podCauseObjects`.
unfoldable pub pod_cause_objects : PodSignal → List (String × List String) → List Object
pod_cause_objects pod deploys =
    (if pod.node == "" then [] else object_of "node" "" pod.node ∷ [])
    +++ owners_objects deploys pod.namespace pod.owners

-- `causeObjects`.
unfoldable pub cause_objects :
    Finding → List (String × PodSignal) → List (String × List String) → List Object
cause_objects f pod_by_key deploys =
    if f.object.kind == "pod"
    then elim (fetch pod_by_key (f.object.namespace ++ "/" ++ f.object.name)) [
      | none ↦ []
      | some pod ↦ pod_cause_objects pod deploys
    ]
    else if f.object.kind == "replicaset"
    then owning_deployment deploys f.object.namespace f.object.name
    else []
