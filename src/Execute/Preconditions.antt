-- ===== src/Execute/Preconditions.antt =====
-- internal/execute/precondition.go: the check of each precondition against a fresh index. The
-- sentence that goes with an answer is left out. `parse_int` is strconv.ParseInt in base ten.
use Prim.Native.Char.{code}
use Prim.Native.String.{◌++◌}
use ma_klaude.Prelude.{
  Bool, true, false, not, ◌&&◌, ◌||◌, String, List, [], ◌∷◌, Option, none, some, nat_beq,
  if◌then◌else◌, ◌==◌, string_comparable,
}
use ma_klaude.Prelude.Int.{ℤ, eqb_ℤ}
use ma_klaude.Prelude.Text.{trim_space}
use ma_klaude.Health.{PodSignal, NodeSignal, OwnerRef, ContainerSignal}
use ma_klaude.Remediate.{Target}
use ma_klaude.Execute.Index.{ClusterIndex, pod_of, node_of, revisions, resource_version_of}

pub record Precondition : Type 0 where
  pub kind : String
  pub expect : String

-- `strings.Cut(ref, "/")`.
unfoldable pub cut_slash : String → Option (String × String)
cut_slash String.[] = none
cut_slash (String.◌∷◌ c s) =
    let rest = cut_slash s in
    if nat_beq (code c) 47
    then some ("", s)
    else elim rest [ none ↦ none | some (before, after) ↦ some (String.◌∷◌ c before, after) ]

-- Both parts of a reference.
abbrev pub both_filled : Option (String × String) → Option (String × String)
both_filled none = none
both_filled (some (namespace, name)) =
    if namespace == "" || name == "" then none else some (namespace, name)

-- `podRef`.
unfoldable pub pod_ref : String → Target → Option (String × String)
pod_ref expect t =
    if not (trim_space expect == "")
    then both_filled (cut_slash (trim_space expect))
    else if not (t.kind == "pod") || t.namespace == "" || t.name == ""
    then none
    else some (t.namespace, t.name)

-- `nodeRef`.
unfoldable pub node_ref : String → Target → Option String
node_ref expect t =
    if not (trim_space expect == "")
    then some (trim_space expect)
    else if not (t.kind == "node") || t.name == ""
    then none
    else some t.name

-- The pod or the node that a precondition is about, if it is there.
abbrev pub pod_at : ClusterIndex → Option (String × String) → Option PodSignal
pod_at idx none = none
pod_at idx (some (namespace, name)) = pod_of idx namespace name

abbrev pub node_at : ClusterIndex → Option String → Option NodeSignal
node_at idx none = none
node_at idx (some name) = node_of idx name

-- `checkUnchanged`.
unfoldable pub check_unchanged : ClusterIndex → Precondition → Target → Bool
check_unchanged idx pc t =
    if trim_space pc.expect == ""
    then false
    else elim (resource_version_of idx t) [ none ↦ false | some rv ↦ rv == pc.expect ]

-- Some container is crashlooping.
abbrev pub any_crash_looping : List ContainerSignal → Bool
any_crash_looping [] = false
any_crash_looping (c ∷ cs) = c.crash_looping || any_crash_looping cs

-- `checkPodCrashLooping`.
unfoldable pub check_pod_crash_looping : ClusterIndex → Precondition → Target → Bool
check_pod_crash_looping idx pc t = elim (pod_at idx (pod_ref pc.expect t)) [
  | none ↦ false
  | some pod ↦ any_crash_looping pod.containers
]

-- `checkPodFailed`.
unfoldable pub check_pod_failed : ClusterIndex → Precondition → Target → Bool
check_pod_failed idx pc t = elim (pod_at idx (pod_ref pc.expect t)) [
  | none ↦ false
  | some pod ↦ pod.failed || pod.reason == "Evicted"
]

-- The first owner that controls the pod decides.
unfoldable pub controlled_by : String → List OwnerRef → Bool
controlled_by want [] = false
controlled_by want (o ∷ owners) =
    let rest = controlled_by want owners in
    if not o.controller then rest else want == "" || o.kind ++ "/" ++ o.name == want

-- `checkPodHasController`.
unfoldable pub check_pod_has_controller : ClusterIndex → Precondition → Target → Bool
check_pod_has_controller idx pc t = elim (pod_at idx (pod_ref "" t)) [
  | none ↦ false
  | some pod ↦ controlled_by (trim_space pc.expect) pod.owners
]

-- `checkNodeNotReady`.
unfoldable pub check_node_not_ready : ClusterIndex → Precondition → Target → Bool
check_node_not_ready idx pc t = elim (node_at idx (node_ref pc.expect t)) [
  | none ↦ false
  | some node ↦ not node.ready
]

-- `checkNodeSchedulable`.
unfoldable pub check_node_schedulable : ClusterIndex → Precondition → Target → Bool
check_node_schedulable idx pc t = elim (node_at idx (node_ref pc.expect t)) [
  | none ↦ false
  | some node ↦ not node.unschedulable
]

abbrev pub among : ℤ → List ℤ → Bool
among want [] = false
among want (r ∷ rs) = eqb_ℤ r want || among want rs

module _ (parse_int : String → Option ℤ) where
  -- `checkRevisionExists`.
  unfoldable pub check_revision_exists : ClusterIndex → Precondition → Target → Bool
  check_revision_exists idx pc t =
      if not (t.kind == "deployment") then false else elim (parse_int (trim_space pc.expect)) [
        | none ↦ false
        | some want ↦ among want (revisions idx t.namespace t.name)
      ]

  -- `checkPrecondition`, with the map of the checks: a kind that is not in it does not hold.
  unfoldable pub check_precondition : ClusterIndex → Precondition → Target → Bool
  check_precondition idx pc t =
      if pc.kind == "unchanged"
      then check_unchanged idx pc t
      else if pc.kind == "podcrashlooping"
      then check_pod_crash_looping idx pc t
      else if pc.kind == "podfailed"
      then check_pod_failed idx pc t
      else if pc.kind == "podhascontroller"
      then check_pod_has_controller idx pc t
      else if pc.kind == "nodenotready"
      then check_node_not_ready idx pc t
      else if pc.kind == "nodeschedulable"
      then check_node_schedulable idx pc t
      else if pc.kind == "revisionexists"
      then check_revision_exists idx pc t
      else false

  -- `recheckPreconditions`: each condition with its answer.
  unfoldable pub recheck_preconditions :
      ClusterIndex → List Precondition → Target → List (Precondition × Bool)
  recheck_preconditions idx [] t = []
  recheck_preconditions idx (pc ∷ pcs) t =
      (pc, check_precondition idx pc t) ∷ recheck_preconditions idx pcs t

-- `allHeld`.
unfoldable pub all_held : List (Precondition × Bool) → Bool
all_held [] = true
all_held ((pc, held) ∷ rest) = held && all_held rest
