-- ===== src/Detect/Events/Down.antt =====
-- What is critical: the objects that are down.
use ma_klaude.Prelude.{
  is_empty, Bool, true, false, not, ◌||◌, String, List, [], ◌∷◌, if◌then◌else◌, Elem, Bool-cases,
  ◌≡◌, ◌≢◌, ◌↔◌, refl, sym, ◌∙◌, ap, subst, inl, inr, false≢true,
}
use ma_klaude.Prelude.Int.{ℤ, pos, leb_ℤ, eqb_ℤ, eqb_ℤ_iff}
use ma_klaude.Health.{Snapshot, NodeSignal, PodSignal, DeploymentSignal, ReplicaSetSignal}
use ma_klaude.Detect.Finding.{
  Finding, Object, Severity, severity_info, severity_warning, severity_critical, object_of,
}
use ma_klaude.Detect.Rules.{
  Printing, when, each, enough, crashlooping, analyze_reachability, analyze_node, analyze_pod,
  analyze_deployment, analyze_replica_set, structural, pressure_finding,
}
use ma_klaude.Detect.Events.{analyze}
use ma_klaude.Detect.Events.Covered.{Every, nothing, also, Every-append, Every-when, Every-Elem}
use ma_klaude.Detect.Events.Sources.{found-unreachable}
use ma_klaude.Detect.Events.Sources.{Elem-sources}
use ma_klaude.Detect.Events.Sources.{Elem-found}

-- A cluster that does not answer; in one that does, a node that is not ready, a pod with a
-- crashlooping container, a workload that asks for replicas and has none.
pub data Down (snap : Snapshot) : Object → Type 0 where
  cluster_down :
      snap.reachability.reachable ≡ false → Down snap (object_of "cluster" "" snap.cluster)
  node_down :
      snap.reachability.reachable ≡ true
      → (n : NodeSignal) → Elem n snap.nodes
      → n.ready ≡ false
      → Down snap (object_of "node" "" n.name)
  pod_down :
      snap.reachability.reachable ≡ true
      → (p : PodSignal) → Elem p snap.pods
      → p.crash_looping_containers ≢ []
      → Down snap (object_of "pod" p.namespace p.name)
  deployment_down :
      snap.reachability.reachable ≡ true
      → (d : DeploymentSignal) → Elem d snap.deployments
      → leb_ℤ d.desired_replicas (pos 0) ≡ false
      → d.available_replicas ≡ pos 0
      → Down snap (object_of "deployment" d.namespace d.name)
  replica_set_down :
      snap.reachability.reachable ≡ true
      → (r : ReplicaSetSignal) → Elem r snap.replica_sets
      → leb_ℤ r.desired_replicas (pos 0) ≡ false
      → r.available_replicas ≡ pos 0
      → Down snap (object_of "replicaset" r.namespace r.name)

-- A finding that is critical only about an object that is down.
abbrev IsFair : Snapshot → Finding → Type 0
IsFair snap f = f.severity ≡ severity_critical → Down snap f.object

-- `each` over the elements of the list alone.
Every-each_in :
    {A : Type 0} (P : Finding → Type 0) (rule : A → List Finding) (xs : List A)
    → ((x : A) → Elem x xs → Every P (rule x))
    → Every P (each rule xs)
Every-each_in P rule [] h = nothing
Every-each_in P rule (x ∷ xs) h =
    Every-append P (rule x) (each rule xs) (h x (inl refl))
      (Every-each_in P rule xs (λ y m. h y (inr m)))

-- `when` with its test.
Every-when-true :
    (P : Finding → Type 0) (b : Bool) (f : Finding) → (b ≡ true → P f) → Every P (when b f)
Every-when-true P true f h = also f [] (h refl) nothing
Every-when-true P false f h = nothing

abbrev critical? : Severity → Bool
critical? severity_info = false
critical? severity_warning = false
critical? severity_critical = true

not_critical : (s : Severity) {A : Type 0} → critical? s ≡ false → s ≡ severity_critical → A
not_critical s h e = absurd (false≢true (sym h ∙ ap critical? e))

not-not : (b : Bool) → not b ≡ true → b ≡ false
not-not true h = sym h
not-not false h = refl

filled : (xs : List String) → (not (is_empty xs) ≡ true) ↔ (xs ≢ [])
filled [] = (λ h. absurd (false≢true h), λ n. absurd (n refl))
filled (x ∷ xs) = (λ h e. absurd (false≢true (ap is_empty e)), λ n. refl)

pub crashlooping_iff : (p : PodSignal) → (crashlooping p ≡ true) ↔ (p.crash_looping_containers ≢ [])
crashlooping_iff p = filled p.crash_looping_containers

-- A workload that is critical when reported.
down_of :
    (desired available : ℤ)
    → not (enough desired available) ≡ true
    → (if eqb_ℤ available (pos 0) then severity_critical else severity_warning) ≡ severity_critical
    → (leb_ℤ desired (pos 0) ≡ false) × (available ≡ pos 0)
down_of desired available h e = elim (Bool-cases (eqb_ℤ available (pos 0))) [
  | inl t ↦ elim (Bool-cases (leb_ℤ desired (pos 0))) [
    | inl l ↦ absurd (false≢true (sym (ap (λ b. not (b || leb_ℤ desired available)) l) ∙ h))
    | inr l ↦ (l, (eqb_ℤ_iff available 0).0 t)
  ]
  | inr t ↦
      not_critical severity_warning refl
        (sym (ap (λ b. if b then severity_critical else severity_warning) t) ∙ e)
]

module _ (go : Printing) (snap : Snapshot) where
  IsFair-reachability : Every (IsFair snap) (analyze_reachability go snap)
  unfolding analyze_reachability
  IsFair-reachability = Every-when-true _ _ _ (λ b e. cluster_down (not-not _ b))

  module _ (up : snap.reachability.reachable ≡ true) where
    IsFair-node :
        (n : NodeSignal) → Elem n snap.nodes → Every (IsFair snap) (analyze_node go snap n)
    unfolding analyze_node pressure_finding
    IsFair-node n m =
        Every-append _ _ _
          (Every-append _ _ _
            (Every-append _ _ _
              (Every-append _ _ _
                (Every-when-true _ _ _ (λ b e. node_down up n m (not-not n.ready b)))
                (Every-when _ _ _ (not_critical severity_warning refl)))
              (Every-when _ _ _ (not_critical severity_warning refl)))
            (Every-when _ _ _ (not_critical severity_warning refl)))
          (Every-when _ _ _ (not_critical severity_warning refl))

    IsFair-pod : (p : PodSignal) → Elem p snap.pods → Every (IsFair snap) (analyze_pod go snap p)
    unfolding analyze_pod
    IsFair-pod p m =
        Every-append _ _ _
          (Every-append _ _ _
            (Every-append _ _ _
              (Every-when-true _ _ _ (λ b e. pod_down up p m ((crashlooping_iff p).0 b)))
              (Every-when _ _ _ (not_critical severity_warning refl)))
            (Every-when _ _ _ (not_critical severity_warning refl)))
          (Every-when _ _ _ (not_critical severity_warning refl))

    IsFair-deployment :
        (d : DeploymentSignal)
        → Elem d snap.deployments
        → Every (IsFair snap) (analyze_deployment go snap d)
    unfolding analyze_deployment
    IsFair-deployment d m = Every-when-true _ _ _ (λ b e.
        let (asked, nothing_there) = down_of d.desired_replicas d.available_replicas b e in
        deployment_down up d m asked nothing_there)

    IsFair-replica_set :
        (r : ReplicaSetSignal)
        → Elem r snap.replica_sets
        → Every (IsFair snap) (analyze_replica_set go snap r)
    unfolding analyze_replica_set
    IsFair-replica_set r m = Every-when-true _ _ _ (λ b e.
        let (asked, nothing_there) = down_of r.desired_replicas r.available_replicas b e in
        replica_set_down up r m asked nothing_there)

    structural-IsFair : Every (IsFair snap) (structural go snap)
    unfolding structural
    structural-IsFair =
        Every-append _ _ _
          (Every-append _ _ _
            (Every-append _ _ _
              (Every-append _ _ _ IsFair-reachability (Every-each_in _ _ snap.nodes IsFair-node))
              (Every-each_in _ _ snap.pods IsFair-pod))
            (Every-each_in _ _ snap.deployments IsFair-deployment))
          (Every-each_in _ _ snap.replica_sets IsFair-replica_set)

pub fair :
    (go : Printing) (snap : Snapshot) (f : Finding)
    → Elem f (analyze go snap)
    → f.severity ≡ severity_critical
    → Down snap f.object
fair go snap f m e = elim (Bool-cases snap.reachability.reachable) [
  | inl t ↦ elim (Elem-sources go snap f m) [
    | inl (u, k) ↦ Every-Elem (IsFair snap) (structural go snap) f (structural-IsFair go snap t) k e
    | inr (i, u) ↦ not_critical severity_info refl (sym i ∙ e)
  ]
  | inr t ↦
      Every-Elem (IsFair snap) (analyze_reachability go snap) f (IsFair-reachability go snap)
        (subst (Elem f) (found-unreachable go snap t) (Elem-found go snap f m)) e
]
