-- ===== src/Detect/Events/Reported.antt =====
-- An object has a critical finding exactly if it is down.
use mathlib.Core.List.{◌++◌ as ◌+++◌}
use ma_klaude.Prelude.{
  Elem-append, Bool, true, false, not, ◌||◌, List, [], ◌∷◌, if◌then◌else◌, Elem, ◌≡◌, ◌≢◌, ◌↔◌,
  refl, sym, ◌∙◌, ap, subst, inl, inr, false≢true,
}
use ma_klaude.Prelude.Int.{ℤ, pos, leb_ℤ, eqb_ℤ, eqb_ℤ_iff}
use ma_klaude.Health.{Snapshot, NodeSignal, PodSignal, DeploymentSignal, ReplicaSetSignal}
use ma_klaude.Detect.Finding.{Finding, Object, severity_warning, severity_critical, object_of}
use ma_klaude.Detect.Rules.{
  Printing, when, each, enough, analyze_reachability, analyze_node, analyze_pod, analyze_deployment,
  analyze_replica_set, structural,
}
use ma_klaude.Detect.Events.{analyze}
use ma_klaude.Detect.Events.Sources.{found-unreachable}
use ma_klaude.Detect.Events.Sources.{found-reachable}
use ma_klaude.Detect.Events.Sources.{Elem-analyze}
use ma_klaude.Detect.Events.Down.{
  Down, cluster_down, crashlooping_iff, deployment_down, fair, node_down, pod_down,
  replica_set_down,
}

-- Membership that names the list it is in.
data In (f : Finding) : List Finding → Type 0 where
  first : (fs : List Finding) → In f (f ∷ fs)
  later : (g : Finding) (fs : List Finding) → In f fs → In f (g ∷ fs)

In→Elem : (f : Finding) (fs : List Finding) → In f fs → Elem f fs
In→Elem f fs (first _) = inl refl
In→Elem f fs (later g gs m) = inr (In→Elem f gs m)

In-when : (b : Bool) (f : Finding) → b ≡ true → In f (when b f)
In-when true f h = first []
In-when false f h = absurd (false≢true h)

module _ (f : Finding) where
  In-before : (xs ys : List Finding) → In f xs → In f (xs +++ ys)
  In-before xs ys (first zs) = first (zs +++ ys)
  In-before xs ys (later g zs m) = later g (zs +++ ys) (In-before zs ys m)

  In-after : (xs ys : List Finding) → In f ys → In f (xs +++ ys)
  In-after [] ys m = m
  In-after (x ∷ xs) ys m = later x (xs +++ ys) (In-after xs ys m)

  In-each :
      {A : Type 0} (rule : A → List Finding) (xs : List A) (x : A)
      → Elem x xs
      → In f (rule x)
      → In f (each rule xs)
  In-each rule [] x m k = absurd m
  In-each rule (y ∷ xs) x (inl e) k =
      In-before (rule y) (each rule xs) (subst (λ z. In f (rule z)) (sym e) k)
  In-each rule (y ∷ xs) x (inr m) k = In-after (rule y) (each rule xs) (In-each rule xs x m k)

-- A critical finding about an object.
abbrev pub IsReported : Printing → Snapshot → Object → Type 0
IsReported go snap obj =
    (f : Finding) × (Elem f (analyze go snap)
      × ((f.severity ≡ severity_critical) × (f.object ≡ obj)))

module _ (go : Printing) (snap : Snapshot) where
  -- A rule of a reachable cluster gives a critical finding, which is in the result.
  reported :
      (f : Finding)
      → snap.reachability.reachable ≡ true
      → f.severity ≡ severity_critical
      → In f (structural go snap)
      → IsReported go snap f.object
  reported f up e m =
      let all = Elem-append f (structural go snap) _ (In→Elem f (structural go snap) m) in
      (
        f,
        (Elem-analyze go snap f (subst (Elem f) (sym (found-reachable go snap up)) all), (e, refl)),
      )

  worst :
      (available : ℤ)
      → available ≡ pos 0
      → (if eqb_ℤ available (pos 0) then severity_critical else severity_warning)
        ≡ severity_critical
  worst available e =
      ap (λ b. if b then severity_critical else severity_warning) ((eqb_ℤ_iff available 0).1 e)

  short :
      (desired available : ℤ)
      → leb_ℤ desired (pos 0) ≡ false
      → available ≡ pos 0
      → not (enough desired available) ≡ true
  short desired available h e =
      ap not (ap (λ b. leb_ℤ desired (pos 0) || leb_ℤ desired b) e ∙ ap (λ b. b || b) h)

  down_node :
      (n : NodeSignal)
      → snap.reachability.reachable ≡ true
      → Elem n snap.nodes
      → n.ready ≡ false
      → IsReported go snap (object_of "node" "" n.name)
  unfolding structural analyze_node
  down_node n up m off = reported _ up refl (
      In-before _ _ _ (
        In-before _ _ _ (
          In-before _ _ _ (
            In-after _ _ _ (
              In-each _ (analyze_node go snap) snap.nodes n m (
                In-before _ _ _ (
                  In-before _ _ _
                    (In-before _ _ _ (In-before _ _ _ (In-when _ _ (ap not off)))))))))))

  down_pod :
      (p : PodSignal)
      → snap.reachability.reachable ≡ true
      → Elem p snap.pods
      → p.crash_looping_containers ≢ []
      → IsReported go snap (object_of "pod" p.namespace p.name)
  unfolding structural analyze_pod
  down_pod p up m looping = reported _ up refl (
      In-before _ _ _ (
        In-before _ _ _ (
          In-after _ _ _ (
            In-each _ (analyze_pod go snap) snap.pods p m (
              In-before _ _ _ (
                In-before _ _ _
                  (In-before _ _ _ (In-when _ _ ((crashlooping_iff p).1 looping)))))))))

  down_deployment :
      (d : DeploymentSignal)
      → snap.reachability.reachable ≡ true
      → Elem d snap.deployments
      → leb_ℤ d.desired_replicas (pos 0) ≡ false
      → d.available_replicas ≡ pos 0
      → IsReported go snap (object_of "deployment" d.namespace d.name)
  unfolding structural analyze_deployment
  down_deployment d up m asked off = reported _ up (worst d.available_replicas off) (
      In-before _ _ _ (
        In-after _ _ _ (
          In-each _ (analyze_deployment go snap) snap.deployments d m
            (In-when _ _ (short d.desired_replicas d.available_replicas asked off)))))

  down_replica_set :
      (r : ReplicaSetSignal)
      → snap.reachability.reachable ≡ true
      → Elem r snap.replica_sets
      → leb_ℤ r.desired_replicas (pos 0) ≡ false
      → r.available_replicas ≡ pos 0
      → IsReported go snap (object_of "replicaset" r.namespace r.name)
  unfolding structural analyze_replica_set
  down_replica_set r up m asked off = reported _ up (worst r.available_replicas off) (
      In-after _ _ _ (
        In-each _ (analyze_replica_set go snap) snap.replica_sets r m
          (In-when _ _ (short r.desired_replicas r.available_replicas asked off))))

  down_cluster :
      snap.reachability.reachable ≡ false → IsReported go snap (object_of "cluster" "" snap.cluster)
  unfolding analyze_reachability
  down_cluster off =
      let here = found-unreachable go snap off in
      (
        _,
        (
          Elem-analyze go snap _
              (subst (Elem _) (sym here) (In→Elem _ _ (In-when _ _ (ap not off)))),
          (refl, refl),
        ),
      )

  down : (obj : Object) → Down snap obj → IsReported go snap obj
  down obj (cluster_down off) = down_cluster off
  down obj (node_down up n m off) = down_node n up m off
  down obj (pod_down up p m looping) = down_pod p up m looping
  down obj (deployment_down up d m asked off) = down_deployment d up m asked off
  down obj (replica_set_down up r m asked off) = down_replica_set r up m asked off

  -- A run has a critical finding about an object exactly if the object is down: a cluster that does
  -- not answer and, in one that answers, a node that is not ready, a pod with a crashlooping
  -- container, a deployment or replica set that wants replicas and has none available.
  pub critical_iff : (obj : Object) → IsReported go snap obj ↔ Down snap obj
  critical_iff obj = (λ (f, (m, (e, here))). subst (Down snap) here (fair go snap f m e), down obj)
