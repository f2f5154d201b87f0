-- ===== src/Execute/Unchanged.antt =====
-- A pre-state against the cluster it was taken from.
use ma_klaude.Prelude.{
  arith, false≢true, ◌||◌, not, Bool, true, false, String, Option, none, some, ◌≡◌, refl, sym, ap,
  ◌∙◌, subst, if◌then◌else◌, ◌==◌, string_comparable,
}
use ma_klaude.Execute.Run.{is_there}
use ma_klaude.Prelude.Int.{pos, negsuc, eqb_ℤ, ℤ, leb_ℤ}
use ma_klaude.Health.{DeploymentSignal}
use ma_klaude.Remediate.{Target}
use ma_klaude.Execute.Index.{pod_of, ClusterIndex, deployment_of, node_of, revisions}
use ma_klaude.Execute.PreState.{
  pod_state, node_state, PreState, field_of, field_among, max_revision, deployment_state,
  capture_pre_state, pre_revision, rollout_restart_converged,
}

leb_refl : (n : ℤ) → leb_ℤ n n ≡ true
leb_refl (pos n) = ground arith
leb_refl (negsuc n) = ground arith

abbrev given : PreState → Option PreState → PreState
given pre none = pre
given pre (some other) = other

module _ (format_int : ℤ → String) (idx : ClusterIndex) (t : Target) where
  abbrev capture_deployment : Option DeploymentSignal → Option PreState
  capture_deployment o = elim o [
    | none ↦ none
    | some dep ↦ some (deployment_state format_int idx t dep)
  ]

  revision_of :
      (o : Option DeploymentSignal) (pre : PreState)
      → capture_deployment o ≡ some pre
      → field_of pre "maxRevision"
        ≡ some (format_int (max_revision (revisions idx t.namespace t.name)))
  unfolding field_of field_among
  revision_of none pre h = absurd (false≢true (ap is_there h))
  revision_of (some dep) pre h =
      subst
        (λ q.
          field_of q "maxRevision"
          ≡ some (format_int (max_revision (revisions idx t.namespace t.name))))
        (ap (given pre) h) refl

  -- What the pre-state of a deployment records of its revision.
  recorded :
      (pre : PreState)
      → t.kind ≡ "deployment"
      → capture_pre_state format_int idx t ≡ some pre
      → field_of pre "maxRevision"
        ≡ some (format_int (max_revision (revisions idx t.namespace t.name)))
  unfolding capture_pre_state
  recorded pre k h = revision_of (deployment_of idx t.namespace t.name) pre (
      subst
        (λ (kind : String).
          (if kind == "node"
            then elim (node_of idx t.name) [
              | none ↦ none
              | some node ↦ some (node_state idx t node)
            ]
            else if kind == "deployment"
            then capture_deployment (deployment_of idx t.namespace t.name)
            else if kind == "pod"
            then elim (pod_of idx t.namespace t.name) [
              | none ↦ none
              | some pod ↦ some (pod_state idx t pod)
            ]
            else none)
          ≡ some pre)
        k h)

-- The check on a deployment that may be there.
abbrev converged_on :
    (String → Option ℤ) → ClusterIndex → PreState → Target → Option DeploymentSignal → Bool
converged_on parse_int idx pre t o = elim o [
  | none ↦ false
  | some dep ↦
      if leb_ℤ (max_revision (revisions idx t.namespace t.name)) (pre_revision parse_int pre)
      then false
      else if not (eqb_ℤ dep.updated_replicas dep.desired_replicas)
          || not (eqb_ℤ dep.ready_replicas dep.desired_replicas)
          || not (eqb_ℤ dep.available_replicas dep.desired_replicas)
      then false
      else true
]

unconverged :
    (parse_int : String → Option ℤ) (idx : ClusterIndex) (pre : PreState) (t : Target)
    (o : Option DeploymentSignal)
    → leb_ℤ (max_revision (revisions idx t.namespace t.name)) (pre_revision parse_int pre) ≡ true
    → converged_on parse_int idx pre t o ≡ false
unconverged parse_int idx pre t none h = refl
unconverged parse_int idx pre t (some dep) h = rw (h) refl

-- A rollout restart has not converged in the view its pre-state was taken from, whatever the replica
-- counts are: where printing and parsing a number gives it back, a pre-state of a deployment makes
-- the check wait for a later revision than it saw.
pub restart-unconverged :
    (format_int : ℤ → String) (parse_int : String → Option ℤ) (idx : ClusterIndex) (t : Target)
    (pre : PreState)
    → ((n : ℤ) → parse_int (format_int n) ≡ some n)
    → t.kind ≡ "deployment"
    → capture_pre_state format_int idx t ≡ some pre
    → rollout_restart_converged parse_int idx pre t ≡ false
unfolding rollout_restart_converged pre_revision
restart-unconverged format_int parse_int idx t pre trip k h =
    let now = max_revision (revisions idx t.namespace t.name) in
    let number : Option ℤ → ℤ = λ o. elim o [ none ↦ pos 0 | some rev ↦ rev ] in
    let written : Option String → ℤ =
      λ o. elim o [ none ↦ pos 0 | some raw ↦ number (parse_int raw) ] in
    let before : pre_revision parse_int pre ≡ now =
      ap written (recorded format_int idx t pre k h) ∙ ap number (trip now) in
    unconverged parse_int idx pre t (deployment_of idx t.namespace t.name)
      (subst (λ rev. leb_ℤ now rev ≡ true) (sym before) (leb_refl now))
