-- ===== src/Execute/Licensed/Slips.antt =====
-- The authorization check of internal/execute/execute.go: what it passes.
use ma_klaude.Prelude.{
  not-false, Bool, true, false, not, Option, none, some, if◌then◌else◌, ◌==◌, string_comparable,
  ◌≡◌, refl, sym, ap, Elem, eq_iff, false≢true, and_iff, ◌∙◌,
}
use ma_klaude.Remediate.{Target}
use ma_klaude.Execute.Run.{
  failure_kill_switch, failure_drifted, failure_conflict, failure_execute, failure_record,
  failure_cluster_mismatch, run_if_passed, failure_refused, failure_not_authorized,
  failure_unobservable, Proposal, Authorization, FailureClass, failure_none, World, Write, Run,
  same_target, check_granted, check_authorization,
}

pub same_target-eq : (t u : Target) → same_target t u ≡ true → t ≡ u
same_target-eq t u h =
    let (h₁, v) = (and_iff _ (t.resource_version == u.resource_version)).0 h in
    let (h₂, n) = (and_iff _ (t.name == u.name)).0 h₁ in
    let (h₃, s) = (and_iff _ (t.namespace == u.namespace)).0 h₂ in
    let (c, k) = (and_iff (t.cluster == u.cluster) (t.kind == u.kind)).0 h₃ in
    λ i. record {
      cluster = (eq_iff t.cluster u.cluster).0 c i;
      kind = (eq_iff t.kind u.kind).0 k i;
      namespace = (eq_iff t.namespace u.namespace).0 s i;
      name = (eq_iff t.name u.name).0 n i;
      resource_version = (eq_iff t.resource_version u.resource_version).0 v i;
    }

abbrev passes : FailureClass → Bool
passes failure_none = true
passes class = false

pub check_passes :
    (b : Bool) (bad rest : FailureClass)
    → passes bad ≡ false
    → (if b then bad else rest) ≡ failure_none
    → (b ≡ false) × (rest ≡ failure_none)
check_passes true bad rest n h = absurd (false≢true (sym n ∙ ap passes h))
check_passes false bad rest n h = (refl, h)

-- The authorization check passes only for a slip that covers the proposal.
pub granted_for :
    (w : World) (auth : Option Authorization) (p : Proposal)
    → check_authorization w auth p ≡ failure_none
    → (slip : Authorization) × ((auth ≡ some slip)
        × ((slip.granted ≡ true) × (check_granted w slip p ≡ failure_none)))
unfolding check_authorization
granted_for w none p h = absurd (false≢true (ap passes h))
granted_for w (some slip) p h =
    let (granted, more) =
      check_passes (not slip.granted) failure_not_authorized (check_granted w slip p) refl h in
    (slip, (refl, (not-false slip.granted granted, more)))

-- A write happens only after the authorization check has passed.
pub after_check :
    (c : FailureClass) (run : Run) (write : Write)
    → Elem write (run_if_passed c run).writes
    → (c ≡ failure_none) × Elem write run.writes
after_check failure_none run write m = (refl, m)
after_check failure_not_authorized run write m = absurd m
after_check failure_cluster_mismatch run write m = absurd m
after_check failure_refused run write m = absurd m
after_check failure_kill_switch run write m = absurd m
after_check failure_unobservable run write m = absurd m
after_check failure_drifted run write m = absurd m
after_check failure_conflict run write m = absurd m
after_check failure_execute run write m = absurd m
after_check failure_record run write m = absurd m
