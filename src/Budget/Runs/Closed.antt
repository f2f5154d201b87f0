-- ===== src/Budget/Runs/Closed.antt =====
-- An open breaker and a sealed budget over a run.
use ma_klaude.Prelude.{
  String, ◌≡◌, ◌≢◌, refl, sym, ◌∙◌, subst, inl, inr, true, false, [], ◌∷◌, arith, eq_iff,
  Bool-cases, false≢true, string_comparable,
}
use ma_klaude.Prelude.Int.{Time}
use ma_klaude.Remediate.{Target, target_string}
use ma_klaude.Budget.Limits.{admits}
use ma_klaude.Budget.State.{ClusterState, cluster_of}
use ma_klaude.Budget.State.Pruning.{IsState}
use ma_klaude.Budget.Admit.{Budget, World}
use ma_klaude.Budget.Admit.Ladder.{reason_of, reason-CanAdmit, admit-reason}
use ma_klaude.Budget.Admit.Looking.{admits→admitted}
use ma_klaude.Budget.Breaker.{fail_cluster}
use ma_klaude.Budget.Runs.{
  Call, begins, admits_at, records_at, trips_at, clears_at, step, Run, run, granted, count_granted,
}
use ma_klaude.Budget.Runs.Laws.{step-Keeps, after}

-- A call that does not clear the breaker of a cluster.
abbrev pub IsNotClearing : String → Call → Type 0
IsNotClearing cluster (clears_at c by at) = c ≢ cluster
IsNotClearing cluster _ = Unit

abbrev pub HasNoClearing : String → Run → Type 0
HasNoClearing cluster [] = Unit
HasNoClearing cluster ((w, c) ∷ r) = IsNotClearing cluster c × HasNoClearing cluster r

module _ (w : World) (b : Budget) (cluster : String) where
  -- A granted admission is one that could be made: with a closed breaker on an unsealed budget.
  granted-open :
      (c : Call)
      → granted w b cluster c ≡ true
      → ((cluster_of b.state cluster).tripped ≡ false) × (b.seal_detail ≡ "")
  granted-open (admits_at name target at) h =
      let same : name ≡ cluster = unfold granted in ground (arith, eq_iff name cluster) in
      let ok : admits (reason_of b name target at) ≡ true =
        unfold granted in ground (arith, admit-reason b name target at w) in
      let can = reason-CanAdmit b name target at (admits→admitted _ ok) in
      (subst (λ x. (cluster_of b.state x).tripped ≡ false) same can.closed, can.unsealed)
  granted-open begins h = absurd (unfold granted in cc h)
  granted-open (records_at name target outcome at) h = absurd (unfold granted in cc h)
  granted-open (trips_at name detail at) h = absurd (unfold granted in cc h)
  granted-open (clears_at name by at) h = absurd (unfold granted in cc h)

  refused_tripped :
      (c : Call) → (cluster_of b.state cluster).tripped ≡ true → granted w b cluster c ≡ false
  refused_tripped c t = elim (Bool-cases (granted w b cluster c)) [
    | inl g ↦ absurd (false≢true (sym (granted-open c g).0 ∙ t))
    | inr f ↦ f
  ]

  refused_sealed_call : (c : Call) → b.seal_detail ≢ "" → granted w b cluster c ≡ false
  refused_sealed_call c n = elim (Bool-cases (granted w b cluster c)) [
    | inl g ↦ absurd (n (granted-open c g).1)
    | inr f ↦ f
  ]

fail_cluster_tripped :
    (cs : ClusterState) (b : Budget) (target : Target) (at : Time)
    → cs.tripped ≡ true
    → (fail_cluster b.limits (target_string target) at cs).0.tripped ≡ true
unfolding fail_cluster
fail_cluster_tripped cs b target at t = ground (arith, t)

-- What a call writes to a cluster whose breaker is open has it open.
after-tripped :
    (b : Budget) (cluster : String) (c : Call)
    → IsNotClearing cluster c
    → (cluster_of b.state cluster).tripped ≡ true
    → (after b c cluster).tripped ≡ true
after-tripped b cluster begins n t = t
after-tripped b cluster (admits_at name target at) n t = ground (arith, t, eq_iff name cluster)
after-tripped b cluster (records_at name target outcome at) n t =
    ground
      (arith, eq_iff name cluster, fail_cluster_tripped (cluster_of b.state cluster) b target at t)
after-tripped b cluster (trips_at name detail at) n t = ground (arith, t, eq_iff name cluster)
after-tripped b cluster (clears_at name by at) n t = ground (arith, n, t, eq_iff name cluster)

-- On a budget whose maps hold no key twice, a breaker that is open stays open over any sequence of
-- calls none of which is a `Clear` of its cluster, and no action is admitted on its cluster
-- meanwhile.
pub breaker_stays_open :
    (cluster : String) (r : Run) (b : Budget)
    → HasNoClearing cluster r
    → IsState b.state
    → (cluster_of b.state cluster).tripped ≡ true
    → ((cluster_of (run b r).state cluster).tripped ≡ true) × (count_granted b cluster r ≡ 0)
unfolding run count_granted
breaker_stays_open cluster [] b n h t = (t, refl)
breaker_stays_open cluster ((w, c) ∷ r) b n h t =
    let keeps = step-Keeps w b h c in
    let t' = (keeps.cluster cluster).tripped ∙ after-tripped b cluster c n.0 t in
    let (open', none') = breaker_stays_open cluster r (step w b c) n.1 keeps.state t' in
    (open', rw (refused_tripped w b cluster c t) none')

-- A sealed budget whose maps hold no key twice stays sealed, for the same reason, over any
-- sequence of calls, and admits nothing on any cluster.
pub seal_is_final :
    (cluster : String) (r : Run) (b : Budget)
    → IsState b.state
    → b.seal_detail ≢ ""
    → ((run b r).seal_detail ≡ b.seal_detail) × (count_granted b cluster r ≡ 0)
unfolding run count_granted
seal_is_final cluster [] b h n = (refl, refl)
seal_is_final cluster ((w, c) ∷ r) b h n =
    let keeps = step-Keeps w b h c in
    let same = keeps.seal n in
    let (stays, none') = seal_is_final cluster r (step w b c) keeps.state (λ e. n (sym same ∙ e)) in
    (stays ∙ same, rw (refused_sealed_call w b cluster c n) none')
