-- ===== src/Budget/Admit/Looking.antt =====
-- What the ladder of `Admit` leaves of the state, and what a denial or an admission makes of it
-- (internal/budget/admit.go).
use ma_klaude.Prelude.{
  ℕ, suc, String, ◌≡◌, ◌∙◌, ◌⊎◌, inl, inr, true, false, ◌&&◌, Option, none, some, arith, eq_iff,
  Option-cases, ◌==◌, string_comparable, if◌then◌else◌,
}
use ma_klaude.Prelude.Int.{Time}
use ma_klaude.Prelude.Assoc.{store, fetch-store}
use ma_klaude.Remediate.{Target, target_string}
use ma_klaude.Budget.Limits.{validate_limits, Reason, admitted, admits}
use ma_klaude.Budget.State.{ClusterState, cluster_of, with_cluster}
use ma_klaude.Budget.State.Pruning.{IsState, cluster_of-with_cluster, store-IsState}
use ma_klaude.Budget.Admit.{
  Budget, World, Pass, or_new_pass, used, check, check_pass, check_limits, suppress, count_up,
  consume, admit,
}
use ma_klaude.Budget.Admit.Ladder.{reason_of}

-- The pass count of a cluster; with no pass it is 0.
abbrev pub used_in : Budget → String → ℕ
used_in b cluster = used (or_new_pass b.pass) cluster

used-store :
    (p : Pass) (cluster : String) (n : ℕ) (other : String)
    → used (record p { admitted_count = store p.admitted_count cluster n }) other
      ≡ (if cluster == other then n else used p other)
unfolding used
used-store p cluster n other = rw (fetch-store p.admitted_count cluster n other) (ground arith)

module _ (b : Budget) (cluster : String) (target : Target) (at : Time) where
  -- The ladder looks a cluster up at most: it says the same of every cluster after.
  pub cluster_of-left :
      (other : String)
      → cluster_of (check b cluster target at).left other ≡ cluster_of b.state other
  unfolding check check_limits check_pass
  cluster_of-left other = ground (
    arith,
    cluster_of-with_cluster b.state cluster other,
    Option-cases b.pass,
    Option-cases (validate_limits b.limits),
  )

  pub left-IsState : IsState b.state → IsState (check b cluster target at).left
  left-IsState h = elim left-cases [
    | inl e ↦ rw e h
    | inr e ↦ rw e (
        unfold with_cluster in
        store-IsState b.state cluster (cluster_of b.state cluster) h (h.times cluster))
  ]
    where
      left-cases :
          ((check b cluster target at).left ≡ b.state)
          ⊎ ((check b cluster target at).left ≡ with_cluster b.state cluster)
      left-cases =
          unfold check check_limits check_pass in
          ground (arith, Option-cases b.pass, Option-cases (validate_limits b.limits))

  module _ (w : World) where
    -- The budget that the ladder leaves.
    abbrev pub looked : Budget
    looked = record b { state = (check b cluster target at).left }

    pub admit_granted :
        reason_of b cluster target at ≡ admitted
        → (admit w b cluster target at).0 ≡ consume w looked cluster (target_string target) at
    unfolding admit
    admit_granted h = rw h

    pub admit_denied :
        admits (reason_of b cluster target at) ≡ false
        → (admit w b cluster target at).0 ≡ suppress looked (admit w b cluster target at).1 at
    unfolding admit
    admit_denied h = rw h

pub admits→admitted : (r : Reason) → admits r ≡ true → r ≡ admitted
admits→admitted r h = ground arith

-- A cluster with one more time on record.
abbrev pub stamped : ClusterState → String → Time → ClusterState
stamped cs key at = record cs { last_admitted = store cs.last_admitted key at }

-- The cluster `other` just before the write-through of a call of `Admit`.
abbrev pub admit_state : Budget → String → Target → Time → String → ClusterState
admit_state b cluster target at other =
    if cluster == other && admits (reason_of b cluster target at)
    then stamped (cluster_of b.state cluster) (target_string target) at
    else cluster_of b.state other

pub used_in-count_up :
    (cluster : String) (o : Option Pass) (p : Pass) (other : String)
    → o ≡ some p
    → used (or_new_pass (count_up cluster o)) other
      ≡ (if cluster == other then suc (used (or_new_pass o) other) else used (or_new_pass o) other)
unfolding count_up
used_in-count_up cluster none p other e = cc
used_in-count_up cluster (some q) p other e =
    used-store q cluster (suc (used q cluster)) other ∙ ground (arith, eq_iff cluster other)
