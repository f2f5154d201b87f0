-- ===== src/Budget/Runs/Failures.antt =====
-- Failures in a row over a run, and the breaker that they open.
use ma_klaude.Prelude.{
  ℕ, suc, String, ◌≡◌, ◌≢◌, refl, sym, ◌∙◌, ap, subst, ◌⊎◌, inl, inr, Bool, true, false, ◌&&◌, [],
  ◌∷◌, ◌+◌, ◌≤◌, arith, eq_iff, Bool-cases, ◌==◌, string_comparable, if◌then◌else◌,
}
use ma_klaude.Prelude.Int.{ℤ, pos, leb_ℤ, Time}
use ma_klaude.Remediate.{target_string}
use ma_klaude.Budget.Limits.{Limits, is_failed}
use ma_klaude.Budget.State.{ClusterState, cluster_of}
use ma_klaude.Budget.State.Pruning.{IsState}
use ma_klaude.Budget.Admit.{Budget}
use ma_klaude.Budget.Breaker.{fail_cluster, trip_threshold}
use ma_klaude.Budget.Runs.{Call, begins, admits_at, records_at, trips_at, clears_at, step, Run, run}
use ma_klaude.Budget.Runs.Laws.{step-Keeps, after}
use ma_klaude.Budget.Runs.Closed.{HasNoClearing, breaker_stays_open}

-- A call that neither reports a success on a cluster nor clears its breaker.
abbrev pub IsNotResetting : String → Call → Type 0
IsNotResetting cluster (records_at c target outcome at) = (c ≢ cluster) ⊎ (is_failed outcome ≡ true)
IsNotResetting cluster (clears_at c by at) = c ≢ cluster
IsNotResetting cluster _ = Unit

abbrev pub HasNoReset : String → Run → Type 0
HasNoReset cluster [] = Unit
HasNoReset cluster ((w, c) ∷ r) = IsNotResetting cluster c × HasNoReset cluster r

-- Does a call report a failure on a cluster?
abbrev pub is_failure : String → Call → Bool
is_failure cluster (records_at c target outcome at) = c == cluster && is_failed outcome
is_failure cluster _ = false

unfoldable pub failures_in : String → Run → ℕ
failures_in cluster [] = 0
failures_in cluster ((w, c) ∷ r) =
    let rest = failures_in cluster r in if is_failure cluster c then suc rest else rest

not_clearing : (cluster : String) (r : Run) → HasNoReset cluster r → HasNoClearing cluster r
not_clearing cluster [] h = tt
not_clearing cluster ((w, begins) ∷ r) h = (tt, not_clearing cluster r h.1)
not_clearing cluster ((w, admits_at c target at) ∷ r) h = (tt, not_clearing cluster r h.1)
not_clearing cluster ((w, records_at c target outcome at) ∷ r) h = (tt, not_clearing cluster r h.1)
not_clearing cluster ((w, trips_at c detail at) ∷ r) h = (tt, not_clearing cluster r h.1)
not_clearing cluster ((w, clears_at c by at) ∷ r) h = (h.0, not_clearing cluster r h.1)

module _ (l : Limits) (key : String) (at : Time) (cs : ClusterState) where
  fail_counts : (fail_cluster l key at cs).0.consecutive_failures ≡ suc cs.consecutive_failures
  unfolding fail_cluster
  fail_counts = ground arith

  fail_opens :
      leb_ℤ (trip_threshold l) (pos (suc cs.consecutive_failures)) ≡ true
      → (fail_cluster l key at cs).0.tripped ≡ true
  unfolding fail_cluster
  fail_opens h = ground (arith, h)

module _ (b : Budget) (cluster : String) where
  after-failures :
      (c : Call)
      → IsNotResetting cluster c
      → (after b c cluster).consecutive_failures ≡ (
          if is_failure cluster c
          then suc (cluster_of b.state cluster).consecutive_failures
          else (cluster_of b.state cluster).consecutive_failures)
  after-failures begins n = refl
  after-failures (admits_at c target at) n = ground (arith, eq_iff c cluster)
  after-failures (records_at c target outcome at) n = ground (
    arith,
    n,
    eq_iff c cluster,
    fail_counts b.limits (target_string target) at (cluster_of b.state cluster),
  )
  after-failures (trips_at c detail at) n = ground (arith, eq_iff c cluster)
  after-failures (clears_at c by at) n = ground (arith, n, eq_iff c cluster)

  after-opens :
      (c : Call)
      → is_failure cluster c ≡ true
      → leb_ℤ
          (trip_threshold b.limits)
          (pos (suc (cluster_of b.state cluster).consecutive_failures))
        ≡ true
      → (after b c cluster).tripped ≡ true
  after-opens (records_at c target outcome at) f h = ground (
    arith,
    f,
    eq_iff c cluster,
    fail_opens b.limits (target_string target) at (cluster_of b.state cluster) h,
  )
  after-opens begins f h = cc
  after-opens (admits_at c target at) f h = cc
  after-opens (trips_at c detail at) f h = cc
  after-opens (clears_at c by at) f h = cc

short : (z : ℤ) (x y : ℕ) → x ≡ y → leb_ℤ z (pos x) ≡ true → leb_ℤ z (pos y) ≡ true
short z x y e h = rw (← e) h

more_to_come :
    (z : ℤ) (n rest : ℕ)
    → leb_ℤ z (pos (suc n)) ≡ false
    → leb_ℤ z (pos (n + suc rest)) ≡ true
    → 1 ≤ rest
more_to_come z n rest f h = ground arith

leb_more : (z : ℤ) (x y : ℕ) → leb_ℤ z (pos x) ≡ true → leb_ℤ z (pos (y + x)) ≡ true
leb_more z x y h = ground arith

positive : (l : Limits) (n : ℕ) → leb_ℤ (trip_threshold l) (pos n) ≡ true → 1 ≤ n
positive l n h = ground arith

-- What is left of a run in a row that reaches the threshold.
trips_within :
    (cluster : String) (r : Run) (b : Budget)
    → HasNoReset cluster r
    → IsState b.state
    → leb_ℤ
        (trip_threshold b.limits)
        (pos ((cluster_of b.state cluster).consecutive_failures + failures_in cluster r))
      ≡ true
    → 1 ≤ failures_in cluster r
    → (cluster_of (run b r).state cluster).tripped ≡ true
unfolding run failures_in
trips_within cluster [] b n h reach some_left = absurd (ground arith)
trips_within cluster ((w, c) ∷ r) b n h reach some_left =
    let keeps = step-Keeps w b h c in
    let n0 : ℕ = (cluster_of b.state cluster).consecutive_failures in
    let count = (keeps.cluster cluster).failures ∙ after-failures b cluster c n.0 in
    let goes_on =
      λ (e : ℕ)
          (up : (cluster_of (step w b c).state cluster).consecutive_failures + failures_in cluster r
            ≡ e)
          (reach' : leb_ℤ (trip_threshold b.limits) (pos e) ≡ true)
          (left : 1 ≤ failures_in cluster r).
        trips_within cluster r (step w b c) n.1 keeps.state
          (subst
            (λ (l : Limits).
              leb_ℤ (trip_threshold l) (
                pos (
                  (cluster_of (step w b c).state cluster).consecutive_failures
                  + failures_in cluster r))
              ≡ true)
            (sym keeps.limits) (short (trip_threshold b.limits) e _ (sym up) reach'))
          left in
    elim (Bool-cases (is_failure cluster c)) [
      | inl t ↦ elim (Bool-cases (leb_ℤ (trip_threshold b.limits) (pos (suc n0)))) [
        | inl opens ↦
            (breaker_stays_open cluster r (step w b c) (not_clearing cluster r n.1) keeps.state
              ((keeps.cluster cluster).tripped ∙ after-opens b cluster c t opens)).0
        | inr f ↦
            let reached : leb_ℤ (trip_threshold b.limits) (pos (n0 + suc (failures_in cluster r)))
                ≡ true =
              rw t at reach in
            goes_on (suc n0 + failures_in cluster r)
              (ap (λ x. x + failures_in cluster r) (count ∙ rw t))
              (short (trip_threshold b.limits) (n0 + suc (failures_in cluster r))
                (suc n0 + failures_in cluster r) (ground arith) reached)
              (more_to_come (trip_threshold b.limits) n0 (failures_in cluster r) f reached)
      ]
      | inr f ↦
          goes_on (n0 + failures_in cluster r) (ap (λ x. x + failures_in cluster r) (count ∙ rw f))
            (rw f at reach) (rw f at some_left)
    ]

-- As many failures in a row as `FailureThreshold` open the breaker of their cluster: on a budget
-- whose maps hold no key twice, over any sequence of calls with that many failures on the cluster,
-- whatever their targets and whatever comes between them, if no success is reported on it and
-- nobody clears it, the breaker is open at the end. With a threshold below 1 one failure is
-- enough.
pub failures_trip :
    (cluster : String) (r : Run) (b : Budget)
    → HasNoReset cluster r
    → IsState b.state
    → leb_ℤ (trip_threshold b.limits) (pos (failures_in cluster r)) ≡ true
    → (cluster_of (run b r).state cluster).tripped ≡ true
failures_trip cluster r b n h reach =
    trips_within cluster r b n h
      (leb_more (trip_threshold b.limits) (failures_in cluster r)
        (cluster_of b.state cluster).consecutive_failures reach)
      (positive b.limits (failures_in cluster r) reach)
