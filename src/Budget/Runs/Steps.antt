-- ===== src/Budget/Runs/Steps.antt =====
-- What each method of internal/budget/admit.go does to every cluster, to the pass and to the seal.
use ma_klaude.Prelude.{
  String, ◌≡◌, ◌≢◌, refl, ◌∙◌, ap, subst, inl, inr, true, false, not, arith, Bool-cases, ◌==◌,
  string_comparable, if◌then◌else◌,
}
use ma_klaude.Prelude.Int.{Time}
use ma_klaude.Prelude.Text.{trim_space}
use ma_klaude.Prelude.Assoc.{store}
use ma_klaude.Prelude.Maps.{IsMap}
use ma_klaude.Remediate.{Target, target_string}
use ma_klaude.Budget.Limits.{Limits, Outcome, is_failed}
use ma_klaude.Budget.State.{ClusterState, cluster_of, with_cluster, no_trip, by_caller}
use ma_klaude.Budget.State.Pruning.{IsState, cluster_of-store, store-IsState}
use ma_klaude.Budget.Admit.{Budget, World, persist}
use ma_klaude.Budget.Admit.Persist.{
  Written, limits-persist, pass-persist, persist_sealed, persist-Written, persist-IsState,
}
use ma_klaude.Budget.Breaker.{fail_cluster, record_outcome, trip, clear}
use ma_klaude.Budget.Runs.{records_at, trips_at, clears_at, step}

-- A cluster put in place and written through.
unfoldable pub put : World → Budget → String → ClusterState → Budget
put w b cluster cs = persist w (record b { state = store b.state cluster cs })

module _ (w : World) (b : Budget) (cluster : String) (cs : ClusterState) where
  pub put-IsState : IsState b.state → IsMap cs.last_admitted → IsState (put w b cluster cs).state
  unfolding put
  put-IsState h m = persist-IsState w _ (store-IsState b.state cluster cs h m)

  pub cluster_of-put :
      IsState b.state
      → IsMap cs.last_admitted
      → (other : String)
      → Written w.now b.limits.cooldown
          (if cluster == other then cs else cluster_of b.state other)
          (cluster_of (put w b cluster cs).state other)
  unfolding put
  cluster_of-put h m other =
      subst
        (λ x.
          Written w.now b.limits.cooldown x
            (cluster_of (persist w (record b { state = store b.state cluster cs })).state other))
        (cluster_of-store b.state cluster cs other)
        (persist-Written w (record b { state = store b.state cluster cs })
          (store-IsState b.state cluster cs h m) other)

  pub limits-put : (put w b cluster cs).limits ≡ b.limits
  unfolding put
  limits-put = limits-persist w _

  pub pass-put : (put w b cluster cs).pass ≡ b.pass
  unfolding put
  pass-put = pass-persist w _

  pub seal-put : b.seal_detail ≢ "" → (put w b cluster cs).seal_detail ≡ b.seal_detail
  unfolding put
  seal-put n =
      ap (λ (x : Budget). x.seal_detail)
        (persist_sealed w (record b { state = store b.state cluster cs }) n)

-- The cluster that a method writes for the one it names.
abbrev pub outcome_state : Limits → ClusterState → Target → Outcome → Time → ClusterState
outcome_state limits cs target outcome at =
    if not (is_failed outcome)
    then record cs { consecutive_failures = 0 }
    else (fail_cluster limits (target_string target) at cs).0

abbrev pub tripped_state : ClusterState → String → Time → ClusterState
tripped_state cs detail at =
    let said = trim_space detail in
    record cs {
      tripped = true;
      tripped_at = at;
      tripped_detail = by_caller (if said == "" then "tripped without a stated reason" else said);
    }

abbrev pub cleared_state : ClusterState → String → Time → ClusterState
cleared_state cs by at = record cs {
  tripped = false;
  tripped_at = 0;
  tripped_detail = no_trip;
  consecutive_failures = 0;
  cleared_at = at;
  cleared_by = trim_space by;
}

record_failed :
    (w : World) (b : Budget) (cluster : String) (target : Target) (outcome : Outcome) (at : Time)
    → is_failed outcome ≡ true
    → step w b (records_at cluster target outcome at)
      ≡ put w b cluster
          (fail_cluster b.limits (target_string target) at (cluster_of b.state cluster)).0
unfolding step record_outcome put
record_failed w b cluster target outcome at t = rw (t, step, record_outcome)

record_succeeded :
    (w : World) (b : Budget) (cluster : String) (target : Target) (outcome : Outcome) (at : Time)
    → is_failed outcome ≡ false
    → step w b (records_at cluster target outcome at)
      ≡ put w b cluster (record (cluster_of b.state cluster) { consecutive_failures = 0 })
unfolding step record_outcome put
record_succeeded w b cluster target outcome at t = rw (t, step, record_outcome)

pub record_lem :
    (w : World) (b : Budget) (cluster : String) (target : Target) (outcome : Outcome) (at : Time)
    → step w b (records_at cluster target outcome at)
      ≡ put w b cluster (outcome_state b.limits (cluster_of b.state cluster) target outcome at)
record_lem w b cluster target outcome at = elim (Bool-cases (is_failed outcome)) [
  | inl t ↦ record_failed w b cluster target outcome at t ∙ ap (put w b cluster) (ground (arith, t))
  | inr f ↦
      record_succeeded w b cluster target outcome at f ∙ ap (put w b cluster) (ground (arith, f))
]

pub trip_lem :
    (w : World) (b : Budget) (cluster detail : String) (at : Time)
    → step w b (trips_at cluster detail at) ≡ (
        if (cluster_of b.state cluster).tripped
        then record b { state = with_cluster b.state cluster }
        else put w b cluster (tripped_state (cluster_of b.state cluster) detail at))
unfolding step trip put
trip_lem w b cluster detail at = refl

pub clear_lem :
    (w : World) (b : Budget) (cluster by : String) (at : Time)
    → step w b (clears_at cluster by at) ≡ (
        if trim_space by == ""
        then b
        else if not (b.seal_detail == "")
        then b
        else put w b cluster (cleared_state (cluster_of b.state cluster) by at))
unfolding step clear put
clear_lem w b cluster by at = ground arith
