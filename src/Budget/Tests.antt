-- ===== src/Budget/Tests.antt =====
-- A small cluster budget, and the theorems at work on it.
use ma_klaude.Prelude.{
  string_comparable, false≢true, ℕ, String, ◌≡◌, ◌↔◌, refl, inr, true, false, none, some, [], ◌∷◌,
  ◌≤◌, arith, eq_iff,
}
use ma_klaude.Prelude.Int.{pos, Time, time_sub}
use ma_klaude.Prelude.Text.{trim_space}
use ma_klaude.Prelude.Assoc.{fetch, store, retain}
use ma_klaude.Remediate.{Target, target_string}
use ma_klaude.Budget.Limits.{
  Limits, admitted, no_pass, succeeded, failed, unrecorded, is_failed, admits, validate_limits,
}
use ma_klaude.Budget.State.{
  ClusterState, new_cluster, cluster_of, with_cluster, prune, prune_cluster, absent,
}
use ma_klaude.Budget.State.Pruning.{IsState, store-IsState}
use ma_klaude.Budget.Admit.{
  Budget, World, new_pass, open_budget, begin, write, persist, used, cooling_check, bounds_check,
  check_pass, check_limits, check, suppress, count_up, consume, admit,
}
use ma_klaude.Budget.Admit.Ladder.{IsBounding, CanAdmit, admit_iff}
use ma_klaude.Budget.Admit.Unstarted.{unstarted_admits_second}
use ma_klaude.Budget.Breaker.{fail_cluster, record_outcome, trip, clear}
use ma_klaude.Budget.Runs.{
  begins, admits_at, records_at, trips_at, clears_at, step, Run, run, granted, count_granted,
}
use ma_klaude.Budget.Runs.Counts.{begin_cap}
use ma_klaude.Budget.Runs.Closed.{breaker_stays_open, seal_is_final}
use ma_klaude.Budget.Runs.Cooldown.{cooldown_holds}
use ma_klaude.Budget.Runs.Failures.{failures_in, failures_trip}
use ma_klaude.Budget.Runs.Isolation.{isolation}
use ma_klaude.Budget.Runs.Restart.{IsDurable, restart_loses_nothing}

abbrev limits : Limits
limits = record { per_cluster_per_pass = pos 2; cooldown = pos 1000; failure_threshold = pos 2 }

abbrev node : String → Target
node name = record {
  cluster = "prod";
  kind = "node";
  namespace = "";
  name = name;
  resource_version = "1";
}

abbrev clock : World
clock = record { now = 100; write_error = none }

abbrev started : Budget
started = record {
  limits = limits;
  backing = some absent;
  state = [];
  seal_detail = "";
  pass = some new_pass;
}

abbrev unstarted : Budget
unstarted = record started { pass = none }

abbrev three_admissions : Run
three_admissions =
    (clock, admits_at "prod" (node "a") 100)
    ∷ (clock, admits_at "prod" (node "b") 100)
    ∷ (clock, admits_at "prod" (node "c") 100)
    ∷ []

-- What a run computes with.
abbrev count : Budget → Run → ℕ
unfolding count_granted granted step admit check check_limits check_pass bounds_check cooling_check
    validate_limits consume suppress count_up persist write prune prune_cluster retain used fetch
    store cluster_of with_cluster target_string time_sub record_outcome fail_cluster is_failed trip
    clear trim_space begin
count b r = count_granted b "prod" r

-- The third is refused.
count_two : count started three_admissions ≡ 2
unfolding count
count_two = refl

-- A trip refuses what comes after it.
count_tripped :
    count started (
      (clock, admits_at "prod" (node "a") 100)
      ∷ (clock, trips_at "prod" "burst" 100)
      ∷ (clock, admits_at "prod" (node "b") 100)
      ∷ [])
    ≡ 1
unfolding count
count_tripped = refl

empty-IsState : IsState []
unfolding cluster_of fetch
empty-IsState = record { clusters = tt; times = λ name. tt }

begin_cap_example : count_granted (begin unstarted) "prod" three_admissions ≤ 2
begin_cap_example =
    begin_cap 2 "prod" unstarted three_admissions refl empty-IsState (tt, (tt, (tt, tt)))

abbrev open_state : ClusterState
open_state = record new_cluster { tripped = true; tripped_at = 90; consecutive_failures = 2 }

abbrev open_breaker : Budget
open_breaker = record started { state = ("prod", open_state) ∷ [] }

open_breaker-IsState : IsState open_breaker.state
unfolding store
open_breaker-IsState = store-IsState [] "prod" open_state empty-IsState tt

is_open : (cluster_of open_breaker.state "prod").tripped ≡ true
unfolding cluster_of fetch
is_open = refl

abbrev waiting : Run
waiting =
    (clock, begins)
    ∷ (clock, records_at "prod" (node "a") succeeded 100)
    ∷ (clock, admits_at "prod" (node "b") 5000)
    ∷ []

breaker_stays_open_example :
    ((cluster_of (run open_breaker waiting).state "prod").tripped ≡ true)
    × (count_granted open_breaker "prod" waiting ≡ 0)
breaker_stays_open_example =
    breaker_stays_open "prod" waiting open_breaker (tt, (tt, (tt, tt))) open_breaker-IsState is_open

abbrev sealed : Budget
sealed = record started { seal_detail = "the state file could not be parsed" }

seal_is_final_example :
    ((run sealed waiting).seal_detail ≡ "the state file could not be parsed")
    × (count_granted sealed "prod" waiting ≡ 0)
seal_is_final_example =
    seal_is_final "prod" waiting sealed empty-IsState
      (λ e. false≢true ((eq_iff "the state file could not be parsed" "").1 e))

bounding : IsBounding limits
bounding = record { cap = refl; cooldown = refl; threshold = refl }

can_admit : (at : Time) → CanAdmit started "prod" (node "a") at
unfolding used fetch cluster_of
can_admit at = record {
  unsealed = refl;
  bounding = bounding;
  given = λ e. false≢true ((eq_iff "prod" "").1 e);
  agreed = refl;
  pass = new_pass;
  started = refl;
  closed = refl;
  room = refl;
  cooled = λ t e. absurd (cc e);
}

admit_iff_example :
    ((admit clock started "prod" (node "a") 100).1.reason ≡ admitted)
    ↔ CanAdmit started "prod" (node "a") 100
admit_iff_example = admit_iff clock started "prod" (node "a") 100

is_admitted : (admit clock started "prod" (node "a") 100).1.reason ≡ admitted
is_admitted = (admit_iff clock started "prod" (node "a") 100).1 (can_admit 100)

abbrev within : Run
within =
    (record { now = 300; write_error = none }, records_at "prod" (node "a") failed 300)
    ∷ (record { now = 400; write_error = none }, clears_at "prod" "ops" 400)
    ∷ []

cooldown_holds_example :
    admits
      (admit clock
        (run (admit clock started "prod" (node "a") 100).0 within)
        "prod"
        (node "a")
        600).1.reason
    ≡ false
cooldown_holds_example =
    cooldown_holds clock started "prod" (node "a") 100 700 within clock (node "a") 600 empty-IsState
      is_admitted (unfold time_sub in refl) (ground arith) (ground arith, (ground arith, tt)) refl
      (ground arith)

abbrev two_failures : Run
two_failures =
    (clock, records_at "prod" (node "a") failed 100)
    ∷ (clock, begins)
    ∷ (clock, records_at "prod" (node "b") unrecorded 200)
    ∷ []

failures_trip_example : (cluster_of (run started two_failures).state "prod").tripped ≡ true
failures_trip_example =
    failures_trip "prod" two_failures started
      (inr (unfold is_failed in refl), (tt, (inr (unfold is_failed in refl), tt))) empty-IsState
      (unfold failures_in is_failed in refl)

isolation_example : ((admit clock started "prod" (node "a") 100).1.reason ≡ admitted) ↔ (
    (admit clock (step clock started (trips_at "dev" "burst" 100)) "prod" (node "a") 100).1.reason
    ≡ admitted)
isolation_example =
    isolation clock clock started "prod" (trips_at "dev" "burst" 100) (node "a") 100 new_pass
      empty-IsState (λ e. false≢true ((eq_iff "dev" "prod").1 e)) refl
      (unfold step trip persist write cluster_of fetch in refl) (ground arith)

restart_loses_nothing_example : IsDurable (run (open_budget limits absent) two_failures)
restart_loses_nothing_example = restart_loses_nothing limits absent two_failures

unstarted_admits_second_example :
    ((admit clock unstarted "prod" (node "a") 100).1.reason ≡ no_pass)
    × ((admit clock (admit clock unstarted "prod" (node "a") 100).0 "prod" (node "a") 100).1.reason
        ≡ admitted)
unstarted_admits_second_example =
    unstarted_admits_second clock clock unstarted "prod" (node "a") 100 100 (can_admit 100) refl
