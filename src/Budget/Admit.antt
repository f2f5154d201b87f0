-- ===== src/Budget/Admit.antt =====
-- internal/budget/admit.go: the budget and each of its methods. The lock makes a method one step.
pub mod Ladder
pub mod Persist
pub mod Looking
pub mod Effects
pub mod Unstarted
use Prim.Native.String.{◌++◌}
use ma_klaude.Prelude.{
  ℕ, suc, String, not, ◌||◌, Option, none, some, List, [], ◌∷◌, ◌==◌, string_comparable,
  if◌then◌else◌,
}
use mathlib.Core.List.{◌++◌ as ◌+++◌}
use ma_klaude.Prelude.Int.{pos, leb_ℤ, ltb_ℤ, Time, time_sub}
use ma_klaude.Prelude.Assoc.{fetch, store}
use ma_klaude.Remediate.{Target, target_string}
use ma_klaude.Budget.Limits.{
  Limits, LimitsError, validate_limits, Reason, state_unreadable, limits_invalid, cluster_mismatch,
  breaker_tripped, pass_cap_reached, target_cooling_down, no_pass, admitted, admits, Detail,
  no_detail, no_pass_detail, seal_text, limits_text, mismatch_text, breaker_text, cap_text,
  cooling_text, Grant, Suppression,
}
use ma_klaude.Budget.State.{
  ClusterState, State, cluster_of, with_cluster, prune, File, load, Loaded, loaded, load_error,
  saved,
}

pub record Pass : Type 0 where
  pub admitted_count : List (String × ℕ)
  pub suppressed : List Suppression

abbrev pub new_pass : Pass
new_pass = record { admitted_count = []; suppressed = [] }

-- `backing` is the state file of `store`, as this process last wrote or read it; a budget with none
-- is in memory only. `seal_detail` is empty unless the budget is sealed.
pub record Budget : Type 0 where
  pub limits : Limits
  pub backing : Option File
  pub state : State
  pub seal_detail : String
  pub pass : Option Pass

-- What a step meets outside: the clock's reading, and the error of a write if it fails.
pub record World : Type 0 where
  pub now : Time
  pub write_error : Option String

-- `NewMemory`.
unfoldable pub new_memory : Limits → Budget
new_memory limits = record {
  limits = limits;
  backing = none;
  state = [];
  seal_detail = "";
  pass = none;
}

unfoldable pub opened : Limits → File → Loaded → Budget
opened limits file (loaded s) = record {
  limits = limits;
  backing = some file;
  state = s;
  seal_detail = "";
  pass = none;
}
opened limits file (load_error e) = record {
  limits = limits;
  backing = some file;
  state = [];
  seal_detail = e;
  pass = none;
}

-- `Open`, past the checks of its path argument.
unfoldable pub open_budget : Limits → File → Budget
open_budget limits file = opened limits file (load file)

-- `Begin`.
unfoldable pub begin : Budget → Budget
begin b = record b { pass = some new_pass }

unfoldable pub write : World → Budget → State → Budget
write w b s = elim w.write_error [
  | none ↦ record b { state = s; backing = some (saved s) }
  | some e ↦ record b {
    state = s;
    seal_detail =
        "the state could not be written, so the breaker and cooldowns are no longer durable: " ++ e;
  }
]

-- `persist`.
unfoldable pub persist : World → Budget → Budget
persist w b =
    if not (b.seal_detail == "")
    then b
    else elim b.backing [ none ↦ b | some file ↦ write w b (prune w.now b.limits.cooldown b.state) ]

abbrev or_zero : Option ℕ → ℕ
or_zero none = 0
or_zero (some n) = n

-- `b.pass.admitted[cluster]`.
unfoldable pub used : Pass → String → ℕ
used p cluster = or_zero (fetch p.admitted_count cluster)

-- The last question of `check`: is this target still cooling down?
unfoldable pub cooling_check : Limits → Option Time → Time → Reason × Detail
cooling_check limits none at = (admitted, no_detail)
cooling_check limits (some last) at =
    let elapsed = time_sub at last in
    if ltb_ℤ elapsed limits.cooldown
    then (target_cooling_down, cooling_text elapsed limits.cooldown last)
    else (admitted, no_detail)

-- The questions of `check` about one cluster: breaker, cap, cooldown.
unfoldable pub bounds_check : Limits → ClusterState → ℕ → String → Time → Reason × Detail
bounds_check limits cs n key at =
    if cs.tripped
    then (breaker_tripped, breaker_text cs.tripped_at cs.consecutive_failures)
    else if leb_ℤ limits.per_cluster_per_pass (pos n)
    then (pass_cap_reached, cap_text n limits.per_cluster_per_pass)
    else cooling_check limits (fetch cs.last_admitted key) at

-- The ladder of `check`, and the state that it leaves: the last three questions look the cluster up.
pub record Check : Type 0 where
  pub answer : Reason × Detail
  pub left : State

unfoldable pub check_pass : Budget → String → String → Time → Option Pass → Check
check_pass b cluster key at none = record { answer = (no_pass, no_pass_detail); left = b.state }
check_pass b cluster key at (some p) = record {
  answer = bounds_check b.limits (cluster_of b.state cluster) (used p cluster) key at;
  left = with_cluster b.state cluster;
}

unfoldable pub check_limits : Budget → String → Target → Time → Option LimitsError → Check
check_limits b cluster target at (some e) = record {
  answer = (limits_invalid, limits_text e);
  left = b.state;
}
check_limits b cluster target at none =
    if cluster == "" || not (target.cluster == cluster)
    then record {
      answer = (cluster_mismatch, mismatch_text cluster target.cluster);
      left = b.state;
    }
    else check_pass b cluster (target_string target) at b.pass

unfoldable pub check : Budget → String → Target → Time → Check
check b cluster target at =
    if not (b.seal_detail == "")
    then record { answer = (state_unreadable, seal_text b.seal_detail); left = b.state }
    else check_limits b cluster target at (validate_limits b.limits)

abbrev pub or_new_pass : Option Pass → Pass
or_new_pass none = new_pass
or_new_pass (some p) = p

-- `suppress`: a denial with no pass in progress starts one to stand on.
unfoldable pub suppress : Budget → Grant → Time → Budget
suppress b g at =
    let p = or_new_pass b.pass in
    record b {
      pass = some (record p {
        suppressed =
            p.suppressed
            +++ record {
              cluster = g.cluster;
              target = g.target;
              reason = g.reason;
              detail = g.detail;
              at = at;
            }
              ∷ [];
      });
    }

unfoldable pub count_up : String → Option Pass → Option Pass
count_up cluster none = none
count_up cluster (some p) =
    some (record p { admitted_count = store p.admitted_count cluster (suc (used p cluster)) })

-- What an admission takes: a cooldown starts and the pass count rises, before anything runs.
unfoldable pub consume : World → Budget → String → String → Time → Budget
consume w b cluster key at =
    let cs = cluster_of b.state cluster in
    persist w (record b {
      state = store b.state cluster (record cs { last_admitted = store cs.last_admitted key at });
      pass = count_up cluster b.pass;
    })

-- `Admit`.
unfoldable pub admit : World → Budget → String → Target → Time → Budget × Grant
admit w b cluster target at =
    let key = target_string target in
    let c = check b cluster target at in
    let g : Grant = record {
      reason = c.answer.0;
      cluster = cluster;
      target = key;
      detail = c.answer.1;
    } in
    let looked : Budget = record b { state = c.left } in
    if admits g.reason then (consume w looked cluster key at, g) else (suppress looked g at, g)
