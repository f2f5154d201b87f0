-- ===== src/Budget/Breaker.antt =====
-- internal/budget/admit.go: outcomes, and what opens and closes a breaker.
pub mod Responses
use ma_klaude.Prelude.{
  suc, String, Bool, true, false, not, ◌&&◌, Option, none, some, ◌==◌, string_comparable,
  if◌then◌else◌,
}
use ma_klaude.Prelude.Int.{ℤ, pos, leb_ℤ, ltb_ℤ, Time}
use ma_klaude.Prelude.Text.{trim_space}
use ma_klaude.Prelude.Assoc.{store}
use ma_klaude.Remediate.{Target, target_string}
use ma_klaude.Budget.Limits.{Limits, Outcome, is_failed, Consequence, no_consequence}
use ma_klaude.Budget.State.{no_trip, by_failures, by_caller, ClusterState, cluster_of, with_cluster}
use ma_klaude.Budget.Admit.{Budget, World, persist}

-- The threshold that `RecordOutcome` goes by: invalid limits trip at the first failure.
abbrev pub trip_threshold : Limits → ℤ
trip_threshold l = if ltb_ℤ l.failure_threshold (pos 1) then pos 1 else l.failure_threshold

-- A failure on one cluster, and whether it opens the breaker.
unfoldable pub fail_cluster : Limits → String → Time → ClusterState → ClusterState × Bool
fail_cluster limits key at cs =
    let n = suc cs.consecutive_failures in
    let counted = record cs { consecutive_failures = n } in
    if not cs.tripped && leb_ℤ (trip_threshold limits) (pos n)
    then (
      record counted { tripped = true; tripped_at = at; tripped_detail = by_failures n key },
      true,
    )
    else (counted, false)

-- `RecordOutcome`.
unfoldable pub record_outcome :
    World → Budget → String → Target → Outcome → Time → Budget × Consequence
record_outcome w b cluster target outcome at =
    let cs = cluster_of b.state cluster in
    if not (is_failed outcome)
    then (
      persist w
          (record b { state = store b.state cluster (record cs { consecutive_failures = 0 }) }),
      no_consequence,
    )
    else let (cs', opens) = fail_cluster b.limits (target_string target) at cs in
      (
        persist w (record b { state = store b.state cluster cs' }),
        record {
          roll_back = true;
          demote = true;
          escalate = true;
          tripped = opens;
          consecutive_failures = cs'.consecutive_failures;
        },
      )

-- `Trip`; a breaker that is open stays as it is.
unfoldable pub trip : World → Budget → String → String → Time → Budget
trip w b cluster detail at =
    let cs = cluster_of b.state cluster in
    let said = trim_space detail in
    if cs.tripped
    then record b { state = with_cluster b.state cluster }
    else persist w (record b {
      state = store b.state cluster (record cs {
        tripped = true;
        tripped_at = at;
        tripped_detail = by_caller (if said == "" then "tripped without a stated reason" else said);
      });
    })

pub data ClearError : Type 0 where
  nobody_named : ClearError
  refused_sealed : String → ClearError

-- `Clear`.
unfoldable pub clear : World → Budget → String → String → Time → Budget × Option ClearError
clear w b cluster by at =
    let cs = cluster_of b.state cluster in
    if trim_space by == ""
    then (b, some nobody_named)
    else if not (b.seal_detail == "")
    then (b, some (refused_sealed b.seal_detail))
    else (
      persist w (record b {
        state = store b.state cluster (record cs {
          tripped = false;
          tripped_at = 0;
          tripped_detail = no_trip;
          consecutive_failures = 0;
          cleared_at = at;
          cleared_by = trim_space by;
        });
      }),
      none,
    )

-- `Sealed`.
unfoldable pub is_sealed : Budget → Bool
is_sealed b = not (b.seal_detail == "")
