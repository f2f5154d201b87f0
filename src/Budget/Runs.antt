-- ===== src/Budget/Runs.antt =====
-- A budget under a sequence of method calls. The lock of the source makes each call one step, so
-- every interleaving of callers is such a sequence.
pub mod Steps
pub mod Laws
pub mod Counts
pub mod Restart
pub mod Isolation
pub mod Failures
pub mod Cooldown
pub mod Closed
use ma_klaude.Prelude.{
  ℕ, suc, String, Bool, false, ◌&&◌, List, [], ◌∷◌, ◌==◌, string_comparable, if◌then◌else◌,
}
use ma_klaude.Prelude.Int.{Time}
use ma_klaude.Remediate.{Target}
use ma_klaude.Budget.Limits.{Outcome, admits}
use ma_klaude.Budget.Admit.{Budget, World, begin, admit}
use ma_klaude.Budget.Breaker.{record_outcome, trip, clear}

pub data Call : Type 0 where
  begins : Call
  admits_at : String → Target → Time → Call
  records_at : String → Target → Outcome → Time → Call
  trips_at : String → String → Time → Call
  clears_at : String → String → Time → Call

-- The budget after a call.
unfoldable pub step : World → Budget → Call → Budget
step w b begins = begin b
step w b (admits_at cluster target at) = (admit w b cluster target at).0
step w b (records_at cluster target outcome at) = (record_outcome w b cluster target outcome at).0
step w b (trips_at cluster detail at) = trip w b cluster detail at
step w b (clears_at cluster by at) = (clear w b cluster by at).0

-- A run: what each call met outside, and the call.
abbrev pub Run : Type 0
Run = List (World × Call)

unfoldable pub run : Budget → Run → Budget
run b [] = b
run b ((w, c) ∷ r) = run (step w b c) r

-- One if the call is an admission for the cluster that is granted.
unfoldable pub granted : World → Budget → String → Call → Bool
granted w b cluster (admits_at c target at) =
    c == cluster && admits (admit w b c target at).1.reason
granted w b cluster _ = false

-- How many admissions of a run were granted for a cluster.
unfoldable pub count_granted : Budget → String → Run → ℕ
count_granted b cluster [] = 0
count_granted b cluster ((w, c) ∷ r) =
    let rest = count_granted (step w b c) cluster r in
    if granted w b cluster c then suc rest else rest
