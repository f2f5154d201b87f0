-- ===== src/Trust/Derive.antt =====
-- internal/trust/derive.go: the ledger entry that a lifecycle of audit records stands for. A record
-- has the fields of internal/audit/record.go that this code reads.
pub mod Worst
use Prim.Native.String.{◌++◌}
use ma_klaude.Prelude.{
  ℕ, String, Bool, true, false, not, ◌&&◌, ◌||◌, Option, none, some, List, [], ◌∷◌, ltb, nat_beq,
  ◌==◌, string_comparable, if◌then◌else◌,
}
use ma_klaude.Prelude.Int.{ℤ, Time, is_zero}
use ma_klaude.Remediate.{Operation}
use ma_klaude.Trust.Entry.{
  Outcome, unrecorded, converged, inconclusive, failed, drift_aborted, rolled_back, regressed,
  other_outcome, Authority, Entry, Invalid, validate_entry, is_unrecorded,
}
use ma_klaude.Trust.Ledger.{Ledger, RecordError, record_entry}

-- `audit.Phase` is an `int`.
pub data Phase : Type 0 where
  phase_unknown phase_proposed phase_approved phase_executed phase_verified phase_failed : Phase
  phase_rolled_back : Phase
  other_phase : ℤ → Phase

pub record Action : Type 0 where
  pub identity : String
  pub cluster : String
  pub operation : Operation
  pub fingerprint : String

pub record Approver : Type 0 where
  pub authority : Authority
  pub ref : String

pub record Change : Type 0 where
  pub dry_run : Bool
  pub finished_at : Time

pub record AuditOutcome : Type 0 where
  pub convergence : String
  pub clean_abort : Bool

pub record AuditRecord : Type 0 where
  pub recorded_at : Time
  pub phase : Phase
  pub action : Action
  pub approver : Approver
  pub change : Change
  pub outcome : AuditOutcome
  pub rollback_attempted : Bool

-- The map of `classify`; what is not in it reads as 0.
unfoldable pub rank : Outcome → ℕ
rank unrecorded = 0
rank converged = 1
rank inconclusive = 2
rank drift_aborted = 3
rank failed = 4
rank rolled_back = 5
rank regressed = 6
rank (other_outcome n) = 0

-- `keep`.
unfoldable pub keep_worse : Outcome → Outcome → Outcome
keep_worse outcome candidate = if ltb (rank outcome) (rank candidate) then candidate else outcome

-- What a verified phase says.
unfoldable pub verified_outcome : String → Option Outcome
verified_outcome convergence =
    if convergence == "converged"
    then some converged
    else if convergence == "timed-out" || convergence == "unobservable"
    then some inconclusive
    else none

-- What one record offers to `keep`.
unfoldable pub candidate_of : Phase → AuditRecord → Option Outcome
candidate_of phase_rolled_back rec = some rolled_back
candidate_of phase_failed rec = if rec.outcome.clean_abort then some drift_aborted else some failed
candidate_of phase_verified rec =
    if rec.change.dry_run then none else verified_outcome rec.outcome.convergence
candidate_of _ rec = none

abbrev pub keep_candidate : Outcome → Option Outcome → Outcome
keep_candidate outcome none = outcome
keep_candidate outcome (some candidate) = keep_worse outcome candidate

-- The loop of `classify`.
unfoldable pub classify_from : Outcome → Bool → List AuditRecord → Outcome × Bool
classify_from outcome rollback [] = (outcome, rollback)
classify_from outcome rollback (rec ∷ recs) =
    classify_from (keep_candidate outcome (candidate_of rec.phase rec))
      (rec.rollback_attempted || rollback) recs

-- `classify`.
unfoldable pub classify : List AuditRecord → Outcome × Bool
classify recs = classify_from unrecorded false recs

-- The latest of the instants that are not zero.
unfoldable pub latest_instant : (AuditRecord → Time) → Time → List AuditRecord → Time
latest_instant instant latest [] = latest
latest_instant instant latest (rec ∷ recs) =
    latest_instant instant
      (if not (is_zero (instant rec)) && ltb latest (instant rec) then instant rec else latest) recs

-- `finishedAt`.
unfoldable pub finished_at_of : List AuditRecord → Time
finished_at_of recs =
    let latest = latest_instant (λ rec. rec.change.finished_at) 0 recs in
    if not (is_zero latest) then latest else latest_instant (λ rec. rec.recorded_at) 0 recs

pub data EntryError : Type 0 where
  not_an_execution no_identity no_instant : EntryError
  entry_invalid : Invalid → EntryError

pub data Derived : Type 0 where
  derived : Entry → Derived
  underivable : EntryError → Derived

abbrev pub last_record : AuditRecord → List AuditRecord → AuditRecord
last_record rec [] = rec
last_record rec (next ∷ recs) = last_record next recs

-- The key: identity, instant, artifact, and a mark for a rollback.
unfoldable pub entry_key : (Time → String) → String → Time → String → Bool → String
entry_key format identity at ref rollback =
    let dated = identity ++ ("@" ++ format at) in
    let with_ref = if ref == "" then dated else dated ++ ("@" ++ ref) in
    if rollback then with_ref ++ "#rollback" else with_ref

-- `validate` is the last step of `EntryFrom`.
unfoldable pub validated : Entry → Option Invalid → Derived
validated e none = derived e
validated e (some why) = underivable (entry_invalid why)

-- `EntryFrom`, where `format` is `time.RFC3339Nano`.
unfoldable pub entry_from : (Time → String) → List AuditRecord → Derived
entry_from format [] = underivable not_an_execution
entry_from format (head ∷ recs) =
    let last = last_record head recs in
    let (outcome, rollback) = classify (head ∷ recs) in
    let at = finished_at_of (head ∷ recs) in
    let e : Entry = record {
      key = entry_key format head.action.identity at last.approver.ref rollback;
      identity = head.action.identity;
      shape = record { cluster = head.action.cluster; operation = head.action.operation };
      fingerprint = head.action.fingerprint;
      authority = last.approver.authority;
      outcome = outcome;
      at = at;
      ref = last.approver.ref;
    } in
    if is_unrecorded outcome
    then underivable not_an_execution
    else if head.action.identity == ""
    then underivable no_identity
    else if is_zero at
    then underivable no_instant
    else validated e (validate_entry e)

pub data LifecycleError : Type 0 where
  from_entry : EntryError → LifecycleError
  from_record : RecordError → LifecycleError

abbrev lifted : Ledger × Option RecordError → Ledger × Option LifecycleError
lifted (l, none) = (l, none)
lifted (l, some err) = (l, some (from_record err))

unfoldable pub record_derived : Option String → Ledger → Derived → Ledger × Option LifecycleError
record_derived write_error l (derived e) = lifted (record_entry write_error l e)
record_derived write_error l (underivable not_an_execution) = (l, none)
record_derived write_error l (underivable err) = (l, some (from_entry err))

-- `RecordLifecycle`.
unfoldable pub record_lifecycle :
    (Time → String) → Option String → Ledger → List AuditRecord → Ledger × Option LifecycleError
record_lifecycle format write_error l recs = record_derived write_error l (entry_from format recs)
