-- ===== src/Trust/Tests.antt =====
-- A small ledger, and the theorems at work on it.
use mathlib.Core.List.{Permᴰ}
use ma_klaude.Prelude.{
  inr, string_comparable, ◌≡◌, ◌↔◌, refl, inl, true, false, none, some, [], ◌∷◌, arith, String,
  contains,
}
use ma_klaude.Prelude.Assoc.{fetch}
use ma_klaude.Autonomy.Verdict.{Shape}
use ma_klaude.Autonomy.Request.{Subject}
use ma_klaude.Trust.Entry.{
  before, Entry, human, converged, failed, outcome_demotes, validate_entry, counts, demotes,
  human_reviewed, promotes, outcome_promotes,
}
use ma_klaude.Trust.Ledger.{
  shape_comparable, same_shape, Ledger, new_ledger, Standing, history, append_log, record_entry,
  rebuild, keep_entries, trust, standing, standing_over, scope_of, last_demoting, unobserved_streak,
  all_inconclusive, tally, replace_log,
}
use ma_klaude.Trust.Ledger.Earning.{HasEarned, trust_iff}
use ma_klaude.Trust.Ledger.Recording.{
  record_all, record_entry_idempotent, rebuild-record_all, demotion_blocks,
}
use ma_klaude.Trust.Derive.{AuditRecord, phase_verified, phase_failed, classify}
use ma_klaude.Prelude.Int.{Time, time_sub}
use ma_klaude.Prelude.Text.{trim_space}
use ma_klaude.Trust.Ledger.{recent_convergence, note_recurrence, is_recent}
use ma_klaude.Trust.Ledger.Recurrence.{note_recurrence_blocks}
use ma_klaude.Trust.Derive.{
  derived, entry_from, classify_from, candidate_of, verified_outcome, keep_worse, rank,
  finished_at_of, latest_instant, entry_key, validated,
}
use ma_klaude.Trust.Quarantine.{
  Window, Quarantine, WindowLog, quarantine_lifecycle, begin_window, end_window, window_is,
  find_window, same_window, open_window, close_window, record_event,
}
use ma_klaude.Trust.Quarantine.Windows.{closed_window}
use ma_klaude.Trust.Quarantine.Dropping.{IsKeptOut, quarantine_lifecycle_lem}
use ma_klaude.Trust.Derive.Worst.{failure_demotes, classify-perm}

abbrev restarts : Shape
restarts = record { cluster = "prod"; operation = "rolloutrestart" }

abbrev fix : Subject
fix = record { shape = restarts; fingerprint = "v1:ab" }

abbrev worked : Entry
worked = record {
  key = "a@1";
  identity = "a";
  shape = restarts;
  fingerprint = "v1:ab";
  authority = human;
  outcome = converged;
  at = 10;
  ref = "issue/1";
}

abbrev again : Entry
again = record worked { key = "a@2"; at = 20; ref = "issue/2" }

abbrev third : Entry
third = record worked { key = "a@3"; at = 30; ref = "issue/3" }

abbrev broke : Entry
broke = record worked { key = "b@1"; fingerprint = "v1:cd"; outcome = failed; at = 40 }

abbrev earned : Ledger
earned = record { log = none; keys = []; by_shape = (restarts, worked ∷ again ∷ third ∷ []) ∷ [] }

abbrev blocked : Ledger
blocked = record earned { by_shape = (restarts, worked ∷ again ∷ third ∷ broke ∷ []) ∷ [] }

abbrev cite : Standing → String
cite st = "three approved executions"

history-earned : history earned restarts ≡ worked ∷ again ∷ third ∷ []
unfolding history fetch same_shape
history-earned = refl

history-blocked : history blocked restarts ≡ worked ∷ again ∷ third ∷ broke ∷ []
unfolding history fetch same_shape
history-blocked = refl

trusts : (trust cite earned fix).trusted ≡ true
unfolding trust standing standing_over history fetch same_shape scope_of last_demoting
    unobserved_streak tally promotes outcome_promotes human_reviewed demotes outcome_demotes
    all_inconclusive
trusts = refl

trust_iff_example :
    ((trust cite earned fix).trusted ≡ true) ↔ HasEarned fix (history earned restarts)
trust_iff_example = trust_iff cite earned fix

demotion_blocks_example : (trust cite blocked fix).trusted ≡ false
demotion_blocks_example =
    demotion_blocks cite blocked fix (worked ∷ again ∷ third ∷ []) [] broke history-blocked
      (unfold demotes outcome_demotes in refl) (ground arith)

accepted : (record_entry none new_ledger worked).1 ≡ none
unfolding record_entry validate_entry counts append_log outcome_promotes human_reviewed contains
accepted = refl

record_entry_idempotent_example :
    record_entry (some "disk full") (record_entry none new_ledger worked).0 worked
    ≡ ((record_entry none new_ledger worked).0, none)
record_entry_idempotent_example =
    record_entry_idempotent none (some "disk full") new_ledger worked accepted

rebuilds : (rebuild none earned (worked ∷ worked ∷ broke ∷ [])).1 ≡ none
unfolding rebuild keep_entries replace_log validate_entry counts outcome_promotes human_reviewed
    contains
rebuilds = refl

rebuild-record_all_example :
    (rebuild none earned (worked ∷ worked ∷ broke ∷ [])).0
    ≡ record_all new_ledger (worked ∷ worked ∷ broke ∷ [])
rebuild-record_all_example =
    rebuild-record_all none earned (worked ∷ worked ∷ broke ∷ []) refl rebuilds

abbrev verified : AuditRecord
verified = record {
  recorded_at = 9;
  phase = phase_verified;
  action = record {
    identity = "a";
    cluster = "prod";
    operation = "rolloutrestart";
    fingerprint = "v1:ab";
  };
  approver = record { authority = human; ref = "issue/1" };
  change = record { dry_run = false; finished_at = 8 };
  outcome = record { convergence = "converged"; clean_abort = false };
  rollback_attempted = false;
}

abbrev broken : AuditRecord
broken = record verified { phase = phase_failed }

failure_demotes_example : outcome_demotes (classify (verified ∷ broken ∷ verified ∷ [])).0 ≡ true
failure_demotes_example =
    failure_demotes (verified ∷ broken ∷ verified ∷ []) broken (inr (inl refl)) tt

classify-perm_example : classify (verified ∷ broken ∷ []) ≡ classify (broken ∷ verified ∷ [])
classify-perm_example =
    classify-perm (verified ∷ broken ∷ []) (broken ∷ verified ∷ []) (Permᴰ.swap refl refl)

abbrev chaos_window : Window
chaos_window = record { cluster = "prod"; reason = "drill"; start = 5; until = 50; end = 0 }

abbrev quarantine : Quarantine
quarantine = record { inner = earned; windows = chaos_window ∷ []; dropped = [] }

abbrev format : Time → String
format t = "1970-01-01T00:00:00Z"

abbrev learned : Entry
learned = record {
  key = "a@1970-01-01T00:00:00Z@issue/1";
  identity = "a";
  shape = restarts;
  fingerprint = "v1:ab";
  authority = human;
  outcome = converged;
  at = 8;
  ref = "issue/1";
}

learns : entry_from format (verified ∷ []) ≡ derived learned
unfolding entry_from classify classify_from candidate_of verified_outcome keep_worse rank
    finished_at_of latest_instant entry_key validated validate_entry human_reviewed
learns = refl

quarantine_lifecycle_lem_example :
    IsKeptOut format none quarantine
      (verified ∷ [])
      learned
      (quarantine_lifecycle format none quarantine (verified ∷ [])).0
quarantine_lifecycle_lem_example =
    quarantine_lifecycle_lem format none quarantine (verified ∷ []) learned learns

abbrev no_windows : WindowLog
no_windows = record { windows = []; log = none }

begins : (begin_window none no_windows "prod" "drill" 5 50).1 ≡ window_is chaos_window
unfolding begin_window trim_space open_window find_window record_event
begins = refl

abbrev one_window : WindowLog
one_window = record { windows = chaos_window ∷ []; log = none }

finds : find_window chaos_window one_window.windows ≡ some chaos_window
unfolding find_window same_window
finds = refl

ends : (end_window none one_window chaos_window 20).1 ≡ window_is (closed_window chaos_window 20)
unfolding end_window close_window find_window same_window record_event
ends = refl

recent : recent_convergence "a" 35 none (history earned restarts) ≡ some third
unfolding recent_convergence history fetch same_shape is_recent time_sub before
recent = refl

notes : (note_recurrence none earned "a" restarts 35).1 ≡ none
unfolding note_recurrence recent_convergence history fetch same_shape is_recent time_sub before
    record_entry validate_entry counts append_log outcome_promotes human_reviewed contains
notes = refl

note_recurrence_blocks_example :
    (trust cite (note_recurrence none earned "a" restarts 35).0 fix).trusted ≡ false
note_recurrence_blocks_example =
    note_recurrence_blocks cite none earned "a" restarts 35 third fix recent
      (unfold contains in refl)
      (unfold history fetch same_shape before in (refl, (refl, (refl, tt)))) notes refl
