-- ===== src/Trust/Quarantine.antt =====
-- internal/trust/quarantine.go: windows in which a cluster's outcomes teach the ledger nothing, and
-- the recorder that stands before the ledger.
pub mod Windows
pub mod Dropping
use mathlib.Core.Option
use mathlib.Core.List.{◌++◌ as ◌+++◌}
use ma_klaude.Prelude.{
  String, Bool, true, false, not, ◌&&◌, ◌||◌, Option, none, some, List, [], ◌∷◌, ltb, nat_beq, ◌==◌,
  string_comparable, if◌then◌else◌,
}
use ma_klaude.Prelude.Int.{Time, is_zero}
use ma_klaude.Prelude.Text.{trim_space}
use ma_klaude.Autonomy.Verdict.{Shape}
use ma_klaude.Autonomy.Request.{Subject}
use ma_klaude.Trust.Entry.{Outcome, Entry}
use ma_klaude.Trust.Ledger.{Ledger, RecordError, Standing, standing, note_recurrence}
use ma_klaude.Trust.Derive.{
  AuditRecord, Derived, derived, underivable, entry_from, LifecycleError, record_lifecycle,
}

-- `end` is 0 while the window is not closed.
pub record Window : Type 0 where
  pub cluster : String
  pub reason : String
  pub start : Time
  pub until : Time
  pub end : Time

-- `Window.Active`.
unfoldable pub is_active : Window → Time → Bool
is_active w at =
    if ltb at w.start
    then false
    else if not (is_zero w.end) && not (ltb at w.end)
    then false
    else ltb at w.until

-- `Window.EffectiveEnd`.
unfoldable pub effective_end : Window → Time
effective_end w = if not (is_zero w.end) && ltb w.end w.until then w.end else w.until

-- `Window.Expired`.
unfoldable pub has_expired : Window → Time → Bool
has_expired w at = is_zero w.end && not (ltb at w.until)

-- Two windows have the same `key` if cluster and start agree: an instant is written without an `@`.
unfoldable pub same_window : Window → Window → Bool
same_window w v = w.cluster == v.cluster && nat_beq w.start v.start

pub data WindowEvent : Type 0 where
  opened_event closed_event : Window → WindowEvent

abbrev pub event_window : WindowEvent → Window
event_window (opened_event w) = w
event_window (closed_event w) = w

-- `log` is what the file of the store holds, as this process left it.
pub record WindowLog : Type 0 where
  pub windows : List Window
  pub log : Option (List WindowEvent)

-- The window that `byKey` finds.
unfoldable pub find_window : Window → List Window → Option Window
find_window w [] = none
find_window w (v ∷ vs) = if same_window w v then some v else find_window w vs

-- `apply`: replace the window of the same key, or add one.
unfoldable pub apply_window : Window → List Window → List Window
apply_window w [] = w ∷ []
apply_window w (v ∷ vs) = if same_window w v then w ∷ vs else v ∷ apply_window w vs

pub data WindowError : Type 0 where
  no_cluster_named no_reason_given over_before_open nothing_to_close : WindowError
  event_unwritten : String → WindowError

pub data Windowed : Type 0 where
  window_is : Window → Windowed
  window_error : WindowError → Windowed

abbrev pub applied : WindowLog → WindowEvent → WindowLog
applied ws ev = record {
  windows = apply_window (event_window ev) ws.windows;
  log = Option.map (λ old. old +++ ev ∷ []) ws.log;
}

-- `record`, with the error of the file if writing to it fails.
unfoldable pub record_event : Option String → WindowLog → WindowEvent → WindowLog × Windowed
record_event (some err) ws ev = elim ws.log [
  | none ↦ (applied ws ev, window_is (event_window ev))
  | some old ↦ (ws, window_error (event_unwritten err))
]
record_event none ws ev = (applied ws ev, window_is (event_window ev))

unfoldable pub open_window :
    Option String → WindowLog → Window → Option Window → WindowLog × Windowed
open_window write_error ws win (some known) = (ws, window_is known)
open_window write_error ws win none = record_event write_error ws (opened_event win)

-- `Begin`.
unfoldable pub begin_window :
    Option String → WindowLog → String → String → Time → Time → WindowLog × Windowed
begin_window write_error ws cluster reason at until =
    let win : Window = record {
      cluster = cluster;
      reason = trim_space reason;
      start = at;
      until = until;
      end = 0;
    } in
    if trim_space cluster == ""
    then (ws, window_error no_cluster_named)
    else if trim_space reason == ""
    then (ws, window_error no_reason_given)
    else if not (ltb at until)
    then (ws, window_error over_before_open)
    else open_window write_error ws win (find_window win ws.windows)

unfoldable pub close_window :
    Option String → WindowLog → Time → Option Window → WindowLog × Windowed
close_window write_error ws at none = (ws, window_error nothing_to_close)
close_window write_error ws at (some known) =
    if not (is_zero known.end)
    then (ws, window_is known)
    else record_event write_error ws (closed_event (record known { end = at }))

-- `End`.
unfoldable pub end_window : Option String → WindowLog → Window → Time → WindowLog × Windowed
end_window write_error ws win at = close_window write_error ws at (find_window win ws.windows)

-- `Active`.
unfoldable pub active_windows : String → Time → List Window → List Window
active_windows cluster at [] = []
active_windows cluster at (w ∷ ws) =
    let rest = active_windows cluster at ws in
    if w.cluster == cluster && is_active w at then w ∷ rest else rest

abbrev pub is_given {ℓ} : {A : Type ℓ} → List A → Bool
is_given [] = false
is_given (x ∷ xs) = true

-- `Quarantined`.
unfoldable pub is_quarantined : String → Time → List Window → Bool
is_quarantined cluster at ws = is_given (active_windows cluster at ws)

-- What `Drop.Detail` says.
pub data DropDetail : Type 0 where
  dropped_outcome : Outcome → String → DropDetail
  dropped_recurrence : String → DropDetail

pub record Drop : Type 0 where
  pub cluster : String
  pub detail : DropDetail
  pub window : Window

-- A quarantine whose recorder is the ledger.
pub record Quarantine : Type 0 where
  pub inner : Ledger
  pub windows : List Window
  pub dropped : List Drop

abbrev pub drop_one : Quarantine → Drop → Quarantine
drop_one q d = record q { dropped = q.dropped +++ d ∷ [] }

abbrev pub passed_on {ℓ} : {E : Type ℓ} → Quarantine → Ledger × Option E → Quarantine × Option E
passed_on q (l, err) = (record q { inner = l }, err)

unfoldable pub admit_lifecycle :
    (Time → String)
    → Option String
    → Quarantine
    → List AuditRecord
    → Entry
    → List Window
    → Quarantine × Option LifecycleError
admit_lifecycle format write_error q recs e [] =
    passed_on q (record_lifecycle format write_error q.inner recs)
admit_lifecycle format write_error q recs e (w ∷ ws) = (
  drop_one q (record {
    cluster = e.shape.cluster;
    detail = dropped_outcome e.outcome e.identity;
    window = w;
  }),
  none,
)

unfoldable pub quarantine_derived :
    (Time → String)
    → Option String
    → Quarantine
    → List AuditRecord
    → Derived
    → Quarantine × Option LifecycleError
quarantine_derived format write_error q recs (underivable err) =
    passed_on q (record_lifecycle format write_error q.inner recs)
quarantine_derived format write_error q recs (derived e) =
    admit_lifecycle format write_error q recs e (active_windows e.shape.cluster e.at q.windows)

-- `Quarantine.RecordLifecycle`.
unfoldable pub quarantine_lifecycle :
    (Time → String)
    → Option String
    → Quarantine
    → List AuditRecord
    → Quarantine × Option LifecycleError
quarantine_lifecycle format write_error q recs =
    quarantine_derived format write_error q recs (entry_from format recs)

unfoldable pub admit_recurrence :
    Option String
    → Quarantine
    → String
    → Shape
    → Time
    → List Window
    → Quarantine × Option RecordError
admit_recurrence write_error q identity shape now [] =
    passed_on q (note_recurrence write_error q.inner identity shape now)
admit_recurrence write_error q identity shape now (w ∷ ws) = (
  drop_one q (record { cluster = shape.cluster; detail = dropped_recurrence identity; window = w }),
  none,
)

-- `Quarantine.NoteRecurrence`.
unfoldable pub quarantine_recurrence :
    Option String → Quarantine → String → Shape → Time → Quarantine × Option RecordError
quarantine_recurrence write_error q identity shape now =
    admit_recurrence write_error q identity shape now (active_windows shape.cluster now q.windows)

-- `Quarantine.Standing`.
unfoldable pub quarantine_standing : Quarantine → Subject → Standing
quarantine_standing q subject = standing q.inner subject
