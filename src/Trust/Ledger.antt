-- ===== src/Trust/Ledger.antt =====
-- internal/trust/ledger.go: recording, the standing of a fix, and recurrences. A method is one step
-- of a ledger under its lock. The log of the store is the list of entries that the file holds.
pub mod Earning
pub mod Recording
pub mod Recurrence
use Prim.Native.String.{◌++◌}
use mathlib.Core.List.{◌++◌ as ◌+++◌}
use mathlib.Core.Option
use ma_klaude.Prelude.{
  ◌↔◌, ℕ, suc, ◌-◌, String, ◌≡◌, ap₂, length, drop, Bool, true, false, not, ◌&&◌, ◌||◌, Option,
  none, some, List, [], ◌∷◌, ltb, leb, ◌==◌, string_comparable, Comparable, contains, if◌then◌else◌,
  eq_iff, arith,
}
use ma_klaude.Prelude.Int.{ℤ, pos, ltb_ℤ, leb_ℤ, Time, time_sub}
use ma_klaude.Prelude.Assoc.{fetch, store}
use ma_klaude.Autonomy.Verdict.{Shape}
use ma_klaude.Autonomy.Request.{Subject, TrustEvidence}
use ma_klaude.Trust.Entry.{
  Outcome, unrecorded, converged, inconclusive, regressed, Authority, unattributed, Entry, promotes,
  demotes, counts, before, Invalid, validate_entry,
}

abbrev pub promotion_threshold : ℕ
promotion_threshold = 3

abbrev pub demotion_scope : ℕ
demotion_scope = 10

abbrev pub shape_of : String → String → Shape
shape_of cluster operation = record { cluster = cluster; operation = operation }

pub shape_ext : (a b c d : String) → a ≡ c → b ≡ d → shape_of a b ≡ shape_of c d
shape_ext a b c d p q = ap₂ shape_of p q

unfoldable pub same_shape : Shape → Shape → Bool
same_shape x y = x.cluster == y.cluster && x.operation == y.operation

pub same_shape_iff : (x y : Shape) → (same_shape x y ≡ true) ↔ (x ≡ y)
unfolding same_shape
same_shape_iff x y = (
  λ h.
      shape_ext x.cluster x.operation y.cluster y.operation
        (ground (arith, eq_iff x.cluster y.cluster))
        (ground (arith, eq_iff x.operation y.operation)),
  λ e. rw e (ground (arith, eq_iff y.cluster y.cluster, eq_iff y.operation y.operation)),
)

-- Go's `==` on shapes.
instance abbrev pub shape_comparable : Comparable Shape
shape_comparable = record { same = same_shape; decides = same_shape_iff }

-- `log` is what the file of the store holds, as this process left it; a ledger with none is in
-- memory only.
pub record Ledger : Type 0 where
  pub log : Option (List Entry)
  pub keys : List String
  pub by_shape : List (Shape × List Entry)

-- `NewMemory`.
abbrev pub new_ledger : Ledger
new_ledger = record { log = none; keys = []; by_shape = [] }

abbrev pub or_nothing : Option (List Entry) → List Entry
or_nothing none = []
or_nothing (some es) = es

-- `l.byShape[shape]`.
unfoldable pub history : Ledger → Shape → List Entry
history l shape = or_nothing (fetch l.by_shape shape)

-- `sort.Search` gives the first place that the entry is before, and the rest moves up by one.
unfoldable pub insert_sorted : Entry → List Entry → List Entry
insert_sorted e [] = e ∷ []
insert_sorted e (x ∷ xs) = if before e x then e ∷ x ∷ xs else x ∷ insert_sorted e xs

-- `insert`.
unfoldable pub insert : Ledger → Entry → Ledger
insert l e = record l {
  keys = e.key ∷ l.keys;
  by_shape = store l.by_shape e.shape (insert_sorted e (history l e.shape));
}

pub data RecordError : Type 0 where
  invalid : Invalid → RecordError
  unwritten : String → RecordError

-- The write of `store.append`: nothing to do without a store; an error leaves the ledger alone.
unfoldable pub append_log : Ledger → Entry → Option String → Ledger × Option RecordError
append_log l e (some err) = elim l.log [
  | none ↦ (insert l e, none)
  | some old ↦ (l, some (unwritten err))
]
append_log l e none = (insert (record l { log = Option.map (λ old. old +++ e ∷ []) l.log }) e, none)

-- `Record`, where `write_error` is the error of the file if writing to it fails.
unfoldable pub record_entry : Option String → Ledger → Entry → Ledger × Option RecordError
record_entry write_error l e = elim (validate_entry e) [
  | some why ↦ (l, some (invalid why))
  | none ↦ if not (counts e) || contains l.keys e.key then (l, none) else append_log l e write_error
]

-- The entries that `Rebuild` keeps, or the first that is not valid.
pub data Kept : Type 0 where
  kept : List Entry → Kept
  rejected : Invalid → Kept

abbrev pub keep_one : Entry → Kept → Kept
keep_one e (kept es) = kept (e ∷ es)
keep_one e (rejected why) = rejected why

unfoldable pub keep_entries : List String → List Entry → Kept
keep_entries seen [] = kept []
keep_entries seen (e ∷ es) =
    let skipped = keep_entries seen es in
    let taken = keep_entries (e.key ∷ seen) es in
    elim (validate_entry e) [
      | some why ↦ rejected why
      | none ↦ if not (counts e) || contains seen e.key then skipped else keep_one e taken
    ]

unfoldable pub insert_all : Ledger → List Entry → Ledger
insert_all l [] = l
insert_all l (e ∷ es) = insert_all (insert l e) es

unfoldable pub replace_log : Ledger → List Entry → Option String → Ledger × Option RecordError
replace_log l es (some err) = elim l.log [
  | none ↦ (insert_all new_ledger es, none)
  | some old ↦ (l, some (unwritten err))
]
replace_log l es none =
    (insert_all (record new_ledger { log = Option.map (λ old. es) l.log }) es, none)

-- `Rebuild`.
unfoldable pub rebuild : Option String → Ledger → List Entry → Ledger × Option RecordError
rebuild write_error l es = elim (keep_entries [] es) [
  | kept es' ↦ replace_log l es' write_error
  | rejected why ↦ (l, some (invalid why))
]

-- The most recent executions of a shape, at most `DemotionScope` of them.
unfoldable pub scope_of : List Entry → List Entry
scope_of all =
    if ltb demotion_scope (length all) then drop (length all - demotion_scope) all else all

-- The loop that looks for a blocker: the last demoting entry stays.
unfoldable pub last_demoting : Option Entry → List Entry → Option Entry
last_demoting found [] = found
last_demoting found (e ∷ es) = last_demoting (if demotes e then some e else found) es

abbrev pub is_inconclusive : Outcome → Bool
is_inconclusive inconclusive = true
is_inconclusive _ = false

unfoldable pub all_inconclusive : List Entry → Bool
all_inconclusive [] = true
all_inconclusive (e ∷ es) = let rest = all_inconclusive es in is_inconclusive e.outcome && rest

abbrev pub last_of : Option Entry → List Entry → Option Entry
last_of found [] = found
last_of found (e ∷ es) = last_of (some e) es

-- `unobservedStreak`.
unfoldable pub unobserved_streak : List Entry → Option Entry
unobserved_streak scope =
    if ltb (length scope) promotion_threshold
    then none
    else if all_inconclusive (drop (length scope - promotion_threshold) scope)
    then last_of none scope
    else none

-- The counts of the loop over the history; `latest` is none for the zero entry.
pub record Tally : Type 0 where
  pub matching : ℕ
  pub approved : ℕ
  pub latest : Option Entry

unfoldable pub tally : String → Tally → List Entry → Tally
tally fingerprint t [] = t
tally fingerprint t (e ∷ es) =
    tally fingerprint
      (if e.fingerprint == fingerprint
        then record {
          matching = suc t.matching;
          approved = if promotes e then suc t.approved else t.approved;
          latest = some e;
        }
        else t)
      es

pub record Standing : Type 0 where
  pub subject : Subject
  pub recorded : ℕ
  pub tallied : Tally
  pub scope : ℕ
  pub blocker : Option Entry
  pub blind : Bool
  pub trusted : Bool

abbrev pub is_some {ℓ} : {A : Type ℓ} → Option A → Bool
is_some none = false
is_some (some x) = true

abbrev pub or_else {ℓ} : {A : Type ℓ} → Option A → Option A → Option A
or_else none o = o
or_else (some x) o = some x

abbrev pub no_tally : Tally
no_tally = record { matching = 0; approved = 0; latest = none }

-- `Standing` over the history of the shape. `Blocked` is that there is a blocker.
unfoldable pub standing_over : Subject → List Entry → Standing
standing_over subject all =
    let scope = scope_of all in
    let demoting = last_demoting none scope in
    let streak = unobserved_streak scope in
    let blocker = or_else demoting streak in
    let t =
      if subject.fingerprint == "" then no_tally else tally subject.fingerprint no_tally all in
    record {
      subject = subject;
      recorded = length all;
      tallied = t;
      scope = length scope;
      blocker = blocker;
      blind = not (is_some demoting) && is_some streak;
      trusted =
          not (subject.fingerprint == "")
          && not (is_some blocker)
          && leb promotion_threshold t.approved;
    }

unfoldable pub standing : Ledger → Subject → Standing
standing l subject = standing_over subject (history l subject.shape)

-- `Trust`, where `cite` writes the sentence of `Citation`.
unfoldable pub trust : (Standing → String) → Ledger → Subject → TrustEvidence
trust cite l subject =
    let st = standing l subject in
    if st.trusted
    then record { trusted = true; citation = cite st }
    else record { trusted = false; citation = "" }

-- One hour in nanoseconds.
abbrev pub recurrence_horizon : ℤ
recurrence_horizon = pos 3600000000000

abbrev is_converged : Outcome → Bool
is_converged converged = true
is_converged _ = false

-- Does an entry tell of a convergence that the return of its cause can refute?
unfoldable pub is_recent : String → Time → Entry → Bool
is_recent identity now e =
    e.identity == identity
    && is_converged e.outcome
    && leb_ℤ (time_sub now e.at) recurrence_horizon
    && leb e.at now

abbrev later : Option Entry → Entry → Entry
later none e = e
later (some best) e = if before best e then e else best

-- The loop of `recentConvergence`.
unfoldable pub recent_convergence : String → Time → Option Entry → List Entry → Option Entry
recent_convergence identity now best [] = best
recent_convergence identity now best (e ∷ es) =
    recent_convergence identity now (if is_recent identity now e then some (later best e) else best)
      es

-- `NoteRecurrence`.
unfoldable pub note_recurrence :
    Option String → Ledger → String → Shape → Time → Ledger × Option RecordError
note_recurrence write_error l identity shape now =
    elim (recent_convergence identity now none (history l shape)) [
      | none ↦ (l, none)
      | some original ↦ record_entry write_error l (record {
        key = original.key ++ "#recurrence";
        identity = identity;
        shape = shape;
        fingerprint = original.fingerprint;
        authority = original.authority;
        outcome = regressed;
        at = now;
        ref = original.ref;
      })
    ]
