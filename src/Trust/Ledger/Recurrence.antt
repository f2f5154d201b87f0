-- ===== src/Trust/Ledger/Recurrence.antt =====
-- `NoteRecurrence` of internal/trust/ledger.go: the cause came back, so the fix did not hold.
use Prim.Native.String.{◌++◌}
use mathlib.Core.Option
use mathlib.Core.List.{◌++◌ as ◌+++◌}
use ma_klaude.Prelude.{
  String, ◌≡◌, refl, sym, ◌∙◌, ap, inl, inr, false, not, ◌||◌, Option, none, some, List, [], ◌∷◌,
  All, arith, Option-cases, string_comparable, contains,
}
use ma_klaude.Prelude.Int.{Time}
use ma_klaude.Prelude.Assoc.{fetch-store_self}
use ma_klaude.Autonomy.Verdict.{Shape}
use ma_klaude.Autonomy.Request.{Subject}
use ma_klaude.Trust.Entry.{
  Entry, regressed, validate_entry, counts, demotes, before, outcome_demotes, outcome_promotes,
}
use ma_klaude.Trust.Ledger.{
  shape_comparable, Ledger, history, insert_sorted, insert, append_log, record_entry, RecordError,
  recent_convergence, note_recurrence, trust, Standing, or_nothing,
}
use ma_klaude.Trust.Ledger.Recording.{demotion_blocks, taken, invalid_refused}

-- The entry that a recurrence records.
abbrev pub recurrence_of : Entry → String → Shape → Time → Entry
recurrence_of original identity shape now = record {
  key = original.key ++ "#recurrence";
  identity = identity;
  shape = shape;
  fingerprint = original.fingerprint;
  authority = original.authority;
  outcome = regressed;
  at = now;
  ref = original.ref;
}

insert_sorted_last :
    (e : Entry) (xs : List Entry)
    → All (λ x. before e x ≡ false) xs
    → insert_sorted e xs ≡ xs +++ e ∷ []
unfolding insert_sorted
insert_sorted_last e [] h = refl
insert_sorted_last e (x ∷ xs) h = rw h.0 (ap (λ ys. x ∷ ys) (insert_sorted_last e xs h.1))

history-insert :
    (l : Ledger) (e : Entry) → history (insert l e) e.shape ≡ insert_sorted e (history l e.shape)
unfolding history insert
history-insert l e = ap or_nothing (fetch-store_self l.by_shape e.shape _)

history-append_log :
    (write_error : Option String) (l : Ledger) (e : Entry)
    → (append_log l e write_error).1 ≡ none
    → history (append_log l e write_error).0 e.shape ≡ insert_sorted e (history l e.shape)
unfolding append_log
history-append_log none l e h =
    history-insert (record l { log = Option.map (λ old. old +++ e ∷ []) l.log }) e
    ∙ ap (insert_sorted e) (unfold history in refl)
history-append_log (some err) l e h = elim (Option-cases l.log) [
  | inl n ↦ rw n (history-insert (record l { log = none }) e)
  | inr (old, s) ↦ absurd (cc (rw s at h))
]

-- When the cause of a proposal comes back within the horizon of a convergence, and that recurrence
-- was not noted before, noting it at an instant that no entry of the shape is later than takes the
-- trust of every fix of that shape, if the ledger could be written.
pub note_recurrence_blocks :
    (cite : Standing → String) (write_error : Option String) (l : Ledger) (identity : String)
    (shape : Shape) (now : Time) (original : Entry) (subject : Subject)
    → recent_convergence identity now none (history l shape) ≡ some original
    → contains l.keys (original.key ++ "#recurrence") ≡ false
    → All (λ x. before (recurrence_of original identity shape now) x ≡ false) (history l shape)
    → (note_recurrence write_error l identity shape now).1 ≡ none
    → subject.shape ≡ shape
    → (trust cite (note_recurrence write_error l identity shape now).0 subject).trusted ≡ false
note_recurrence_blocks cite write_error l identity shape now original subject found new last ok
      same =
    let e = recurrence_of original identity shape now in
    let noted : note_recurrence write_error l identity shape now ≡ record_entry write_error l e =
      unfold note_recurrence in rw (found, note_recurrence) refl in
    let ok' : (record_entry write_error l e).1 ≡ none =
      sym (ap (λ (r : Ledger × Option RecordError). r.1) noted) ∙ ok in
    let valid : validate_entry e ≡ none = elim (Option-cases (validate_entry e)) [
      | inl v ↦ v
      | inr (why, bad) ↦ absurd (invalid_refused l e write_error why bad ok')
    ] in
    let counted : not (counts e) || contains l.keys e.key ≡ false =
      unfold counts outcome_promotes in ground (arith, new) in
    let kept = taken l e valid write_error counted in
    let there : history (append_log l e write_error).0 shape ≡ history l shape +++ e ∷ [] =
      history-append_log write_error l e
        (sym (ap (λ (r : Ledger × Option RecordError). r.1) kept) ∙ ok')
      ∙ insert_sorted_last e (history l shape) last in
    let after = ap (λ (r : Ledger × Option RecordError). r.0) (noted ∙ kept) in
    demotion_blocks cite (note_recurrence write_error l identity shape now).0 subject
      (history l shape) [] e
      (ap (λ x. history x subject.shape) after
        ∙ ap (history (append_log l e write_error).0) same
        ∙ there)
      (unfold demotes outcome_demotes in refl) (ground arith)
