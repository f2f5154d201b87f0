-- ===== src/Trust/Ledger/Recording.antt =====
-- `Record`, `Rebuild` and `NoteRecurrence` of internal/trust/ledger.go.
use mathlib.Core.Option
use ma_klaude.Prelude.{
  ℕ, zero, suc, ◌+◌, ◌-◌, ◌≤◌, ◌<◌, String, ◌≡◌, ◌≢◌, refl, sym, ◌∙◌, ap, subst, inl, inr, true,
  false, not, ◌||◌, Option, none, some, List, [], ◌∷◌, ◌++◌, length, drop, All, arith, eq_iff,
  Bool-cases, Option-cases, false≢true, string_comparable, length-append, contains,
}
use ma_klaude.Autonomy.Request.{Subject}
use ma_klaude.Trust.Entry.{Entry, Invalid, validate_entry, counts, demotes}
use ma_klaude.Trust.Ledger.{
  Ledger, new_ledger, history, insert, append_log, record_entry, RecordError, Kept, kept, rejected,
  keep_one, keep_entries, insert_all, rebuild, replace_log, trust, Standing, shape_comparable,
}
use ma_klaude.Trust.Ledger.Earning.{trust_iff, IsClean, last_n}

keys-insert : (l : Ledger) (e : Entry) → contains (insert l e).keys e.key ≡ true
unfolding insert contains
keys-insert l e = ground (arith, eq_iff e.key e.key)

-- The ledger that an entry is recorded on once it is valid.
module _ (l : Ledger) (e : Entry) (ok : validate_entry e ≡ none) where
  pub skipped :
      (write_error : Option String)
      → not (counts e) || contains l.keys e.key ≡ true
      → record_entry write_error l e ≡ (l, none)
  unfolding record_entry
  skipped write_error h = rw (ok, h, record_entry) refl

  pub taken :
      (write_error : Option String)
      → not (counts e) || contains l.keys e.key ≡ false
      → record_entry write_error l e ≡ append_log l e write_error
  unfolding record_entry
  taken write_error h = rw (ok, h, record_entry) refl

append_log-keys :
    (l : Ledger) (e : Entry) (write_error : Option String)
    → (append_log l e write_error).1 ≡ none
    → contains (append_log l e write_error).0.keys e.key ≡ true
unfolding append_log
append_log-keys l e none h = keys-insert _ e
append_log-keys l e (some err) h = elim (Option-cases l.log) [
  | inl n ↦ rw n (keys-insert (record l { log = none }) e)
  | inr (old, s) ↦ absurd (cc (rw s at h))
]

pub invalid_refused :
    (l : Ledger) (e : Entry) (write_error : Option String) (why : Invalid)
    → validate_entry e ≡ some why
    → (record_entry write_error l e).1 ≢ none
unfolding record_entry
invalid_refused l e write_error why h k = cc (rw (h, record_entry) at k)

-- Recording is idempotent: once an entry was recorded without an error, recording it again changes
-- nothing and meets no error, whether or not writing would fail by then.
pub record_entry_idempotent :
    (write_error later_error : Option String) (l : Ledger) (e : Entry)
    → (record_entry write_error l e).1 ≡ none
    → record_entry later_error (record_entry write_error l e).0 e
      ≡ ((record_entry write_error l e).0, none)
record_entry_idempotent write_error later_error l e h = elim (Option-cases (validate_entry e)) [
  | inr (why, bad) ↦ absurd (invalid_refused l e write_error why bad h)
  | inl ok ↦ elim (Bool-cases (not (counts e) || contains l.keys e.key)) [
    | inl t ↦ rw (skipped l e ok write_error t) (skipped l e ok later_error t)
    | inr f ↦
        let same = taken l e ok write_error f in
        let seen = append_log-keys l e write_error (rw same at h) in
        rw same (skipped (append_log l e write_error).0 e ok later_error (ground (arith, seen)))
  ]
]

-- `Record` for each of a list of entries, with no store behind the ledger.
unfoldable pub record_all : Ledger → List Entry → Ledger
record_all l [] = l
record_all l (e ∷ es) = record_all (record_entry none l e).0 es

-- Which of `keep_entries`' branches is taken for the next entry.
module _ (seen : List String) (e : Entry) (es : List Entry) where
  keep_skips :
      validate_entry e ≡ none
      → not (counts e) || contains seen e.key ≡ true
      → keep_entries seen (e ∷ es) ≡ keep_entries seen es
  unfolding keep_entries
  keep_skips ok h = rw (ok, h, keep_entries) refl

  keep_takes_one :
      validate_entry e ≡ none
      → not (counts e) || contains seen e.key ≡ false
      → keep_entries seen (e ∷ es) ≡ keep_one e (keep_entries (e.key ∷ seen) es)
  unfolding keep_entries
  keep_takes_one ok h = rw (ok, h, keep_entries) refl

  keep_takes :
      (es' : List Entry)
      → validate_entry e ≡ none
      → not (counts e) || contains seen e.key ≡ false
      → keep_entries seen (e ∷ es) ≡ kept es'
      → (rest : List Entry) × (es' ≡ e ∷ rest) × (keep_entries (e.key ∷ seen) es ≡ kept rest)
  keep_takes es' ok h k = taken_from (keep_entries (e.key ∷ seen) es) refl
    where
      taken_from :
          (t : Kept)
          → keep_entries (e.key ∷ seen) es ≡ t
          → (rest : List Entry) × (es' ≡ e ∷ rest) × (keep_entries (e.key ∷ seen) es ≡ kept rest)
      taken_from (kept rest) q = (rest, cc (sym k ∙ keep_takes_one ok h ∙ ap (keep_one e) q), q)
      taken_from (rejected why) q = absurd (cc (sym k ∙ keep_takes_one ok h ∙ ap (keep_one e) q))

  keep_valid : (es' : List Entry) → keep_entries seen (e ∷ es) ≡ kept es' → validate_entry e ≡ none
  keep_valid es' k = elim (Option-cases (validate_entry e)) [
    | inl ok ↦ ok
    | inr (why, bad) ↦ absurd (unfold keep_entries in cc (rw (bad, keep_entries) at k))
  ]

appended : (l : Ledger) (e : Entry) → l.log ≡ none → (append_log l e none).0 ≡ insert l e
unfolding append_log
appended l e n =
    ap (λ o. insert (record l { log = o }) e) (ap (Option.map (λ old. old ++ e ∷ [])) n ∙ sym n)

record_all-insert_all :
    (es es' : List Entry) (l : Ledger)
    → l.log ≡ none
    → keep_entries l.keys es ≡ kept es'
    → record_all l es ≡ insert_all l es'
unfolding record_all insert_all
record_all-insert_all [] es' l n k =
    let none_left : [] ≡ es' = unfold keep_entries in cc k in ap (insert_all l) none_left
record_all-insert_all (e ∷ es) es' l n k =
    let ok = keep_valid l.keys e es es' k in
    elim (Bool-cases (not (counts e) || contains l.keys e.key)) [
      | inl t ↦
          ap (λ (r : Ledger × Option RecordError). record_all r.0 es) (skipped l e ok none t)
          ∙ record_all-insert_all es es' l n (sym (keep_skips l.keys e es ok t) ∙ k)
      | inr f ↦
          let (rest, same, k') = keep_takes l.keys e es es' ok f k in
          let step' = appended l e n in
          ap (λ (r : Ledger × Option RecordError). record_all r.0 es) (taken l e ok none f)
          ∙ ap (λ x. record_all x es) step'
          ∙ record_all-insert_all es rest (insert l e) (unfold insert in n) (unfold insert in k')
          ∙ ap (insert_all l) (sym same)
    ]

-- `Rebuild` on a ledger without a store forgets what the ledger held and gives, if no entry is
-- refused, exactly what recording the entries one by one on a new ledger gives.
pub rebuild-record_all :
    (write_error : Option String) (l : Ledger) (es : List Entry)
    → l.log ≡ none
    → (rebuild write_error l es).1 ≡ none
    → (rebuild write_error l es).0 ≡ record_all new_ledger es
rebuild-record_all write_error l es n ok = from_kept (keep_entries [] es) refl
  where
    replaced :
        (o : Option String) (es' : List Entry) → (replace_log l es' o).0 ≡ insert_all new_ledger es'
    replaced none es' =
        unfold replace_log in
        ap (λ o. insert_all (record new_ledger { log = o }) es') (ap (Option.map (λ old. es')) n)
    replaced (some err) es' = unfold replace_log in rw (n, replace_log) refl

    rebuilt :
        (es' : List Entry)
        → keep_entries [] es ≡ kept es'
        → rebuild write_error l es ≡ replace_log l es' write_error
    rebuilt es' q = unfold rebuild in rw (q, rebuild) refl

    from_kept :
        (t : Kept)
        → keep_entries [] es ≡ t
        → (rebuild write_error l es).0 ≡ record_all new_ledger es
    from_kept (kept es') q =
        ap (λ (r : Ledger × Option RecordError). r.0) (rebuilt es' q)
        ∙ replaced write_error es'
        ∙ sym (record_all-insert_all es es' new_ledger refl q)
    from_kept (rejected why) q = absurd (unfold rebuild in cc (rw (q, rebuild) at ok))

-- A list that holds an entry near its end: what holds of all of the end holds of the entry.
All-drop {ℓ} :
    (P : Entry → Type ℓ) (n : ℕ) (xs : List Entry) (e : Entry) (ys : List Entry)
    → n ≤ length xs
    → All P (drop n (xs ++ e ∷ ys))
    → P e
All-drop P zero [] e ys le h = h.0
All-drop P zero (x ∷ xs) e ys le h = All-drop P zero xs e ys (omega arith) h.1
All-drop P (suc n) [] e ys le h = absurd (ground arith)
All-drop P (suc n) (x ∷ xs) e ys le h = All-drop P n xs e ys (omega (arith, le)) h

-- No fix of a shape is trusted while an execution that demotes has fewer than ten later executions
-- of that shape after it on record.
pub demotion_blocks :
    (cite : Standing → String) (l : Ledger) (subject : Subject) (older newer : List Entry)
    (e : Entry)
    → history l subject.shape ≡ older ++ e ∷ newer
    → demotes e ≡ true
    → length newer < 10
    → (trust cite l subject).trusted ≡ false
demotion_blocks cite l subject older newer e h d recent =
    elim (Bool-cases (trust cite l subject).trusted) [
      | inr f ↦ f
      | inl t ↦
          let earned = (trust_iff cite l subject).0 t in
          let clean : IsClean (last_n 10 (older ++ e ∷ newer)) =
            subst (λ es. IsClean (last_n 10 es)) h earned.clean in
          let size : length (older ++ e ∷ newer) ≡ length older + suc (length newer) =
            length-append older (e ∷ newer) in
          absurd (
            false≢true (
              sym (
                All-drop (λ x. demotes x ≡ false) (length (older ++ e ∷ newer) - 10) older e newer
                  (omega (arith, size, recent)) clean)
              ∙ d))
    ]
