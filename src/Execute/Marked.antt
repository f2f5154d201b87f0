-- ===== src/Execute/Marked.antt =====
-- What the report says of a run that has changed the cluster.
use ma_klaude.Prelude.{
  ℕ, suc, Bool, true, false, not, ◌&&◌, if◌then◌else◌, List, [], Option, some, none, ◌≡◌, ◌≢◌, ◌↔◌,
  refl, ap, sym, ◌∙◌, false≢true, is_empty,
}
use ma_klaude.Prelude.Int.{ℤ}
use ma_klaude.Execute.Preconditions.{Precondition}
use ma_klaude.Execute.Paths.{execute_holds, is_record_failure}
use ma_klaude.Execute.Attempts.{send-AreTries}
use ma_klaude.Execute.Run.{
  ExecuteMode, execute_disabled, execute_dry_run, execute_enabled, execute_unnamed, FailureClass,
  unsent, mode_permits_action, failure_none, failure_record, Proposal, Authorization, World, Write,
  Run, Report, Reply, outcome, no_outcome, revision_not_found, conflict, too_many_requests,
  other_error, send, after_send, after_outcome, writes_of, execute,
}

-- The run has changed the cluster: the mode is enabled, a write was made, and the last answer is an
-- outcome that is not a dry run.
abbrev pub HasChanged : World → ℤ → Run → Type 0
HasChanged w policy run =
    (w.mode ≡ execute_enabled) × ((send w policy).last ≡ some (outcome false)) × (run.writes ≢ [])

-- What a report says of a change.
abbrev pub IsMarked : World → Report → Type 0 → Type 0
IsMarked w report Changed =
    ((report.executed ≡ true) ↔ Changed)
    × ((report.recorded ≡ true) ↔ (Changed × (w.records ≡ true)))
    × ((report.failure ≡ failure_record) ↔ (Changed × (w.records ≡ false)))

only_record : (b : Bool) → (if b then failure_none else failure_record) ≡ failure_record → b ≡ false
only_record true h = absurd (false≢true (ap is_record_failure h))
only_record false h = refl

-- Marks of a change are marks of an equivalent one.
marked-iff :
    (w : World) (report : Report) {A B : Type 0}
    → (A ↔ B)
    → IsMarked w report A
    → IsMarked w report B
marked-iff w report (f, g) ((a, b), (c, d), (e, h)) = (
  (λ x. f (a x), λ y. b (g y)),
  (λ x. let (y, z) = c x in (f y, z), λ (y, z). d (g y, z)),
  (λ x. let (y, z) = e x in (f y, z), λ (y, z). h (g y, z)),
)

no_record : (c : FailureClass) → is_record_failure c ≡ false → c ≢ failure_record
no_record c h e = false≢true (sym h ∙ ap is_record_failure e)

-- A report that claims nothing, when nothing has changed.
unmarked :
    (w : World) (report : Report) (Changed : Type 0)
    → report.executed ≡ false
    → report.recorded ≡ false
    → is_record_failure report.failure ≡ false
    → ¬ Changed
    → IsMarked w report Changed
unmarked w report Changed e r f n = (
  (λ h. absurd (false≢true (sym e ∙ h)), λ c. absurd (n c)),
  (λ h. absurd (false≢true (sym r ∙ h)), λ c. absurd (n c.0)),
  (λ h. absurd (no_record report.failure f h), λ c. absurd (n c.0)),
)

abbrev preview_of : ExecuteMode → Bool → Bool
preview_of m dry = elim m [
  | execute_dry_run ↦ true
  | execute_disabled ↦ dry
  | execute_enabled ↦ dry
  | execute_unnamed n ↦ dry
]

abbrev is_outcome : Option Reply → Bool
is_outcome (some (outcome dry)) = true
is_outcome reply = false

abbrev is_real : Option Reply → Bool
is_real (some (outcome dry)) = not dry
is_real reply = false

preview_iff :
    (m : ExecuteMode) (dry : Bool)
    → mode_permits_action m ≡ true
    → (preview_of m dry ≡ false)
      ↔ ((m ≡ execute_enabled) × (some (outcome dry) ≡ some (outcome false)))
unfolding mode_permits_action
preview_iff execute_disabled dry on = absurd (false≢true on)
preview_iff execute_dry_run dry on = (
  λ h. absurd (false≢true (sym h)),
  λ (e, _). absurd (false≢true (sym (ap (λ m. preview_of m false) e))),
)
preview_iff execute_enabled false on = (λ h. (refl, refl), λ _. refl)
preview_iff execute_enabled true on =
    (λ h. absurd (false≢true (sym h)), λ (_, e). absurd (false≢true (ap is_real e)))
preview_iff (execute_unnamed n) dry on = absurd (false≢true on)

-- What `after_outcome` writes into a report, of a preview or not.
abbrev outcome_report : Bool → Bool → List (Precondition × Bool) → ℕ → Report
outcome_report preview records checks calls = record {
  failure = (if preview then failure_none else if records then failure_none else failure_record);
  preconditions = checks;
  attempts = calls;
  executed = not preview;
  dry_run = preview;
  recorded = not preview && records;
}

outcome-IsMarked :
    (w : World) (preview : Bool) (checks : List (Precondition × Bool)) (calls : ℕ)
    → IsMarked w (outcome_report preview w.records checks calls) (preview ≡ false)
outcome-IsMarked w true checks calls =
    unmarked w (outcome_report true w.records checks calls) (true ≡ false) refl refl refl
      (λ h. false≢true (sym h))
outcome-IsMarked w false checks calls = (
  (λ _. refl, λ _. refl),
  (λ h. (refl, h), λ (_, h). h),
  (
    λ h. (refl, only_record w.records h),
    λ (_, h). ap (λ b. if b then failure_none else failure_record) h,
  ),
)

abbrev Answered : World → Option Reply → Type 0
Answered w last = (w.mode ≡ execute_enabled) × (last ≡ some (outcome false))

no_outcome-Answered :
    (w : World) (last : Option Reply) → is_outcome last ≡ false → ¬ Answered w last
no_outcome-Answered w last h (m, e) = false≢true (sym h ∙ ap is_outcome e)

after_send-IsMarked :
    (w : World) (checks : List (Precondition × Bool)) (calls : ℕ) (last : Option Reply)
    → mode_permits_action w.mode ≡ true
    → IsMarked w (after_send w checks (record { calls = calls; last = last })) (Answered w last)
unfolding after_send after_outcome
after_send-IsMarked w checks calls (some (outcome dry)) on =
    marked-iff w (outcome_report (preview_of w.mode dry) w.records checks calls)
      (preview_iff w.mode dry on) (outcome-IsMarked w (preview_of w.mode dry) checks calls)
after_send-IsMarked w checks calls none on =
    unmarked w (after_send w checks (record { calls = calls; last = none })) _ refl refl refl
      (no_outcome-Answered w none refl)
after_send-IsMarked w checks calls (some no_outcome) on =
    unmarked w (after_send w checks (record { calls = calls; last = (some no_outcome) })) _ refl
      refl refl (no_outcome-Answered w (some no_outcome) refl)
after_send-IsMarked w checks calls (some revision_not_found) on =
    unmarked w (after_send w checks (record { calls = calls; last = (some revision_not_found) })) _
      refl refl refl (no_outcome-Answered w (some revision_not_found) refl)
after_send-IsMarked w checks calls (some conflict) on =
    unmarked w (after_send w checks (record { calls = calls; last = (some conflict) })) _ refl refl
      refl (no_outcome-Answered w (some conflict) refl)
after_send-IsMarked w checks calls (some too_many_requests) on =
    unmarked w (after_send w checks (record { calls = calls; last = (some too_many_requests) })) _
      refl refl refl (no_outcome-Answered w (some too_many_requests) refl)
after_send-IsMarked w checks calls (some other_error) on =
    unmarked w (after_send w checks (record { calls = calls; last = (some other_error) })) _ refl
      refl refl (no_outcome-Answered w (some other_error) refl)

some_write : (n : ℕ) (write : Write) → writes_of (suc n) write ≢ []
some_write n write e = false≢true (ap is_empty e)

-- Of every run: its report claims an execution exactly if the mode is enabled, a write was made and
-- the last answer is an outcome that is not a dry run; it says that the trail carries the mark
-- exactly if, besides, the recorder took it; and its failure is `FailureRecord` exactly if, besides,
-- the recorder did not.
pub execute-IsMarked :
    (w : World) (policy : ℤ) (auth : Option Authorization) (p : Proposal)
    → IsMarked w (execute w policy auth p).report (HasChanged w policy (execute w policy auth p))
execute-IsMarked w policy auth p =
    let Marks : Run → Type 0 = λ run. IsMarked w run.report (HasChanged w policy run) in
    let (n, calls, _, _, _) = send-AreTries w policy in
    execute_holds w policy Marks
      (λ class checks c.
        unmarked w (unsent class checks) _ refl refl c (λ (_, _, wrote). wrote refl))
      (λ on checks write.
        let wrote : writes_of (send w policy).calls write ≢ [] =
          λ e. some_write n write (ap (λ c. writes_of c write) (sym calls) ∙ e) in
        marked-iff w (after_send w checks (send w policy))
          (λ (m, l). (m, l, wrote), λ (m, l, _). (m, l))
          (after_send-IsMarked w checks (send w policy).calls (send w policy).last on))
      auth p
