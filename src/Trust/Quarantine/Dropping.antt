-- ===== src/Trust/Quarantine/Dropping.antt =====
-- The recorder of internal/trust/quarantine.go: an outcome reaches the ledger or is dropped, whole.
use mathlib.Core.List.{◌++◌ as ◌+++◌}
use ma_klaude.Prelude.{
  ◌↔◌, ◌≤◌, ◌<◌, Bool, ◌==◌, string_comparable, ◌&&◌, Elem, and_iff, eq_iff, if◌then◌else◌, sym,
  subst, false≢true, arith, String, ◌≡◌, refl, ◌∙◌, ◌⊎◌, inl, inr, true, Option, List, [], ◌∷◌,
  Bool-cases,
}
use ma_klaude.Prelude.Int.{Time}
use ma_klaude.Trust.Entry.{Entry}
use ma_klaude.Trust.Derive.{AuditRecord, derived, entry_from, record_lifecycle, LifecycleError}
use ma_klaude.Trust.Quarantine.{
  is_active, dropped_outcome, Quarantine, active_windows, admit_lifecycle, quarantine_derived,
  quarantine_lifecycle, Window,
}

-- The window is of the cluster, and open at the instant: begun, not ended by then, and not past its
-- ceiling.
pub record Covers (w : Window) (cluster : String) (at : Time) : Type 0 where
  pub same_cluster : w.cluster ≡ cluster
  pub begun : w.start ≤ at
  pub below_ceiling : at < w.until
  pub not_ended : (w.end ≡ 0) ⊎ (at < w.end)

is_active_iff :
    (w : Window) (at : Time)
    → (is_active w at ≡ true) ↔ ((w.start ≤ at) × (at < w.until) × ((w.end ≡ 0) ⊎ (at < w.end)))
unfolding is_active
is_active_iff w at = (λ h. ground arith, λ h. ground arith)

Covers-iff :
    (w : Window) (cluster : String) (at : Time)
    → ((w.cluster == cluster && is_active w at) ≡ true) ↔ Covers w cluster at
Covers-iff w cluster at = (
  λ h.
      let (c, a) = (and_iff (w.cluster == cluster) (is_active w at)).0 h in
      let (begun, below, more) = (is_active_iff w at).0 a in
      record {
        same_cluster = (eq_iff w.cluster cluster).0 c;
        begun = begun;
        below_ceiling = below;
        not_ended = more;
      },
  λ c. (and_iff (w.cluster == cluster) (is_active w at)).1 (
    (eq_iff w.cluster cluster).1 c.same_cluster,
    (is_active_iff w at).1 (c.begun, c.below_ceiling, c.not_ended),
  ),
)

-- The windows that `Active` gives for an instant.
data IsPicked (cluster : String) (at : Time) (ws : List Window) : List Window → Type 0 where
  no_window : ((w : Window) → Elem w ws → ¬ Covers w cluster at) → IsPicked cluster at ws []
  first_window :
      (w : Window) (more : List Window)
      → Elem w ws
      → Covers w cluster at
      → IsPicked cluster at ws (w ∷ more)

IsPicked-cons :
    (cluster : String) (at : Time) (w : Window) (ws active : List Window)
    → ¬ Covers w cluster at
    → IsPicked cluster at ws active
    → IsPicked cluster at (w ∷ ws) active
IsPicked-cons cluster at w ws [] apart (no_window none_covers) =
    no_window (λ v m. elim m [
      | inl e ↦ subst (λ x. ¬ Covers x cluster at) e apart
      | inr k ↦ none_covers v k
    ])
IsPicked-cons cluster at w ws (v ∷ more) apart (first_window _ _ m c) =
    first_window v more (inr m) c

active_windows-IsPicked :
    (cluster : String) (at : Time) (ws : List Window)
    → IsPicked cluster at ws (active_windows cluster at ws)
unfolding active_windows
active_windows-IsPicked cluster at [] = no_window (λ w m. absurd m)
active_windows-IsPicked cluster at (w ∷ ws) =
    let rest = active_windows cluster at ws in
    elim (Bool-cases (w.cluster == cluster && is_active w at)) [
      | inl t ↦
          subst (λ (b : Bool). IsPicked cluster at (w ∷ ws) (if b then w ∷ rest else rest)) (sym t)
            (first_window w rest (inl refl) ((Covers-iff w cluster at).0 t))
      | inr f ↦
          subst (λ (b : Bool). IsPicked cluster at (w ∷ ws) (if b then w ∷ rest else rest)) (sym f)
            (IsPicked-cons cluster at w ws rest
              (λ c. false≢true (sym f ∙ (Covers-iff w cluster at).1 c))
              (active_windows-IsPicked cluster at ws))
    ]

module _ (format : Time → String) (write_error : Option String) (q : Quarantine)
    (recs : List AuditRecord) (e : Entry) (d : entry_from format recs ≡ derived e) where
  lifecycle_derived :
      quarantine_lifecycle format write_error q recs
      ≡ admit_lifecycle format write_error q recs e (active_windows e.shape.cluster e.at q.windows)
  unfolding quarantine_lifecycle quarantine_derived
  lifecycle_derived = rw (d, quarantine_lifecycle) refl

-- A lifecycle is dropped, or handed on.
abbrev pub IsKeptOut :
    (Time → String) → Option String → Quarantine → List AuditRecord → Entry → Quarantine → Type 0
IsKeptOut format write_error q recs e after =
    ((w : Window) × Elem w q.windows
      × Covers w e.shape.cluster e.at
      × (after.inner ≡ q.inner)
      × (after.dropped ≡ (
          q.dropped
          +++ record {
            cluster = e.shape.cluster;
            detail = dropped_outcome e.outcome e.identity;
            window = w;
          }
            ∷ [])))
    ⊎ (((w : Window) → Elem w q.windows → ¬ Covers w e.shape.cluster e.at)
        × (after.inner ≡ (record_lifecycle format write_error q.inner recs).0)
        × (after.dropped ≡ q.dropped))

admit_lifecycle-IsKeptOut :
    (format : Time → String) (write_error : Option String) (q : Quarantine)
    (recs : List AuditRecord) (e : Entry) (active : List Window)
    → IsPicked e.shape.cluster e.at q.windows active
    → IsKeptOut format write_error q recs e (admit_lifecycle format write_error q recs e active).0
unfolding admit_lifecycle
admit_lifecycle-IsKeptOut format write_error q recs e [] (no_window none_covers) =
    inr (none_covers, refl, refl)
admit_lifecycle-IsKeptOut format write_error q recs e (w ∷ more) (first_window _ _ m c) =
    inl (w, m, c, refl, refl)

-- If some window of the entry's cluster is open at the entry's instant, recording a lifecycle leaves
-- the ledger as it was, and notes one dropped outcome more, with such a window. If none is,
-- recording it does to the ledger exactly what it does without a quarantine, and notes nothing. A
-- window is open from its start, to before its ceiling and, if it was ended, to before its end.
pub quarantine_lifecycle_lem :
    (format : Time → String) (write_error : Option String) (q : Quarantine)
    (recs : List AuditRecord) (e : Entry)
    → entry_from format recs ≡ derived e
    → IsKeptOut format write_error q recs e (quarantine_lifecycle format write_error q recs).0
quarantine_lifecycle_lem format write_error q recs e d =
    let active = active_windows e.shape.cluster e.at q.windows in
    subst (λ (r : Quarantine × Option LifecycleError). IsKeptOut format write_error q recs e r.0)
      (sym (lifecycle_derived format write_error q recs e d))
      (admit_lifecycle-IsKeptOut format write_error q recs e active
        (active_windows-IsPicked e.shape.cluster e.at q.windows))
