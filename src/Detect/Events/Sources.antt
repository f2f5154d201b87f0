-- ===== src/Detect/Events/Sources.antt =====
-- Where the findings of a run come from, and what follows of events.
use mathlib.Core.List.{◌++◌ as ◌+++◌}
use mathlib.Core.List.Permᴰ
use ma_klaude.Prelude.{
  Elem-append, Elem-split, true, false, String, List, [], ◌∷◌, map, if◌then◌else◌, Elem, Bool-cases,
  string_comparable, ◌≡◌, ◌≢◌, ◌⊎◌, refl, sym, ap, subst, inl, inr,
}
use ma_klaude.Prelude.Perms.{Elem-perm}
use ma_klaude.Prelude.Sorts.{sort_by-perm}
use ma_klaude.Health.{Snapshot, EventSignal}
use ma_klaude.Detect.Finding.{Finding, object_text, more_urgent, severity_info, sort_findings}
use ma_klaude.Detect.Rules.{Printing, each, analyze_reachability, structural}
use ma_klaude.Detect.Events.{analyze_event, analyze_warning_events, found, analyze}
use ma_klaude.Detect.Events.Covered.{
  Every, Every-Elem, Every-each, Every-when, IsUrgent, event-uncovered, structural-IsUrgent,
}

Elem-map :
    (fs : List Finding) (f : Finding)
    → Elem f fs
    → Elem (object_text f.object) (map (λ f. object_text f.object) fs)
Elem-map [] f m = absurd m
Elem-map (g ∷ fs) f (inl e) = inl (ap (λ (f : Finding). object_text f.object) e)
Elem-map (g ∷ fs) f (inr m) = inr (Elem-map fs f m)

event-info :
    (go : Printing) (snap : Snapshot) (covered : List String) (e : EventSignal)
    → Every (λ f. f.severity ≡ severity_info) (analyze_event go snap covered e)
unfolding analyze_event
event-info go snap covered e = Every-when _ _ _ refl

pub Elem-found :
    (go : Printing) (snap : Snapshot) (f : Finding)
    → Elem f (analyze go snap)
    → Elem f (found go snap)
unfolding analyze sort_findings
Elem-found go snap f m = Elem-perm f (Permᴰ.symm (sort_by-perm more_urgent (found go snap))) m

pub Elem-analyze :
    (go : Printing) (snap : Snapshot) (f : Finding)
    → Elem f (found go snap)
    → Elem f (analyze go snap)
unfolding analyze sort_findings
Elem-analyze go snap f m = Elem-perm f (sort_by-perm more_urgent (found go snap)) m

Elem-structural :
    (go : Printing) (snap : Snapshot) (f : Finding)
    → Elem f (analyze_reachability go snap)
    → Elem f (structural go snap)
unfolding structural
Elem-structural go snap f m =
    Elem-append f _ _ (Elem-append f _ _ (Elem-append f _ _ (Elem-append f _ _ m)))

pub found-reachable :
    (go : Printing) (snap : Snapshot)
    → snap.reachability.reachable ≡ true
    → found go snap ≡ (structural go snap +++ analyze_warning_events go snap (structural go snap))
unfolding found
found-reachable go snap t =
    let events = analyze_warning_events go snap (structural go snap) in
    ap (λ b. if b then structural go snap +++ events else analyze_reachability go snap) t

pub found-unreachable :
    (go : Printing) (snap : Snapshot)
    → snap.reachability.reachable ≡ false
    → found go snap ≡ analyze_reachability go snap
unfolding found
found-unreachable go snap t =
    let events = analyze_warning_events go snap (structural go snap) in
    ap (λ b. if b then structural go snap +++ events else analyze_reachability go snap) t

-- Where a finding comes from: a rule, or an event.
pub Elem-sources :
    (go : Printing) (snap : Snapshot) (f : Finding)
    → Elem f (analyze go snap)
    → ((f.severity ≢ severity_info) × Elem f (structural go snap))
      ⊎ ((f.severity ≡ severity_info)
          × ¬ Elem (object_text f.object) (map (λ g. object_text g.object) (structural go snap)))
unfolding analyze_warning_events
Elem-sources go snap f m =
    let covered = map (λ g. object_text g.object) (structural go snap) in
    let events = each (analyze_event go snap covered) snap.warning_events in
    let urgent : (h : Finding) → Elem h (structural go snap) → h.severity ≢ severity_info =
      λ h. Every-Elem IsUrgent (structural go snap) h (structural-IsUrgent go snap) in
    let all = Elem-found go snap f m in
    elim (Bool-cases snap.reachability.reachable) [
      | inl t ↦
          elim (Elem-split f (structural go snap) events
            (subst (Elem f) (found-reachable go snap t) all)) [
              | inl k ↦ inl (urgent f k, k)
              | inr k ↦ inr (
                Every-Elem _ events f
                    (Every-each _ _ snap.warning_events (event-info go snap covered)) k,
                Every-Elem _ events f
                    (Every-each _ _ snap.warning_events (event-uncovered go snap covered)) k,
              )
            ]
      | inr t ↦
          let k = Elem-structural go snap f (subst (Elem f) (found-unreachable go snap t) all) in
          inl (urgent f k, k)
    ]

-- Of two findings of one run, one at severity info and one above it, the first is about another
-- object: an event never repeats what a rule has reported.
pub analyze-covered :
    (go : Printing) (snap : Snapshot) (f g : Finding)
    → Elem f (analyze go snap)
    → Elem g (analyze go snap)
    → f.severity ≡ severity_info
    → g.severity ≢ severity_info
    → object_text f.object ≢ object_text g.object
analyze-covered go snap f g mf mg info urgent same = elim (Elem-sources go snap g mg) [
  | inr (i, u) ↦ urgent i
  | inl (u, k) ↦ elim (Elem-sources go snap f mf) [
    | inl (v, l) ↦ v info
    | inr (i, apart) ↦ apart (
        subst (λ t. Elem t (map (λ h. object_text h.object) (structural go snap))) (sym same)
          (Elem-map (structural go snap) g k))
  ]
]
