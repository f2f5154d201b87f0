-- ===== src/Detect/Events/Covered.antt =====
-- An event adds a finding only about an object that no rule has reported.
use mathlib.Core.List.{◌++◌ as ◌+++◌}
use ma_klaude.Prelude.{
  Bool, true, false, String, List, [], ◌∷◌, contains, if◌then◌else◌, Elem, Bool-cases,
  string_comparable, ◌≡◌, ◌≢◌, refl, sym, ◌∙◌, ap, subst, inl, inr, contains-false, false≢true,
}
use ma_klaude.Health.{Snapshot, EventSignal, NodeSignal, PodSignal}
use ma_klaude.Detect.Finding.{
  Finding, Severity, object_text, severity_info, severity_warning, severity_critical,
}
use ma_klaude.Detect.Rules.{
  Printing, when, each, analyze_reachability, analyze_node, analyze_pod, analyze_deployment,
  analyze_replica_set, structural, pressure_finding,
}
use ma_klaude.Detect.Events.{event_object, analyze_event}

-- The rules report above `info`.
abbrev pub IsUrgent : Finding → Type 0
IsUrgent f = f.severity ≢ severity_info

-- A predicate on every finding of a list.
pub data Every (P : Finding → Type 0) : List Finding → Type 0 where
  nothing : Every P []
  also : (f : Finding) (fs : List Finding) → P f → Every P fs → Every P (f ∷ fs)

module _ (P : Finding → Type 0) where
  pub Every-append : (xs ys : List Finding) → Every P xs → Every P ys → Every P (xs +++ ys)
  Every-append [] ys h k = k
  Every-append (x ∷ xs) ys (also _ _ p h) k = also x (xs +++ ys) p (Every-append xs ys h k)

  pub Every-each :
      {A : Type 0} (rule : A → List Finding) (xs : List A)
      → ((x : A) → Every P (rule x))
      → Every P (each rule xs)
  Every-each rule [] h = nothing
  Every-each rule (x ∷ xs) h = Every-append (rule x) (each rule xs) (h x) (Every-each rule xs h)

  pub Every-when : (b : Bool) (f : Finding) → P f → Every P (when b f)
  Every-when true f h = also f [] h nothing
  Every-when false f h = nothing

  pub Every-Elem : (xs : List Finding) (f : Finding) → Every P xs → Elem f xs → P f
  Every-Elem [] f h m = absurd m
  Every-Elem (x ∷ xs) f (also _ _ p h) (inl e) = subst P e p
  Every-Elem (x ∷ xs) f (also _ _ p h) (inr m) = Every-Elem xs f h m

abbrev pub info? : Severity → Bool
info? severity_info = true
info? severity_warning = false
info? severity_critical = false

warning≢info : severity_warning ≢ severity_info
warning≢info e = false≢true (ap info? e)

critical≢info : severity_critical ≢ severity_info
critical≢info e = false≢true (ap info? e)

either≢info : (b : Bool) → (if b then severity_critical else severity_warning) ≢ severity_info
either≢info true = critical≢info
either≢info false = warning≢info

module _ (go : Printing) (snap : Snapshot) where
  node-IsUrgent : (n : NodeSignal) → Every IsUrgent (analyze_node go snap n)
  unfolding analyze_node pressure_finding
  node-IsUrgent n =
      let warn : (b : Bool) (f : Finding)
          → f.severity ≡ severity_warning
          → Every IsUrgent (when b f) =
        λ b f e. Every-when IsUrgent b f (λ e'. warning≢info (sym e ∙ e')) in
      Every-append IsUrgent _ _
        (Every-append IsUrgent _ _
          (Every-append IsUrgent _ _
            (Every-append IsUrgent _ _ (Every-when IsUrgent _ _ critical≢info) (warn _ _ refl))
            (warn _ _ refl))
          (warn _ _ refl))
        (warn _ _ refl)

  pod-IsUrgent : (p : PodSignal) → Every IsUrgent (analyze_pod go snap p)
  unfolding analyze_pod
  pod-IsUrgent p =
      Every-append IsUrgent _ _
        (Every-append IsUrgent _ _
          (Every-append IsUrgent _ _ (Every-when IsUrgent _ _ critical≢info)
            (Every-when IsUrgent _ _ warning≢info))
          (Every-when IsUrgent _ _ warning≢info))
        (Every-when IsUrgent _ _ warning≢info)

  pub structural-IsUrgent : Every IsUrgent (structural go snap)
  unfolding structural analyze_reachability analyze_deployment analyze_replica_set
  structural-IsUrgent =
      Every-append IsUrgent _ _
        (Every-append IsUrgent _ _
          (Every-append IsUrgent _ _
            (Every-append IsUrgent _ _ (Every-when IsUrgent _ _ critical≢info)
              (Every-each IsUrgent _ snap.nodes node-IsUrgent))
            (Every-each IsUrgent _ snap.pods pod-IsUrgent))
          (Every-each IsUrgent _ snap.deployments (λ d. Every-when IsUrgent _ _ (either≢info _))))
        (Every-each IsUrgent _ snap.replica_sets (λ r. Every-when IsUrgent _ _ (either≢info _)))

  pub event-uncovered :
      (covered : List String) (e : EventSignal)
      → Every (λ f. ¬ Elem (object_text f.object) covered) (analyze_event go snap covered e)
  unfolding analyze_event
  event-uncovered covered e =
      elim (Bool-cases (contains covered (object_text (event_object go e)))) [
        | inl t ↦ rw t nothing
        | inr f ↦
            rw f (also _ _ ((contains-false covered (object_text (event_object go e))).0 f) nothing)
      ]
