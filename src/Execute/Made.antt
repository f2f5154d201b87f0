-- ===== src/Execute/Made.antt =====
-- What a licence is enough for: a run under one makes its write, and as often as is due.
use ma_klaude.Prelude.{
  ◌||◌, ◌&&◌, not, Bool, true, false, List, [], ◌∷◌, Option, none, some, is_empty, if◌then◌else◌,
  ◌==◌, string_comparable, ◌≡◌, ◌≢◌, ◌⊎◌, inl, inr, refl, sym, ap, subst, ◌∙◌, All, eq_iff, and_iff,
  ℕ, String, arith,
}
use ma_klaude.Prelude.Int.{ℤ, eqb_ℤ_iff}
use ma_klaude.Health.{Snapshot}
use ma_klaude.Remediate.{Target, reversible, recreated_by_controller}
use ma_klaude.Execute.Index.{new_cluster_index}
use ma_klaude.Execute.Preconditions.{
  Precondition, check_precondition, recheck_preconditions, all_held,
}
use ma_klaude.Execute.Licensed.{IsLicensed, IsRead}
use ma_klaude.Execute.Paths.{sent_run}
use ma_klaude.Execute.Attempts.{AreTries, send-AreTries}
use ma_klaude.Execute.Run.{
  failure_none, failure_not_authorized, failure_cluster_mismatch, failure_refused,
  failure_kill_switch, failure_unobservable, failure_drifted, ExecuteMode, execute_dry_run,
  execute_enabled, World, Authorization, Proposal, Write, Run, planned, Call, same_target, matches,
  mode_permits_action, check_granted, check_authorization, is_actionable, plan_for, captures, send,
  max_attempts, writes_of, refuse, act_on, act_planned, act, conditions_of, run_if_passed, execute,
}

through {ℓ} : {A : Type ℓ} (b : Bool) (stop run : A) → b ≡ false → (if b then stop else run) ≡ run
through b stop run e = rw (e) refl

off : (b : Bool) → b ≡ true → not b ≡ false
off b e = ap not e

neither : (b c : Bool) → b ≡ false → c ≡ false → (b || c) ≡ false
neither b c e f = rw (e, f) refl

All-all_held :
    (w : World) (snap : Snapshot) (conditions : List Precondition) (t : Target)
    → All (λ pc. check_precondition w.parse_int (new_cluster_index snap) pc t ≡ true) conditions
    → all_held (recheck_preconditions w.parse_int (new_cluster_index snap) conditions t) ≡ true
unfolding all_held recheck_preconditions
All-all_held w snap [] t h = refl
All-all_held w snap (pc ∷ pcs) t h =
    (and_iff (check_precondition w.parse_int (new_cluster_index snap) pc t) _).1
      (h.0, All-all_held w snap pcs t h.1)

same_target_refl : (t : Target) → same_target t t ≡ true
same_target_refl t =
    let same : (s : String) → (s == s) ≡ true = λ s. (eq_iff s s).1 refl in
    rw (same t.cluster, same t.kind, same t.namespace, same t.name, same t.resource_version) refl

module _ (w : World) (policy : ℤ) (conditions : List Precondition) (p : Proposal) where
  -- A run of `act` that has called the client for the write.
  abbrev IsMade : Write → Run → Type 0
  IsMade write run = run.writes ≡ writes_of (send w policy).calls write

  act_on-IsMade :
      (write : Write) (fresh : IsRead w conditions p)
      → write.target ≡ p.target
      → IsMade write (act_on w policy conditions p write.call fresh.snap)
  unfolding act_on
  act_on-IsMade write fresh t =
      let idx = new_cluster_index fresh.snap in
      let checks = recheck_preconditions w.parse_int idx conditions p.target in
      let done = sent_run w policy checks (record { call = write.call; target = p.target }) in
      let present : Run =
        if not (captures w.format_int idx p.target) then refuse failure_refused checks else done in
      let held : Run = if not (all_held checks) then refuse failure_drifted checks else present in
      let here : Run =
        if not (fresh.snap.cluster == p.cluster)
        then refuse failure_cluster_mismatch []
        else held in
      ap (λ (r : Run). r.writes)
        (through (not fresh.snap.reachability.reachable) (refuse failure_unobservable []) here
            (off _ fresh.reachable)
          ∙ through (not (fresh.snap.cluster == p.cluster)) (refuse failure_cluster_mismatch [])
              held (off _ ((eq_iff fresh.snap.cluster p.cluster).1 fresh.cluster))
          ∙ through (not (all_held checks)) (refuse failure_drifted checks) present
              (off _ (All-all_held w fresh.snap conditions p.target fresh.hold))
          ∙ through (not (captures w.format_int idx p.target)) (refuse failure_refused checks) done
              (off _ fresh.present))
      ∙ ap (λ t. writes_of (send w policy).calls (record { call = write.call; target = t })) (sym t)

  abbrev read_first : Call → Option Snapshot → Run
  read_first call o = elim o [
    | none ↦ refuse failure_unobservable []
    | some snap ↦ act_on w policy conditions p call snap
  ]

  able :
      (p.reversibility ≡ reversible) ⊎ (p.reversibility ≡ recreated_by_controller)
      → is_actionable p ≡ true
  unfolding is_actionable
  able (inl e) = rw ((eqb_ℤ_iff p.reversibility 0).1 e) refl
  able (inr e) = rw ((eqb_ℤ_iff p.reversibility 1).1 e) (ground arith)

  act_planned-IsMade :
      (write : Write) (fresh : IsRead w conditions p)
      → write.target ≡ p.target
      → is_actionable p ≡ true
      → is_empty conditions ≡ false
      → IsMade write (act_planned w policy conditions p (planned write.call))
  unfolding act_planned
  act_planned-IsMade write fresh t a filled =
      ap (λ (r : Run). r.writes)
        (through (not (is_actionable p) || is_empty conditions) (refuse failure_refused [])
            (read_first write.call w.snapshot) (neither _ _ (off _ a) filled)
          ∙ ap (read_first write.call) fresh.read)
      ∙ act_on-IsMade write fresh t

filled_in : (conditions : List Precondition) → conditions ≢ [] → is_empty conditions ≡ false
filled_in [] h = absurd (h refl)
filled_in (pc ∷ pcs) h = refl

permits :
    (m : ExecuteMode) → (m ≡ execute_dry_run) ⊎ (m ≡ execute_enabled) → mode_permits_action m ≡ true
unfolding mode_permits_action
permits m (inl e) = ap mode_permits_action e
permits m (inr e) = ap mode_permits_action e

-- A licence passes the check of the authorization.
licence-passes :
    (w : World) (auth : Option Authorization) (p : Proposal) (write : Write)
    → IsLicensed w auth p write
    → check_authorization w auth p ≡ failure_none
unfolding check_authorization check_granted matches
licence-passes w auth p write l =
    let slip = l.slip in
    let covers : matches slip p ≡ true =
      (and_iff (slip.identity == p.identity && slip.operation == p.operation)
          (same_target slip.target p.target)).1
        (
          (and_iff (slip.identity == p.identity) (slip.operation == p.operation)).1 (
            (eq_iff slip.identity p.identity).1 l.same_identity,
            (eq_iff slip.operation p.operation).1 l.same_operation,
          ),
          subst (λ t. same_target slip.target t ≡ true) l.covered (same_target_refl slip.target),
        ) in
    ap (λ a. check_authorization w a p) l.given
    ∙ through (not slip.granted) failure_not_authorized (check_granted w slip p) (off _ l.granted)
    ∙ through (not (matches slip p)) failure_not_authorized
        (if not (slip.cluster == p.cluster) || not (p.cluster == w.client_name)
          then failure_cluster_mismatch
          else failure_none)
        (off _ covers)
    ∙ through (not (slip.cluster == p.cluster) || not (p.cluster == w.client_name))
        failure_cluster_mismatch failure_none
        (neither _ _ (off _ ((eq_iff slip.cluster p.cluster).1 l.cluster))
          (off _ ((eq_iff p.cluster w.client_name).1 l.client)))

-- If all that allows a write is there (the slip that covers the proposal, the mode, the class, the
-- read of the cluster in which the preconditions hold, the plan), a run makes that write, and
-- nothing else, as often as it is due: once, and once more after each answer `TooManyRequests`,
-- until another answer comes, the wait after one is cut short, or `MaxAttempts` calls are made.
pub execute-AreTries :
    (w : World) (policy : ℤ) (auth : Option Authorization) (p : Proposal) (write : Write)
    → IsLicensed w auth p write
    → (calls : ℕ) × ((execute w policy auth p).writes ≡ writes_of calls write)
      × AreTries w (max_attempts policy) calls
unfolding execute act conditions_of
execute-AreTries w policy auth p write l =
    let conditions = l.slip.preconditions in
    let read : conditions_of auth ≡ conditions =
      ap conditions_of l.given ∙ ap (λ b. if b then conditions else []) l.granted in
    let plan = plan_for w.parse_int p.operation conditions in
    let made : (act w policy conditions p).writes ≡ writes_of (send w policy).calls write =
      ap (λ (r : Run). r.writes)
        (through (not (mode_permits_action w.mode)) (refuse failure_kill_switch [])
            (act_planned w policy conditions p plan) (off _ (permits w.mode l.mode))
          ∙ ap (act_planned w policy conditions p) l.call)
      ∙ act_planned-IsMade w policy conditions p write l.fresh l.target
          (able w policy conditions p l.class) (filled_in conditions l.conditions) in
    (
      (send w policy).calls,
      ap (λ c. (run_if_passed c (act w policy (conditions_of auth) p)).writes)
            (licence-passes w auth p write l)
          ∙ ap (λ cs. (act w policy cs p).writes) read
          ∙ made,
      send-AreTries w policy,
    )
