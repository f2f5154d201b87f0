-- ===== src/Execute/Licensed.antt =====
-- What stands behind every write.
mod Slips
use ma_klaude.Prelude.{
  or_iff_false, not-false, ℕ, zero, suc, Bool, true, false, not, ◌||◌, List, [], ◌∷◌, Option, none,
  some, is_empty, if◌then◌else◌, ◌==◌, string_comparable, ◌≡◌, ◌≢◌, ◌⊎◌, inl, inr, refl, sym, ap,
  subst, All, Elem, Bool-cases, Option-cases, eq_iff, arith, false≢true, and_iff, ◌∙◌,
}
use ma_klaude.Prelude.Int.{ℤ, eqb_ℤ, eqb_ℤ_iff}
use ma_klaude.Health.{Snapshot}
use ma_klaude.Remediate.{Target, reversible, recreated_by_controller}
use ma_klaude.Execute.Index.{new_cluster_index}
use ma_klaude.Execute.Preconditions.{
  Precondition, check_precondition, recheck_preconditions, all_held,
}
use ma_klaude.Execute.Run.{
  failure_kill_switch, failure_drifted, failure_conflict, failure_execute, failure_record,
  failure_cluster_mismatch, run_if_passed, failure_refused, failure_not_authorized,
  failure_unobservable, Proposal, Authorization, ExecuteMode, execute_disabled, execute_dry_run,
  execute_enabled, execute_unnamed, FailureClass, failure_none, World, Write, Run, Planned,
  unplanned, unresolved, planned, Call, same_target, matches, mode_permits_action, check_granted,
  check_authorization, is_actionable, plan_for, send, captures, writes_of, refuse, act_on,
  act_planned, act, conditions_of, execute,
}
use ma_klaude.Execute.Licensed.Slips.{same_target-eq, check_passes, granted_for, after_check}

-- The cluster was read in this run, it is the one of the proposal, and every precondition holds.
pub record IsRead (w : World) (conditions : List Precondition) (p : Proposal) : Type 0 where
  pub snap : Snapshot
  pub read : w.snapshot ≡ some snap
  pub reachable : snap.reachability.reachable ≡ true
  pub cluster : snap.cluster ≡ p.cluster
  pub present : captures w.format_int (new_cluster_index snap) p.target ≡ true
  pub hold :
      All
        (λ pc. check_precondition w.parse_int (new_cluster_index snap) pc p.target ≡ true)
        conditions

-- What allows a write.
pub record IsLicensed (w : World) (auth : Option Authorization) (p : Proposal) (write : Write)
    : Type 0 where
  pub slip : Authorization
  pub given : auth ≡ some slip
  pub granted : slip.granted ≡ true
  pub same_identity : slip.identity ≡ p.identity
  pub same_operation : slip.operation ≡ p.operation
  pub covered : slip.target ≡ p.target
  pub cluster : slip.cluster ≡ p.cluster
  pub client : p.cluster ≡ w.client_name
  pub mode : (w.mode ≡ execute_dry_run) ⊎ (w.mode ≡ execute_enabled)
  pub class : (p.reversibility ≡ reversible) ⊎ (p.reversibility ≡ recreated_by_controller)
  pub conditions : slip.preconditions ≢ []
  pub fresh : IsRead w slip.preconditions p
  pub target : write.target ≡ p.target
  pub call : plan_for w.parse_int p.operation slip.preconditions ≡ planned write.call

all_held-All :
    (w : World) (snap : Snapshot) (conditions : List Precondition) (t : Target)
    → all_held (recheck_preconditions w.parse_int (new_cluster_index snap) conditions t) ≡ true
    → All (λ pc. check_precondition w.parse_int (new_cluster_index snap) pc t ≡ true) conditions
unfolding all_held recheck_preconditions
all_held-All w snap [] t h = tt
all_held-All w snap (pc ∷ pcs) t h =
    let (here, rest) =
      (and_iff _ (all_held (recheck_preconditions w.parse_int (new_cluster_index snap) pcs t))).0
        h in
    (here, all_held-All w snap pcs t rest)

Elem-writes_of : (n : ℕ) (write other : Write) → Elem other (writes_of n write) → write ≡ other
Elem-writes_of zero write other m = absurd m
Elem-writes_of (suc n) write other (inl e) = e
Elem-writes_of (suc n) write other (inr m) = Elem-writes_of n write other m

-- A write gets past a refusal.
past :
    (b : Bool) (class : FailureClass) (checks : List (Precondition × Bool)) (run : Run)
    (write : Write)
    → Elem write (if b then refuse class checks else run).writes
    → (b ≡ false) × Elem write run.writes
past true class checks run write m = absurd m
past false class checks run write m = (refl, m)

permitted :
    (m : ExecuteMode) → mode_permits_action m ≡ true → (m ≡ execute_dry_run) ⊎ (m ≡ execute_enabled)
unfolding mode_permits_action
permitted execute_disabled h = absurd (false≢true h)
permitted execute_dry_run h = inl refl
permitted execute_enabled h = inr refl
permitted (execute_unnamed n) h = absurd (false≢true h)

module _ (w : World) (policy : ℤ) (conditions : List Precondition) (p : Proposal) where
  act_on-writes :
      (call : Call) (snap : Snapshot) (write : Write)
      → w.snapshot ≡ some snap
      → Elem write (act_on w policy conditions p call snap).writes
      → IsRead w conditions p × (record { call = call; target = p.target } ≡ write)
  unfolding act_on
  act_on-writes call snap write e m =
      let (reachable, m₁) = past _ _ _ _ write m in
      let (cluster, m₂) = past _ _ _ _ write m₁ in
      let (held, m₃) = past _ _ _ _ write m₂ in
      let (present, m₄) = past _ _ _ _ write m₃ in
      (
        record {
          snap = snap;
          read = e;
          reachable = not-false snap.reachability.reachable reachable;
          cluster = (eq_iff snap.cluster p.cluster).0 (not-false _ cluster);
          present = not-false _ present;
          hold = all_held-All w snap conditions p.target (not-false _ held);
        },
        Elem-writes_of (send w policy).calls (record { call = call; target = p.target }) write m₄,
      )

  -- What the steps after the authorization ask for.
  record IsAllowed (write : Write) : Type 0 where
    mode : (w.mode ≡ execute_dry_run) ⊎ (w.mode ≡ execute_enabled)
    class : (p.reversibility ≡ reversible) ⊎ (p.reversibility ≡ recreated_by_controller)
    filled : conditions ≢ []
    fresh : IsRead w conditions p
    target : write.target ≡ p.target
    call : plan_for w.parse_int p.operation conditions ≡ planned write.call

  classes :
      is_actionable p ≡ true
      → (p.reversibility ≡ reversible) ⊎ (p.reversibility ≡ recreated_by_controller)
  unfolding is_actionable
  classes h = elim (Bool-cases (eqb_ℤ p.reversibility reversible)) [
    | inl t ↦ inl ((eqb_ℤ_iff p.reversibility 0).0 t)
    | inr t ↦ inr ((eqb_ℤ_iff p.reversibility 1).0 (ground arith))
  ]

  abbrev from_snapshot : Call → Option Snapshot → Run
  from_snapshot call o = elim o [
    | none ↦ refuse failure_unobservable []
    | some snap ↦ act_on w policy conditions p call snap
  ]

  act_planned-writes :
      (plan : Planned) (write : Write)
      → Elem write (act_planned w policy conditions p plan).writes
      → (is_actionable p ≡ true)
        × (conditions ≢ [])
        × IsRead w conditions p
        × ((call : Call) × ((plan ≡ planned call)
              × (record { call = call; target = p.target } ≡ write)))
  unfolding act_planned
  act_planned-writes unplanned write m = absurd m
  act_planned-writes unresolved write m = absurd m
  act_planned-writes (planned call) write m =
      let (allowed, m₁) =
        past (not (is_actionable p) || is_empty conditions) failure_refused []
          (from_snapshot call w.snapshot) write m in
      let (able, some_there) =
        (or_iff_false (not (is_actionable p)) (is_empty conditions)).0 allowed in
      let filled : conditions ≢ [] = λ e. false≢true (sym some_there ∙ ap is_empty e) in
      elim (Option-cases w.snapshot) [
        | inl e ↦ absurd (subst (λ o. Elem write (from_snapshot call o).writes) e m₁)
        | inr (snap, e) ↦
            let (fresh, same) =
              act_on-writes call snap write e
                (subst (λ o. Elem write (from_snapshot call o).writes) e m₁) in
            (not-false (is_actionable p) able, filled, fresh, (call, (refl, same)))
      ]

  act-writes : (write : Write) → Elem write (act w policy conditions p).writes → IsAllowed write
  unfolding act
  act-writes write m =
      let (mode, m₁) = past _ _ _ _ write m in
      let (able, filled, fresh, (call, (plan, same))) =
        act_planned-writes (plan_for w.parse_int p.operation conditions) write m₁ in
      record {
        mode = permitted w.mode (not-false _ mode);
        class = classes able;
        filled = filled;
        fresh = fresh;
        target = ap (λ (x : Write). x.target) (sym same);
        call = plan ∙ ap (λ (x : Write). planned x.call) same;
      }

-- Every write of a run has behind it a granted authorization for this proposal (identity,
-- operation, target and cluster), a client of that cluster, a write path in mode dry-run or
-- enabled, a class that can be undone or recreated, and a read of the cluster in this run in which the target is
-- there and each of the authorization's preconditions, of which there is one, holds; it is the call
-- that the operation's plan makes on the proposal's target.
pub execute-IsLicensed :
    (w : World) (policy : ℤ) (auth : Option Authorization) (p : Proposal) (write : Write)
    → Elem write (execute w policy auth p).writes
    → IsLicensed w auth p write
unfolding execute conditions_of check_granted matches
execute-IsLicensed w policy auth p write m =
    let (passed, m₁) =
      after_check (check_authorization w auth p) (act w policy (conditions_of auth) p) write m in
    let (slip, (given, (granted, checked))) = granted_for w auth p passed in
    let (matched, more) =
      check_passes (not (matches slip p)) failure_not_authorized _ refl checked in
    let (clusters, _) =
      check_passes (not (slip.cluster == p.cluster) || not (p.cluster == w.client_name))
        failure_cluster_mismatch failure_none refl more in
    let (c₁, c₂) =
      (or_iff_false (not (slip.cluster == p.cluster)) (not (p.cluster == w.client_name))).0
        clusters in
    let (rest, targets) =
      (and_iff _ (same_target slip.target p.target)).0 (not-false (matches slip p) matched) in
    let (same_id, same_op) =
      (and_iff (slip.identity == p.identity) (slip.operation == p.operation)).0 rest in
    let read : conditions_of auth ≡ slip.preconditions =
      ap conditions_of given ∙ ap (λ b. if b then slip.preconditions else []) granted in
    let ok : IsAllowed w policy slip.preconditions p write =
      subst (λ cs. IsAllowed w policy cs p write) read
        (act-writes w policy (conditions_of auth) p write m₁) in
    record {
      slip = slip;
      given = given;
      granted = granted;
      same_identity = (eq_iff slip.identity p.identity).0 same_id;
      same_operation = (eq_iff slip.operation p.operation).0 same_op;
      covered = same_target-eq slip.target p.target targets;
      cluster = (eq_iff slip.cluster p.cluster).0 (not-false _ c₁);
      client = (eq_iff p.cluster w.client_name).0 (not-false _ c₂);
      mode = ok.mode;
      class = ok.class;
      conditions = ok.filled;
      fresh = ok.fresh;
      target = ok.target;
      call = ok.call;
    }
