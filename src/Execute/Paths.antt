-- ===== src/Execute/Paths.antt =====
-- The two kinds of run: one that is refused before a write, and one that has called the client.
use ma_klaude.Prelude.{
  Bool, true, false, not, ◌||◌, List, [], Option, none, some, is_empty, if◌then◌else◌, ◌==◌,
  string_comparable, ◌≡◌, refl, not-false,
}
use ma_klaude.Prelude.Int.{ℤ}
use ma_klaude.Health.{Snapshot}
use ma_klaude.Execute.Index.{new_cluster_index}
use ma_klaude.Execute.Preconditions.{Precondition, recheck_preconditions, all_held}
use ma_klaude.Execute.Run.{
  failure_none, failure_not_authorized, failure_cluster_mismatch, failure_refused,
  failure_kill_switch, failure_unobservable, failure_drifted, failure_conflict, failure_execute,
  failure_record, matches, check_granted, FailureClass, Proposal, Authorization, World, Write, Run,
  Planned, unplanned, unresolved, planned, Call, is_actionable, mode_permits_action, plan_for, send,
  after_send, captures, writes_of, refuse, act_on, act_planned, act, conditions_of,
  check_authorization, run_if_passed, execute,
}

-- The run that has made a write, retries included.
abbrev pub sent_run : World → ℤ → List (Precondition × Bool) → Write → Run
sent_run w policy checks write = record {
  report = after_send w checks (send w policy);
  writes = writes_of (send w policy).calls write;
}

-- The class of a change that the trail does not carry.
abbrev pub is_record_failure : FailureClass → Bool
is_record_failure failure_record = true
is_record_failure class = false

either-before :
    (b : Bool) (c d : FailureClass)
    → is_record_failure c ≡ false
    → is_record_failure d ≡ false
    → is_record_failure (if b then c else d) ≡ false
either-before true c d h k = h
either-before false c d h k = k

check-before :
    (w : World) (auth : Option Authorization) (p : Proposal)
    → is_record_failure (check_authorization w auth p) ≡ false
unfolding check_authorization check_granted
check-before w none p = refl
check-before w (some slip) p =
    either-before (not slip.granted) failure_not_authorized (check_granted w slip p) refl (
      either-before (not (matches slip p)) failure_not_authorized _ refl (
        either-before (not (slip.cluster == p.cluster) || not (p.cluster == w.client_name))
          failure_cluster_mismatch failure_none refl refl))

module _ (w : World) (policy : ℤ) (P : Run → Type 0)
    (refused : (class : FailureClass) (checks : List (Precondition × Bool))
      → is_record_failure class ≡ false
      → P (refuse class checks)) where
  guarded :
      (b : Bool) (class : FailureClass) (checks : List (Precondition × Bool)) (run : Run)
      → is_record_failure class ≡ false
      → (b ≡ false → P run)
      → P (if b then refuse class checks else run)
  guarded true class checks run c h = refused class checks c
  guarded false class checks run c h = h refl

  passed :
      (c : FailureClass) (run : Run) → is_record_failure c ≡ false → P run → P (run_if_passed c run)
  passed failure_none run c h = h
  passed failure_not_authorized run c h = refused failure_not_authorized [] refl
  passed failure_cluster_mismatch run c h = refused failure_cluster_mismatch [] refl
  passed failure_refused run c h = refused failure_refused [] refl
  passed failure_kill_switch run c h = refused failure_kill_switch [] refl
  passed failure_unobservable run c h = refused failure_unobservable [] refl
  passed failure_drifted run c h = refused failure_drifted [] refl
  passed failure_conflict run c h = refused failure_conflict [] refl
  passed failure_execute run c h = refused failure_execute [] refl
  passed failure_record run c h = refused failure_record [] c

  module _
      (made : (checks : List (Precondition × Bool)) (write : Write)
        → P (sent_run w policy checks write))
      (conditions : List Precondition) (p : Proposal) where
    act_on_holds : (call : Call) (snap : Snapshot) → P (act_on w policy conditions p call snap)
    unfolding act_on
    act_on_holds call snap =
        let idx = new_cluster_index snap in
        let checks = recheck_preconditions w.parse_int idx conditions p.target in
        let done = sent_run w policy checks (record { call = call; target = p.target }) in
        let present : Run =
          if not (captures w.format_int idx p.target)
          then refuse failure_refused checks
          else done in
        let held : Run = if not (all_held checks) then refuse failure_drifted checks else present in
        let here : Run =
          if not (snap.cluster == p.cluster) then refuse failure_cluster_mismatch [] else held in
        guarded (not snap.reachability.reachable) failure_unobservable [] here refl (λ _.
          guarded (not (snap.cluster == p.cluster)) failure_cluster_mismatch [] held refl (λ _.
            guarded (not (all_held checks)) failure_drifted checks present refl (λ _.
              guarded (not (captures w.format_int idx p.target)) failure_refused checks done refl
                (λ _. made checks (record { call = call; target = p.target })))))

    abbrev read_first : Call → Option Snapshot → Run
    read_first call o = elim o [
      | none ↦ refuse failure_unobservable []
      | some snap ↦ act_on w policy conditions p call snap
    ]

    read_first_holds : (call : Call) (o : Option Snapshot) → P (read_first call o)
    read_first_holds call none = refused failure_unobservable [] refl
    read_first_holds call (some snap) = act_on_holds call snap

    act_planned_holds : (plan : Planned) → P (act_planned w policy conditions p plan)
    unfolding act_planned
    act_planned_holds unplanned = refused failure_refused [] refl
    act_planned_holds unresolved = refused failure_refused [] refl
    act_planned_holds (planned call) =
        guarded (not (is_actionable p) || is_empty conditions) failure_refused []
          (read_first call w.snapshot) refl (λ _. read_first_holds call w.snapshot)

  -- What holds of every refusal, and of every run that has called the client in a mode that permits
  -- it, holds of every run.
  pub execute_holds :
      (mode_permits_action w.mode ≡ true
        → (checks : List (Precondition × Bool)) (write : Write)
        → P (sent_run w policy checks write))
      → (auth : Option Authorization) (p : Proposal) → P (execute w policy auth p)
  unfolding execute act
  execute_holds made auth p =
      let conditions = conditions_of auth in
      let plan = plan_for w.parse_int p.operation conditions in
      passed (check_authorization w auth p) (act w policy conditions p) (check-before w auth p) (
        guarded (not (mode_permits_action w.mode)) failure_kill_switch []
          (act_planned w policy conditions p plan) refl
          (λ off.
            act_planned_holds (made (not-false (mode_permits_action w.mode) off)) conditions p
              plan))
