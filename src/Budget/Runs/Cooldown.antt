-- ===== src/Budget/Runs/Cooldown.antt =====
-- The cooldown of a target over a run.
use ma_klaude.Prelude.{
  String, ◌≡◌, sym, ◌∙◌, ap, subst, inl, inr, true, false, Option, some, [], ◌∷◌, ◌≤◌, arith,
  eq_iff, Bool-cases, false≢true, ◌==◌, string_comparable,
}
use ma_klaude.Prelude.Int.{ℤ, leb_ℤ, ltb_ℤ, Time, time_sub}
use ma_klaude.Prelude.Assoc.{fetch, store, fetch-store, fetch-store_self}
use ma_klaude.Remediate.{Target, target_string}
use ma_klaude.Budget.Limits.{Limits, admitted, admits, Outcome}
use ma_klaude.Budget.State.{ClusterState, cluster_of}
use ma_klaude.Budget.State.Pruning.{IsState}
use ma_klaude.Budget.Admit.{Budget, World, admit}
use ma_klaude.Budget.Admit.Ladder.{reason_of, reason-CanAdmit, admit-reason}
use ma_klaude.Budget.Admit.Persist.{Written}
use ma_klaude.Budget.Admit.Looking.{admits→admitted, admit_state}
use ma_klaude.Budget.Admit.Effects.{cluster_of-admit, limits-admit, admit-IsState}
use ma_klaude.Budget.Breaker.{fail_cluster}
use ma_klaude.Budget.Runs.{Call, begins, admits_at, records_at, trips_at, clears_at, step, Run, run}
use ma_klaude.Budget.Runs.Laws.{step-Keeps, after}

-- The clock, and the instant that an admission is asked for, have not passed `limit`.
abbrev pub IsCallBefore : Time → World → Call → Type 0
IsCallBefore limit w (admits_at cluster target at) = (w.now ≤ limit) × (at ≤ limit)
IsCallBefore limit w _ = w.now ≤ limit

abbrev pub IsBefore : Time → Run → Type 0
IsBefore limit [] = Unit
IsBefore limit ((w, c) ∷ r) = IsCallBefore limit w c × IsBefore limit r

sub_mono :
    (t u limit : Time) (cooldown : ℤ)
    → t ≤ limit
    → ltb_ℤ (time_sub limit u) cooldown ≡ true
    → ltb_ℤ (time_sub t u) cooldown ≡ true
unfolding time_sub
sub_mono t u limit cooldown le h = ground arith

not_over : (x y : ℤ) → ltb_ℤ x y ≡ true → leb_ℤ y x ≡ false
not_over x y h = ground arith

fail_times :
    (l : Limits) (key : String) (at : Time) (cs : ClusterState)
    → (fail_cluster l key at cs).0.last_admitted ≡ cs.last_admitted
unfolding fail_cluster
fail_times l key at cs = ground arith

-- The time on record of a target of a cluster.
abbrev recorded : ClusterState → String → Option Time
recorded cs key = fetch cs.last_admitted key

module _ (cluster key : String) (t limit : Time) where
  cooling_denied :
      (b : Budget) (target : Target) (at : Time)
      → recorded (cluster_of b.state cluster) (target_string target) ≡ some t
      → ltb_ℤ (time_sub limit t) b.limits.cooldown ≡ true
      → at ≤ limit
      → admits (reason_of b cluster target at) ≡ false
  cooling_denied b target at e h le = elim (Bool-cases (admits (reason_of b cluster target at))) [
    | inl ok ↦
        let can = reason-CanAdmit b cluster target at (admits→admitted _ ok) in
        absurd (
          false≢true (
            sym (
              not_over (time_sub at t) b.limits.cooldown
                (sub_mono at t limit b.limits.cooldown le h))
            ∙ can.cooled t e))
    | inr f ↦ f
  ]

  own-kept :
      (b : Budget) (target : Target) (at : Time)
      → recorded (cluster_of b.state cluster) key ≡ some t
      → ltb_ℤ (time_sub limit t) b.limits.cooldown ≡ true
      → at ≤ limit
      → recorded (admit_state b cluster target at cluster) key ≡ some t
  own-kept b target at e h le = elim (Bool-cases (target_string target == key)) [
    | inl y ↦
        let same : target_string target ≡ key = (eq_iff (target_string target) key).0 y in
        let denied =
          cooling_denied b target at (ap (recorded (cluster_of b.state cluster)) same ∙ e) h le in
        ground (arith, denied, e)
    | inr n ↦
        let passed : fetch
              (store (cluster_of b.state cluster).last_admitted (target_string target) at) key
            ≡ some t =
          fetch-store (cluster_of b.state cluster).last_admitted (target_string target) at key
          ∙ rw n e in
        ground (arith, passed, e)
  ]

  admit-kept :
      (b : Budget) (name : String) (target : Target) (at : Time)
      → recorded (cluster_of b.state cluster) key ≡ some t
      → ltb_ℤ (time_sub limit t) b.limits.cooldown ≡ true
      → at ≤ limit
      → recorded (admit_state b name target at cluster) key ≡ some t
  admit-kept b name target at e h le = elim (Bool-cases (name == cluster)) [
    | inl y ↦
        subst (λ x. recorded (admit_state b x target at cluster) key ≡ some t)
          (sym ((eq_iff name cluster).0 y)) (own-kept b target at e h le)
    | inr n ↦ rw n e
  ]

  outcome-kept :
      (b : Budget) (name : String) (target : Target) (outcome : Outcome) (at : Time)
      → recorded (after b (records_at name target outcome at) cluster) key
        ≡ recorded (cluster_of b.state cluster) key
  outcome-kept b name target outcome at = ground (
    arith,
    eq_iff name cluster,
    fail_times b.limits (target_string target) at (cluster_of b.state cluster),
  )

  after-kept :
      (w : World) (b : Budget) (c : Call)
      → recorded (cluster_of b.state cluster) key ≡ some t
      → ltb_ℤ (time_sub limit t) b.limits.cooldown ≡ true
      → IsCallBefore limit w c
      → recorded (after b c cluster) key ≡ some t
  after-kept w b begins e h le = e
  after-kept w b (admits_at name target at) e h le = admit-kept b name target at e h le.1
  after-kept w b (records_at name target outcome at) e h le =
      outcome-kept b name target outcome at ∙ e
  after-kept w b (trips_at name detail at) e h le = ground (arith, eq_iff name cluster, e)
  after-kept w b (clears_at name by at) e h le = ground (arith, eq_iff name cluster, e)

  now_before : (w : World) (c : Call) → IsCallBefore limit w c → w.now ≤ limit
  now_before w begins le = le
  now_before w (admits_at name target at) le = le.0
  now_before w (records_at name target outcome at) le = le
  now_before w (trips_at name detail at) le = le
  now_before w (clears_at name by at) le = le

  -- A write does not forget a cooldown that is not over.
  Written-kept :
      (now : Time) (cooldown : ℤ) (cs cs' : ClusterState)
      → Written now cooldown cs cs'
      → recorded cs key ≡ some t
      → ltb_ℤ (time_sub limit t) cooldown ≡ true
      → now ≤ limit
      → recorded cs' key ≡ some t
  Written-kept now cooldown cs cs' wr e h le = elim (wr.kept key t e) [
    | inl k ↦ k
    | inr over ↦ absurd (
        false≢true
          (sym (not_over (time_sub now t) cooldown (sub_mono now t limit cooldown le h)) ∙ over))
  ]

  run-kept :
      (r : Run) (b : Budget)
      → IsState b.state
      → recorded (cluster_of b.state cluster) key ≡ some t
      → ltb_ℤ (time_sub limit t) b.limits.cooldown ≡ true
      → IsBefore limit r
      → (recorded (cluster_of (run b r).state cluster) key ≡ some t)
        × (ltb_ℤ (time_sub limit t) (run b r).limits.cooldown ≡ true)
  unfolding run
  run-kept [] b s e h le = (e, h)
  run-kept ((w, c) ∷ r) b s e h le =
      let keeps = step-Keeps w b s c in
      let e' =
        Written-kept w.now b.limits.cooldown (after b c cluster) _ (keeps.cluster cluster)
          (after-kept w b c e h le.0) h (now_before w c le.0) in
      let h' : ltb_ℤ (time_sub limit t) (step w b c).limits.cooldown ≡ true =
        subst (λ (l : Limits). ltb_ℤ (time_sub limit t) l.cooldown ≡ true) (sym keeps.limits) h in
      run-kept r (step w b c) keeps.state e' h' le.1

-- After a target was admitted at `at`, no target with the same key is admitted on the cluster at
-- any instant up to `limit`, where `limit` is less than `Cooldown` after `at`, on any budget that
-- a run of calls leads to from there, if neither the clock nor the instants of its admissions have
-- passed `limit`. The calls may be outcomes, `Clear`, new passes and any others. The maps of the
-- budget hold no key twice.
pub cooldown_holds :
    (w : World) (b : Budget) (cluster : String) (target : Target) (at limit : Time) (r : Run)
    (w' : World) (again : Target) (later : Time)
    → IsState b.state
    → (admit w b cluster target at).1.reason ≡ admitted
    → ltb_ℤ (time_sub limit at) b.limits.cooldown ≡ true
    → w.now ≤ limit
    → IsBefore limit r
    → target_string again ≡ target_string target
    → later ≤ limit
    → admits (admit w' (run (admit w b cluster target at).0 r) cluster again later).1.reason ≡ false
cooldown_holds w b cluster target at limit r w' again later s ok h now le same later_le =
    let b' = (admit w b cluster target at).0 in
    let key = target_string target in
    let keeps = step-Keeps w b s (admits_at cluster target at) in
    let asked : reason_of b cluster target at ≡ admitted =
      sym (admit-reason b cluster target at w) ∙ ok in
    let stamped : recorded (admit_state b cluster target at cluster) key ≡ some at = ground (
      arith,
      asked,
      eq_iff cluster cluster,
      fetch-store_self (cluster_of b.state cluster).last_admitted key at,
    ) in
    let e : recorded (cluster_of b'.state cluster) key ≡ some at =
      Written-kept cluster key at limit w.now b.limits.cooldown
        (admit_state b cluster target at cluster) (cluster_of b'.state cluster)
        (cluster_of-admit w b cluster target at s cluster) stamped h now in
    let h' : ltb_ℤ (time_sub limit at) b'.limits.cooldown ≡ true =
      subst (λ (l : Limits). ltb_ℤ (time_sub limit at) l.cooldown ≡ true)
        (sym (limits-admit w b cluster target at)) h in
    let (kept, short) =
      run-kept cluster key at limit r b' (admit-IsState w b cluster target at s) e h' le in
    ap admits (admit-reason (run b' r) cluster again later w')
    ∙ cooling_denied cluster key at limit (run b' r) again later
        (ap (recorded (cluster_of (run b' r).state cluster)) same ∙ kept) short later_le
