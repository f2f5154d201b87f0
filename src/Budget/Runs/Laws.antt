-- ===== src/Budget/Runs/Laws.antt =====
-- What one call on a budget leaves as it was, and what it does to each cluster.
use ma_klaude.Prelude.Int.{pos, leb_ℤ, Time}
use ma_klaude.Remediate.{Target}
use ma_klaude.Prelude.{
  suc, String, ◌≡◌, ◌≢◌, refl, sym, subst, inl, inr, Bool, not, ◌&&◌, arith, Bool-cases, ◌==◌,
  string_comparable, if◌then◌else◌,
}
use ma_klaude.Prelude.Text.{trim_space}
use ma_klaude.Prelude.Maps.{IsMap}
use ma_klaude.Budget.State.{ClusterState, cluster_of, with_cluster}
use ma_klaude.Budget.State.Pruning.{IsState, cluster_of-with_cluster, store-IsState}
use ma_klaude.Budget.Admit.{admit, Budget, World, begin}
use ma_klaude.Budget.Admit.Persist.{Written, Written-refl}
use ma_klaude.Budget.Admit.Looking.{admit_state}
use ma_klaude.Budget.Admit.Effects.{cluster_of-admit, limits-admit, admit-IsState, seal-admit}
use ma_klaude.Budget.Breaker.{fail_cluster, trip_threshold}
use ma_klaude.Budget.Limits.{is_failed, Outcome}
use ma_klaude.Budget.Runs.{Call, begins, admits_at, records_at, trips_at, clears_at, step}
use ma_klaude.Budget.Runs.Steps.{
  put, put-IsState, cluster_of-put, limits-put, seal-put, outcome_state, tripped_state,
  cleared_state, record_lem, trip_lem, clear_lem,
}

-- What a call of `Clear` writes, if it is not refused.
abbrev can_clear : Budget → String → Bool
can_clear b by = not (trim_space by == "") && b.seal_detail == ""

-- The cluster `other` just before the write-through of a call.
abbrev pub after : Budget → Call → String → ClusterState
after b begins other = cluster_of b.state other
after b (admits_at cluster target at) other = admit_state b cluster target at other
after b (records_at cluster target outcome at) other =
    if cluster == other
    then outcome_state b.limits (cluster_of b.state cluster) target outcome at
    else cluster_of b.state other
after b (trips_at cluster detail at) other =
    if cluster == other && not (cluster_of b.state cluster).tripped
    then tripped_state (cluster_of b.state cluster) detail at
    else cluster_of b.state other
after b (clears_at cluster by at) other =
    if cluster == other && can_clear b by
    then cleared_state (cluster_of b.state cluster) by at
    else cluster_of b.state other

-- What a call keeps, where `written` is each cluster as it was written.
pub record Keeps (w : World) (b b' : Budget) (written : String → ClusterState) : Type 0 where
  pub limits : b'.limits ≡ b.limits
  pub seal : b.seal_detail ≢ "" → b'.seal_detail ≡ b.seal_detail
  pub state : IsState b'.state
  pub cluster :
      (other : String) → Written w.now b.limits.cooldown (written other) (cluster_of b'.state other)

Keeps-ext :
    (w : World) (b b' : Budget) (f g : String → ClusterState)
    → ((other : String) → f other ≡ g other)
    → Keeps w b b' f
    → Keeps w b b' g
Keeps-ext w b b' f g e k = record {
  limits = k.limits;
  seal = k.seal;
  state = k.state;
  cluster = λ other.
      subst (λ cs. Written w.now b.limits.cooldown cs (cluster_of b'.state other)) (e other)
        (k.cluster other);
}

module _ (w : World) (b : Budget) (h : IsState b.state) where
  begin-Keeps : Keeps w b (begin b) (cluster_of b.state)
  unfolding begin
  begin-Keeps = record {
    limits = refl;
    seal = λ n. refl;
    state = h;
    cluster = λ other. Written-refl _ _ _;
  }

  same-Keeps : Keeps w b b (cluster_of b.state)
  same-Keeps = record {
    limits = refl;
    seal = λ n. refl;
    state = h;
    cluster = λ other. Written-refl _ _ _;
  }

  with_cluster-Keeps :
      (name : String)
      → Keeps w b (record b { state = with_cluster b.state name }) (cluster_of b.state)
  with_cluster-Keeps name = record {
    limits = refl;
    seal = λ n. refl;
    state =
        unfold with_cluster in
        store-IsState b.state name (cluster_of b.state name) h (h.times name);
    cluster = λ other.
        subst (λ cs. Written w.now b.limits.cooldown (cluster_of b.state other) cs)
          (sym (cluster_of-with_cluster b.state name other)) (Written-refl _ _ _);
  }

  admit-Keeps :
      (cluster : String) (target : Target) (at : Time)
      → Keeps w b (admit w b cluster target at).0 (admit_state b cluster target at)
  admit-Keeps cluster target at = record {
    limits = limits-admit w b cluster target at;
    seal = seal-admit w b cluster target at;
    state = admit-IsState w b cluster target at h;
    cluster = cluster_of-admit w b cluster target at h;
  }

  put-Keeps :
      (name : String) (cs : ClusterState)
      → IsMap cs.last_admitted
      → Keeps w b
          (put w b name cs)
          (λ other. if name == other then cs else cluster_of b.state other)
  put-Keeps name cs m = record {
    limits = limits-put w b name cs;
    seal = seal-put w b name cs;
    state = put-IsState w b name cs h m;
    cluster = cluster_of-put w b name cs h m;
  }

  outcome-times :
      (cluster : String) (target : Target) (outcome : Outcome) (at : Time)
      → IsMap (outcome_state b.limits (cluster_of b.state cluster) target outcome at).last_admitted
  unfolding fail_cluster
  outcome-times cluster target outcome at = elim (Bool-cases (is_failed outcome)) [
    | inl t ↦
        rw t
          (elim (Bool-cases (
            not (cluster_of b.state cluster).tripped
            && leb_ℤ (trip_threshold b.limits)
                (pos (suc (cluster_of b.state cluster).consecutive_failures)))) [
                  | inl x ↦ rw x (h.times cluster)
                  | inr x ↦ rw x (h.times cluster)
                ])
    | inr f ↦ rw f (h.times cluster)
  ]

  -- What each call keeps.
  pub step-Keeps : (c : Call) → Keeps w b (step w b c) (after b c)
  step-Keeps begins = unfold step in begin-Keeps
  step-Keeps (admits_at cluster target at) = unfold step in admit-Keeps cluster target at
  step-Keeps (records_at cluster target outcome at) =
      subst (λ b'. Keeps w b b' (after b (records_at cluster target outcome at)))
        (sym (record_lem w b cluster target outcome at))
        (put-Keeps cluster _ (outcome-times cluster target outcome at))
  step-Keeps (trips_at cluster detail at) =
      subst (λ b'. Keeps w b b' (after b (trips_at cluster detail at)))
        (sym (trip_lem w b cluster detail at))
        (elim (Bool-cases (cluster_of b.state cluster).tripped) [
          | inl t ↦
              rw t (Keeps-ext w b _ _ _ (λ other. ground (arith, t)) (with_cluster-Keeps cluster))
          | inr f ↦ rw f (
              Keeps-ext w b _ _ _ (λ other. ground (arith, f))
                (put-Keeps cluster (tripped_state (cluster_of b.state cluster) detail at)
                  (h.times cluster)))
        ])
  step-Keeps (clears_at cluster by at) =
      subst (λ b'. Keeps w b b' (after b (clears_at cluster by at)))
        (sym (clear_lem w b cluster by at))
        (elim (Bool-cases (trim_space by == "")) [
          | inl t ↦ rw t (Keeps-ext w b _ _ _ (λ other. ground (arith, t)) same-Keeps)
          | inr f ↦ rw f (elim (Bool-cases (b.seal_detail == "")) [
            | inl t ↦ rw t (
                Keeps-ext w b _ _ _ (λ other. ground (arith, t, f))
                  (put-Keeps cluster (cleared_state (cluster_of b.state cluster) by at)
                    (h.times cluster)))
            | inr n ↦ rw n (Keeps-ext w b _ _ _ (λ other. ground (arith, n)) same-Keeps)
          ])
        ])
