-- ===== src/Budget/Breaker/Responses.antt =====
-- `RecordOutcome` and `Clear` of internal/budget/admit.go on every branch.
use ma_klaude.Prelude.{
  suc, String, ◌≡◌, ◌≢◌, sym, ◌∙◌, subst, ◌⊎◌, inl, inr, Bool, true, false, not, ◌&&◌, ◌||◌, none,
  some, arith, eq_iff, Bool-cases, false≢true, ◌==◌, string_comparable,
}
use ma_klaude.Prelude.Int.{ℤ, pos, leb_ℤ, Time, time_sub}
use ma_klaude.Prelude.Text.{trim_space}
use ma_klaude.Prelude.Assoc.{fetch}
use ma_klaude.Remediate.{Target, target_string}
use ma_klaude.Budget.Limits.{Limits, Outcome, Consequence, acted}
use ma_klaude.Budget.State.{ClusterState, cluster_of}
use ma_klaude.Budget.State.Pruning.{IsState}
use ma_klaude.Budget.Admit.{Budget, World}
use ma_klaude.Budget.Admit.Persist.{Written}
use ma_klaude.Budget.Breaker.{fail_cluster, trip_threshold, record_outcome, clear}
use ma_klaude.Budget.Runs.{clears_at, step}
use ma_klaude.Budget.Runs.Steps.{cleared_state}
use ma_klaude.Budget.Runs.Laws.{step-Keeps}

-- A failure opens a breaker that is closed and whose count it brings to the threshold.
abbrev pub opens_at : Limits → ClusterState → Bool
opens_at l cs = not cs.tripped && leb_ℤ (trip_threshold l) (pos (suc cs.consecutive_failures))

-- What must follow a failure, and what is left of the cluster.
pub record Responds (l : Limits) (cs cs' : ClusterState) (c : Consequence) : Type 0 where
  pub rolls_back : c.roll_back ≡ true
  pub demotes : c.demote ≡ true
  pub escalates : c.escalate ≡ true
  pub counts : c.consecutive_failures ≡ suc cs.consecutive_failures
  pub announces : c.tripped ≡ opens_at l cs
  pub counted : cs'.consecutive_failures ≡ suc cs.consecutive_failures
  pub opened : cs'.tripped ≡ (cs.tripped || opens_at l cs)

-- What follows a success.
pub record Resets (cs cs' : ClusterState) (c : Consequence) : Type 0 where
  pub asks_nothing : acted c ≡ false
  pub counted : cs'.consecutive_failures ≡ 0
  pub unchanged : cs'.tripped ≡ cs.tripped

module _ (w : World) (b : Budget) (cluster : String) (target : Target) (outcome : Outcome)
    (at : Time) where
  abbrev consequence : Consequence
  consequence = (record_outcome w b cluster target outcome at).1

  abbrev then_cluster : ClusterState
  then_cluster = cluster_of (record_outcome w b cluster target outcome at).0.state cluster

  abbrev failed_cluster : ClusterState × Bool
  failed_cluster = fail_cluster b.limits (target_string target) at (cluster_of b.state cluster)

-- What an accepted `Clear` leaves of its cluster.
pub record Cleared (now : Time) (cooldown : ℤ) (by : String) (cs cs' : ClusterState) : Type 0 where
  pub closed : cs'.tripped ≡ false
  pub counted : cs'.consecutive_failures ≡ 0
  pub named : cs'.cleared_by ≡ by
  pub cooling :
      (key : String) (t : Time)
      → fetch cs.last_admitted key ≡ some t
      → leb_ℤ cooldown (time_sub now t) ≡ false
      → fetch cs'.last_admitted key ≡ some t

module _ (w : World) (b : Budget) (cluster by : String) (at : Time) where
  clear_refused :
      (trim_space by ≡ "") ⊎ (b.seal_detail ≢ "")
      → ((clear w b cluster by at).0 ≡ b) × ((clear w b cluster by at).1 ≢ none)
  unfolding clear
  clear_refused (inl n) =
      (ground (arith, n, eq_iff (trim_space by) ""), ground (arith, n, eq_iff (trim_space by) ""))
  clear_refused (inr n) =
      (ground (arith, n, eq_iff b.seal_detail ""), ground (arith, n, eq_iff b.seal_detail ""))

  clear_accepted : trim_space by ≢ "" → b.seal_detail ≡ "" → (clear w b cluster by at).1 ≡ none
  unfolding clear
  clear_accepted n u = ground (arith, n, eq_iff (trim_space by) "", u, eq_iff b.seal_detail "")

  cleared_cluster :
      IsState b.state
      → trim_space by ≢ ""
      → b.seal_detail ≡ ""
      → Written w.now b.limits.cooldown
          (cleared_state (cluster_of b.state cluster) by at)
          (cluster_of (clear w b cluster by at).0.state cluster)
  unfolding step
  cleared_cluster h n u =
      subst
        (λ cs.
          Written w.now b.limits.cooldown cs (cluster_of (clear w b cluster by at).0.state cluster))
        (ground
          (arith, n, eq_iff (trim_space by) "", eq_iff b.seal_detail "", eq_iff cluster cluster))
        ((step-Keeps w b h (clears_at cluster by at)).cluster cluster)

-- `Clear` is refused, and changes nothing, when nobody is named (the name is blank) or when the
-- budget is sealed. Otherwise, on a budget whose maps hold no key twice, it is accepted: the
-- breaker is closed, the count is 0, the trimmed name is on record, and every cooldown of the
-- cluster that is not over stays.
pub clear_lem :
    (w : World) (b : Budget) (cluster by : String) (at : Time)
    → IsState b.state
    → (((trim_space by ≡ "") ⊎ (b.seal_detail ≢ ""))
        × ((clear w b cluster by at).0 ≡ b)
        × ((clear w b cluster by at).1 ≢ none))
      ⊎ ((trim_space by ≢ "")
          × (b.seal_detail ≡ "")
          × ((clear w b cluster by at).1 ≡ none)
          × Cleared w.now b.limits.cooldown
              (trim_space by)
              (cluster_of b.state cluster)
              (cluster_of (clear w b cluster by at).0.state cluster))
clear_lem w b cluster by at h = elim (Bool-cases (trim_space by == "")) [
  | inl t ↦
      let e = inl ((eq_iff (trim_space by) "").0 t) in
      let (same, said) = clear_refused w b cluster by at e in inl (e, same, said)
  | inr f ↦ elim (Bool-cases (b.seal_detail == "")) [
    | inr s ↦
        let e = inr (λ x. false≢true (sym s ∙ (eq_iff b.seal_detail "").1 x)) in
        let (same, said) = clear_refused w b cluster by at e in inl (e, same, said)
    | inl u ↦
        let n : trim_space by ≢ "" = λ x. false≢true (sym f ∙ (eq_iff (trim_space by) "").1 x) in
        let unsealed = (eq_iff b.seal_detail "").0 u in
        let wr = cleared_cluster w b cluster by at h n unsealed in
        inr (
          n,
          unsealed,
          clear_accepted w b cluster by at n unsealed,
          record {
            closed = wr.tripped;
            counted = wr.failures;
            named = wr.cleared;
            cooling = λ key t e running. elim (wr.kept key t e) [
              | inl k ↦ k
              | inr over ↦ absurd (false≢true (sym running ∙ over))
            ];
          },
        )
  ]
]
