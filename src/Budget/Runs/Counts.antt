-- ===== src/Budget/Runs/Counts.antt =====
-- The per-pass cap over a run: how many admissions one pass can see on a cluster.
use ma_klaude.Prelude.{
  ℕ, suc, String, ◌≡◌, refl, ◌∙◌, ap, subst, inl, inr, Bool, true, false, not, [], ◌∷◌, ◌+◌, ◌≤◌,
  arith, eq_iff, Bool-cases, ◌==◌, string_comparable, if◌then◌else◌,
}
use ma_klaude.Prelude.Int.{pos, ltb_ℤ}
use ma_klaude.Prelude.Assoc.{fetch}
use ma_klaude.Prelude.Text.{trim_space}
use ma_klaude.Budget.Limits.{Limits, admits}
use ma_klaude.Budget.State.{ClusterState, cluster_of, with_cluster}
use ma_klaude.Budget.State.Pruning.{IsState}
use ma_klaude.Budget.Admit.{Budget, World, begin, used, or_new_pass}
use ma_klaude.Budget.Admit.Ladder.{reason_of, reason-CanAdmit, admit-reason}
use ma_klaude.Budget.Admit.Looking.{used_in, admits→admitted}
use ma_klaude.Budget.Admit.Effects.{used_in-admit}
use ma_klaude.Budget.Runs.{
  Call, begins, admits_at, records_at, trips_at, clears_at, step, Run, granted, count_granted,
}
use ma_klaude.Budget.Runs.Steps.{put, pass-put, record_lem, trip_lem, clear_lem}
use ma_klaude.Budget.Runs.Laws.{step-Keeps}

-- A call other than `Begin`.
abbrev pub IsWithin : Call → Type 0
IsWithin begins = ⊥
IsWithin _ = Unit

-- A run inside one pass.
abbrev pub IsPass : Run → Type 0
IsPass [] = Unit
IsPass ((w, c) ∷ r) = IsWithin c × IsPass r

-- A call that is not about the pass.
abbrev pub IsPassless : Call → Type 0
IsPassless begins = ⊥
IsPassless (admits_at c target at) = ⊥
IsPassless _ = Unit

module _ (w : World) (b : Budget) where
  trip-pass :
      (open' : Bool) (cluster : String) (cs : ClusterState)
      → (if open'
          then record b { state = with_cluster b.state cluster }
          else put w b cluster cs).pass
        ≡ b.pass
  trip-pass true cluster cs = refl
  trip-pass false cluster cs = pass-put w b cluster cs

  clear-pass :
      (unnamed sealed : Bool) (cluster : String) (cs : ClusterState)
      → (if unnamed then b else if sealed then b else put w b cluster cs).pass ≡ b.pass
  clear-pass true s cluster cs = refl
  clear-pass false true cluster cs = refl
  clear-pass false false cluster cs = pass-put w b cluster cs

  pub pass-step : (c : Call) → IsPassless c → (step w b c).pass ≡ b.pass
  pass-step begins h = absurd h
  pass-step (admits_at cluster target at) h = absurd h
  pass-step (records_at cluster target outcome at) h =
      ap (λ (x : Budget). x.pass) (record_lem w b cluster target outcome at)
      ∙ pass-put w b cluster _
  pass-step (trips_at cluster detail at) h =
      ap (λ (x : Budget). x.pass) (trip_lem w b cluster detail at)
      ∙ trip-pass (cluster_of b.state cluster).tripped cluster _
  pass-step (clears_at cluster by at) h =
      ap (λ (x : Budget). x.pass) (clear_lem w b cluster by at)
      ∙ clear-pass (trim_space by == "") (not (b.seal_detail == "")) cluster _

module _ (w : World) (b : Budget) (other : String) where
  pass_kept : (b' : Budget) → b'.pass ≡ b.pass → used_in b' other ≡ used_in b other
  pass_kept b' e = ap (λ o. used (or_new_pass o) other) e

  pub used_in-step :
      (c : Call)
      → IsWithin c
      → used_in (step w b c) other
        ≡ (if granted w b other c then suc (used_in b other) else used_in b other)
  used_in-step begins h = absurd h
  used_in-step (admits_at cluster target at) h =
      unfold step granted in
      (used_in-admit w b cluster target at other
        ∙ ground (arith, admit-reason b cluster target at w))
  used_in-step (records_at cluster target outcome at) h =
      pass_kept (step w b (records_at cluster target outcome at))
        (pass-step w b (records_at cluster target outcome at) tt)
      ∙ (unfold granted in refl)
  used_in-step (trips_at cluster detail at) h =
      pass_kept (step w b (trips_at cluster detail at))
        (pass-step w b (trips_at cluster detail at) tt)
      ∙ (unfold granted in refl)
  used_in-step (clears_at cluster by at) h =
      pass_kept (step w b (clears_at cluster by at)) (pass-step w b (clears_at cluster by at) tt)
      ∙ (unfold granted in refl)

  -- A granted admission had room.
  granted-room :
      (c : Call)
      → granted w b other c ≡ true
      → ltb_ℤ (pos (used_in b other)) b.limits.per_cluster_per_pass ≡ true
  granted-room (admits_at cluster target at) h =
      let same : cluster ≡ other = unfold granted in ground (arith, eq_iff cluster other) in
      let ok : admits (reason_of b cluster target at) ≡ true =
        unfold granted in ground (arith, admit-reason b cluster target at w) in
      let can = reason-CanAdmit b cluster target at (admits→admitted _ ok) in
      subst (λ x. ltb_ℤ (pos (used_in b x)) b.limits.per_cluster_per_pass ≡ true) same
        (rw can.started can.room)
  granted-room begins h = absurd (unfold granted in cc h)
  granted-room (records_at cluster target outcome at) h = absurd (unfold granted in cc h)
  granted-room (trips_at cluster detail at) h = absurd (unfold granted in cc h)
  granted-room (clears_at cluster by at) h = absurd (unfold granted in cc h)

begun : (b : Budget) (cluster : String) → used_in (begin b) cluster ≡ 0
unfolding begin used fetch
begun b cluster = refl

-- The cap at `k`: a pass can admit no more than what is left of it.
admits_at_most :
    (k : ℕ) (cluster : String) (r : Run) (b : Budget)
    → IsPass r
    → IsState b.state
    → b.limits.per_cluster_per_pass ≡ pos k
    → used_in b cluster ≤ k
    → used_in b cluster + count_granted b cluster r ≤ k
unfolding count_granted
admits_at_most k cluster [] b p h e u = ground arith
admits_at_most k cluster ((w, c) ∷ r) b p h e u =
    let keeps = step-Keeps w b h c in
    let within = used_in-step w b cluster c p.0 in
    let e' : (step w b c).limits.per_cluster_per_pass ≡ pos k =
      ap (λ (l : Limits). l.per_cluster_per_pass) keeps.limits ∙ e in
    elim (Bool-cases (granted w b cluster c)) [
      | inl t ↦
          let room : ltb_ℤ (pos (used_in b cluster)) (pos k) ≡ true =
            subst (λ z. ltb_ℤ (pos (used_in b cluster)) z ≡ true) e
              (granted-room w b cluster c t) in
          let up : used_in (step w b c) cluster ≡ suc (used_in b cluster) = within ∙ rw t in
          let ih = admits_at_most k cluster r (step w b c) p.1 keeps.state e' (ground arith) in
          rw t (ground arith)
      | inr f ↦
          let up : used_in (step w b c) cluster ≡ used_in b cluster = within ∙ rw f in
          let ih = admits_at_most k cluster r (step w b c) p.1 keeps.state e' (ground arith) in
          rw f (ground arith)
    ]

-- Within one pass, that is, in any sequence of calls after a `Begin` and with no other `Begin` in
-- it, at most `k` actions are admitted on a cluster, where `k` is `PerClusterPerPass`, whatever
-- the calls and whichever writes fail. The maps of the budget hold no key twice.
pub begin_cap :
    (k : ℕ) (cluster : String) (b : Budget) (r : Run)
    → b.limits.per_cluster_per_pass ≡ pos k
    → IsState b.state
    → IsPass r
    → count_granted (begin b) cluster r ≤ k
begin_cap k cluster b r e h p =
    let most =
      admits_at_most k cluster r (begin b) p (unfold begin in h) (unfold begin in e)
        (rw (begun b cluster) (ground arith)) in
    ground (arith, begun b cluster)
