-- ===== src/Budget/Runs/Isolation.antt =====
-- One cluster's calls and the admissions of another cluster.
use ma_klaude.Prelude.{
  ◌↔◌, String, ◌≡◌, ◌≢◌, refl, sym, ◌∙◌, ap, subst, inl, inr, true, false, some, ◌≤◌, arith, eq_iff,
  string_comparable,
}
use ma_klaude.Prelude.Int.{ℤ, leb_ℤ, Time, time_sub}
use ma_klaude.Prelude.Assoc.{fetch}
use ma_klaude.Remediate.{Target, target_string}
use ma_klaude.Budget.Limits.{admitted}
use ma_klaude.Budget.State.{cluster_of}
use ma_klaude.Budget.State.Pruning.{IsState}
use ma_klaude.Budget.Admit.{Budget, World, Pass, used, or_new_pass, admit}
use ma_klaude.Budget.Admit.Ladder.{CanAdmit, HasCooled, admit_iff}
use ma_klaude.Budget.Admit.Persist.{Written}
use ma_klaude.Budget.Admit.Looking.{used_in}
use ma_klaude.Budget.Admit.Effects.{started-admit}
use ma_klaude.Budget.Runs.{Call, begins, admits_at, records_at, trips_at, clears_at, step, granted}
use ma_klaude.Budget.Runs.Laws.{step-Keeps, after}
use ma_klaude.Budget.Runs.Counts.{used_in-step, pass-step}

-- A call that names another cluster.
abbrev pub IsElsewhere : String → Call → Type 0
IsElsewhere cluster begins = ⊥
IsElsewhere cluster (admits_at c target at) = c ≢ cluster
IsElsewhere cluster (records_at c target outcome at) = c ≢ cluster
IsElsewhere cluster (trips_at c detail at) = c ≢ cluster
IsElsewhere cluster (clears_at c by at) = c ≢ cluster

sub_mono_up :
    (t u now : Time) (cooldown : ℤ)
    → now ≤ t
    → leb_ℤ cooldown (time_sub now u) ≡ true
    → leb_ℤ cooldown (time_sub t u) ≡ true
unfolding time_sub
sub_mono_up t u now cooldown le h = ground arith

module _ (w : World) (b : Budget) (cluster : String) where
  elsewhere-after :
      (c : Call) → IsElsewhere cluster c → after b c cluster ≡ cluster_of b.state cluster
  elsewhere-after begins h = absurd h
  elsewhere-after (admits_at c target at) h = ground (arith, h, eq_iff c cluster)
  elsewhere-after (records_at c target outcome at) h = ground (arith, h, eq_iff c cluster)
  elsewhere-after (trips_at c detail at) h = ground (arith, h, eq_iff c cluster)
  elsewhere-after (clears_at c by at) h = ground (arith, h, eq_iff c cluster)

  elsewhere-granted : (c : Call) → IsElsewhere cluster c → granted w b cluster c ≡ false
  unfolding granted
  elsewhere-granted begins h = absurd h
  elsewhere-granted (admits_at c target at) h = ground (arith, h, eq_iff c cluster)
  elsewhere-granted (records_at c target outcome at) h = refl
  elsewhere-granted (trips_at c detail at) h = refl
  elsewhere-granted (clears_at c by at) h = refl

  elsewhere-used :
      (c : Call) → IsElsewhere cluster c → used_in (step w b c) cluster ≡ used_in b cluster
  elsewhere-used begins h = absurd h
  elsewhere-used (admits_at c target at) h =
      used_in-step w b cluster (admits_at c target at) tt
      ∙ rw (elsewhere-granted (admits_at c target at) h)
  elsewhere-used (records_at c target outcome at) h =
      used_in-step w b cluster (records_at c target outcome at) tt
      ∙ rw (elsewhere-granted (records_at c target outcome at) h)
  elsewhere-used (trips_at c detail at) h =
      used_in-step w b cluster (trips_at c detail at) tt
      ∙ rw (elsewhere-granted (trips_at c detail at) h)
  elsewhere-used (clears_at c by at) h =
      used_in-step w b cluster (clears_at c by at) tt ∙ rw (elsewhere-granted (clears_at c by at) h)

-- Two budgets that an admission cannot tell apart.
record Alike (b b' : Budget) (cluster : String) (now : Time) : Type 0 where
  limits : b'.limits ≡ b.limits
  seal : b'.seal_detail ≡ b.seal_detail
  p : Pass
  p' : Pass
  pass : b.pass ≡ some p
  pass' : b'.pass ≡ some p'
  count : used p' cluster ≡ used p cluster
  written : Written now b.limits.cooldown (cluster_of b.state cluster) (cluster_of b'.state cluster)

module _ (b b' : Budget) (cluster : String) (now : Time) (a : Alike b b' cluster now)
    (target : Target) (at : Time) (le : now ≤ at) where
  cooled_then :
      HasCooled b.limits
        (fetch (cluster_of b.state cluster).last_admitted (target_string target))
        at
      → HasCooled b.limits
          (fetch (cluster_of b'.state cluster).last_admitted (target_string target))
          at
  cooled_then h t e = h t (a.written.nothing_new (target_string target) t e)

  cooled_before :
      HasCooled b.limits
        (fetch (cluster_of b'.state cluster).last_admitted (target_string target))
        at
      → HasCooled b.limits
          (fetch (cluster_of b.state cluster).last_admitted (target_string target))
          at
  cooled_before h t e = elim (a.written.kept (target_string target) t e) [
    | inl k ↦ h t k
    | inr over ↦ sub_mono_up at t now b.limits.cooldown le over
  ]

  can_then : CanAdmit b cluster target at → CanAdmit b' cluster target at
  can_then c =
      let same : c.pass ≡ a.p = cc (c.started, a.pass) in
      record {
        unsealed = a.seal ∙ c.unsealed;
        bounding = rw a.limits c.bounding;
        given = c.given;
        agreed = c.agreed;
        pass = a.p';
        started = a.pass';
        closed = a.written.tripped ∙ c.closed;
        room = rw (a.limits, a.count, ← same) c.room;
        cooled = rw a.limits (cooled_then c.cooled);
      }

  can_before : CanAdmit b' cluster target at → CanAdmit b cluster target at
  can_before c =
      let same : c.pass ≡ a.p' = cc (c.started, a.pass') in
      record {
        unsealed = sym a.seal ∙ c.unsealed;
        bounding = rw (← a.limits) c.bounding;
        given = c.given;
        agreed = c.agreed;
        pass = a.p;
        started = a.pass;
        closed = sym a.written.tripped ∙ c.closed;
        room = rw (← a.limits, ← a.count, ← same) c.room;
        cooled = cooled_before (rw (← a.limits) c.cooled);
      }

started-step :
    (w : World) (b : Budget) (cluster : String) (c : Call) (p : Pass)
    → IsElsewhere cluster c
    → b.pass ≡ some p
    → (q : Pass) × ((step w b c).pass ≡ some q)
started-step w b cluster begins p h e = absurd h
started-step w b cluster (admits_at c target at) p h e =
    unfold step in started-admit w b c target at p e
started-step w b cluster (records_at c target outcome at) p h e =
    (p, pass-step w b (records_at c target outcome at) tt ∙ e)
started-step w b cluster (trips_at c detail at) p h e =
    (p, pass-step w b (trips_at c detail at) tt ∙ e)
started-step w b cluster (clears_at c by at) p h e = (p, pass-step w b (clears_at c by at) tt ∙ e)

-- During a pass, on a budget whose maps hold no key twice, no call that names one cluster changes
-- whether an action on another cluster is admitted, at the clock's reading of that call or later,
-- unless the call changes the seal (its write fails).
pub isolation :
    (w w' : World) (b : Budget) (cluster : String) (c : Call) (target : Target) (at : Time)
    (p : Pass)
    → IsState b.state
    → IsElsewhere cluster c
    → b.pass ≡ some p
    → (step w b c).seal_detail ≡ b.seal_detail
    → w.now ≤ at
    → ((admit w' b cluster target at).1.reason ≡ admitted)
      ↔ ((admit w' (step w b c) cluster target at).1.reason ≡ admitted)
isolation w w' b cluster c target at p h other e seal le =
    let keeps = step-Keeps w b h c in
    let (q, e') = started-step w b cluster c p other e in
    let count : used q cluster ≡ used p cluster =
      sym (ap (λ o. used (or_new_pass o) cluster) e')
      ∙ elsewhere-used w b cluster c other
      ∙ ap (λ o. used (or_new_pass o) cluster) e in
    let alike : Alike b (step w b c) cluster w.now = record {
      limits = keeps.limits;
      seal = seal;
      p = p;
      p' = q;
      pass = e;
      pass' = e';
      count = count;
      written =
          subst (λ cs. Written w.now b.limits.cooldown cs (cluster_of (step w b c).state cluster))
            (elsewhere-after w b cluster c other) (keeps.cluster cluster);
    } in
    (
      λ k. (admit_iff w' (step w b c) cluster target at).1 (
          can_then b (step w b c) cluster w.now alike target at le
            ((admit_iff w' b cluster target at).0 k)),
      λ k. (admit_iff w' b cluster target at).1 (
          can_before b (step w b c) cluster w.now alike target at le
            ((admit_iff w' (step w b c) cluster target at).0 k)),
    )
