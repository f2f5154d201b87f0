-- ===== src/Budget/Admit/Persist.antt =====
-- `persist` of internal/budget/admit.go: what a write-through changes, whether it succeeds or seals.
use ma_klaude.Prelude.{
  String, ◌≡◌, ◌≢◌, refl, sym, ◌∙◌, ◌⊎◌, inl, inr, Bool, true, Option, none, some, arith, eq_iff,
  Bool-cases, string_comparable,
}
use ma_klaude.Prelude.Int.{ℤ, pos, leb_ℤ, Time, time_sub}
use ma_klaude.Prelude.Assoc.{fetch}
use ma_klaude.Prelude.Maps.{keep_if}
use ma_klaude.Budget.State.{ClusterState, cluster_of, is_cooling, prune}
use ma_klaude.Budget.State.Pruning.{IsState, Pruned, prune-Pruned, prune_off, prune-IsState}
use ma_klaude.Budget.Admit.{Budget, World, write, persist}

-- A cluster before and after a write: the same breaker, and the same times but for cooldowns that
-- are over by the clock of the write.
pub record Written (now : Time) (cooldown : ℤ) (cs cs' : ClusterState) : Type 0 where
  pub tripped : cs'.tripped ≡ cs.tripped
  pub failures : cs'.consecutive_failures ≡ cs.consecutive_failures
  pub cleared : cs'.cleared_by ≡ cs.cleared_by
  pub kept :
      (key : String) (t : Time)
      → fetch cs.last_admitted key ≡ some t
      → (fetch cs'.last_admitted key ≡ some t) ⊎ (leb_ℤ cooldown (time_sub now t) ≡ true)
  pub nothing_new :
      (key : String) (t : Time)
      → fetch cs'.last_admitted key ≡ some t
      → fetch cs.last_admitted key ≡ some t

pub Written-refl : (now : Time) (cooldown : ℤ) (cs : ClusterState) → Written now cooldown cs cs
Written-refl now cooldown cs = record {
  tripped = refl;
  failures = refl;
  cleared = refl;
  kept = λ key t e. inl e;
  nothing_new = λ key t e. e;
}

keep_if_kept :
    (now : Time) (cooldown : ℤ) (key : String) (o : Option Time) (t : Time)
    → o ≡ some t
    → (keep_if (is_cooling now cooldown) key o ≡ some t) ⊎ (leb_ℤ cooldown (time_sub now t) ≡ true)
keep_if_kept now cooldown key none t e = cc
keep_if_kept now cooldown key (some u) t e = elim (Bool-cases (leb_ℤ cooldown (time_sub now t))) [
  | inl over ↦ inr over
  | inr f ↦ inl (ground arith)
]

keep_if_new :
    (p : String → Time → Bool) (key : String) (o : Option Time) (t : Time)
    → keep_if p key o ≡ some t
    → o ≡ some t
keep_if_new p key none t e = cc
keep_if_new p key (some u) t e = ground arith

Pruned-Written :
    (now : Time) (cooldown : ℤ) (cs cs' : ClusterState)
    → Pruned now cooldown cs cs'
    → Written now cooldown cs cs'
Pruned-Written now cooldown cs cs' p = record {
  tripped = p.tripped;
  failures = p.failures;
  cleared = p.cleared;
  kept = λ key t e. rw (p.times key) (keep_if_kept now cooldown key _ t e);
  nothing_new = λ key t e. keep_if_new (is_cooling now cooldown) key _ t (sym (p.times key) ∙ e);
}

module _ (w : World) (b : Budget) where
  pub limits-persist : (persist w b).limits ≡ b.limits
  unfolding persist write
  limits-persist = ground arith

  pub pass-persist : (persist w b).pass ≡ b.pass
  unfolding persist write
  pass-persist = ground arith

  -- Nothing unseals a budget.
  pub persist_sealed : b.seal_detail ≢ "" → persist w b ≡ b
  unfolding persist
  persist_sealed n = ground (arith, eq_iff b.seal_detail "")

  state-persist :
      ((persist w b).state ≡ b.state)
      ⊎ ((persist w b).state ≡ prune w.now b.limits.cooldown b.state)
  unfolding persist write
  state-persist = ground arith

  pub persist-Written :
      IsState b.state
      → (name : String)
      → Written w.now b.limits.cooldown
          (cluster_of b.state name)
          (cluster_of (persist w b).state name)
  persist-Written h name = elim state-persist [
    | inl e ↦ rw e (Written-refl _ _ _)
    | inr e ↦ rw e (elim (Bool-cases (leb_ℤ b.limits.cooldown (pos 0))) [
      | inl t ↦ rw (prune_off w.now b.limits.cooldown b.state t) (Written-refl _ _ _)
      | inr f ↦ Pruned-Written _ _ _ _ (prune-Pruned w.now b.limits.cooldown b.state name h f)
    ])
  ]

  pub persist-IsState : IsState b.state → IsState (persist w b).state
  persist-IsState h = elim state-persist [
    | inl e ↦ rw e h
    | inr e ↦ rw e (prune-IsState w.now b.limits.cooldown b.state h)
  ]
