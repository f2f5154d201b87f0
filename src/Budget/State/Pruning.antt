-- ===== src/Budget/State/Pruning.antt =====
-- `state.prune` of internal/budget/store.go: what it forgets, and that no later admission asks it.
use mathlib.Core.Option
use ma_klaude.Prelude.{
  String, ◌≡◌, refl, sym, ◌∙◌, ap, subst, inl, inr, true, false, Option, none, some, List, [], ◌∷◌,
  arith, eq_iff, Bool-cases, NoDup, ◌==◌, string_comparable, if◌then◌else◌,
}
use ma_klaude.Prelude.Int.{ℤ, pos, leb_ℤ, Time}
use ma_klaude.Prelude.Assoc.{fetch, store, fetch-store}
use ma_klaude.Prelude.Maps.{
  IsMap, map_values, keep_if, fetch-retain, retain-IsMap, store-IsMap, keys-map_values,
  fetch-map_values,
}
use ma_klaude.Budget.State.{
  ClusterState, new_cluster, State, or_new, cluster_of, with_cluster, is_cooling, prune_cluster,
  is_empty, is_kept, prune,
}

-- The maps of a state hold no key twice.
pub record IsState (s : State) : Type 0 where
  pub clusters : IsMap s
  pub times : (name : String) → IsMap (cluster_of s name).last_admitted

-- What a state says of a cluster after it forgot cooldowns that are over.
pub record Pruned (now : Time) (cooldown : ℤ) (cs cs' : ClusterState) : Type 0 where
  pub tripped : cs'.tripped ≡ cs.tripped
  pub failures : cs'.consecutive_failures ≡ cs.consecutive_failures
  pub cleared : cs'.cleared_by ≡ cs.cleared_by
  pub times :
      (key : String)
      → fetch cs'.last_admitted key
        ≡ keep_if (is_cooling now cooldown) key (fetch cs.last_admitted key)

prune_cluster-Pruned :
    (now : Time) (cooldown : ℤ) (cs : ClusterState)
    → IsMap cs.last_admitted
    → Pruned now cooldown cs (prune_cluster now cooldown cs)
unfolding prune_cluster
prune_cluster-Pruned now cooldown cs h = record {
  tripped = refl;
  failures = refl;
  cleared = refl;
  times = λ key. fetch-retain (is_cooling now cooldown) cs.last_admitted key h;
}

is_empty_lem {ℓ} : {A : Type ℓ} (xs : List A) → is_empty xs ≡ true → xs ≡ []
is_empty_lem [] h = refl
is_empty_lem (x ∷ xs) h = cc

-- A cluster that is dropped says what a new cluster says.
dropped :
    (name : String) (cs : ClusterState)
    → is_kept name cs ≡ false
    → (cs.tripped ≡ false)
      × (cs.consecutive_failures ≡ 0)
      × (cs.cleared_by ≡ "")
      × (cs.last_admitted ≡ [])
dropped name cs h = (
  ground arith,
  ground arith,
  ground (arith, eq_iff cs.cleared_by ""),
  is_empty_lem cs.last_admitted (ground arith),
)

Pruned-new :
    (now : Time) (cooldown : ℤ) (name : String) (cs cs' : ClusterState)
    → Pruned now cooldown cs cs'
    → is_kept name cs' ≡ false
    → Pruned now cooldown cs new_cluster
Pruned-new now cooldown name cs cs' p h =
    let (open', none', by', gone) = dropped name cs' h in
    record {
      tripped = sym open' ∙ p.tripped;
      failures = sym none' ∙ p.failures;
      cleared = sym by' ∙ p.cleared;
      times = λ key. ap (λ m. fetch m key) (sym gone) ∙ p.times key;
    }

prune-fetch :
    (now : Time) (cooldown : ℤ) (s : State) (name : String)
    → IsMap s
    → leb_ℤ cooldown (pos 0) ≡ false
    → fetch (prune now cooldown s) name
      ≡ keep_if is_kept name (Option.map (prune_cluster now cooldown) (fetch s name))
unfolding prune
prune-fetch now cooldown s name m h =
    let pruned = map_values (prune_cluster now cooldown) s in
    let m' : IsMap pruned = subst NoDup (sym (keys-map_values (prune_cluster now cooldown) s)) m in
    rw h (
      fetch-retain is_kept pruned name m'
      ∙ ap (keep_if is_kept name) (fetch-map_values (prune_cluster now cooldown) s name))

module _ (now : Time) (cooldown : ℤ) (s : State) (name : String) where
  prune_found :
      (cs : ClusterState)
      → IsMap cs.last_admitted
      → Pruned now cooldown cs
          (or_new (keep_if is_kept name (some (prune_cluster now cooldown cs))))
  prune_found cs h =
      let p = prune_cluster-Pruned now cooldown cs h in
      elim (Bool-cases (is_kept name (prune_cluster now cooldown cs))) [
        | inl t ↦ rw t p
        | inr f ↦ rw f (Pruned-new now cooldown name cs _ p f)
      ]

  prune_option :
      (o : Option ClusterState)
      → IsMap (or_new o).last_admitted
      → Pruned now cooldown
          (or_new o)
          (or_new (keep_if is_kept name (Option.map (prune_cluster now cooldown) o)))
  prune_option none h = record {
    tripped = refl;
    failures = refl;
    cleared = refl;
    times = λ key. unfold fetch in refl;
  }
  prune_option (some cs) h = prune_found cs h

  -- What is written keeps every breaker, every count and every name that cleared one, and forgets
  -- exactly the cooldowns that are over.
  pub prune-Pruned :
      IsState s
      → leb_ℤ cooldown (pos 0) ≡ false
      → Pruned now cooldown (cluster_of s name) (cluster_of (prune now cooldown s) name)
  unfolding cluster_of
  prune-Pruned w h =
      subst (λ o. Pruned now cooldown (or_new (fetch s name)) (or_new o))
        (sym (prune-fetch now cooldown s name w.clusters h))
        (prune_option (fetch s name) (w.times name))

pub cluster_of-store :
    (s : State) (name : String) (cs : ClusterState) (other : String)
    → cluster_of (store s name cs) other ≡ (if name == other then cs else cluster_of s other)
unfolding cluster_of
cluster_of-store s name cs other = rw (fetch-store s name cs other) (ground arith)

pub cluster_of-with_cluster :
    (s : State) (name other : String) → cluster_of (with_cluster s name) other ≡ cluster_of s other
unfolding with_cluster
cluster_of-with_cluster s name other =
    cluster_of-store s name (cluster_of s name) other ∙ ground (arith, eq_iff name other)

pub store-IsState :
    (s : State) (name : String) (cs : ClusterState)
    → IsState s
    → IsMap cs.last_admitted
    → IsState (store s name cs)
store-IsState s name cs h m = record {
  clusters = store-IsMap s name cs h.clusters;
  times = λ other.
      rw (cluster_of-store s name cs other)
        (elim (Bool-cases (name == other)) [ inl t ↦ rw t m | inr f ↦ rw f (h.times other) ]);
}

pub prune_off :
    (now : Time) (cooldown : ℤ) (s : State)
    → leb_ℤ cooldown (pos 0) ≡ true
    → prune now cooldown s ≡ s
unfolding prune
prune_off now cooldown s h = rw h

prune_times :
    (now : Time) (cooldown : ℤ) (name : String) (o : Option ClusterState)
    → IsMap (or_new o).last_admitted
    → IsMap
        (or_new (keep_if is_kept name (Option.map (prune_cluster now cooldown) o))).last_admitted
unfolding prune_cluster
prune_times now cooldown name none h = tt
prune_times now cooldown name (some cs) h =
    elim (Bool-cases (is_kept name (prune_cluster now cooldown cs))) [
      | inl t ↦ rw t (retain-IsMap (is_cooling now cooldown) cs.last_admitted h)
      | inr f ↦ rw f tt
    ]

prune-IsMap :
    (now : Time) (cooldown : ℤ) (s : State)
    → leb_ℤ cooldown (pos 0) ≡ false
    → IsMap s
    → IsMap (prune now cooldown s)
unfolding prune
prune-IsMap now cooldown s f h =
    rw f (
      retain-IsMap is_kept _ (subst NoDup (sym (keys-map_values (prune_cluster now cooldown) s)) h))

pub prune-IsState :
    (now : Time) (cooldown : ℤ) (s : State) → IsState s → IsState (prune now cooldown s)
prune-IsState now cooldown s h = elim (Bool-cases (leb_ℤ cooldown (pos 0))) [
  | inl t ↦ rw (prune_off now cooldown s t) h
  | inr f ↦ record {
    clusters = prune-IsMap now cooldown s f h.clusters;
    times = λ name.
        unfold cluster_of in
        subst (λ o. IsMap (or_new o).last_admitted)
          (sym (prune-fetch now cooldown s name h.clusters f))
          (prune_times now cooldown name (fetch s name) (unfold cluster_of in h.times name));
  }
]
