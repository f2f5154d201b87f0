-- ===== src/Budget/Admit/Effects.antt =====
-- What one call of `Admit` (internal/budget/admit.go) does to the pass, to the seal and to each
-- cluster.
use ma_klaude.Prelude.{
  suc, String, ◌≡◌, ◌≢◌, refl, sym, ◌∙◌, ap, ap₂, subst, inl, inr, ◌&&◌, some, arith, eq_iff,
  Bool-cases, Option-cases, ◌==◌, string_comparable, if◌then◌else◌,
}
use ma_klaude.Prelude.Int.{Time}
use ma_klaude.Prelude.Assoc.{store}
use ma_klaude.Prelude.Maps.{store-IsMap}
use ma_klaude.Remediate.{Target, target_string}
use ma_klaude.Budget.Limits.{admitted, state_unreadable, admits, Grant}
use ma_klaude.Budget.State.{cluster_of}
use ma_klaude.Budget.State.Pruning.{IsState, cluster_of-store, store-IsState}
use ma_klaude.Budget.Admit.{
  Budget, World, Pass, or_new_pass, used, persist, check, suppress, count_up, consume, admit,
}
use ma_klaude.Budget.Admit.Ladder.{reason_of, reason-CanAdmit}
use ma_klaude.Budget.Admit.Persist.{
  Written, Written-refl, limits-persist, pass-persist, persist-Written, persist-IsState,
}
use ma_klaude.Budget.Admit.Looking.{
  used_in, cluster_of-left, left-IsState, admit_granted, admit_denied, admits→admitted, stamped,
  admit_state, used_in-count_up, looked,
}

module _ (w : World) (b : Budget) (cluster : String) (target : Target) (at : Time) where
  used_in-consume :
      (other : String)
      → used_in (consume w (looked b cluster target at w) cluster (target_string target) at) other
        ≡ used (or_new_pass (count_up cluster b.pass)) other
  unfolding consume
  used_in-consume other = ap (λ o. used (or_new_pass o) other) (pass-persist w _)

  used_in-suppress :
      (g : Grant) (other : String)
      → used_in (suppress (looked b cluster target at w) g at) other ≡ used_in b other
  unfolding suppress used
  used_in-suppress g other = ground (arith, Option-cases b.pass)

  -- A pass count goes up by one for a granted admission of its cluster, and by nothing else.
  pub used_in-admit :
      (other : String)
      → used_in (admit w b cluster target at).0 other ≡ (
          if cluster == other && admits (reason_of b cluster target at)
          then suc (used_in b other)
          else used_in b other)
  used_in-admit other = elim (Bool-cases (admits (reason_of b cluster target at))) [
    | inl t ↦
        let ok : reason_of b cluster target at ≡ admitted = admits→admitted _ t in
        let can = reason-CanAdmit b cluster target at ok in
        ap (λ (x : Budget). used_in x other) (admit_granted b cluster target at w ok)
        ∙ used_in-consume other
        ∙ used_in-count_up cluster b.pass can.pass other can.started
        ∙ ground (arith, t)
    | inr f ↦
        ap (λ (x : Budget). used_in x other) (admit_denied b cluster target at w f)
        ∙ used_in-suppress _ other
        ∙ ground (arith, f)
  ]

  left-state :
      (other : String)
      → cluster_of (looked b cluster target at w).state other ≡ cluster_of b.state other
  left-state other = cluster_of-left b cluster target at other

  suppressed-state :
      (g : Grant) (other : String)
      → cluster_of (suppress (looked b cluster target at w) g at).state other
        ≡ cluster_of b.state other
  unfolding suppress
  suppressed-state g other = left-state other

  consumed : Budget
  consumed = record (looked b cluster target at w) {
    state = store (looked b cluster target at w).state cluster (
        stamped (cluster_of (looked b cluster target at w).state cluster) (target_string target)
          at);
    pass = count_up cluster b.pass;
  }

  consume_lem :
      consume w (looked b cluster target at w) cluster (target_string target) at
      ≡ persist w consumed
  unfolding consume consumed
  consume_lem = refl

  consumed-IsState : IsState b.state → IsState consumed.state
  unfolding consumed
  consumed-IsState h =
      let l = left-IsState b cluster target at h in
      store-IsState _ cluster _ l (store-IsMap _ (target_string target) at (l.times cluster))

  cluster_of-consumed :
      (other : String)
      → cluster_of consumed.state other ≡ (
          if cluster == other
          then stamped (cluster_of b.state cluster) (target_string target) at
          else cluster_of b.state other)
  unfolding consumed
  cluster_of-consumed other =
      cluster_of-store _ cluster _ other
      ∙ ap₂ (λ x y. if cluster == other then stamped x (target_string target) at else y)
          (left-state cluster) (left-state other)

  -- Each cluster after a call of `Admit`.
  pub cluster_of-admit :
      IsState b.state
      → (other : String)
      → Written w.now b.limits.cooldown
          (admit_state b cluster target at other)
          (cluster_of (admit w b cluster target at).0.state other)
  cluster_of-admit h other = elim (Bool-cases (admits (reason_of b cluster target at))) [
    | inl t ↦
        let ok : reason_of b cluster target at ≡ admitted = admits→admitted _ t in
        let written = persist-Written w consumed (consumed-IsState h) other in
        let same : cluster_of consumed.state other ≡ admit_state b cluster target at other =
          cluster_of-consumed other ∙ ground (arith, t) in
        subst
          (λ cs.
            Written w.now b.limits.cooldown cs
              (cluster_of (admit w b cluster target at).0.state other))
          same
          (subst
            (λ (x : Budget).
              Written w.now b.limits.cooldown (cluster_of consumed.state other)
                (cluster_of x.state other))
            (sym (admit_granted b cluster target at w ok ∙ consume_lem))
            (unfold consumed in written))
    | inr f ↦
        let same : cluster_of (admit w b cluster target at).0.state other
            ≡ admit_state b cluster target at other =
          ap (λ (x : Budget). cluster_of x.state other) (admit_denied b cluster target at w f)
          ∙ suppressed-state _ other
          ∙ ground (arith, f) in
        subst (λ cs. Written w.now b.limits.cooldown (admit_state b cluster target at other) cs)
          (sym same) (Written-refl _ _ _)
  ]

  pub limits-admit : (admit w b cluster target at).0.limits ≡ b.limits
  limits-admit = elim (Bool-cases (admits (reason_of b cluster target at))) [
    | inl t ↦
        ap (λ (x : Budget). x.limits)
          (admit_granted b cluster target at w (admits→admitted _ t) ∙ consume_lem)
        ∙ limits-consumed
    | inr f ↦
        ap (λ (x : Budget). x.limits) (admit_denied b cluster target at w f) ∙ limits-suppressed _
  ]
    where
      limits-consumed : (persist w consumed).limits ≡ b.limits
      limits-consumed = limits-persist w consumed ∙ (unfold consumed in refl)

      limits-suppressed :
          (g : Grant) → (suppress (looked b cluster target at w) g at).limits ≡ b.limits
      limits-suppressed g = unfold suppress in refl

  pub admit-IsState : IsState b.state → IsState (admit w b cluster target at).0.state
  admit-IsState h = elim (Bool-cases (admits (reason_of b cluster target at))) [
    | inl t ↦
        subst (λ (x : Budget). IsState x.state)
          (sym (admit_granted b cluster target at w (admits→admitted _ t) ∙ consume_lem))
          (persist-IsState w consumed (consumed-IsState h))
    | inr f ↦
        subst (λ (x : Budget). IsState x.state) (sym (admit_denied b cluster target at w f))
          (unfold suppress in left-IsState b cluster target at h)
  ]

  -- A pass in progress stays in progress.
  pub started-admit :
      (p : Pass) → b.pass ≡ some p → (q : Pass) × ((admit w b cluster target at).0.pass ≡ some q)
  started-admit p e = elim (Bool-cases (admits (reason_of b cluster target at))) [
    | inl t ↦ (
      record p { admitted_count = store p.admitted_count cluster (suc (used p cluster)) },
      ap (λ (x : Budget). x.pass)
            (admit_granted b cluster target at w (admits→admitted _ t) ∙ consume_lem)
          ∙ pass-persist w consumed
          ∙ counted_up,
    )
    | inr f ↦
        let denied = ap (λ (x : Budget). x.pass) (admit_denied b cluster target at w f) in
        let (q, s) = suppressed_pass (admit w b cluster target at).1 in (q, denied ∙ s)
  ]
    where
      counted_up :
          consumed.pass
          ≡ some
              (record p { admitted_count = store p.admitted_count cluster (suc (used p cluster)) })
      counted_up = unfold consumed count_up in rw e

      suppressed_pass :
          (g : Grant) → (q : Pass) × ((suppress (looked b cluster target at w) g at).pass ≡ some q)
      suppressed_pass g = unfold suppress in (_, refl)

  pub sealed_denies : b.seal_detail ≢ "" → reason_of b cluster target at ≡ state_unreadable
  unfolding check
  sealed_denies n = ground (arith, eq_iff b.seal_detail "")

  pub seal-admit : b.seal_detail ≢ "" → (admit w b cluster target at).0.seal_detail ≡ b.seal_detail
  seal-admit n =
      ap (λ (x : Budget). x.seal_detail)
        (admit_denied b cluster target at w (ap admits (sealed_denies n)))
      ∙ seal-suppressed _
    where
      seal-suppressed :
          (g : Grant) → (suppress (looked b cluster target at w) g at).seal_detail ≡ b.seal_detail
      seal-suppressed g = unfold suppress in refl
