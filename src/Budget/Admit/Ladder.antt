-- ===== src/Budget/Admit/Ladder.antt =====
-- `Admit` of internal/budget/admit.go: exactly when an action is admitted, and what a denial leaves.
use ma_klaude.Prelude.{
  ℕ, String, ◌≡◌, ◌≢◌, ◌↔◌, refl, inl, inr, sym, ◌∙◌, ap, true, false, Option, none, some, arith,
  eq_iff, Option-cases, string_comparable,
}
use ma_klaude.Prelude.Int.{pos, ltb_ℤ, leb_ℤ, Time, time_sub}
use ma_klaude.Prelude.Assoc.{fetch}
use ma_klaude.Remediate.{Target, target_string}
use ma_klaude.Budget.Limits.{Limits, validate_limits, Reason, admitted}
use ma_klaude.Budget.State.{ClusterState, cluster_of}
use ma_klaude.Budget.Admit.{
  Budget, World, Pass, Check, used, cooling_check, bounds_check, check_pass, check_limits, check,
  admit,
}

-- Every bound is a positive number.
pub record IsBounding (l : Limits) : Type 0 where
  pub cap : ltb_ℤ (pos 0) l.per_cluster_per_pass ≡ true
  pub cooldown : ltb_ℤ (pos 0) l.cooldown ≡ true
  pub threshold : ltb_ℤ (pos 0) l.failure_threshold ≡ true

pub validate_limits_iff : (l : Limits) → (validate_limits l ≡ none) ↔ IsBounding l
unfolding validate_limits
validate_limits_iff l = (
  λ h. record { cap = ground arith; cooldown = ground arith; threshold = ground arith },
  λ b. ground (arith, b.cap, b.cooldown, b.threshold),
)

-- A target that was admitted before has waited for the cooldown.
abbrev pub HasCooled : Limits → Option Time → Time → Type 0
HasCooled l last at = (t : Time) → last ≡ some t → leb_ℤ l.cooldown (time_sub at t) ≡ true

-- All that an admission needs.
pub record CanAdmit (b : Budget) (cluster : String) (target : Target) (at : Time) : Type 0 where
  pub unsealed : b.seal_detail ≡ ""
  pub bounding : IsBounding b.limits
  pub given : cluster ≢ ""
  pub agreed : target.cluster ≡ cluster
  pub pass : Pass
  pub started : b.pass ≡ some pass
  pub closed : (cluster_of b.state cluster).tripped ≡ false
  pub room : ltb_ℤ (pos (used pass cluster)) b.limits.per_cluster_per_pass ≡ true
  pub cooled :
      HasCooled b.limits
        (fetch (cluster_of b.state cluster).last_admitted (target_string target))
        at

-- The reason of the grant.
abbrev pub reason_of : Budget → String → Target → Time → Reason
reason_of b cluster target at = (check b cluster target at).answer.0

cooling_check_iff :
    (l : Limits) (last : Option Time) (at : Time)
    → ((cooling_check l last at).0 ≡ admitted) ↔ HasCooled l last at
unfolding cooling_check
cooling_check_iff l none at = (λ h t e. cc, λ h. refl)
cooling_check_iff l (some last) at = (λ h t e. ground arith, λ h. ground (arith, h last refl))

bounds_check_iff :
    (l : Limits) (cs : ClusterState) (n : ℕ) (key : String) (at : Time)
    → ((bounds_check l cs n key at).0 ≡ admitted) ↔ (
        (cs.tripped ≡ false)
        × (ltb_ℤ (pos n) l.per_cluster_per_pass ≡ true)
        × HasCooled l (fetch cs.last_admitted key) at)
unfolding bounds_check
bounds_check_iff l cs n key at =
    let cool = cooling_check_iff l (fetch cs.last_admitted key) at in
    (
      λ h. (ground arith, ground arith, cool.0 (ground arith)),
      λ h. ground (arith, h.0, h.1, cool.1 h.2),
    )

module _ (b : Budget) (cluster : String) (target : Target) (at : Time) where
  -- What is left of the ladder once the budget is readable and its limits bound something.
  readable :
      b.seal_detail ≡ ""
      → IsBounding b.limits
      → check b cluster target at ≡ check_limits b cluster target at none
  unfolding check
  readable s l = ground (arith, eq_iff b.seal_detail "", (validate_limits_iff b.limits).1 l)

  agreeing :
      cluster ≢ ""
      → target.cluster ≡ cluster
      → check_limits b cluster target at none
        ≡ check_pass b cluster (target_string target) at b.pass
  unfolding check_limits
  agreeing g a = ground (arith, eq_iff cluster "", eq_iff target.cluster cluster)

  pub asked :
      b.seal_detail ≡ ""
      → IsBounding b.limits
      → cluster ≢ ""
      → target.cluster ≡ cluster
      → check b cluster target at ≡ check_pass b cluster (target_string target) at b.pass
  asked s l g a = readable s l ∙ agreeing g a

  pub reason-CanAdmit : reason_of b cluster target at ≡ admitted → CanAdmit b cluster target at
  reason-CanAdmit h =
      let s : b.seal_detail ≡ "" =
        unfold check check_limits in ground (arith, eq_iff b.seal_detail "") in
      let v : validate_limits b.limits ≡ none =
        unfold check check_limits in ground (arith, Option-cases (validate_limits b.limits)) in
      let l = (validate_limits_iff b.limits).0 v in
      let ask : (check_limits b cluster target at none).answer.0 ≡ admitted =
        sym (ap (λ (c : Check). c.answer.0) (readable s l)) ∙ h in
      let g : cluster ≢ "" = unfold check_limits in ground (arith, eq_iff cluster "") in
      let a : target.cluster ≡ cluster =
        unfold check_limits in ground (arith, eq_iff target.cluster cluster) in
      let e : (check_pass b cluster (target_string target) at b.pass).answer.0 ≡ admitted =
        sym (ap (λ (c : Check). c.answer.0) (agreeing g a)) ∙ ask in
      elim (Option-cases b.pass) [
        | inl p ↦ absurd (unfold check_pass in cc (rw p at e))
        | inr (pass, p) ↦
            let (closed, room, cooled) =
              (bounds_check_iff b.limits (cluster_of b.state cluster) (used pass cluster)
                  (target_string target) at).0
                (unfold check_pass in rw p at e) in
            record {
              unsealed = s;
              bounding = l;
              given = g;
              agreed = a;
              pass = pass;
              started = p;
              closed = closed;
              room = room;
              cooled = cooled;
            }
      ]

  pub CanAdmit-reason : CanAdmit b cluster target at → reason_of b cluster target at ≡ admitted
  CanAdmit-reason c =
      ap (λ (k : Check). k.answer.0) (asked c.unsealed c.bounding c.given c.agreed)
      ∙ rw c.started (
          unfold check_pass in
          (bounds_check_iff b.limits (cluster_of b.state cluster) (used c.pass cluster)
              (target_string target) at).1
            (c.closed, c.room, c.cooled))

  pub admit-reason :
      (w : World) → (admit w b cluster target at).1.reason ≡ reason_of b cluster target at
  unfolding admit
  admit-reason w = ground arith

-- An action is admitted exactly when the budget is readable, its limits are positive, caller and
-- target name the same cluster, a pass is in progress, the cluster's breaker is closed, its share
-- of the pass is not used up, and the target has cooled down since it was last admitted.
pub admit_iff :
    (w : World) (b : Budget) (cluster : String) (target : Target) (at : Time)
    → ((admit w b cluster target at).1.reason ≡ admitted) ↔ CanAdmit b cluster target at
admit_iff w b cluster target at = (
  λ h. reason-CanAdmit b cluster target at (sym (admit-reason b cluster target at w) ∙ h),
  λ c. admit-reason b cluster target at w ∙ CanAdmit-reason b cluster target at c,
)
