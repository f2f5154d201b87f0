-- ===== src/Autonomy/Decide/Ladder.antt =====
-- The ladder of internal/autonomy/decide.go step by step: what passes each of its tests, and what a
-- matched rule and the ledger lead to.
use mathlib.Core.Logic.{◌⊎◌}
use ma_klaude.Prelude.{
  String, ◌≡◌, ◌≢◌, ◌↔◌, refl, inl, inr, true, Option, none, some, List, [], ◌∷◌, ◌++◌, arith,
  eq_iff, Elem, NoDup, All, Option-cases, subst, string_comparable,
}
use ma_klaude.Prelude.Text.{trim_space}
use ma_klaude.Remediate.{catalog, reversible, recreated_by_controller}
use ma_klaude.Autonomy.Verdict.{gate, auto_apply, refuse, Verdict, verdict, reason_decision}
use ma_klaude.Autonomy.Rule.{Rule, Ruleset, validate}
use ma_klaude.Autonomy.Rule.Validity.{IsWellFormed, names, catalog_operation_iff}
use ma_klaude.Autonomy.Request.{
  Class, class_remediation, class_chaos, class_unset, other, Request, TrustOracle, may_auto_apply,
  gate_reason,
}
use ma_klaude.Autonomy.Decide.{
  unconditional, covers, match_rules, subject_of, decide_trust, conclude, consult,
}
use ma_klaude.Autonomy.Decide.Matching.{
  Permits, match_rules-IsFirst, match_rules-none_iff, match_rules_nearest,
}

-- The caller, the proposal and the target name the same cluster.
pub record OneCluster (req : Request) : Type 0 where
  pub given : req.cluster ≢ ""
  pub proposal : req.proposal_cluster ≡ req.cluster
  pub target : req.target.cluster ≡ req.cluster

-- What is asked of a request before any configuration is read.
pub record IsAdmissible (req : Request) : Type 0 where
  pub agreed : OneCluster req
  pub class : req.class ≡ class_remediation
  pub operation : Elem req.operation catalog
  pub undoable : (req.reversibility ≡ reversible) ⊎ (req.reversibility ≡ recreated_by_controller)

OneCluster-of : (req : Request) → (unconditional req ≡ none) → OneCluster req
unfolding unconditional
OneCluster-of req h = record {
  given = ground (arith, eq_iff req.cluster "");
  proposal = ground (arith, eq_iff req.proposal_cluster req.cluster);
  target = ground (arith, eq_iff req.target.cluster req.cluster);
}

pub may_auto_apply_iff : (c : Class) → (may_auto_apply c ≡ true) ↔ (c ≡ class_remediation)
unfolding may_auto_apply
may_auto_apply_iff class_remediation = (λ h. refl, λ h. refl)
may_auto_apply_iff class_unset = (λ h. cc, λ h. cc)
may_auto_apply_iff class_chaos = (λ h. cc, λ h. cc)
may_auto_apply_iff (other n) = (λ h. cc, λ h. cc)

pub unconditional-none_iff : (req : Request) → (unconditional req ≡ none) ↔ IsAdmissible req
unconditional-none_iff req = (
  λ h. record {
    agreed = OneCluster-of req h;
    class = (may_auto_apply_iff req.class).0 (unfold unconditional in ground arith);
    operation = (catalog_operation_iff req.operation).0 (unfold unconditional in ground arith);
    undoable = unfold unconditional in ground arith;
  },
  λ a.
      unfold unconditional in
      ground (
        arith,
        eq_iff req.cluster "",
        eq_iff req.proposal_cluster req.cluster,
        eq_iff req.target.cluster req.cluster,
        a.agreed.given,
        a.agreed.proposal,
        a.agreed.target,
        (may_auto_apply_iff req.class).1 a.class,
        (catalog_operation_iff req.operation).1 a.operation,
        a.undoable,
      ),
)

-- A ledger is wired up, and it answers for this fix with trust and a citation that is not blank.
pub record HasEarned (req : Request) (trust : Option TrustOracle) : Type 0 where
  pub oracle : TrustOracle
  pub wired : trust ≡ some oracle
  pub trusted : (oracle (subject_of req)).trusted ≡ true
  pub cited : trim_space (oracle (subject_of req)).citation ≢ ""

-- All that an unattended action needs.
pub record MayRun (req : Request) (rs : Ruleset) (trust : Option TrustOracle) : Type 0 where
  pub admissible : IsAdmissible req
  pub formed : All IsWellFormed rs
  pub named_once : NoDup (names rs)
  pub rule : Rule
  pub listed : Elem rule rs
  pub permits : Permits rule req
  pub earned : HasEarned req trust

pub stopped_decision :
    (req : Request) (v : Verdict) → unconditional req ≡ some v → v.decision ≢ auto_apply
unfolding unconditional verdict gate_reason
stopped_decision req v h e = ground arith

decide_trust_iff :
    (req : Request) (rule : String) (trust : Option TrustOracle)
    → ((decide_trust req rule trust).decision ≡ auto_apply) ↔ HasEarned req trust
unfolding decide_trust verdict
decide_trust_iff req rule none = (λ h. cc, λ h. cc h.wired)
decide_trust_iff req rule (some oracle) =
    let text = trim_space (oracle (subject_of req)).citation in
    (
      λ h. record {
        oracle = oracle;
        wired = refl;
        trusted = ground arith;
        cited = ground (arith, eq_iff text "");
      },
      λ h. ground (
        arith,
        eq_iff (trim_space (h.oracle (subject_of req)).citation) "",
        eq_iff text "",
        h.wired,
        h.trusted,
        h.cited,
      ),
    )

All-Elem : {A : Type 0} (P : A → Type 0) (xs : List A) (x : A) → All P xs → Elem x xs → P x
All-Elem P [] x h m = absurd m
All-Elem P (y ∷ xs) x h (inl e) = subst P e h.0
All-Elem P (y ∷ xs) x h (inr m) = All-Elem P xs x h.1 m

IsFirst-listed : (rs before behind : Ruleset) (r : Rule) → rs ≡ before ++ r ∷ behind → Elem r rs
IsFirst-listed rs before behind r e = rw e (go before)
  where
    go : (xs : Ruleset) → Elem r (xs ++ r ∷ behind)
    go [] = inl refl
    go (x ∷ xs) = inr (go xs)

covers_decision : (r : Rule) (req : Request) → reason_decision (covers r req).0 ≡ gate
unfolding covers reason_decision
covers_decision r req = ground arith

-- A decision that reads the rules is never a refusal.
nearest_decision :
    (req : Request) (rs : Ruleset)
    → rs ≢ []
    → All (λ r. ¬ Permits r req) rs
    → reason_decision (match_rules req rs).nearest_reason ≡ gate
nearest_decision req rs n h =
    let near = match_rules_nearest req rs n h in
    subst (λ why. reason_decision why ≡ gate) near.reason (covers_decision near.rule req)

decide_trust_ne_refuse :
    (req : Request) (rule : String) (trust : Option TrustOracle)
    → (decide_trust req rule trust).decision ≢ refuse
unfolding decide_trust verdict
decide_trust_ne_refuse req rule none h = cc
decide_trust_ne_refuse req rule (some oracle) h = ground arith

module _ (req : Request) (rs : Ruleset) (trust : Option TrustOracle) where
  conclude_gate :
      rs ≢ []
      → (match_rules req rs).matched ≡ none
      → (conclude req (match_rules req rs) trust).decision ≡ gate
  unfolding conclude verdict
  conclude_gate n e = rw e (nearest_decision req rs n ((match_rules-none_iff req rs).0 e))

  conclude_iff :
      rs ≢ []
      → ((conclude req (match_rules req rs) trust).decision ≡ auto_apply)
        ↔ ((r : Rule) × Elem r rs × Permits r req × HasEarned req trust)
  conclude_iff n = elim (Option-cases (match_rules req rs).matched) [
    | inl e ↦
        let missed = (match_rules-none_iff req rs).0 e in
        (λ h. absurd (cc (h, conclude_gate n e)), λ h. absurd (All-Elem _ rs h.0 missed h.1 h.2))
    | inr (r, e) ↦
        let first = match_rules-IsFirst req rs r e in
        (
          λ h. (
            r,
            IsFirst-listed rs first.before first.behind r first.split,
            first.permits,
            (decide_trust_iff req r.name trust).0 (unfold conclude in rw e at h),
          ),
          λ h. unfold conclude in rw e ((decide_trust_iff req r.name trust).1 h.3),
        )
  ]

  conclude_ne_refuse : rs ≢ [] → (conclude req (match_rules req rs) trust).decision ≢ refuse
  conclude_ne_refuse n h = elim (Option-cases (match_rules req rs).matched) [
    | inl e ↦ cc (h, conclude_gate n e)
    | inr (r, e) ↦ decide_trust_ne_refuse req r.name trust (unfold conclude in rw e at h)
  ]

pub consult_iff :
    (req : Request) (rs : Ruleset) (trust : Option TrustOracle)
    → ((consult req rs trust (validate rs)).decision ≡ auto_apply)
      ↔ ((validate rs ≡ none) × ((r : Rule) × Elem r rs × Permits r req × HasEarned req trust))
unfolding consult verdict
consult_iff req [] trust = elim (Option-cases (validate [])) [
  | inl e ↦ (λ h. absurd (cc (rw e at h)), λ h. absurd h.1.1)
  | inr (err, e) ↦ (λ h. absurd (cc (rw e at h)), λ h. absurd h.1.1)
]
consult_iff req (q ∷ rs) trust =
    let iff = conclude_iff req (q ∷ rs) trust (λ e. cc) in
    elim (Option-cases (validate (q ∷ rs))) [
      | inl e ↦ (λ h. (e, iff.0 (rw e at h)), λ h. rw e (iff.1 h.1))
      | inr (err, e) ↦ (λ h. absurd (cc (rw e at h)), λ h. absurd (cc (h.0, e)))
    ]

pub consult_ne_refuse :
    (req : Request) (rs : Ruleset) (trust : Option TrustOracle)
    → (consult req rs trust (validate rs)).decision ≢ refuse
unfolding consult verdict
consult_ne_refuse req [] trust h = ground (arith, Option-cases (validate []))
consult_ne_refuse req (q ∷ rs) trust h = elim (Option-cases (validate (q ∷ rs))) [
  | inl e ↦ conclude_ne_refuse req (q ∷ rs) trust (λ p. cc) (rw e at h)
  | inr (err, e) ↦ cc (rw e at h)
]
