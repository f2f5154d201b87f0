-- ===== src/Autonomy/Decide/Answers.antt =====
-- `DecideRequest` of internal/autonomy/decide.go as a whole: which requests run unattended, which are
-- refused, and which wait for a person whatever is configured.
use mathlib.Core.Logic.{◌⊎◌}
use ma_klaude.Prelude.{
  ◌≡◌, ◌≢◌, ◌↔◌, refl, inl, inr, Bool, true, false, Option, none, some, arith, eq_iff, not, ◌||◌,
  ◌==◌, false≢true, Bool-cases, Option-cases, sym, ◌∙◌, string_comparable,
}
use ma_klaude.Autonomy.Verdict.{
  gate, auto_apply, refuse, Verdict, verdict, reason_decision, cluster_mismatch,
}
use ma_klaude.Autonomy.Rule.{Ruleset, validate}
use ma_klaude.Autonomy.Rule.Validity.{validate_iff}
use ma_klaude.Autonomy.Request.{
  Class, class_remediation, class_chaos, Request, TrustOracle, may_auto_apply, gate_reason,
}
use ma_klaude.Autonomy.Decide.{unconditional, consult, decide_request}
use ma_klaude.Autonomy.Decide.Ladder.{
  IsAdmissible, MayRun, OneCluster, consult_iff, consult_ne_refuse, may_auto_apply_iff,
  stopped_decision, unconditional-none_iff,
}

module _ (req : Request) (rs : Ruleset) (trust : Option TrustOracle) where
  pass_on :
      unconditional req ≡ none → decide_request req rs trust ≡ consult req rs trust (validate rs)
  unfolding decide_request
  pass_on e = rw (e, decide_request)

  pub stop_at : (v : Verdict) → unconditional req ≡ some v → decide_request req rs trust ≡ v
  unfolding decide_request
  stop_at v e = rw (e, decide_request)

-- The verdict on a request is auto-apply exactly when the three clusters agree, it is a remediation
-- of the catalog that can be undone or recreated, the ruleset is well formed with no name twice,
-- some rule permits it, and the ledger trusts this very fix with a citation that is not blank.
pub decide_request-auto_apply_iff :
    (req : Request) (rs : Ruleset) (trust : Option TrustOracle)
    → ((decide_request req rs trust).decision ≡ auto_apply) ↔ MayRun req rs trust
decide_request-auto_apply_iff req rs trust = elim (Option-cases (unconditional req)) [
  | inl e ↦ (
    λ h.
        let (valid, found) = (consult_iff req rs trust).0 (rw (pass_on req rs trust e) at h) in
        let (formed, once) = (validate_iff rs).0 valid in
        let (r, listed, permits, earned) = found in
        record {
          admissible = (unconditional-none_iff req).0 e;
          formed = formed;
          named_once = once;
          rule = r;
          listed = listed;
          permits = permits;
          earned = earned;
        },
    λ m. rw (pass_on req rs trust e) (
        (consult_iff req rs trust).1
          ((validate_iff rs).1 (m.formed, m.named_once), (m.rule, m.listed, m.permits, m.earned))),
  )
  | inr (v, e) ↦ (
    λ h. absurd (stopped_decision req v e (rw (stop_at req rs trust v e) at h)),
    λ m. absurd (cc (e, (unconditional-none_iff req).1 m.admissible)),
  )
]

-- The first test of `unconditional`.
abbrev disagrees : Request → Bool
disagrees req =
    req.cluster == ""
    || not (req.proposal_cluster == req.cluster)
    || not (req.target.cluster == req.cluster)

disagrees_iff : (req : Request) → (disagrees req ≡ false) ↔ OneCluster req
disagrees_iff req = (
  λ h. record {
    given = ground (arith, eq_iff req.cluster "");
    proposal = ground (arith, eq_iff req.proposal_cluster req.cluster);
    target = ground (arith, eq_iff req.target.cluster req.cluster);
  },
  λ a. ground (
    arith,
    eq_iff req.cluster "",
    eq_iff req.proposal_cluster req.cluster,
    eq_iff req.target.cluster req.cluster,
    a.given,
    a.proposal,
    a.target,
  ),
)

mismatch_stops :
    (req : Request) → disagrees req ≡ true → unconditional req ≡ some (verdict cluster_mismatch "")
unfolding unconditional
mismatch_stops req h = ground arith

-- A remediation that is not admissible, for one cluster.
inadmissible_stops :
    (req : Request)
    → disagrees req ≡ false
    → may_auto_apply req.class ≡ true
    → (v : Verdict) → unconditional req ≡ some v
    → v.decision ≡ refuse
unfolding unconditional verdict
inadmissible_stops req d c v e = ground arith

class_stops :
    (req : Request)
    → disagrees req ≡ false
    → may_auto_apply req.class ≡ false
    → unconditional req ≡ some (verdict (gate_reason req.class) "")
unfolding unconditional
class_stops req d c = ground arith

gate_reason_decision : (c : Class) → reason_decision (gate_reason c) ≡ gate
unfolding gate_reason reason_decision
gate_reason_decision class_chaos = refl
gate_reason_decision _ = refl

-- Whatever the rules and the ledger say, a request of any class but remediation, chaos among them,
-- is gated if its clusters agree, with the reason of its class and no rule named.
pub decide_request_class :
    (req : Request) (rs : Ruleset) (trust : Option TrustOracle)
    → OneCluster req
    → req.class ≢ class_remediation
    → (decide_request req rs trust ≡ verdict (gate_reason req.class) "")
      × ((decide_request req rs trust).decision ≡ gate)
decide_request_class req rs trust a n =
    let c : may_auto_apply req.class ≡ false = elim (Bool-cases (may_auto_apply req.class)) [
      | inl t ↦ absurd (n ((may_auto_apply_iff req.class).0 t))
      | inr f ↦ f
    ] in
    let e =
      stop_at req rs trust (verdict (gate_reason req.class) "")
        (class_stops req ((disagrees_iff req).1 a) c) in
    (e, rw e (unfold verdict in gate_reason_decision req.class))

-- What refuses a request: the clusters do not agree, or it is a remediation that is off the catalog
-- or cannot be undone.
abbrev pub IsRefused : Request → Type 0
IsRefused req = (¬ OneCluster req) ⊎ ((req.class ≡ class_remediation) × (¬ IsAdmissible req))

-- A request is refused exactly for what it says itself: no rule and no ledger refuses one, and none
-- saves one from refusal.
pub decide_request-refuse_iff :
    (req : Request) (rs : Ruleset) (trust : Option TrustOracle)
    → ((decide_request req rs trust).decision ≡ refuse) ↔ IsRefused req
decide_request-refuse_iff req rs trust = elim (Bool-cases (disagrees req)) [
  | inl d ↦
      let e = stop_at req rs trust (verdict cluster_mismatch "") (mismatch_stops req d) in
      (λ h. inl (λ a. cc (d, (disagrees_iff req).1 a)), λ h. rw e (unfold verdict in refl))
  | inr d ↦ elim (Bool-cases (may_auto_apply req.class)) [
    | inl c ↦ elim (Option-cases (unconditional req)) [
      | inl e ↦ (
        λ h. absurd (consult_ne_refuse req rs trust (rw (pass_on req rs trust e) at h)),
        λ h. elim h [
          | inl n ↦ absurd (n ((disagrees_iff req).0 d))
          | inr (_, n) ↦ absurd (n ((unconditional-none_iff req).0 e))
        ],
      )
      | inr (v, e) ↦ (
        λ h.
            inr ((may_auto_apply_iff req.class).0 c, λ a. cc (e, (unconditional-none_iff req).1 a)),
        λ h. rw (stop_at req rs trust v e) (inadmissible_stops req d c v e),
      )
    ]
    | inr c ↦
        let n = λ (p : req.class ≡ class_remediation).
          false≢true (sym c ∙ (may_auto_apply_iff req.class).1 p) in
        (
          λ h. absurd (cc (h, (decide_request_class req rs trust ((disagrees_iff req).0 d) n).1)),
          λ h. elim h [ inl m ↦ absurd (m ((disagrees_iff req).0 d)) | inr (p, _) ↦ absurd (n p) ],
        )
  ]
]
