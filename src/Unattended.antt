-- ===== src/Unattended.antt =====
-- The policy of internal/autonomy/decide.go with the ledger of internal/trust/ledger.go as its
-- oracle, which is how internal/operate wires the two.
mod Tests
use ma_klaude.Prelude.{◌≡◌, ◌≢◌, sym, ◌∙◌, ap, subst, String, some, true, false}
use ma_klaude.Autonomy.Verdict.{auto_apply}
use ma_klaude.Autonomy.Rule.{Ruleset}
use ma_klaude.Autonomy.Request.{Request, TrustOracle}
use ma_klaude.Autonomy.Decide.{decide_request, subject_of}
use ma_klaude.Autonomy.Decide.Ladder.{MayRun}
use ma_klaude.Autonomy.Decide.Answers.{decide_request-auto_apply_iff}
use ma_klaude.Trust.Ledger.{Ledger, Standing, history, trust}
use ma_klaude.Trust.Ledger.Earning.{HasEarned, trust_iff}

-- Whatever rules are configured, if a request may run unattended, then its very fix has, in the
-- ledger, a fingerprint and at least three executions that a person approved and that converged,
-- with nothing that demotes among the last ten executions of its shape and not three inconclusive
-- ones at the end.
pub unattended_has_earned :
    (cite : Standing → String) (l : Ledger) (req : Request) (rs : Ruleset)
    → (decide_request req rs (some (trust cite l))).decision ≡ auto_apply
    → HasEarned (subject_of req) (history l (subject_of req).shape)
unattended_has_earned cite l req rs h =
    let earned = ((decide_request-auto_apply_iff req rs (some (trust cite l))).0 h).earned in
    let same : trust cite l ≡ earned.oracle = cc earned.wired in
    (trust_iff cite l (subject_of req)).0
      (ap (λ (o : TrustOracle). (o (subject_of req)).trusted) same ∙ earned.trusted)
