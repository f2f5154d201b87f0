-- ===== src/Autonomy/Decide/Order.antt =====
-- "The decision itself is the same either way, because rules only ever grant" (the doc of `Ruleset`
-- in internal/autonomy/rule.go): the order of the rules decides which rule is named, and no more.
use mathlib.Core.List.{Permᴰ, Perm}
use mathlib.Core.Logic.{∥∥₁_elim}
use mathlib.Core.List.Permᴰ
use ma_klaude.Prelude.Perms.{Elem-perm, All-perm, NoDup-perm}
use ma_klaude.Prelude.{◌++◌, Elem-append, ◌≡◌, refl, Option, NoDup, All, sym}
use ma_klaude.Autonomy.Verdict.{Decision, gate, auto_apply, refuse}
use ma_klaude.Autonomy.Rule.{Rule, Ruleset}
use ma_klaude.Autonomy.Rule.Validity.{IsWellFormed, names}
use ma_klaude.Autonomy.Request.{Request, TrustOracle}
use ma_klaude.Autonomy.Decide.{decide_request}
use ma_klaude.Autonomy.Decide.Ladder.{MayRun}
use ma_klaude.Autonomy.Decide.Answers.{decide_request-auto_apply_iff, decide_request-refuse_iff}

module _ (req : Request) (trust : Option TrustOracle) where
  MayRun-perm : {rs qs : Ruleset} → Permᴰ rs qs → MayRun req rs trust → MayRun req qs trust
  MayRun-perm p m = record {
    admissible = m.admissible;
    formed = All-perm IsWellFormed p m.formed;
    named_once = NoDup-perm (Permᴰ.map (λ (r : Rule). r.name) p) m.named_once;
    rule = m.rule;
    listed = Elem-perm m.rule p m.listed;
    permits = m.permits;
    earned = m.earned;
  }

  -- Two decisions with the same requests to run and to refuse are equal.
  same_decision :
      (d e : Decision)
      → (d ≡ auto_apply → e ≡ auto_apply)
      → (e ≡ auto_apply → d ≡ auto_apply)
      → (d ≡ refuse → e ≡ refuse)
      → (e ≡ refuse → d ≡ refuse)
      → d ≡ e
  same_decision auto_apply e f g h k = sym (f refl)
  same_decision refuse e f g h k = sym (h refl)
  same_decision gate auto_apply f g h k = g refl
  same_decision gate refuse f g h k = k refl
  same_decision gate gate f g h k = refl

  decide_request-permᴰ :
      {rs qs : Ruleset}
      → Permᴰ rs qs
      → (decide_request req rs trust).decision ≡ (decide_request req qs trust).decision
  decide_request-permᴰ {rs} {qs} p =
      let runs = decide_request-auto_apply_iff req rs trust in
      let runs' = decide_request-auto_apply_iff req qs trust in
      let refuses = decide_request-refuse_iff req rs trust in
      let refuses' = decide_request-refuse_iff req qs trust in
      same_decision _ _ (λ e. runs'.1 (MayRun-perm p (runs.0 e)))
        (λ e. runs.1 (MayRun-perm (Permᴰ.symm p) (runs'.0 e))) (λ e. refuses'.1 (refuses.0 e))
        (λ e. refuses.1 (refuses'.0 e))

Decision-set : IsSet Decision
Decision-set = hlevel

-- Rearranging the rules of a file changes no decision.
pub decide_request-perm :
    (req : Request) (trust : Option TrustOracle) (rs qs : Ruleset)
    → Perm rs qs
    → (decide_request req rs trust).decision ≡ (decide_request req qs trust).decision
decide_request-perm req trust rs qs p =
    ∥∥₁_elim p (Decision-set _ _) (decide_request-permᴰ req trust)

-- A grant once given is not taken back by more rules, as long as the file stays valid.
pub decide_request-append :
    (req : Request) (trust : Option TrustOracle) (rs more : Ruleset)
    → All IsWellFormed (rs ++ more)
    → NoDup (names (rs ++ more))
    → (decide_request req rs trust).decision ≡ auto_apply
    → (decide_request req (rs ++ more) trust).decision ≡ auto_apply
decide_request-append req trust rs more formed once h =
    let m = (decide_request-auto_apply_iff req rs trust).0 h in
    (decide_request-auto_apply_iff req (rs ++ more) trust).1 (record {
      admissible = m.admissible;
      formed = formed;
      named_once = once;
      rule = m.rule;
      listed = Elem-append m.rule rs more m.listed;
      permits = m.permits;
      earned = m.earned;
    })
