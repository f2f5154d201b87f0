-- ===== src/Budget/Admit/Unstarted.antt =====
-- Admissions before any `Begin`: `check` refuses the first, and `suppress` starts a pass for it.
use ma_klaude.Prelude.{subst, String, ◌≡◌, ◌≢◌, refl, sym, ◌∙◌, ap, none, some, string_comparable}
use ma_klaude.Prelude.Int.{Time}
use ma_klaude.Prelude.Assoc.{fetch}
use ma_klaude.Remediate.{Target, target_string}
use ma_klaude.Budget.Limits.{Grant, admitted, no_pass}
use ma_klaude.Budget.Admit.{
  Check, no_pass_detail, Budget, World, new_pass, used, check, check_pass, suppress, admit,
}
use ma_klaude.Budget.Admit.Ladder.{IsBounding, CanAdmit, CanAdmit-reason, admit-reason, asked}

module _ (w : World) (b : Budget) (cluster : String) (target : Target) (at : Time) where
  first_refused :
      b.seal_detail ≡ ""
      → IsBounding b.limits
      → cluster ≢ ""
      → target.cluster ≡ cluster
      → b.pass ≡ none
      → check b cluster target at ≡ record { answer = (no_pass, no_pass_detail); left = b.state }
  first_refused s l g a p = asked b cluster target at s l g a ∙ (unfold check_pass in rw p refl)

  -- The budget that the first admission leaves: a pass is in progress.
  unstarted-admit :
      b.pass ≡ none
      → check b cluster target at ≡ record { answer = (no_pass, no_pass_detail); left = b.state }
      → (admit w b cluster target at).0
        ≡ suppress b
            (record {
              reason = no_pass;
              cluster = cluster;
              target = target_string target;
              detail = no_pass_detail;
            })
            at
  unfolding admit
  unstarted-admit p e = rw e

-- A pass that a denial started has all its share left.
suppressed-CanAdmit :
    (b : Budget) (cluster : String) (target : Target) (at : Time) (g : Grant) (then_ : Time)
    → CanAdmit (record b { pass = some new_pass }) cluster target at
    → b.pass ≡ none
    → CanAdmit (suppress b g then_) cluster target at
unfolding suppress used fetch
suppressed-CanAdmit b cluster target at g then_ c p = record {
  unsealed = c.unsealed;
  bounding = c.bounding;
  given = c.given;
  agreed = c.agreed;
  pass = _;
  started = refl;
  closed = c.closed;
  room = rw p c.bounding.cap;
  cooled = c.cooled;
}

-- A budget on which no `Begin` was called, and which would admit an action at `again` if a pass
-- were in progress, refuses the action with `no_pass` the first time that it is asked, at any
-- instant. Asked again at `again`, still with no `Begin`, it admits it: the denial was recorded on
-- a pass that it started.
pub unstarted_admits_second :
    (w w' : World) (b : Budget) (cluster : String) (target : Target) (at again : Time)
    → CanAdmit (record b { pass = some new_pass }) cluster target again
    → b.pass ≡ none
    → ((admit w b cluster target at).1.reason ≡ no_pass)
      × ((admit w' (admit w b cluster target at).0 cluster target again).1.reason ≡ admitted)
unstarted_admits_second w w' b cluster target at again c p =
    let refused = first_refused w b cluster target at c.unsealed c.bounding c.given c.agreed p in
    (
      admit-reason b cluster target at w ∙ ap (λ (k : Check). k.answer.0) refused,
      admit-reason _ cluster target again w'
          ∙ CanAdmit-reason _ cluster target again (
              subst (λ (x : Budget). CanAdmit x cluster target again)
                (sym (unstarted-admit w b cluster target at p refused))
                (suppressed-CanAdmit b cluster target again _ at c p)),
    )
