-- ===== src/Trust/Entry/Tokens.antt =====
-- Outcomes as the words of the ledger file, internal/trust/trust.go.
use ma_klaude.Prelude.{arith, String, ◌≡◌, refl, some, Elem}
use ma_klaude.Prelude.Int.{ℤ}
use ma_klaude.Trust.Entry.{
  Outcome, unrecorded, converged, inconclusive, failed, drift_aborted, rolled_back, regressed,
  other_outcome, outcome_token, parse_among, parse_outcome, named_outcomes,
}

-- An outcome that the package names is read back from its word as itself.
pub parse_outcome-outcome_token :
    (other : ℤ → String) (o : Outcome)
    → Elem o named_outcomes
    → parse_outcome other (outcome_token other o) ≡ some o
unfolding parse_outcome parse_among outcome_token
parse_outcome-outcome_token other unrecorded h = refl
parse_outcome-outcome_token other converged h = refl
parse_outcome-outcome_token other inconclusive h = refl
parse_outcome-outcome_token other failed h = refl
parse_outcome-outcome_token other drift_aborted h = refl
parse_outcome-outcome_token other rolled_back h = refl
parse_outcome-outcome_token other regressed h = refl
parse_outcome-outcome_token other (other_outcome n) h = absurd (ground arith)
