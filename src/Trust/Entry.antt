-- ===== src/Trust/Entry.antt =====
-- internal/trust/trust.go: outcomes and ledger entries, with the authorities of internal/audit.
pub mod Tokens
use text.Mathlib.Text.{is_lt}
use Prim.Native.String.{compare}
use ma_klaude.Prelude.{
  String, Bool, true, false, not, ◌&&◌, Option, none, some, List, [], ◌∷◌, nat_beq, ltb, ◌==◌,
  string_comparable, Comparable, if◌then◌else◌,
}
use ma_klaude.Prelude.Int.{ℤ, Time, is_zero}
use ma_klaude.Remediate.{Operation}
use ma_klaude.Autonomy.Verdict.{Shape}

-- `Outcome` is an `int`; `other_outcome` is a value that the package does not name.
pub data Outcome : Type 0 where
  unrecorded converged inconclusive failed drift_aborted rolled_back regressed : Outcome
  other_outcome : ℤ → Outcome

-- `Outcome.Promotes`.
unfoldable pub outcome_promotes : Outcome → Bool
outcome_promotes converged = true
outcome_promotes _ = false

-- `Outcome.Demotes`: all but two, so also a value that this build does not know.
unfoldable pub outcome_demotes : Outcome → Bool
outcome_demotes converged = false
outcome_demotes inconclusive = false
outcome_demotes _ = true

-- `Outcome.String`; the number of a value without a name is printed by `strconv.Itoa`.
unfoldable pub outcome_token : (ℤ → String) → Outcome → String
outcome_token other unrecorded = "unrecorded"
outcome_token other converged = "converged"
outcome_token other inconclusive = "inconclusive"
outcome_token other failed = "failed"
outcome_token other drift_aborted = "drift-aborted"
outcome_token other rolled_back = "rolled-back"
outcome_token other regressed = "regressed"
outcome_token other (other_outcome n) = other n

-- The loop of `parseOutcome`.
unfoldable pub parse_among : (Outcome → String) → List Outcome → String → Option Outcome
parse_among token [] want = none
parse_among token (o ∷ os) want = if token o == want then some o else parse_among token os want

abbrev pub named_outcomes : List Outcome
named_outcomes =
    unrecorded ∷ converged ∷ inconclusive ∷ failed ∷ drift_aborted ∷ rolled_back ∷ regressed ∷ []

-- `parseOutcome`; `none` where its `ok` is false.
unfoldable pub parse_outcome : (ℤ → String) → String → Option Outcome
parse_outcome other want = parse_among (outcome_token other) named_outcomes want

-- `audit.Authority` is an `int` too.
pub data Authority : Type 0 where
  unattributed human policy : Authority
  other_authority : ℤ → Authority

-- `Authority.HumanReviewed`.
unfoldable pub human_reviewed : Authority → Bool
human_reviewed human = true
human_reviewed _ = false

pub record Entry : Type 0 where
  pub key : String
  pub identity : String
  pub shape : Shape
  pub fingerprint : String
  pub authority : Authority
  pub outcome : Outcome
  pub at : Time
  pub ref : String

-- `Entry.Promotes`.
unfoldable pub promotes : Entry → Bool
promotes e = outcome_promotes e.outcome && human_reviewed e.authority

-- `Entry.Demotes`.
unfoldable pub demotes : Entry → Bool
demotes e = outcome_demotes e.outcome

abbrev pub is_policy : Authority → Bool
is_policy policy = true
is_policy _ = false

-- `Entry.Counts`.
unfoldable pub counts : Entry → Bool
counts e = not (is_policy e.authority && outcome_promotes e.outcome)

-- `Entry.before`: by instant, then by key.
unfoldable pub before : Entry → Entry → Bool
before e other =
    if not (nat_beq e.at other.at) then ltb e.at other.at else is_lt (compare e.key other.key)

pub data Invalid : Type 0 where
  no_key no_cluster no_operation no_outcome no_time no_artifact : Invalid

abbrev pub is_unrecorded : Outcome → Bool
is_unrecorded unrecorded = true
is_unrecorded _ = false

-- `validate`.
unfoldable pub validate_entry : Entry → Option Invalid
validate_entry e =
    if e.key == ""
    then some no_key
    else if e.shape.cluster == ""
    then some no_cluster
    else if e.shape.operation == ""
    then some no_operation
    else if is_unrecorded e.outcome
    then some no_outcome
    else if is_zero e.at
    then some no_time
    else if human_reviewed e.authority && e.ref == ""
    then some no_artifact
    else none
