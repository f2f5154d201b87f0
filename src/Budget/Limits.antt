-- ===== src/Budget/Limits.antt =====
-- internal/budget/budget.go: the three bounds, the reasons, outcomes and what follows from them.
use ma_klaude.Prelude.{ℕ, String, Bool, true, false, ◌||◌, Option, none, some, if◌then◌else◌}
use ma_klaude.Prelude.Int.{ℤ, pos, ltb_ℤ, leb_ℤ, Time}

pub record Limits : Type 0 where
  pub per_cluster_per_pass : ℤ
  pub cooldown : ℤ
  pub failure_threshold : ℤ

-- 30 minutes in nanoseconds.
abbrev pub default_cooldown : ℤ
default_cooldown = pos 1800000000000

-- `DefaultLimits`.
abbrev pub default_limits : Limits
default_limits = record {
  per_cluster_per_pass = pos 2;
  cooldown = default_cooldown;
  failure_threshold = pos 2;
}

-- The field that a `LimitsError` names.
pub data LimitsError : Type 0 where
  cap_below_one cooldown_not_positive threshold_below_one : LimitsError

-- `Limits.Validate`.
unfoldable pub validate_limits : Limits → Option LimitsError
validate_limits l =
    if ltb_ℤ l.per_cluster_per_pass (pos 1)
    then some cap_below_one
    else if leb_ℤ l.cooldown (pos 0)
    then some cooldown_not_positive
    else if ltb_ℤ l.failure_threshold (pos 1)
    then some threshold_below_one
    else none

pub data Reason : Type 0 where
  state_unreadable limits_invalid cluster_mismatch breaker_tripped : Reason
  pass_cap_reached target_cooling_down no_pass admitted : Reason

-- `Reason.Admits`.
abbrev pub admits : Reason → Bool
admits admitted = true
admits _ = false

-- What the prose of `Grant.Detail` is made of.
pub data Detail : Type 0 where
  no_detail no_pass_detail : Detail
  seal_text : String → Detail
  limits_text : LimitsError → Detail
  mismatch_text : String → String → Detail
  breaker_text : Time → ℕ → Detail
  cap_text : ℕ → ℤ → Detail
  cooling_text : ℤ → ℤ → Time → Detail

pub record Grant : Type 0 where
  pub reason : Reason
  pub cluster : String
  pub target : String
  pub detail : Detail

-- `Outcome` is an `int`; `other_outcome` is a value that the package does not name.
pub data Outcome : Type 0 where
  unrecorded succeeded failed : Outcome
  other_outcome : ℤ → Outcome

-- `Outcome.failed`: all but one value counts against the breaker.
unfoldable pub is_failed : Outcome → Bool
is_failed succeeded = false
is_failed _ = true

pub record Consequence : Type 0 where
  pub roll_back : Bool
  pub demote : Bool
  pub escalate : Bool
  pub tripped : Bool
  pub consecutive_failures : ℕ

-- The zero value: what follows a success.
abbrev pub no_consequence : Consequence
no_consequence = record {
  roll_back = false;
  demote = false;
  escalate = false;
  tripped = false;
  consecutive_failures = 0;
}

-- `Consequence.Acted`.
unfoldable pub acted : Consequence → Bool
acted c = c.roll_back || c.demote || c.escalate || c.tripped

pub record Suppression : Type 0 where
  pub cluster : String
  pub target : String
  pub reason : Reason
  pub detail : Detail
  pub at : Time
