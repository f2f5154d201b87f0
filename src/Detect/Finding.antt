-- ===== src/Detect/Finding.antt =====
-- internal/detect/finding.go, and `sortFindings` of internal/detect/detector.go.
use Prim.Native.String.{◌++◌}
use ma_klaude.Prelude.{ℕ, Bool, String, List, if◌then◌else◌, ◌==◌, string_comparable}
use ma_klaude.Prelude.Int.{Time}
use ma_klaude.Prelude.Sorts.{ranked, sort_by}

pub data Severity : Type 0 where
  severity_info : Severity
  severity_warning : Severity
  severity_critical : Severity

-- The number that the constant stands for.
abbrev pub severity_rank : Severity → ℕ
severity_rank severity_info = 0
severity_rank severity_warning = 1
severity_rank severity_critical = 2

-- `Severity.String`.
unfoldable pub severity_text : Severity → String
severity_text severity_info = "info"
severity_text severity_warning = "warning"
severity_text severity_critical = "critical"

pub record Object : Type 0 where
  pub kind : String
  pub namespace : String
  pub name : String

abbrev pub object_of : String → String → String → Object
object_of kind namespace name = record { kind = kind; namespace = namespace; name = name }

-- `Object.String`.
unfoldable pub object_text : Object → String
object_text o =
    if o.namespace == ""
    then o.kind ++ "/" ++ o.name
    else o.kind ++ "/" ++ o.namespace ++ "/" ++ o.name

abbrev pub Identity : Type 0
Identity = String

-- `newIdentity`.
unfoldable pub new_identity : String → String → Object → Identity
new_identity cluster rule obj = cluster ++ "|" ++ rule ++ "|" ++ object_text obj

pub record Finding : Type 0 where
  pub identity : Identity
  pub severity : Severity
  pub cluster : String
  pub object : Object
  pub title : String
  pub message : String
  pub detected_at : Time

-- The `less` of `sortFindings`.
abbrev pub more_urgent : Finding → Finding → Bool
more_urgent = ranked (λ f. severity_rank f.severity) (λ f. f.identity)

-- `sortFindings`.
unfoldable pub sort_findings : List Finding → List Finding
sort_findings fs = sort_by more_urgent fs
