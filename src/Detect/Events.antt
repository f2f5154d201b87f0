-- ===== src/Detect/Events.antt =====
-- `analyzeWarningEvents`, `eventObject` and `Analyze` of internal/detect/detector.go.
pub mod Covered
pub mod Sources
pub mod Down
pub mod Reported
pub mod Objects
use Prim.Native.Char.{Char, code}
use Prim.Native.String.{◌++◌}
use mathlib.Core.List.{◌++◌ as ◌+++◌}
use ma_klaude.Prelude.{
  ℕ, Bool, true, false, not, String, List, [], ◌∷◌, map, nat_beq, contains, if◌then◌else◌,
  string_comparable,
}
use ma_klaude.Health.{Snapshot, EventSignal}
use ma_klaude.Detect.Finding.{Finding, Object, object_text, severity_info, sort_findings}
use ma_klaude.Detect.Rules.{Printing, when, each, finding, analyze_reachability, structural}

-- `/`.
abbrev pub slash : ℕ
slash = 47

abbrev pub onto_first : Char → List String → List String
onto_first c [] = []
onto_first c (part ∷ parts) = String.◌∷◌ c part ∷ parts

-- `strings.Split(s, "/")`.
unfoldable pub split_slash : String → List String
split_slash String.[] = "" ∷ []
split_slash (String.◌∷◌ c s) =
    let rest = split_slash s in if nat_beq (code c) slash then "" ∷ rest else onto_first c rest

module _ (go : Printing) where
  abbrev pub event_object_of : EventSignal → List String → Object
  event_object_of e (kind ∷ namespace ∷ name ∷ []) = record {
    kind = go.to_lower kind;
    namespace = namespace;
    name = name;
  }
  event_object_of e (kind ∷ name ∷ []) = record {
    kind = go.to_lower kind;
    namespace = "";
    name = name;
  }
  event_object_of e parts = record { kind = "event"; namespace = e.namespace; name = e.name }

  -- `eventObject`.
  unfoldable pub event_object : EventSignal → Object
  event_object e = event_object_of e (split_slash e.involved_object)

  module _ (snap : Snapshot) where
    -- The body of the loop of `analyzeWarningEvents`, with the texts of the covered objects.
    unfoldable pub analyze_event : List String → EventSignal → List Finding
    analyze_event covered e =
        let obj = event_object e in
        when (not (contains covered (object_text obj))) (
          finding go snap "event.warning" severity_info obj ("Warning event: " ++ e.reason) (
            "Warning event "
            ++ go.quoted e.reason
            ++ " on "
            ++ e.involved_object
            ++ " (x"
            ++ go.decimal e.count
            ++ "): "
            ++ e.message))

    -- `analyzeWarningEvents`.
    unfoldable pub analyze_warning_events : List Finding → List Finding
    analyze_warning_events existing =
        each (analyze_event (map (λ f. object_text f.object) existing)) snap.warning_events

    -- The findings of `Analyze` before they are sorted.
    unfoldable pub found : List Finding
    found =
        if snap.reachability.reachable
        then structural go snap +++ analyze_warning_events (structural go snap)
        else analyze_reachability go snap

    -- `Analyze`.
    unfoldable pub analyze : List Finding
    analyze = sort_findings found
