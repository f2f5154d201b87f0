-- ===== src/Detect/Tests.antt =====
-- Runs of the detector on a small cluster: a node that is not ready, and two events.
use ma_klaude.Prelude.{
  ◌==◌, string_comparable, if◌then◌else◌, String, Elem, true, false, List, [], ◌∷◌, map, contains,
  refl, ◌≡◌, ◌≢◌, ◌↔◌, ℕ, sym, ◌∙◌, nat_beq, nat_beq_iff, inl, inr, false≢true, ap,
}
use ma_klaude.Prelude.Int.{pos}
use ma_klaude.Prelude.Sorts.{text_less, insert_by, sort_by}
use ma_klaude.Health.{Snapshot, EventSignal}
use ma_klaude.Detect.Finding.{
  Finding, object_of, object_text, new_identity, sort_findings, severity_info, severity_critical,
}
use ma_klaude.Detect.Rules.{
  Printing, structural, finding, analyze_reachability, analyze_node, analyze_pod,
  analyze_deployment, analyze_replica_set, pressure_finding,
}
use ma_klaude.Detect.Events.{
  slash, split_slash, event_object, analyze_event, analyze_warning_events, found, analyze,
}
use ma_klaude.Detect.Events.Covered.{info?}
use ma_klaude.Detect.Events.Sources.{analyze-covered}
use ma_klaude.Detect.Events.Objects.{event_object-object_text}
use ma_klaude.Detect.Events.Down.{Down}
use ma_klaude.Detect.Events.Reported.{critical_iff}
use ma_klaude.Detect.Events.Reported.{IsReported}

abbrev plain : Printing
plain = record {
  quoted = λ s. s;
  decimal = λ n. "1";
  to_lower = λ s. if s == "Pod" then "pod" else if s == "Node" then "node" else s;
}

abbrev event_on : String → EventSignal
event_on involved = record {
  namespace = "web";
  name = "e";
  reason = "BackOff";
  message = "again";
  count = pos 2;
  involved_object = involved;
  last_seen = 7;
}

abbrev sick : Snapshot
sick = record {
  cluster = "prod";
  collected_at = 9;
  reachability = record { reachable = true; server_version = "v1"; error = "" };
  nodes =
      record {
        name = "n1";
        resource_version = "3";
        ready = false;
        memory_pressure = false;
        disk_pressure = false;
        pid_pressure = false;
        unschedulable = true;
        allocatable = record { cpu = "4"; memory = "8Gi" };
      }
      ∷ [];
  pods = [];
  deployments = [];
  replica_sets = [];
  warning_events = event_on "Node/n1" ∷ event_on "Pod/web/shop" ∷ [];
}

abbrev not_ready : Finding
not_ready =
    finding plain sick "node.notready" severity_critical (object_of "node" "" "n1") "Node NotReady"
      "Node n1 is not Ready"

abbrev about_pod : Finding
about_pod =
    finding plain sick "event.warning" severity_info (object_of "pod" "web" "shop")
      "Warning event: BackOff" "Warning event BackOff on Pod/web/shop (x1): again"

abbrev titles : List Finding → List String
titles = map (λ f. f.title)

runs :
    titles (analyze plain sick) ≡ "Node NotReady" ∷ "Node cordoned" ∷ "Warning event: BackOff" ∷ []
unfolding analyze found structural analyze_reachability analyze_node analyze_pod analyze_deployment
    analyze_replica_set pressure_finding analyze_warning_events analyze_event event_object
    split_slash object_text new_identity contains sort_findings sort_by insert_by text_less
runs = refl

has_not_ready : Elem not_ready (analyze plain sick)
unfolding analyze found structural analyze_reachability analyze_node analyze_pod analyze_deployment
    analyze_replica_set pressure_finding analyze_warning_events analyze_event event_object
    split_slash object_text new_identity contains sort_findings sort_by insert_by text_less
has_not_ready = inl refl

has_about_pod : Elem about_pod (analyze plain sick)
unfolding analyze found structural analyze_reachability analyze_node analyze_pod analyze_deployment
    analyze_replica_set pressure_finding analyze_warning_events analyze_event event_object
    split_slash object_text new_identity contains sort_findings sort_by insert_by text_less
has_about_pod = inr (inr (inl refl))

above_info : severity_critical ≢ severity_info
above_info e = false≢true (ap info? e)

analyze-covered_example :
    object_text (object_of "pod" "web" "shop") ≢ object_text (object_of "node" "" "n1")
analyze-covered_example =
    analyze-covered plain sick about_pod not_ready has_about_pod has_not_ready refl above_info

critical_iff_example :
    IsReported plain sick (object_of "node" "" "n1") ↔ Down sick (object_of "node" "" "n1")
critical_iff_example = critical_iff plain sick (object_of "node" "" "n1")

off : (c : ℕ) → nat_beq c slash ≡ false → c ≢ slash
off c h e = false≢true (sym h ∙ (nat_beq_iff c slash).1 e)

event_object-object_text_example :
    event_object plain (event_on "Pod/web/shop") ≡ object_of "pod" "web" "shop"
event_object-object_text_example =
    event_object-object_text plain (event_on "Pod/web/shop") (object_of "Pod" "web" "shop")
      (off 80 refl, (off 111 refl, (off 100 refl, tt)))
      (off 119 refl, (off 101 refl, (off 98 refl, tt)))
      (off 115 refl, (off 104 refl, (off 111 refl, (off 112 refl, tt))))
      (unfold object_text in refl)
