-- ===== src/Correlate/Incident.antt =====
-- Step 3 of `Correlate`, and the incidents of internal/correlate/incident.go.
pub mod Primary
pub mod Partition
use Prim.Native.String.{◌++◌}
use mathlib.Core.List.{◌++◌ as ◌+++◌}
use ma_klaude.Prelude.{
  ℕ, suc, Bool, not, String, List, [], ◌∷◌, map, none, some, nat_beq, ltb, if◌then◌else◌,
  nat_comparable,
}
use ma_klaude.Prelude.Int.{Time}
use ma_klaude.Prelude.Arrays.{get_or}
use ma_klaude.Prelude.Assoc.{fetch, store}
use ma_klaude.Prelude.Sorts.{text_less, ranked, sort_by}
use ma_klaude.Health.{Snapshot}
use ma_klaude.Detect.Finding.{Finding, Severity, Identity, severity_rank}
use ma_klaude.Correlate.UnionFind.{UnionFind, find}
use ma_klaude.Correlate.Edges.{cause_precedence}
use ma_klaude.Correlate.Groups.{unions}

pub record Incident : Type 0 where
  pub identity : String
  pub cluster : String
  pub primary : Finding
  pub effects : List Finding
  pub detected_at : Time

-- `newIncidentIdentity`.
unfoldable pub new_incident_identity : Identity → String
new_incident_identity primary = "incident|" ++ primary

-- `Incident.Severity`.
abbrev pub severity_of : Incident → Severity
severity_of incident = incident.primary.severity

-- `Incident.Findings`.
abbrev pub findings_of : Incident → List Finding
findings_of incident = incident.primary ∷ incident.effects

-- `components[root]`: nil for a root that is not there.
abbrev pub members_of : List (ℕ × List ℕ) → ℕ → List ℕ
members_of components root = elim (fetch components root) [ none ↦ [] | some members ↦ members ]

-- The loop that fills `components`, from index `i` on.
unfoldable pub gather : UnionFind → List (ℕ × List ℕ) → ℕ → List Finding → List (ℕ × List ℕ)
gather uf components i [] = components
gather uf components i (f ∷ fs) =
    let (uf', root) = find uf i in
    gather uf' (store components root (members_of components root +++ (i ∷ []))) (suc i) fs

-- `morePrimary`.
unfoldable pub more_primary : Finding → Finding → Bool
more_primary a b =
    if not (nat_beq (cause_precedence a) (cause_precedence b))
    then ltb (cause_precedence a) (cause_precedence b)
    else if not (nat_beq (severity_rank a.severity) (severity_rank b.severity))
    then ltb (severity_rank b.severity) (severity_rank a.severity)
    else text_less a.identity b.identity

-- `findings[i]`; the numbers that meet it are those of findings, so `d` does not show.
abbrev pub finding_at : Finding → List Finding → ℕ → Finding
finding_at d findings i = get_or findings i d

-- The loop of `buildIncident` that finds the primary.
unfoldable pub pick : (ℕ → Finding) → ℕ → List ℕ → ℕ
pick nth primary [] = primary
pick nth primary (i ∷ members) =
    pick nth (if more_primary (nth i) (nth primary) then i else primary) members

-- The loop of `buildIncident` that leaves the primary out.
unfoldable pub others : ℕ → List ℕ → List ℕ
others primary [] = []
others primary (i ∷ members) =
    let rest = others primary members in if nat_beq i primary then rest else i ∷ rest

-- The `less` of the effects.
abbrev pub by_identity : Finding → Finding → Bool
by_identity f g = text_less f.identity g.identity

-- `buildIncident`, on the first of the members and the rest.
unfoldable pub build_incident : (ℕ → Finding) → ℕ → List ℕ → Incident
build_incident nth first rest =
    let primary = pick nth first rest in
    let p = nth primary in
    record {
      identity = new_incident_identity p.identity;
      cluster = p.cluster;
      primary = p;
      effects = sort_by by_identity (map nth (others primary (first ∷ rest)));
      detected_at = p.detected_at;
    }

-- An incident for each component. The loop above stores no empty one.
unfoldable pub build_all : (ℕ → Finding) → List (ℕ × List ℕ) → List Incident
build_all nth [] = []
build_all nth ((root, []) ∷ components) = build_all nth components
build_all nth ((root, first ∷ rest) ∷ components) =
    build_incident nth first rest ∷ build_all nth components

-- The `less` of `sortIncidents`.
abbrev pub more_urgent : Incident → Incident → Bool
more_urgent =
    ranked (λ incident. severity_rank (severity_of incident)) (λ incident. incident.identity)

-- The components of the findings, in the order in which their roots come up.
unfoldable pub components : Snapshot → List Finding → List (ℕ × List ℕ)
components snap findings = gather (unions snap findings) [] 0 findings

-- `Correlate`.
unfoldable pub correlate : Snapshot → List Finding → List Incident
correlate snap [] = []
correlate snap (f ∷ fs) =
    sort_by more_urgent (build_all (finding_at f (f ∷ fs)) (components snap (f ∷ fs)))
