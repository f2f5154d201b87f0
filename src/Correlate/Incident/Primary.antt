-- ===== src/Correlate/Incident/Primary.antt =====
-- The order of the incidents, of their effects, and the choice of the primary.
use ma_klaude.Prelude.{ℕ, false, List, map, ◌≡◌, All}
use ma_klaude.Prelude.Sorts.{IsSorted}
use ma_klaude.Detect.Finding.{Finding}
use ma_klaude.Correlate.Incident.{Incident, more_primary, by_identity}

-- No finding of a list is a better primary.
abbrev pub IsPrimary : Finding → List Finding → Type 0
IsPrimary p = All (λ f. more_primary f p ≡ false)

-- The effects of an incident: none is a better primary, and they are sorted.
abbrev pub IsOrdered : Incident → Type 0
IsOrdered incident =
    IsPrimary incident.primary incident.effects × IsSorted by_identity incident.effects

module _ (nth : ℕ → Finding) where
  abbrev IsPicked : ℕ → List ℕ → ℕ → Type 0
  IsPicked primary members k =
      (more_primary (nth primary) (nth k) ≡ false) × IsPrimary (nth k) (map nth members)
