-- ===== src/Rules/Tests.antt =====
-- A rules file of one rule.
use ma_klaude.Prelude.Text.{trim_space}
use ma_klaude.Prelude.{contains, String, [], ◌∷◌, ◌≡◌, ◌≢◌, ◌↔◌, refl, All, NoDup}
use ma_klaude.Prelude.Int.{pos}
use ma_klaude.Autonomy.Rule.{Ruleset}
use ma_klaude.Autonomy.Rule.Validity.{IsWellFormed, names}
use ma_klaude.Rules.Results.{err, ok}
use ma_klaude.Rules.{
  File, supported_version, bad_entry, irreversible_configured, parse, convert, convert_all,
  parse_operation, parse_operations, parse_reversibility,
}
use ma_klaude.Rules.Loaded.{AreRead, parse_iff}

abbrev file_with : String → File
file_with class = record {
  version = pos 1;
  rules =
      record {
        name = "web";
        clusters = "prod" ∷ [];
        namespaces = "web" ∷ [];
        operations = "rolloutrestart" ∷ [];
        max_reversibility = class;
      }
      ∷ [];
}

abbrev loaded : Ruleset
loaded =
    record {
      name = "web";
      clusters = "prod" ∷ [];
      namespaces = "web" ∷ [];
      operations = "rolloutrestart" ∷ [];
      max_reversibility = pos 0;
    }
    ∷ []

refuses_irreversible :
    parse (file_with "irreversible") ≡ err (bad_entry 0 (irreversible_configured "irreversible"))
unfolding parse convert convert_all parse_operation parse_operations parse_reversibility contains
    trim_space
refuses_irreversible = refl

parse_iff_example : (parse (file_with "") ≡ ok loaded) ↔ (
    (pos 1 ≡ supported_version)
    × ((file_with "").rules ≢ [])
    × AreRead (file_with "").rules loaded
    × All IsWellFormed loaded
    × NoDup (names loaded))
parse_iff_example = parse_iff (file_with "") loaded
