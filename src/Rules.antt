-- ===== src/Rules.antt =====
-- internal/rules/rules.go: from a decoded rules file to the ruleset of the autonomy policy. The YAML
-- decoder and the file are outside; an error is the branch that returned it.
pub mod Results
pub mod Loaded
pub mod Tests
use ma_klaude.Prelude.{
  ℕ, suc, Bool, true, not, String, List, [], ◌∷◌, none, some, contains, is_empty, if◌then◌else◌,
  ◌==◌, string_comparable,
}
use ma_klaude.Prelude.Int.{ℤ, pos, eqb_ℤ}
use ma_klaude.Prelude.Text.{trim_space}
use ma_klaude.Remediate.{
  Operation, Reversibility, op_rollout_restart, op_rollback_revision, op_delete_pod, op_cordon_node,
  reversible, recreated_by_controller,
}
use ma_klaude.Autonomy.Rule.{Rule, Ruleset, RulesetError, validate}
use ma_klaude.Rules.Results.{Result, err, ok, and_then}

-- `Rule`.
pub record RawRule : Type 0 where
  pub name : String
  pub clusters : List String
  pub namespaces : List String
  pub operations : List String
  pub max_reversibility : String

pub record File : Type 0 where
  pub version : ℤ
  pub rules : List RawRule

pub data EntryError : Type 0 where
  operation_empty : EntryError
  operation_unknown : String → EntryError
  irreversible_configured not_a_class : String → EntryError

pub data LoadError : Type 0 where
  version_missing : LoadError
  version_unsupported : ℤ → LoadError
  rules_empty : LoadError
  bad_entry : ℕ → EntryError → LoadError
  invalid : RulesetError → LoadError

-- `Version`.
abbrev pub supported_version : ℤ
supported_version = pos 1

-- `Reversibility.String` of the three classes.
abbrev pub reversible_token : String
reversible_token = "reversible"

abbrev pub recreated_token : String
recreated_token = "recreated-by-controller"

abbrev pub irreversible_token : String
irreversible_token = "irreversible"

-- The `catalog` of this package: a list of its own.
abbrev pub loader_catalog : List Operation
loader_catalog = op_rollout_restart ∷ op_rollback_revision ∷ op_delete_pod ∷ op_cordon_node ∷ []

-- `parseOperation`: an operation is its token.
unfoldable pub parse_operation : String → Result EntryError Operation
parse_operation token =
    if trim_space token == ""
    then err operation_empty
    else if contains loader_catalog token
    then ok token
    else err (operation_unknown token)

-- The loop of `convert` over the operations.
unfoldable pub parse_operations : List String → Result EntryError (List Operation)
parse_operations [] = ok []
parse_operations (token ∷ tokens) =
    and_then (parse_operation token)
      (λ op. and_then (parse_operations tokens) (λ ops. ok (op ∷ ops)))

-- `parseReversibility`.
unfoldable pub parse_reversibility : String → Result EntryError Reversibility
parse_reversibility token =
    if trim_space token == ""
    then ok reversible
    else if trim_space token == reversible_token
    then ok reversible
    else if trim_space token == recreated_token
    then ok recreated_by_controller
    else if trim_space token == irreversible_token
    then err (irreversible_configured token)
    else err (not_a_class token)

-- `Rule.convert`.
unfoldable pub convert : RawRule → Result EntryError Rule
convert r = and_then (parse_operations r.operations) (λ ops.
    and_then (parse_reversibility r.max_reversibility) (λ class. ok (record {
      name = r.name;
      clusters = r.clusters;
      namespaces = r.namespaces;
      operations = ops;
      max_reversibility = class;
    })))

-- The error of an entry, with its index.
abbrev pub at_entry : {A : Type 0} → ℕ → Result EntryError A → Result LoadError A
at_entry i (err e) = err (bad_entry i e)
at_entry i (ok a) = ok a

-- The loop of `Parse`.
unfoldable pub convert_all : ℕ → List RawRule → Result LoadError Ruleset
convert_all i [] = ok []
convert_all i (r ∷ rs) =
    and_then (at_entry i (convert r)) (λ c. and_then (convert_all (suc i) rs) (λ cs. ok (c ∷ cs)))

-- The end of `Parse`.
unfoldable pub validated : Ruleset → Result LoadError Ruleset
validated rs = elim (validate rs) [ none ↦ ok rs | some e ↦ err (invalid e) ]

-- `Parse`, after the decoder.
unfoldable pub parse : File → Result LoadError Ruleset
parse f =
    if eqb_ℤ f.version (pos 0)
    then err version_missing
    else if not (eqb_ℤ f.version supported_version)
    then err (version_unsupported f.version)
    else if is_empty f.rules
    then err rules_empty
    else and_then (convert_all 0 f.rules) validated
