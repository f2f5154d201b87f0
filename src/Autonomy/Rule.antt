-- ===== src/Autonomy/Rule.antt =====
-- internal/autonomy/rule.go: a grant of autonomy, its validation and its selectors. An error is the
-- branch that returned it, without its prose; `none` is Go's nil error.
pub mod Names
pub mod Validity
use ma_klaude.Prelude.{
  ℕ, suc, String, Bool, true, not, ◌&&◌, ◌||◌, Option, none, some, List, [], ◌∷◌, ltb, leb, nat_beq,
  length, ◌==◌, string_comparable, contains, if◌then◌else◌,
}
use ma_klaude.Prelude.Int.{ltb_ℤ, leb_ℤ}
use ma_klaude.Prelude.Text.{codes, trim_space}
use ma_klaude.Remediate.{
  Operation, Reversibility, op_rollout_restart, op_rollback_revision, op_delete_pod, op_cordon_node,
  reversible, irreversible,
}

pub record Rule : Type 0 where
  pub name : String
  pub clusters : List String
  pub namespaces : List String
  pub operations : List Operation
  pub max_reversibility : Reversibility

abbrev pub Ruleset : Type 0
Ruleset = List Rule

pub data Selector : Type 0 where
  clusters_field namespaces_field : Selector

pub data RuleError : Type 0 where
  name_empty : RuleError
  name_invalid : String → RuleError
  selector_empty : Selector → RuleError
  selector_inexact selector_twice : Selector → String → RuleError
  operations_empty : RuleError
  off_catalog operation_twice : Operation → RuleError
  reversibility_below reversibility_forbidden : Reversibility → RuleError

-- The error of the set, with the rule's index.
pub data RulesetError : Type 0 where
  bad_rule : ℕ → RuleError → RulesetError
  duplicate_name : ℕ → String → RulesetError

-- `if err := a; err != nil { return err }` and then `b`.
infixr 20 ◌then_check◌
abbrev pub ◌then_check◌ {ℓ} : {E : Type ℓ} → Option E → Option E → Option E
none then_check b = b
some err then_check b = some err

-- The cases of the loop over the bytes of a name. A byte of a character beyond ASCII passes none of
-- the tests, so the loop is over characters here.
name_char : ℕ → ℕ → ℕ → Bool
name_char n i c =
    (leb b'a' c && leb c b'z')
    || (leb b'0' c && leb c b'9')
    || (nat_beq c b'-' && ltb 0 i && ltb (suc i) n)

name_chars : ℕ → ℕ → List ℕ → Bool
name_chars n i [] = true
name_chars n i (c ∷ cs) = name_char n i c && name_chars n (suc i) cs

unfoldable pub validate_name : String → Option RuleError
unfolding name_chars name_char
validate_name name =
    if name == ""
    then some name_empty
    else if name_chars (length (codes name)) 0 (codes name)
    then none
    else some (name_invalid name)

-- The loop of `validateSelector`; `seen` is its set.
selector_entries : Selector → List String → List String → Option RuleError
selector_entries field seen [] = none
selector_entries field seen (v ∷ vs) =
    let rest = selector_entries field (v ∷ seen) vs in
    if not (trim_space v == v) || v == ""
    then some (selector_inexact field v)
    else if contains seen v
    then some (selector_twice field v)
    else rest

unfoldable pub validate_selector : Selector → List String → Option RuleError
unfolding selector_entries
validate_selector field [] = some (selector_empty field)
validate_selector field (v ∷ vs) = selector_entries field [] (v ∷ vs)

-- `catalogOperation`: the switch of this package, written apart from the catalog of `remediate`.
unfoldable pub catalog_operation : Operation → Bool
catalog_operation op =
    op == op_rollout_restart
    || op == op_rollback_revision
    || op == op_delete_pod
    || op == op_cordon_node

-- The loop over the operations of a rule.
operation_entries : List Operation → List Operation → Option RuleError
operation_entries seen [] = none
operation_entries seen (op ∷ ops) =
    let rest = operation_entries (op ∷ seen) ops in
    if not (catalog_operation op)
    then some (off_catalog op)
    else if contains seen op
    then some (operation_twice op)
    else rest

unfoldable pub validate_operations : List Operation → Option RuleError
unfolding operation_entries
validate_operations [] = some operations_empty
validate_operations (op ∷ ops) = operation_entries [] (op ∷ ops)

unfoldable pub validate_reversibility : Reversibility → Option RuleError
validate_reversibility r =
    if ltb_ℤ r reversible
    then some (reversibility_below r)
    else if leb_ℤ irreversible r
    then some (reversibility_forbidden r)
    else none

-- `Rule.validate`.
unfoldable pub validate_rule : Rule → Option RuleError
validate_rule r =
    validate_name r.name
    then_check validate_selector clusters_field r.clusters
    then_check validate_selector namespaces_field r.namespaces
    then_check validate_operations r.operations
    then_check validate_reversibility r.max_reversibility

-- The body of the loop of `Ruleset.Validate` for one rule, and the loop.
unfoldable pub rule_problem : ℕ → List String → Rule → Option RuleError → Option RulesetError
rule_problem i seen r (some err) = some (bad_rule i err)
rule_problem i seen r none = if contains seen r.name then some (duplicate_name i r.name) else none

unfoldable pub validate_from : ℕ → List String → Ruleset → Option RulesetError
validate_from i seen [] = none
validate_from i seen (r ∷ rs) =
    rule_problem i seen r (validate_rule r) then_check validate_from (suc i) (r.name ∷ seen) rs

-- `Ruleset.Validate`: one bad rule invalidates the whole set.
unfoldable pub validate : Ruleset → Option RulesetError
validate rs = validate_from 0 [] rs

unfoldable pub covers_cluster : Rule → String → Bool
covers_cluster r cluster = contains r.clusters cluster

unfoldable pub covers_namespace : Rule → String → Bool
covers_namespace r ns = not (ns == "") && contains r.namespaces ns

unfoldable pub covers_operation : Rule → Operation → Bool
covers_operation r op = contains r.operations op

unfoldable pub permits_reversibility : Rule → Reversibility → Bool
permits_reversibility r class = leb_ℤ class r.max_reversibility
