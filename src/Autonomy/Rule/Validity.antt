-- ===== src/Autonomy/Rule/Validity.antt =====
-- What `Ruleset.Validate` of internal/autonomy/rule.go accepts, said without its loops.
use mathlib.Core.Logic.{◌⊎◌}
use ma_klaude.Prelude.{
  ℕ, zero, suc, ◌∙◌, String, ◌≡◌, ◌≢◌, ◌↔◌, refl, inl, inr, true, Option, none, some, List, [], ◌∷◌,
  map, arith, string_comparable, eq_iff, contains-false, Elem, NoDup, All,
}
use ma_klaude.Prelude.Int.{pos, negsuc}
use mathlib.Core.List.{map-id}
use ma_klaude.Prelude.Text.{trim_space}
use ma_klaude.Prelude.Distinct.{distinct_from_nothing_iff}
use ma_klaude.Remediate.{Operation, Reversibility, reversible, recreated_by_controller, catalog}
use ma_klaude.Autonomy.Rule.Names.{IsRuleName, validate_name_iff}
use ma_klaude.Autonomy.Rule.{
  Rule, Ruleset, Selector, selector_entries, validate_selector, catalog_operation,
  operation_entries, validate_operations, validate_reversibility, validate_rule, rule_problem,
  validate_from, validate, clusters_field, namespaces_field, ◌then_check◌,
}

-- An entry that can match what it looks like: a name with no space around it.
abbrev pub IsExact : String → Type 0
IsExact v = (trim_space v ≡ v) × (v ≢ "")

abbrev pub IsSelector : List String → Type 0
IsSelector vs = (vs ≢ []) × All IsExact vs × NoDup vs

abbrev pub IsOperationList : List Operation → Type 0
IsOperationList ops = (ops ≢ []) × All (λ op. Elem op catalog) ops × NoDup ops

pub record IsWellFormed (r : Rule) : Type 0 where
  pub named : IsRuleName r.name
  pub clusters : IsSelector r.clusters
  pub namespaces : IsSelector r.namespaces
  pub operations : IsOperationList r.operations
  pub ceiling : (r.max_reversibility ≡ reversible) ⊎ (r.max_reversibility ≡ recreated_by_controller)

selector_step :
    (field : Selector) (i : ℕ) (seen : List String) (v : String) (vs : List String)
    → (selector_entries field seen (v ∷ vs) ≡ none)
      ↔ (IsExact v × (¬ Elem v seen) × (selector_entries field (v ∷ seen) vs ≡ none))
unfolding selector_entries
selector_step field i seen v vs = (
  λ h. (
    (ground (arith, eq_iff (trim_space v) v), ground (arith, eq_iff v "")),
    (contains-false seen v).0 (ground arith),
    ground arith,
  ),
  λ h. ground (arith, eq_iff (trim_space v) v, eq_iff v "", (contains-false seen v).1 h.1),
)

selector_loop_iff :
    (field : Selector) (vs : List String)
    → (selector_entries field [] vs ≡ none) ↔ (All IsExact vs × NoDup vs)
selector_loop_iff field vs = rw (map-id vs) at (
    distinct_from_nothing_iff (λ v. v) IsExact (λ i. selector_entries field)
      (λ i seen. unfold selector_entries in refl) (selector_step field) 0 vs)

validate_selector-cons :
    (field : Selector) (v : String) (vs : List String)
    → validate_selector field (v ∷ vs) ≡ selector_entries field [] (v ∷ vs)
unfolding validate_selector
validate_selector-cons field v vs = refl

validate_selector_iff :
    (field : Selector) (vs : List String) → (validate_selector field vs ≡ none) ↔ IsSelector vs
validate_selector_iff field [] = (λ h. unfold validate_selector in cc h, λ h. absurd (h.0 refl))
validate_selector_iff field (v ∷ vs) =
    let loop = selector_loop_iff field (v ∷ vs) in
    (
      λ h. let (x, y) = loop.0 (rw (validate_selector-cons field v vs) at h) in ((λ e. cc), x, y),
      λ h. validate_selector-cons field v vs ∙ loop.1 (h.1, h.2),
    )

pub catalog_operation_iff : (op : Operation) → (catalog_operation op ≡ true) ↔ Elem op catalog
unfolding catalog_operation
catalog_operation_iff op = (
  λ h. ground (
    arith,
    eq_iff op "rolloutrestart",
    eq_iff op "rollbackrevision",
    eq_iff op "deletepod",
    eq_iff op "cordonnode",
  ),
  λ h. ground (
    arith,
    eq_iff op "rolloutrestart",
    eq_iff op "rollbackrevision",
    eq_iff op "deletepod",
    eq_iff op "cordonnode",
  ),
)

operation_step :
    (i : ℕ) (seen : List Operation) (op : Operation) (ops : List Operation)
    → (operation_entries seen (op ∷ ops) ≡ none)
      ↔ (Elem op catalog × (¬ Elem op seen) × (operation_entries (op ∷ seen) ops ≡ none))
unfolding operation_entries
operation_step i seen op ops = (
  λ h. (
    (catalog_operation_iff op).0 (ground arith),
    (contains-false seen op).0 (ground arith),
    ground arith,
  ),
  λ h. ground (arith, (catalog_operation_iff op).1 h.0, (contains-false seen op).1 h.1),
)

operation_loop_iff :
    (ops : List Operation)
    → (operation_entries [] ops ≡ none) ↔ (All (λ op. Elem op catalog) ops × NoDup ops)
operation_loop_iff ops = rw (map-id ops) at (
    distinct_from_nothing_iff (λ op. op) (λ op. Elem op catalog) (λ i. operation_entries)
      (λ i seen. unfold operation_entries in refl) operation_step 0 ops)

validate_operations-cons :
    (op : Operation) (ops : List Operation)
    → validate_operations (op ∷ ops) ≡ operation_entries [] (op ∷ ops)
unfolding validate_operations
validate_operations-cons op ops = refl

validate_operations_iff :
    (ops : List Operation) → (validate_operations ops ≡ none) ↔ IsOperationList ops
validate_operations_iff [] = (λ h. unfold validate_operations in cc h, λ h. absurd (h.0 refl))
validate_operations_iff (op ∷ ops) =
    let loop = operation_loop_iff (op ∷ ops) in
    (
      λ h. let (x, y) = loop.0 (rw (validate_operations-cons op ops) at h) in ((λ e. cc), x, y),
      λ h. validate_operations-cons op ops ∙ loop.1 (h.1, h.2),
    )

validate_reversibility_iff :
    (r : Reversibility)
    → (validate_reversibility r ≡ none) ↔ ((r ≡ reversible) ⊎ (r ≡ recreated_by_controller))
unfolding validate_reversibility
validate_reversibility_iff (pos zero) = (λ h. inl refl, λ h. refl)
validate_reversibility_iff (pos (suc zero)) = (λ h. inr refl, λ h. refl)
validate_reversibility_iff (pos (suc (suc n))) = (λ h. ground arith, λ h. ground arith)
validate_reversibility_iff (negsuc n) = (λ h. ground arith, λ h. ground arith)

then_check_iff {ℓ} :
    {E : Type ℓ} (a b : Option E) → ((a then_check b) ≡ none) ↔ ((a ≡ none) × (b ≡ none))
then_check_iff none b = (λ h. (refl, h), λ h. h.1)
then_check_iff (some x) b = (λ h. cc, λ h. h.0)

pub validate_rule_iff : (r : Rule) → (validate_rule r ≡ none) ↔ IsWellFormed r
unfolding validate_rule
validate_rule_iff r = (
  λ h.
      let (a, h1) = (then_check_iff _ _).0 h in
      let (b, h2) = (then_check_iff _ _).0 h1 in
      let (c, h3) = (then_check_iff _ _).0 h2 in
      let (d, e) = (then_check_iff _ _).0 h3 in
      record {
        named = (validate_name_iff r.name).0 a;
        clusters = (validate_selector_iff clusters_field r.clusters).0 b;
        namespaces = (validate_selector_iff namespaces_field r.namespaces).0 c;
        operations = (validate_operations_iff r.operations).0 d;
        ceiling = (validate_reversibility_iff r.max_reversibility).0 e;
      },
  λ w. (then_check_iff _ _).1 (
    (validate_name_iff r.name).1 w.named,
    (then_check_iff _ _).1 (
      (validate_selector_iff clusters_field r.clusters).1 w.clusters,
      (then_check_iff _ _).1 (
        (validate_selector_iff namespaces_field r.namespaces).1 w.namespaces,
        (then_check_iff _ _).1 (
          (validate_operations_iff r.operations).1 w.operations,
          (validate_reversibility_iff r.max_reversibility).1 w.ceiling,
        ),
      ),
    ),
  ),
)

rule_problem_iff :
    (i : ℕ) (seen : List String) (r : Rule)
    → (rule_problem i seen r (validate_rule r) ≡ none) ↔ (IsWellFormed r × (¬ Elem r.name seen))
unfolding rule_problem
rule_problem_iff i seen r = (
  λ h. ((validate_rule_iff r).0 (ground arith), (contains-false seen r.name).0 (ground arith)),
  λ h. ground (arith, (validate_rule_iff r).1 h.0, (contains-false seen r.name).1 h.1),
)

rule_step :
    (i : ℕ) (seen : List String) (r : Rule) (rs : Ruleset)
    → (validate_from i seen (r ∷ rs) ≡ none)
      ↔ (IsWellFormed r × (¬ Elem r.name seen) × (validate_from (suc i) (r.name ∷ seen) rs ≡ none))
unfolding validate_from
rule_step i seen r rs = (
  λ h.
      let (a, b) = (then_check_iff _ _).0 h in
      let (c, d) = (rule_problem_iff i seen r).0 a in (c, d, b),
  λ h. (then_check_iff _ _).1 ((rule_problem_iff i seen r).1 (h.0, h.1), h.2),
)

abbrev pub names : Ruleset → List String
names = map (λ (r : Rule). r.name)

-- A ruleset passes validation exactly when each of its rules is well formed and no two rules share
-- a name.
pub validate_iff : (rs : Ruleset) → (validate rs ≡ none) ↔ (All IsWellFormed rs × NoDup (names rs))
unfolding validate
validate_iff rs =
    distinct_from_nothing_iff (λ (r : Rule). r.name) IsWellFormed validate_from
      (λ i seen. unfold validate_from in refl) rule_step 0 rs
