-- ===== src/Rules/Loaded.antt =====
-- What a rules file is loaded as.
use mathlib.Core.Option.{some-ne-none}
use ma_klaude.Prelude.{
  not-false, ℕ, suc, Bool, true, false, not, String, List, [], ◌∷◌, none, contains, is_empty,
  if◌then◌else◌, ◌==◌, string_comparable, ◌≡◌, ◌≢◌, ◌↔◌, ◌⊎◌, inl, inr, refl, sym, ◌∙◌, ap, ap₂,
  subst, All, Elem, NoDup, Option-cases, eq_iff, contains→Elem, Elem→contains, false≢true,
}
use ma_klaude.Prelude.Int.{pos, eqb_ℤ, eqb_ℤ_iff}
use ma_klaude.Prelude.Text.{trim_space}
use ma_klaude.Remediate.{Operation, Reversibility, reversible, recreated_by_controller}
use ma_klaude.Autonomy.Rule.{Rule, Ruleset, validate}
use ma_klaude.Autonomy.Rule.Validity.{IsWellFormed, names, validate_iff}
use ma_klaude.Rules.Results.{
  choose_iff, guard_iff, Result, err, ok, and_then, ok_inj, err≢ok, and_then_iff,
}
use ma_klaude.Rules.{
  loader_catalog, version_missing, version_unsupported, rules_empty, not_a_class,
  irreversible_configured, operation_unknown, operation_empty, RawRule, File, EntryError, LoadError,
  supported_version, reversible_token, recreated_token, irreversible_token, parse_operation,
  parse_operations, parse_reversibility, convert, at_entry, convert_all, validated, parse,
}

-- The class that a token names; an empty one is the strictest.
abbrev pub Names : String → Reversibility → Type 0
Names token class =
    (((trim_space token ≡ "") ⊎ (trim_space token ≡ reversible_token)) × (class ≡ reversible))
    ⊎ ((trim_space token ≡ recreated_token) × (class ≡ recreated_by_controller))

-- A rule of the file and the rule that it becomes.
pub record IsRead (r : RawRule) (c : Rule) : Type 0 where
  pub name : c.name ≡ r.name
  pub clusters : c.clusters ≡ r.clusters
  pub namespaces : c.namespaces ≡ r.namespaces
  pub operations : c.operations ≡ r.operations
  pub known : All (λ op. Elem op loader_catalog) r.operations
  pub class : Names r.max_reversibility c.max_reversibility

abbrev pub AreRead : List RawRule → Ruleset → Type 0
AreRead [] [] = Unit
AreRead [] (c ∷ cs) = ⊥
AreRead (r ∷ rs) [] = ⊥
AreRead (r ∷ rs) (c ∷ cs) = IsRead r c × AreRead rs cs

-- No operation of the catalog is blank.
catalog_filled : (token : String) → Elem token loader_catalog → (trim_space token == "") ≡ false
unfolding trim_space
catalog_filled token (inl e) = subst (λ s. (trim_space s == "") ≡ false) e refl
catalog_filled token (inr (inl e)) = subst (λ s. (trim_space s == "") ≡ false) e refl
catalog_filled token (inr (inr (inl e))) = subst (λ s. (trim_space s == "") ≡ false) e refl
catalog_filled token (inr (inr (inr (inl e)))) = subst (λ s. (trim_space s == "") ≡ false) e refl
catalog_filled token (inr (inr (inr (inr e)))) = absurd e

parse_operation_iff :
    (token : String) (op : Operation)
    → (parse_operation token ≡ ok op) ↔ ((op ≡ token) × Elem token loader_catalog)
unfolding parse_operation
parse_operation_iff token op =
    let blank = guard_iff (trim_space token == "") operation_empty in
    let known =
      choose_iff (contains loader_catalog token) (ok token) (err (operation_unknown token)) op in
    (
      λ h. elim (known.0 ((blank _ op).0 h).1) [
        | inl (p, q) ↦ (sym (ok_inj q), contains→Elem loader_catalog token p)
        | inr (p, q) ↦ absurd (err≢ok q)
      ],
      λ (e, m). (blank _ op).1 (
        catalog_filled token m,
        known.1 (inl (Elem→contains loader_catalog token m, ap ok (sym e))),
      ),
    )

parse_operations_iff :
    (tokens : List String) (ops : List Operation)
    → (parse_operations tokens ≡ ok ops)
      ↔ ((ops ≡ tokens) × All (λ t. Elem t loader_catalog) tokens)
unfolding parse_operations
parse_operations_iff [] ops = (λ h. (sym (ok_inj h), tt), λ (e, _). ap ok (sym e))
parse_operations_iff (token ∷ tokens) ops =
    let first =
      and_then_iff (parse_operation token)
        (λ op. and_then (parse_operations tokens) (λ rest. ok (op ∷ rest))) ops in
    (
      λ h.
          let (op, (here, more)) = first.0 h in
          let (rest, (there, all)) =
            (and_then_iff (parse_operations tokens) (λ rest. ok (op ∷ rest)) ops).0 more in
          let (same, known) = (parse_operation_iff token op).0 here in
          let (same', known') = (parse_operations_iff tokens rest).0 there in
          (sym (ok_inj all) ∙ ap₂ (◌∷◌) same same', (known, known')),
      λ (e, (known, known')). first.1 (
        token,
        (
          (parse_operation_iff token token).1 (refl, known),
          (and_then_iff (parse_operations tokens) (λ rest. ok (token ∷ rest)) ops).1
              (tokens, ((parse_operations_iff tokens tokens).1 (refl, known'), ap ok (sym e))),
        ),
      ),
    )

-- The last two cases return an error.
never_ok :
    (b : Bool) (token : String) (class : Reversibility)
    → ¬ Path
        (Result EntryError Reversibility)
        (if b then err (irreversible_configured token) else err (not_a_class token))
        (ok class)
never_ok true token class h = err≢ok h
never_ok false token class h = err≢ok h

-- `parseReversibility` on the trimmed token.
abbrev class_named : String → String → Result EntryError Reversibility
class_named token s =
    if s == ""
    then ok reversible
    else if s == reversible_token
    then ok reversible
    else if s == recreated_token
    then ok recreated_by_controller
    else if s == irreversible_token
    then err (irreversible_configured token)
    else err (not_a_class token)

from_trimmed :
    (token s : String) (named class : Reversibility)
    → trim_space token ≡ s
    → class_named token s ≡ ok named
    → class ≡ named
    → parse_reversibility token ≡ ok class
unfolding parse_reversibility
from_trimmed token s named class e h c = ap (class_named token) e ∙ h ∙ ap ok (sym c)

parse_reversibility_iff :
    (token : String) (class : Reversibility)
    → (parse_reversibility token ≡ ok class) ↔ Names token class
unfolding parse_reversibility
parse_reversibility_iff token class =
    let s = trim_space token in
    let refused : Result EntryError Reversibility =
      if s == irreversible_token
      then err (irreversible_configured token)
      else err (not_a_class token) in
    let third : Result EntryError Reversibility =
      if s == recreated_token then ok recreated_by_controller else refused in
    let second : Result EntryError Reversibility =
      if s == reversible_token then ok reversible else third in
    (
      λ h. elim ((choose_iff (s == "") (ok reversible) second class).0 h) [
        | inl (p, q) ↦ inl (inl ((eq_iff s "").0 p), sym (ok_inj q))
        | inr (_, k) ↦ elim ((choose_iff (s == reversible_token) (ok reversible) third class).0 k) [
          | inl (p, q) ↦ inl (inr ((eq_iff s reversible_token).0 p), sym (ok_inj q))
          | inr (_, l) ↦
              elim ((choose_iff (s == recreated_token) (ok recreated_by_controller) refused class).0
                l) [
                  | inl (p, q) ↦ inr ((eq_iff s recreated_token).0 p, sym (ok_inj q))
                  | inr (_, m) ↦ absurd (never_ok (s == irreversible_token) token class m)
                ]
        ]
      ],
      λ n. elim n [
        | inl (inl e, c) ↦ from_trimmed token "" reversible class e refl c
        | inl (inr e, c) ↦ from_trimmed token reversible_token reversible class e refl c
        | inr (e, c) ↦ from_trimmed token recreated_token recreated_by_controller class e refl c
      ],
    )

convert_iff : (r : RawRule) (c : Rule) → (convert r ≡ ok c) ↔ IsRead r c
unfolding convert
convert_iff r c =
    let built : List Operation → Reversibility → Rule = λ ops class. record {
      name = r.name;
      clusters = r.clusters;
      namespaces = r.namespaces;
      operations = ops;
      max_reversibility = class;
    } in
    let last : List Operation → Result EntryError Rule =
      λ ops. and_then (parse_reversibility r.max_reversibility) (λ class. ok (built ops class)) in
    let first = and_then_iff (parse_operations r.operations) last c in
    (
      λ h.
          let (ops, (got, more)) = first.0 h in
          let (class, (named, done)) =
            (and_then_iff (parse_reversibility r.max_reversibility) (λ class. ok (built ops class))
                c).0
              more in
          let (same, known) = (parse_operations_iff r.operations ops).0 got in
          subst (IsRead r) (ok_inj done) (record {
            name = refl;
            clusters = refl;
            namespaces = refl;
            operations = same;
            known = known;
            class = (parse_reversibility_iff r.max_reversibility class).0 named;
          }),
      λ d. first.1 (
        r.operations,
        (
          (parse_operations_iff r.operations r.operations).1 (refl, d.known),
          (and_then_iff (parse_reversibility r.max_reversibility)
                (λ class. ok (built r.operations class)) c).1
              (
                c.max_reversibility,
                (
                  (parse_reversibility_iff r.max_reversibility c.max_reversibility).1 d.class,
                  λ i. ok (record {
                    name = sym d.name i;
                    clusters = sym d.clusters i;
                    namespaces = sym d.namespaces i;
                    operations = sym d.operations i;
                    max_reversibility = c.max_reversibility;
                  }),
                ),
              ),
        ),
      ),
    )

at_entry_iff :
    {A : Type 0} (i : ℕ) (m : Result EntryError A) (a : A) → (at_entry i m ≡ ok a) ↔ (m ≡ ok a)
at_entry_iff i (err e) a = (λ h. absurd (err≢ok h), λ h. absurd (err≢ok h))
at_entry_iff i (ok b) a = (λ h. ap ok (ok_inj h), λ h. ap ok (ok_inj h))

both_read :
    (i : ℕ) (r : RawRule) (rs : List RawRule) (cs : Ruleset)
    → ((ds : Ruleset) → AreRead rs ds → convert_all (suc i) rs ≡ ok ds)
    → AreRead (r ∷ rs) cs
    → convert_all i (r ∷ rs) ≡ ok cs
unfolding convert_all
both_read i r rs [] rest d = absurd d
both_read i r rs (c ∷ cs) rest (here, there) =
    (and_then_iff (at_entry i (convert r))
        (λ c. and_then (convert_all (suc i) rs) (λ ds. ok (c ∷ ds))) (c ∷ cs)).1
      (
        c,
        (
          (at_entry_iff i (convert r) c).1 ((convert_iff r c).1 here),
          (and_then_iff (convert_all (suc i) rs) (λ ds. ok (c ∷ ds)) (c ∷ cs)).1
              (cs, (rest cs there, refl)),
        ),
      )

convert_all_iff :
    (i : ℕ) (rs : List RawRule) (cs : Ruleset) → (convert_all i rs ≡ ok cs) ↔ AreRead rs cs
unfolding convert_all
convert_all_iff i [] [] = (λ h. tt, λ h. refl)
convert_all_iff i [] (c ∷ cs) =
    (λ h. absurd (false≢true (ap is_empty (sym (ok_inj h)))), λ h. absurd h)
convert_all_iff i (r ∷ rs) cs =
    let last : Rule → Result LoadError Ruleset =
      λ c. and_then (convert_all (suc i) rs) (λ ds. ok (c ∷ ds)) in
    let first = and_then_iff (at_entry i (convert r)) last cs in
    (
      λ h.
          let (c, (here, more)) = first.0 h in
          let (ds, (there, done)) =
            (and_then_iff (convert_all (suc i) rs) (λ ds. ok (c ∷ ds)) cs).0 more in
          subst (AreRead (r ∷ rs)) (ok_inj done) (
            (convert_iff r c).0 ((at_entry_iff i (convert r) c).0 here),
            (convert_all_iff (suc i) rs ds).0 there,
          ),
      both_read i r rs cs (λ ds. (convert_all_iff (suc i) rs ds).1),
    )

validated_iff : (rs cs : Ruleset) → (validated rs ≡ ok cs) ↔ ((rs ≡ cs) × (validate rs ≡ none))
unfolding validated
validated_iff rs cs = elim (Option-cases (validate rs)) [
  | inl e ↦ rw (e, validated) (λ h. (ok_inj h, refl), λ (p, q). ap ok p)
  | inr (x, e) ↦ rw (e, validated) (λ h. absurd (err≢ok h), λ (p, q). absurd (some-ne-none _ q))
]

not_empty : (rs : List RawRule) → rs ≢ [] → is_empty rs ≡ false
not_empty [] n = absurd (n refl)
not_empty (r ∷ rs) n = refl

-- A rules file is loaded as a ruleset exactly if its version is 1, it has a rule, every rule becomes
-- the one at its place (operations of the catalog, word for word; a class that may be configured,
-- or none for the strictest), each is well formed and no two share a name.
pub parse_iff :
    (f : File) (cs : Ruleset)
    → (parse f ≡ ok cs) ↔ (
        (f.version ≡ supported_version)
        × (f.rules ≢ [])
        × AreRead f.rules cs
        × All IsWellFormed cs
        × NoDup (names cs))
unfolding parse
parse_iff f cs =
    let loaded = and_then (convert_all 0 f.rules) validated in
    let filled : Result LoadError Ruleset = if is_empty f.rules then err rules_empty else loaded in
    let current : Result LoadError Ruleset =
      if not (eqb_ℤ f.version supported_version)
      then err (version_unsupported f.version)
      else filled in
    let stated = guard_iff (eqb_ℤ f.version (pos 0)) version_missing current cs in
    let supported =
      guard_iff (not (eqb_ℤ f.version supported_version)) (version_unsupported f.version) filled
        cs in
    let some_rule = guard_iff (is_empty f.rules) rules_empty loaded cs in
    let done = and_then_iff (convert_all 0 f.rules) validated cs in
    (
      λ h.
          let (v, more) = supported.0 (stated.0 h).1 in
          let (rs, (read, valid)) = done.0 (some_rule.0 more).1 in
          let (same, fine) = (validated_iff rs cs).0 valid in
          let (well, apart) = (validate_iff cs).0 (subst (λ ds. validate ds ≡ none) same fine) in
          (
            (eqb_ℤ_iff f.version 1).0 (not-false _ v),
            λ e. false≢true (sym (some_rule.0 more).0 ∙ ap is_empty e),
            subst (AreRead f.rules) same ((convert_all_iff 0 f.rules rs).0 read),
            well,
            apart,
          ),
      λ (v, some_there, read, well, apart). stated.1 (
        subst (λ n. eqb_ℤ n (pos 0) ≡ false) (sym v) refl,
        supported.1 (
          ap not ((eqb_ℤ_iff f.version 1).1 v),
          some_rule.1 (
            not_empty f.rules some_there,
            done.1 (
              cs,
              (
                (convert_all_iff 0 f.rules cs).1 read,
                (validated_iff cs cs).1 (refl, (validate_iff cs).1 (well, apart)),
              ),
            ),
          ),
        ),
      ),
    )
