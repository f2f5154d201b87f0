-- ===== src/Autonomy/Decide/Matching.antt =====
-- `match` and `covers` of internal/autonomy/decide.go: the first rule that permits a request, and
-- the nearest miss when none does.
use mathlib.Core.Logic.{◌⊎◌}
use ma_klaude.Prelude.{
  ℕ, ◌≤◌, ◌<◌, String, ◌≡◌, ◌≢◌, ◌↔◌, refl, inl, inr, true, false, none, some, [], ◌∷◌, ◌++◌, arith,
  eq_iff, contains→Elem, Elem→contains, Elem, All, Bool-cases, ap, sym, ◌∙◌, string_comparable, ltb,
  ltb→lt, if◌then◌else◌,
}
use ma_klaude.Prelude.Int.{leb_ℤ}
use ma_klaude.Autonomy.Verdict.{Reason, no_rule_matched}
use ma_klaude.Autonomy.Rule.{
  Rule, Ruleset, covers_cluster, covers_namespace, covers_operation, permits_reversibility,
}
use ma_klaude.Autonomy.Request.{Request}
use ma_klaude.Autonomy.Decide.{near_miss, covers, Match, match_from, match_rules}

-- A rule names the cluster, the operation and the namespace of a request, the namespace is there,
-- and the request is within the rule's ceiling.
pub record Permits (r : Rule) (req : Request) : Type 0 where
  pub cluster : Elem req.cluster r.clusters
  pub operation : Elem req.operation r.operations
  pub ceiling : leb_ℤ req.reversibility r.max_reversibility ≡ true
  pub scoped : req.target.namespace ≢ ""
  pub namespace : Elem req.target.namespace r.namespaces

pub covers_iff : (r : Rule) (req : Request) → ((covers r req).1 ≡ true) ↔ Permits r req
unfolding covers covers_cluster covers_namespace covers_operation permits_reversibility
covers_iff r req = (
  λ h. record {
    cluster = contains→Elem r.clusters req.cluster (ground arith);
    operation = contains→Elem r.operations req.operation (ground arith);
    ceiling = ground arith;
    scoped = ground (arith, eq_iff req.target.namespace "");
    namespace = contains→Elem r.namespaces req.target.namespace (ground arith);
  },
  λ p. ground (
    arith,
    Elem→contains r.clusters req.cluster p.cluster,
    Elem→contains r.operations req.operation p.operation,
    eq_iff req.target.namespace "",
    p.scoped,
    p.ceiling,
    Elem→contains r.namespaces req.target.namespace p.namespace,
  ),
)

-- The rule that the loop stops at: none before it permits the request.
pub record IsFirst (req : Request) (rs : Ruleset) (r : Rule) : Type 0 where
  pub before : Ruleset
  pub behind : Ruleset
  pub split : rs ≡ before ++ r ∷ behind
  pub permits : Permits r req
  pub refused : All (λ q. ¬ Permits q req) before

-- How far a rule got before it refused.
abbrev pub rank : Request → Rule → ℕ
rank req r = near_miss (covers r req).0

-- The rule that a verdict names when no rule permits: none got further, and it is the source's
-- record of the dimension that refused.
pub record IsNearest (req : Request) (rs : Ruleset) (name : String) (why : Reason) : Type 0 where
  pub rule : Rule
  pub listed : Elem rule rs
  pub named : rule.name ≡ name
  pub reason : (covers rule req).0 ≡ why
  pub furthest : All (λ q. rank req q ≤ rank req rule) rs

module _ (req : Request) where
  not_covered : (r : Rule) → (covers r req).1 ≡ false → ¬ Permits r req
  not_covered r h p = cc (h, (covers_iff r req).1 p)

  refused_iff : (r : Rule) → ¬ Permits r req → (covers r req).1 ≡ false
  refused_iff r n = elim (Bool-cases (covers r req).1) [
    | inl t ↦ absurd (n ((covers_iff r req).0 t))
    | inr f ↦ f
  ]

  module _ (best : ℕ) (nearest : String) (why : Reason) (q : Rule) (rs : Ruleset) where
    match_from_stop :
        (covers q req).1 ≡ true
        → match_from req best nearest why (q ∷ rs)
          ≡ record { matched = some q; nearest = ""; nearest_reason = no_rule_matched }
    unfolding match_from
    match_from_stop h = rw h

    match_from_skip :
        (covers q req).1 ≡ false
        → match_from req best nearest why (q ∷ rs) ≡ (
            let closer = ltb best (rank req q) in
            match_from req
              (if closer then rank req q else best)
              (if closer then q.name else nearest)
              (if closer then (covers q req).0 else why)
              rs)
    unfolding match_from
    match_from_skip h = rw h

  match_from-IsFirst :
      (rs : Ruleset) (best : ℕ) (nearest : String) (why : Reason) (r : Rule)
      → (match_from req best nearest why rs).matched ≡ some r
      → IsFirst req rs r
  match_from-IsFirst [] best nearest why r h = unfold match_from in cc h
  match_from-IsFirst (q ∷ rs) best nearest why r h = elim (Bool-cases (covers q req).1) [
    | inl t ↦
        let e : q ≡ r =
          cc (h, ap (λ (m : Match). m.matched) (match_from_stop best nearest why q rs t)) in
        record {
          before = [];
          behind = rs;
          split = ap (λ x. x ∷ rs) e;
          permits = rw (← e) ((covers_iff q req).0 t);
          refused = tt;
        }
    | inr f ↦
        let found =
          match_from-IsFirst rs _ _ _ r (rw (match_from_skip best nearest why q rs f) at h) in
        record {
          before = q ∷ found.before;
          behind = found.behind;
          split = ap (λ x. q ∷ x) found.split;
          permits = found.permits;
          refused = (not_covered q f, found.refused);
        }
  ]

  match_from-none :
      (rs : Ruleset) (best : ℕ) (nearest : String) (why : Reason)
      → ((match_from req best nearest why rs).matched ≡ none) ↔ All (λ r. ¬ Permits r req) rs
  match_from-none [] best nearest why = (λ h. tt, λ h. unfold match_from in refl)
  match_from-none (q ∷ rs) best nearest why = elim (Bool-cases (covers q req).1) [
    | inl t ↦ (
      λ h. cc (h, ap (λ (m : Match). m.matched) (match_from_stop best nearest why q rs t)),
      λ h. absurd (h.0 ((covers_iff q req).0 t)),
    )
    | inr f ↦
        let step = ap (λ (m : Match). m.matched) (match_from_skip best nearest why q rs f) in
        (
          λ h. (not_covered q f, (match_from-none rs _ _ _).0 (sym step ∙ h)),
          λ h. step ∙ (match_from-none rs _ _ _).1 h.1,
        )
  ]

  widen :
      {name : String} {why : Reason} (q : Rule) (rs : Ruleset) (near : IsNearest req rs name why)
      → rank req q ≤ rank req near.rule
      → IsNearest req (q ∷ rs) name why
  widen q rs near h = record {
    rule = near.rule;
    listed = inr near.listed;
    named = near.named;
    reason = near.reason;
    furthest = (h, near.furthest);
  }

  -- The nearest miss of a loop that starts from a best rank and what that belongs to.
  match_from_nearest :
      (rs : Ruleset) (best : ℕ) (nearest : String) (why : Reason)
      → All (λ r. ¬ Permits r req) rs
      → (((match_from req best nearest why rs).nearest ≡ nearest)
          × ((match_from req best nearest why rs).nearest_reason ≡ why)
          × All (λ q. rank req q ≤ best) rs)
        ⊎ ((near : IsNearest req rs
              (match_from req best nearest why rs).nearest
              (match_from req best nearest why rs).nearest_reason)
            × (best < rank req near.rule))
  unfolding widen
  match_from_nearest [] best nearest why h =
      inl (unfold match_from in refl, unfold match_from in refl, tt)
  match_from_nearest (q ∷ rs) best nearest why (n, h) =
      rw (match_from_skip best nearest why q rs (refused_iff q n))
        (elim (Bool-cases (ltb best (rank req q))) [
          | inl t ↦ rw t (elim (match_from_nearest rs (rank req q) q.name (covers q req).0 h) [
            | inl (named, reason, low) ↦ inr (
              record {
                rule = q;
                listed = inl refl;
                named = sym named;
                reason = sym reason;
                furthest = (omega arith, low);
              },
              ltb→lt best (rank req q) t,
            )
            | inr (near, further) ↦
                inr (widen q rs near (omega arith), omega (arith, ltb→lt best (rank req q) t))
          ])
          | inr f ↦
              let low : rank req q ≤ best = ground arith in
              rw f (elim (match_from_nearest rs best nearest why h) [
                | inl (named, reason, lows) ↦ inl (named, reason, (low, lows))
                | inr (near, further) ↦ inr (widen q rs near (omega arith), further)
              ])
        ])

pub near_miss-pos : (r : Reason) → 0 < near_miss r
unfolding near_miss
near_miss-pos no_rule_matched = omega arith
near_miss-pos _ = omega arith

module _ (req : Request) (rs : Ruleset) where
  -- A rule that the search returns permits the request, and no rule before it in the file does.
  pub match_rules-IsFirst : (r : Rule) → (match_rules req rs).matched ≡ some r → IsFirst req rs r
  unfolding match_rules
  match_rules-IsFirst r h = match_from-IsFirst req rs 0 "" no_rule_matched r h

  pub match_rules-none_iff : ((match_rules req rs).matched ≡ none) ↔ All (λ r. ¬ Permits r req) rs
  unfolding match_rules
  match_rules-none_iff = match_from-none req rs 0 "" no_rule_matched

-- Where no rule of a ruleset that is not empty permits a request, the search names one that got
-- furthest, with the dimension in which that one refused.
pub match_rules_nearest :
    (req : Request) (rs : Ruleset)
    → rs ≢ []
    → All (λ r. ¬ Permits r req) rs
    → IsNearest req rs (match_rules req rs).nearest (match_rules req rs).nearest_reason
unfolding match_rules
match_rules_nearest req [] n h = absurd (n refl)
match_rules_nearest req (q ∷ rs) n h =
    elim (match_from_nearest req (q ∷ rs) 0 "" no_rule_matched h) [
      | inl (_, _, low) ↦ absurd (omega (arith, low.0, near_miss-pos (covers q req).0))
      | inr (near, _) ↦ near
    ]
