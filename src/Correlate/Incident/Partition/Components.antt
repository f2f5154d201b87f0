-- ===== src/Correlate/Incident/Partition/Components.antt =====
-- The components are the classes of the related findings.
use mathlib.Core.List.{◌++◌ as ◌+++◌}
use ma_klaude.Prelude.{
  ℕ, suc, ◌+◌, ◌<◌, ◌≡◌, ◌↔◌, ◌⊎◌, refl, sym, ◌∙◌, ap, subst, inl, inr, List, [], ◌∷◌, length,
  nat_beq, if◌then◌else◌, arith, Elem, Bool-cases, nat_beq_iff, nat_comparable,
}
use ma_klaude.Prelude.Assoc.{fetch, store, fetch-store}
use ma_klaude.Health.{Snapshot}
use ma_klaude.Detect.Finding.{Finding}
use ma_klaude.Correlate.UnionFind.{UnionFind, find}
use ma_klaude.Correlate.UnionFind.Forest.{
  IsForest, Reaches, Reaches-unique, same_or_not, nat_beq_of_ne,
}
use ma_klaude.Correlate.UnionFind.Find.{Flattens, Flattens-self, Flattens-trans, find-Finds}
use ma_klaude.Correlate.UnionFind.Unites.{Reaches-kept}
use ma_klaude.Correlate.Groups.{causes_of, unions}
use ma_klaude.Correlate.Groups.Classes.{Related, unions-Related, unions-IsForest}
use ma_klaude.Correlate.Incident.{members_of, gather, components}
use ma_klaude.Correlate.Incident.Partition.{members_or_nil}

-- The members of a root are the numbers below `i` that reach it.
abbrev IsGathered : UnionFind → ℕ → List (ℕ × List ℕ) → Type 0
IsGathered uf i groups = (k r : ℕ) → Elem k (members_of groups r) ↔ ((k < i) × Reaches uf k r)

Elem-snoc : (k i : ℕ) (ws : List ℕ) → Elem k (ws +++ (i ∷ [])) ↔ (Elem k ws ⊎ (i ≡ k))
Elem-snoc k i [] = (
  λ h. elim h [ inl e ↦ inr e | inr m ↦ absurd m ],
  λ h. elim h [ inl m ↦ absurd m | inr e ↦ inl e ],
)
Elem-snoc k i (w ∷ ws) =
    let ih = Elem-snoc k i ws in
    (
      λ h. elim h [
        | inl e ↦ inl (inl e)
        | inr m ↦ elim (ih.0 m) [ inl n ↦ inl (inr n) | inr e ↦ inr e ]
      ],
      λ h. elim h [
        | inl (inl e) ↦ inl e
        | inl (inr m) ↦ inr (ih.1 (inl m))
        | inr e ↦ inr (ih.1 (inr e))
      ],
    )

members_of-store :
    (groups : List (ℕ × List ℕ)) (root i r : ℕ)
    → members_of (store groups root (members_of groups root +++ (i ∷ []))) r
      ≡ (if nat_beq root r then members_of groups root +++ (i ∷ []) else members_of groups r)
members_of-store groups root i r =
    ap members_or_nil (fetch-store groups root (members_of groups root +++ (i ∷ [])) r)
    ∙ elim (Bool-cases (nat_beq root r)) [ inl t ↦ rw t refl | inr t ↦ rw t refl ]

module _ (n : ℕ) (uf₀ : UnionFind) (f₀ : IsForest n uf₀) where
  IsGathered-step :
      (i root : ℕ) (groups : List (ℕ × List ℕ))
      → Reaches uf₀ i root
      → IsGathered uf₀ i groups
      → IsGathered uf₀ (suc i) (store groups root (members_of groups root +++ (i ∷ [])))
  IsGathered-step i root groups w g k r = elim (same_or_not root r) [
    | inl e ↦
        let here : members_of (store groups root (members_of groups root +++ (i ∷ []))) r
            ≡ (members_of groups r +++ (i ∷ [])) =
          members_of-store groups root i r
          ∙ ap (λ b. if b then members_of groups root +++ (i ∷ []) else members_of groups r)
              ((nat_beq_iff root r).1 e)
          ∙ ap (λ s. members_of groups s +++ (i ∷ [])) e in
        (
          λ m. elim ((Elem-snoc k i (members_of groups r)).0 (subst (Elem k) here m)) [
            | inl old ↦ let (lt, v) = (g k r).0 old in (omega (arith, lt), v)
            | inr same ↦
                (omega (arith, same), subst (λ j. Reaches uf₀ j r) same (subst (Reaches uf₀ i) e w))
          ],
          λ (lt, v). subst (Elem k) (sym here) (
              (Elem-snoc k i (members_of groups r)).1 (elim (same_or_not i k) [
                | inl same ↦ inr same
                | inr other ↦ inl ((g k r).1 (omega (arith, lt, other), v))
              ])),
        )
    | inr e ↦
        let here : members_of (store groups root (members_of groups root +++ (i ∷ []))) r
            ≡ members_of groups r =
          members_of-store groups root i r
          ∙ ap (λ b. if b then members_of groups root +++ (i ∷ []) else members_of groups r)
              (nat_beq_of_ne root r e) in
        (
          λ m. let (lt, v) = (g k r).0 (subst (Elem k) here m) in (omega (arith, lt), v),
          λ (lt, v). subst (Elem k) (sym here) (
              (g k r).1 (
                elim (same_or_not i k) [
                  | inl same ↦ absurd (
                      e (Reaches-unique uf₀ i root r w (subst (λ j. Reaches uf₀ j r) (sym same) v)))
                  | inr other ↦ omega (arith, lt, other)
                ],
                v,
              )),
        )
  ]

  gather-IsGathered :
      (fs : List Finding) (uf : UnionFind) (groups : List (ℕ × List ℕ)) (i : ℕ)
      → Flattens n uf₀ uf
      → i + length fs ≡ n
      → IsGathered uf₀ i groups
      → IsGathered uf₀ n (gather uf groups i fs)
  unfolding gather
  gather-IsGathered [] uf groups i fl h g =
      subst (λ m. IsGathered uf₀ m groups) (omega (arith, h)) g
  gather-IsGathered (f ∷ fs) uf groups i fl h g =
      let (fl', w) = find-Finds n uf i fl.forest (omega (arith, h)) in
      let root = (find uf i).1 in
      gather-IsGathered fs (find uf i).0 (store groups root (members_of groups root +++ (i ∷ [])))
        (suc i) (Flattens-trans n uf₀ uf (find uf i).0 fl fl') (omega (arith, h))
        (IsGathered-step i root groups (Reaches-kept n uf₀ uf i root f₀ fl w) g)

none_yet : (uf : UnionFind) → IsGathered uf 0 []
unfolding fetch
none_yet uf k r = (λ m. absurd m, λ (lt, v). absurd (omega (arith, lt)))

-- Two numbers in the members of one root.
abbrev pub InOneComponent : Snapshot → List Finding → ℕ → ℕ → Type 0
InOneComponent snap findings i j =
    (r : ℕ) × (Elem i (members_of (components snap findings) r)
      × Elem j (members_of (components snap findings) r))

-- Two findings, by number, are in one component exactly if they are about one object, or one points
-- to the other's object as its cause, or a chain of such steps leads from one to the other.
pub components-Related :
    (snap : Snapshot) (findings : List Finding) (i j : ℕ)
    → i < length findings
    → j < length findings
    → InOneComponent snap findings i j ↔ Related (causes_of snap findings) findings i j
unfolding components
components-Related snap findings i j hi hj =
    let uf = unions snap findings in
    let n = length findings in
    let f = unions-IsForest snap findings in
    let g =
      gather-IsGathered n uf f findings uf [] 0 (Flattens-self n uf f) (omega arith)
        (none_yet uf) in
    (
      λ (r, (mi, mj)).
          (unions-Related snap findings i j).0 (r, (((g i r).0 mi).1, ((g j r).0 mj).1)),
      λ rel.
          let (r, (vi, vj)) = (unions-Related snap findings i j).1 rel in
          (r, ((g i r).1 (hi, vi), (g j r).1 (hj, vj))),
    )
