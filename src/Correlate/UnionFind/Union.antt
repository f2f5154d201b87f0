-- ===== src/Correlate/UnionFind/Union.antt =====
-- `union`: two slots are in one tree after it if they were, or if it joins their trees.
pub mod Links
use ma_klaude.Prelude.{
  ℕ, zero, suc, ◌+◌, ◌≤◌, ◌<◌, ◌≡◌, ◌≢◌, ◌↔◌, ◌⊎◌, refl, sym, ◌∙◌, ap, subst, inl, inr, true, false,
  List, length, nat_beq, ltb, ◌&&◌, ◌||◌, if◌then◌else◌, arith, Bool-cases, nat_beq_iff,
}
use ma_klaude.Prelude.Arrays.{get_or, set_at, sum, get_or-le-sum, length-set_at, get_or-set_at}
use ma_klaude.Correlate.UnionFind.{UnionFind, parent_of, size_of, find, link, swaps, join, union}
use ma_klaude.Correlate.UnionFind.Forest.{
  IsForest, same_or_not, nat_beq_of_ne, Reaches, here, up, Reaches-root, Reaches-unique,
  Reaches-inside, root_of,
}
use ma_klaude.Correlate.UnionFind.Find.{Flattens, Flattens-trans, Finds, find-Finds}

-- Two slots have one root.
abbrev pub Together : UnionFind → ℕ → ℕ → Type 0
Together uf x y = (r : ℕ) × (Reaches uf x r × Reaches uf y r)

-- The trees under the roots `ri` and `rj`, and no other, are one tree in the second structure.
pub record Joins (n : ℕ) (uf uf' : UnionFind) (ri rj : ℕ) : Type 0 where
  pub forest : IsForest n uf'
  pub together :
      (x y : ℕ)
      → Together uf' x y ↔ (
          Together uf x y
          ⊎ ((Reaches uf x ri × Reaches uf y rj) ⊎ (Reaches uf x rj × Reaches uf y ri)))

-- The root after a link of `b` under `a`.
abbrev moved_root : ℕ → ℕ → ℕ → ℕ
moved_root a b r = if nat_beq r b then a else r

moved_root-eq :
    (a b r s : ℕ)
    → moved_root a b r ≡ moved_root a b s
    → (r ≡ s) ⊎ (((r ≡ a) × (s ≡ b)) ⊎ ((r ≡ b) × (s ≡ a)))
moved_root-eq a b r s e =
    let at : (r : ℕ) → r ≡ b → moved_root a b r ≡ a = λ r p. rw ((nat_beq_iff r b).1 p) refl in
    let off : (r : ℕ) → r ≢ b → moved_root a b r ≡ r = λ r p. rw (nat_beq_of_ne r b p) refl in
    elim (same_or_not r b) [
      | inl p ↦ elim (same_or_not s b) [
        | inl q ↦ inl (p ∙ sym q)
        | inr q ↦ inr (inr (p, sym (off s q) ∙ sym e ∙ at r p))
      ]
      | inr p ↦ elim (same_or_not s b) [
        | inl q ↦ inr (inl (sym (off r p) ∙ e ∙ at s q, q))
        | inr q ↦ inl (sym (off r p) ∙ e ∙ off s q)
      ]
    ]

module _ (n : ℕ) (uf : UnionFind) (a b : ℕ) (f : IsForest n uf) (root_a : parent_of uf a ≡ a)
    (root_b : parent_of uf b ≡ b) (apart : a ≢ b) (inside_a : a < n) (inside_b : b < n) where
  link-at : parent_of (link uf a b) b ≡ a
  unfolding link
  link-at = get_or-set_at uf.parent b a b b ∙ ground (arith, nat_beq_iff b b, f.parents)

  link-off : (x : ℕ) → b ≢ x → parent_of (link uf a b) x ≡ parent_of uf x
  unfolding link
  link-off x m = get_or-set_at uf.parent b a x x ∙ ground (arith, nat_beq_iff b x)

  size-at : size_of (link uf a b) a ≡ size_of uf a + size_of uf b
  unfolding link
  size-at =
      get_or-set_at uf.size a (size_of uf a + size_of uf b) a 0
      ∙ ground (arith, nat_beq_iff a a, f.sizes)

  size-off : (x : ℕ) → a ≢ x → size_of (link uf a b) x ≡ size_of uf x
  unfolding link
  size-off x m =
      get_or-set_at uf.size a (size_of uf a + size_of uf b) x 0 ∙ ground (arith, nat_beq_iff a x)

  size-le : (x : ℕ) → size_of uf x ≤ size_of (link uf a b) x
  size-le x = elim (same_or_not a x) [
    | inl e ↦ subst (λ y. size_of uf y ≤ size_of (link uf a b) y) e (omega (arith, size-at))
    | inr e ↦ omega (arith, size-off x e)
  ]

  link-grows :
      (x : ℕ)
      → parent_of (link uf a b) x ≢ x
      → size_of (link uf a b) x < size_of (link uf a b) (parent_of (link uf a b) x)
  link-grows x k = elim (same_or_not b x) [
    | inl e ↦
        subst (λ y. size_of (link uf a b) y < size_of (link uf a b) (parent_of (link uf a b) y)) e
          (subst (λ g. size_of (link uf a b) b < size_of (link uf a b) g) (sym link-at)
            (omega (arith, size-at, size-off b apart, f.positive a inside_a)))
    | inr e ↦
        let off = link-off x e in
        let before : parent_of uf x ≢ x = λ e'. k (off ∙ e') in
        let other : a ≢ x = λ e'. before (subst (λ y. parent_of uf y ≡ y) e' root_a) in
        subst (λ g. size_of (link uf a b) x < size_of (link uf a b) g) (sym off)
          (omega (arith, size-off x other, f.grows x before, size-le (parent_of uf x)))
  ]

  link-IsForest : IsForest n (link uf a b)
  link-IsForest = record {
    parents = unfold link in ground (arith, length-set_at uf.parent b a, f.parents);
    sizes =
        unfold link in
        ground (arith, length-set_at uf.size a (size_of uf a + size_of uf b), f.sizes);
    inside = λ x k. elim (same_or_not b x) [
      | inl e ↦
          subst (λ y. parent_of (link uf a b) y < n) e (subst (λ g. g < n) (sym link-at) inside_a)
      | inr e ↦ subst (λ g. g < n) (sym (link-off x e)) (f.inside x k)
    ];
    positive = λ x k. omega (arith, f.positive x k, size-le x);
    grows = link-grows;
  }

  under : Reaches (link uf a b) b a
  under =
      up b a (λ e. apart (sym link-at ∙ e))
        (subst (λ g. Reaches (link uf a b) g a) (sym link-at)
          (here a (link-off a (λ e. apart (sym e)) ∙ root_a)))

  link-Reaches : (x r : ℕ) → Reaches uf x r → Reaches (link uf a b) x (moved_root a b r)
  link-Reaches x r (here _ e) = elim (same_or_not x b) [
    | inl e' ↦ rw ((nat_beq_iff x b).1 e') (subst (λ y. Reaches (link uf a b) y a) (sym e') under)
    | inr e' ↦ rw (nat_beq_of_ne x b e') (here x (link-off x (λ p. e' (sym p)) ∙ e))
  ]
  link-Reaches x r (up _ _ m w) =
      let off = link-off x (λ p. m (subst (λ y. parent_of uf y ≡ y) p root_b)) in
      up x (moved_root a b r) (λ p. m (sym off ∙ p))
        (subst (λ g. Reaches (link uf a b) g (moved_root a b r)) (sym off)
          (link-Reaches (parent_of uf x) r w))

  link-moved : (x : ℕ) → Reaches uf x b → Reaches (link uf a b) x a
  link-moved x v =
      subst (Reaches (link uf a b) x) (rw ((nat_beq_iff b b).1 refl) refl) (link-Reaches x b v)

  link-kept : (x : ℕ) → Reaches uf x a → Reaches (link uf a b) x a
  link-kept x v =
      subst (Reaches (link uf a b) x) (rw (nat_beq_of_ne a b apart) refl) (link-Reaches x a v)

  link-Joins : Joins n uf (link uf a b) a b
  link-Joins = record {
    forest = link-IsForest;
    together = λ x y. (
      λ t.
          let (rx, vx) = root_of n uf x f in
          let (ry, vy) = root_of n uf y f in
          let ex =
            Reaches-unique (link uf a b) x t.0 (moved_root a b rx) t.1.0 (link-Reaches x rx vx) in
          let ey =
            Reaches-unique (link uf a b) y t.0 (moved_root a b ry) t.1.1 (link-Reaches y ry vy) in
          elim (moved_root-eq a b rx ry (sym ex ∙ ey)) [
            | inl e ↦ inl (ry, (subst (Reaches uf x) e vx, vy))
            | inr (inl (p, q)) ↦ inr (inl (subst (Reaches uf x) p vx, subst (Reaches uf y) q vy))
            | inr (inr (p, q)) ↦ inr (inr (subst (Reaches uf x) p vx, subst (Reaches uf y) q vy))
          ],
      λ c. elim c [
        | inl (r, (vx, vy)) ↦ (moved_root a b r, (link-Reaches x r vx, link-Reaches y r vy))
        | inr (inl (vx, vy)) ↦ (a, (link-kept x vx, link-moved y vy))
        | inr (inr (vx, vy)) ↦ (a, (link-moved x vx, link-kept y vy))
      ],
    );
  }

Joins-flip : (n : ℕ) (uf uf' : UnionFind) (ri rj : ℕ) → Joins n uf uf' rj ri → Joins n uf uf' ri rj
Joins-flip n uf uf' ri rj g = record {
  forest = g.forest;
  together = λ x y. (
    λ t. elim ((g.together x y).0 t) [
      | inl c ↦ inl c
      | inr (inl c) ↦ inr (inr c)
      | inr (inr c) ↦ inr (inl c)
    ],
    λ c. elim c [
      | inl d ↦ (g.together x y).1 (inl d)
      | inr (inl d) ↦ (g.together x y).1 (inr (inr d))
      | inr (inr d) ↦ (g.together x y).1 (inr (inl d))
    ],
  );
}

-- The two roots are one already.
joined_before : (n : ℕ) (uf : UnionFind) (r : ℕ) → IsForest n uf → Joins n uf uf r r
joined_before n uf r f = record {
  forest = f;
  together =
      λ x y. (λ t. inl t, λ c. elim c [ inl d ↦ d | inr (inl d) ↦ (r, d) | inr (inr d) ↦ (r, d) ]);
}

pub join-Joins :
    (n : ℕ) (uf : UnionFind) (ri rj : ℕ)
    → IsForest n uf
    → parent_of uf ri ≡ ri
    → parent_of uf rj ≡ rj
    → ri < n
    → rj < n
    → Joins n uf (join uf ri rj) ri rj
unfolding join
join-Joins n uf ri rj f pi pj hi hj = elim (same_or_not ri rj) [
  | inl e ↦ rw ((nat_beq_iff ri rj).1 e) (subst (Joins n uf uf ri) e (joined_before n uf ri f))
  | inr e ↦ rw (nat_beq_of_ne ri rj e) (elim (Bool-cases (swaps uf ri rj)) [
    | inl t ↦ rw t (
        Joins-flip n uf (link uf rj ri) ri rj
          (link-Joins n uf rj ri f pj pi (λ p. e (sym p)) hj hi))
    | inr t ↦ rw t (link-Joins n uf ri rj f pi pj e hi hj)
  ])
]
