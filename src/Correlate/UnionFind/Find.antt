-- ===== src/Correlate/UnionFind/Find.antt =====
-- `find`: halving a path moves no slot to another tree, and the loop ends at the root.
use ma_klaude.Prelude.{
  ℕ, zero, suc, ◌+◌, ◌≤◌, ◌<◌, ◌≡◌, ◌≢◌, refl, sym, ◌∙◌, subst, inl, inr, arith, nat_beq_iff,
}
use ma_klaude.Prelude.Arrays.{sum, get_or-le-sum, length-set_at, get_or-set_at}
use ma_klaude.Correlate.UnionFind.{UnionFind, parent_of, size_of, halve, find_loop, find}
use ma_klaude.Correlate.UnionFind.Forest.{
  IsForest, same_or_not, nat_beq_of_ne, Reaches, here, up, Reaches-unique, root_of,
}

-- The second structure is a forest whose sizes and roots are those of the first.
pub record Flattens (n : ℕ) (uf uf' : UnionFind) : Type 0 where
  pub forest : IsForest n uf'
  pub same_size : uf'.size ≡ uf.size
  pub keeps : (x r : ℕ) → Reaches uf x r → Reaches uf' x r

pub Reaches-parent : (uf : UnionFind) (x r : ℕ) → Reaches uf x r → Reaches uf (parent_of uf x) r
Reaches-parent uf x r (here _ e) = subst (λ y. Reaches uf y x) (sym e) (here x e)
Reaches-parent uf x r (up _ _ m w) = w

module _ (n : ℕ) (uf : UnionFind) (i : ℕ) (f : IsForest n uf) (h : i < n) where
  halve-at : parent_of (halve uf i) i ≡ parent_of uf (parent_of uf i)
  unfolding halve
  halve-at =
      get_or-set_at uf.parent i (parent_of uf (parent_of uf i)) i i
      ∙ ground (arith, nat_beq_iff i i, f.parents)

  halve-off : (x : ℕ) → i ≢ x → parent_of (halve uf i) x ≡ parent_of uf x
  unfolding halve
  halve-off x m =
      get_or-set_at uf.parent i (parent_of uf (parent_of uf i)) x x
      ∙ ground (arith, nat_beq_iff i x)

  module _ (m : parent_of uf i ≢ i) where
    larger : size_of uf i < size_of uf (parent_of uf (parent_of uf i))
    larger = elim (same_or_not (parent_of uf (parent_of uf i)) (parent_of uf i)) [
      | inl e ↦ subst (λ g. size_of uf i < size_of uf g) (sym e) (f.grows i m)
      | inr e ↦ omega (arith, f.grows i m, f.grows (parent_of uf i) e)
    ]

    not_back : parent_of uf (parent_of uf i) ≢ i
    not_back e =
        let lt : size_of uf i < size_of uf i = subst (λ g. size_of uf i < size_of uf g) e larger in
        absurd (omega arith)

    halve-IsForest : IsForest n (halve uf i)
    halve-IsForest = record {
      parents =
          unfold halve in
          ground (arith, length-set_at uf.parent i (parent_of uf (parent_of uf i)), f.parents);
      sizes = unfold halve in f.sizes;
      inside = λ x k. elim (same_or_not i x) [
        | inl e ↦
            subst (λ y. parent_of (halve uf i) y < n) e
              (subst (λ g. g < n) (sym halve-at) (f.inside (parent_of uf i) (f.inside i h)))
        | inr e ↦ subst (λ g. g < n) (sym (halve-off x e)) (f.inside x k)
      ];
      positive = λ x k. unfold halve in f.positive x k;
      grows = λ x k. elim (same_or_not i x) [
        | inl e ↦
            subst (λ y. size_of (halve uf i) y < size_of (halve uf i) (parent_of (halve uf i) y)) e
              (subst (λ g. size_of (halve uf i) i < size_of (halve uf i) g) (sym halve-at)
                (unfold halve in larger))
        | inr e ↦
            subst (λ g. size_of (halve uf i) x < size_of (halve uf i) g) (sym (halve-off x e))
              (unfold halve in f.grows x (λ e'. k (halve-off x e ∙ e')))
      ];
    }

    halve-Reaches : (r : ℕ) → Reaches (halve uf i) (parent_of uf i) r → Reaches (halve uf i) i r
    halve-Reaches r w =
        let above : Reaches (halve uf i) (parent_of uf (parent_of uf i)) r =
          subst (λ g. Reaches (halve uf i) g r) (halve-off (parent_of uf i) (λ e. m (sym e)))
            (Reaches-parent (halve uf i) (parent_of uf i) r w) in
        up i r (λ e. not_back (sym halve-at ∙ e))
          (subst (λ g. Reaches (halve uf i) g r) (sym halve-at) above)

    halve-keeps : (x r : ℕ) → Reaches uf x r → Reaches (halve uf i) x r
    halve-keeps x r (here _ e) =
        here x (halve-off x (λ e'. m (subst (λ y. parent_of uf y ≡ y) (sym e') e)) ∙ e)
    halve-keeps x r (up _ _ k w) =
        let ih = halve-keeps (parent_of uf x) r w in
        elim (same_or_not i x) [
          | inl e ↦
              subst (λ y. Reaches (halve uf i) y r) e
                (halve-Reaches r (subst (λ y. Reaches (halve uf i) (parent_of uf y) r) (sym e) ih))
          | inr e ↦
              up x r (λ e'. k (sym (halve-off x e) ∙ e'))
                (subst (λ g. Reaches (halve uf i) g r) (sym (halve-off x e)) ih)
        ]

    fuel_left :
        (fuel : ℕ)
        → sum uf.size ≤ suc fuel + size_of uf i
        → sum (halve uf i).size ≤ fuel + size_of (halve uf i) (parent_of (halve uf i) i)
    fuel_left fuel k =
        subst (λ g. sum (halve uf i).size ≤ fuel + size_of (halve uf i) g) (sym halve-at)
          (unfold halve in omega (arith, larger, k))

    halve-Flattens : Flattens n uf (halve uf i)
    halve-Flattens = record {
      forest = halve-IsForest;
      same_size = unfold halve in refl;
      keeps = halve-keeps;
    }

pub Flattens-self : (n : ℕ) (uf : UnionFind) → IsForest n uf → Flattens n uf uf
Flattens-self n uf f = record { forest = f; same_size = refl; keeps = λ x r w. w }

pub Flattens-trans : (n : ℕ) (a b c : UnionFind) → Flattens n a b → Flattens n b c → Flattens n a c
Flattens-trans n a b c p q = record {
  forest = q.forest;
  same_size = q.same_size ∙ p.same_size;
  keeps = λ x r w. q.keeps x r (p.keeps x r w);
}

-- A structure and a slot that `find` may return for slot `i`.
abbrev pub Finds : ℕ → UnionFind → ℕ → UnionFind × ℕ → Type 0
Finds n uf i (uf', r) = Flattens n uf uf' × Reaches uf i r

after_halve :
    (n : ℕ) (uf : UnionFind) (i : ℕ) (res : UnionFind × ℕ)
    → IsForest n uf
    → i < n
    → parent_of uf i ≢ i
    → Finds n (halve uf i) (parent_of (halve uf i) i) res
    → Finds n uf i res
after_halve n uf i (uf', r) f h m (fl, w) =
    let once = halve-Flattens n uf i f h m in
    let (s, v) = root_of n uf i f in
    let moved = Reaches-parent (halve uf i) i s (once.keeps i s v) in
    (
      Flattens-trans n uf (halve uf i) uf' once fl,
      subst (Reaches uf i) (Reaches-unique (halve uf i) (parent_of (halve uf i) i) s r moved w) v,
    )

find_loop-Finds :
    (fuel n : ℕ) (uf : UnionFind) (i : ℕ)
    → IsForest n uf
    → i < n
    → sum uf.size ≤ fuel + size_of uf i
    → Finds n uf i (find_loop fuel uf i)
unfolding find_loop
find_loop-Finds zero n uf i f h k = elim (same_or_not (parent_of uf i) i) [
  | inl e ↦ (Flattens-self n uf f, here i e)
  | inr e ↦
      let more = f.grows i e in absurd (omega (arith, more, get_or-le-sum uf.size (parent_of uf i)))
]
find_loop-Finds (suc fuel) n uf i f h k = elim (same_or_not (parent_of uf i) i) [
  | inl e ↦ rw ((nat_beq_iff (parent_of uf i) i).1 e) (Flattens-self n uf f, here i e)
  | inr e ↦
      let once = halve-Flattens n uf i f h e in
      let up_there = halve-at n uf i f h in
      let rest =
        find_loop-Finds fuel n (halve uf i) (parent_of (halve uf i) i) once.forest
          (once.forest.inside i h) (fuel_left n uf i f h e fuel k) in
      rw (nat_beq_of_ne (parent_of uf i) i e)
        (after_halve n uf i (find_loop fuel (halve uf i) (parent_of (halve uf i) i)) f h e rest)
]

-- On a forest, `find` of a slot inside it ends at the root of the slot's tree, and it changes
-- neither the sizes nor the tree of any slot: the bound on its rounds is never met.
pub find-Finds : (n : ℕ) (uf : UnionFind) (i : ℕ) → IsForest n uf → i < n → Finds n uf i (find uf i)
unfolding find
find-Finds n uf i f h = find_loop-Finds (sum uf.size) n uf i f h (omega arith)
