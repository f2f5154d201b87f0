-- ===== src/Correlate/UnionFind/Unites.antt =====
-- `union` from the finds on: two slots are in one tree after it if they were, or if it joins their
-- trees.
use ma_klaude.Prelude.{ℕ, ◌<◌, ◌↔◌, ◌⊎◌, subst, inl, inr}
use ma_klaude.Correlate.UnionFind.{UnionFind, find, join, union}
use ma_klaude.Correlate.UnionFind.Forest.{
  IsForest, Reaches, Reaches-root, Reaches-unique, Reaches-inside, root_of,
}
use ma_klaude.Correlate.UnionFind.Find.{Flattens, Flattens-trans, find-Finds}
use ma_klaude.Correlate.UnionFind.Union.{Together, join-Joins}

pub Reaches-kept :
    (n : ℕ) (uf uf' : UnionFind) (x r : ℕ)
    → IsForest n uf
    → Flattens n uf uf'
    → Reaches uf' x r
    → Reaches uf x r
Reaches-kept n uf uf' x r f fl w =
    let (s, v) = root_of n uf x f in
    subst (Reaches uf x) (Reaches-unique uf' x s r (fl.keeps x s v) w) v

Together-kept :
    (n : ℕ) (uf uf' : UnionFind) (x y : ℕ)
    → IsForest n uf
    → Flattens n uf uf'
    → Together uf' x y ↔ Together uf x y
Together-kept n uf uf' x y f fl = (
  λ (r, (v, w)). (r, (Reaches-kept n uf uf' x r f fl v, Reaches-kept n uf uf' y r f fl w)),
  λ (r, (v, w)). (r, (fl.keeps x r v, fl.keeps y r w)),
)

Together-root : (uf : UnionFind) (x i r : ℕ) → Reaches uf i r → Together uf x i → Reaches uf x r
Together-root uf x i r v (s, (w, u)) = subst (Reaches uf x) (Reaches-unique uf i s r u v) w

pub Together-sym : (uf : UnionFind) (x y : ℕ) → Together uf x y → Together uf y x
Together-sym uf x y (r, (v, w)) = (r, (w, v))

-- What a union of `i` and `j` makes of a forest.
pub record Unites (n : ℕ) (uf uf' : UnionFind) (i j : ℕ) : Type 0 where
  pub forest : IsForest n uf'
  pub together :
      (x y : ℕ)
      → Together uf' x y ↔ (
          Together uf x y
          ⊎ ((Together uf x i × Together uf j y) ⊎ (Together uf x j × Together uf i y)))

united :
    (n : ℕ) (uf uf₂ : UnionFind) (i j ri rj : ℕ)
    → IsForest n uf
    → Flattens n uf uf₂
    → Reaches uf i ri
    → Reaches uf j rj
    → i < n
    → j < n
    → Unites n uf (join uf₂ ri rj) i j
united n uf uf₂ i j ri rj f fl vi vj hi hj =
    let g =
      join-Joins n uf₂ ri rj fl.forest (Reaches-root uf₂ i ri (fl.keeps i ri vi))
        (Reaches-root uf₂ j rj (fl.keeps j rj vj)) (Reaches-inside n uf i ri f vi hi)
        (Reaches-inside n uf j rj f vj hj) in
    let back : (x r : ℕ) → Reaches uf₂ x r → Reaches uf x r =
      λ x r w. Reaches-kept n uf uf₂ x r f fl w in
    record {
      forest = g.forest;
      together = λ x y. (
        λ t. elim ((g.together x y).0 t) [
          | inl c ↦ inl ((Together-kept n uf uf₂ x y f fl).0 c)
          | inr (inl (v, w)) ↦ inr (inl ((ri, (back x ri v, vi)), (rj, (vj, back y rj w))))
          | inr (inr (v, w)) ↦ inr (inr ((rj, (back x rj v, vj)), (ri, (vi, back y ri w))))
        ],
        λ c. elim c [
          | inl d ↦ (g.together x y).1 (inl ((Together-kept n uf uf₂ x y f fl).1 d))
          | inr (inl (d, e)) ↦ (g.together x y).1 (
              inr (
                inl (
                  fl.keeps x ri (Together-root uf x i ri vi d),
                  fl.keeps y rj (Together-root uf y j rj vj (Together-sym uf j y e)),
                )))
          | inr (inr (d, e)) ↦ (g.together x y).1 (
              inr (
                inr (
                  fl.keeps x rj (Together-root uf x j rj vj d),
                  fl.keeps y ri (Together-root uf y i ri vi (Together-sym uf i y e)),
                )))
        ],
      );
    }

pub union-Unites :
    (n : ℕ) (uf : UnionFind) (i j : ℕ)
    → IsForest n uf
    → i < n
    → j < n
    → Unites n uf (union uf i j) i j
unfolding union
union-Unites n uf i j f hi hj =
    let (fl₁, vi) = find-Finds n uf i f hi in
    let (fl₂, wj) = find-Finds n (find uf i).0 j fl₁.forest hj in
    let fl = Flattens-trans n uf (find uf i).0 (find (find uf i).0 j).0 fl₁ fl₂ in
    let vj = Reaches-kept n uf (find uf i).0 j (find (find uf i).0 j).1 f fl₁ wj in
    united n uf (find (find uf i).0 j).0 i j (find uf i).1 (find (find uf i).0 j).1 f fl vi vj hi hj
