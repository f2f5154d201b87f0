-- ===== src/Correlate/UnionFind/Union/Links.antt =====
-- Unions one after the other: the trees become the classes of the least equivalence over the links.
use ma_klaude.Prelude.{ℕ, ◌<◌, ◌≡◌, ◌↔◌, refl, sym, ◌∙◌, subst, inl, inr, List, [], ◌∷◌, Elem, All}
use ma_klaude.Correlate.UnionFind.{UnionFind, union, new_union_find}
use ma_klaude.Correlate.UnionFind.Forest.{
  IsForest, Reaches, here, Reaches-unique, root_of, new-parent, new-IsForest,
}
use ma_klaude.Correlate.UnionFind.Union.{Together}
use ma_klaude.Correlate.UnionFind.Unites.{union-Unites}
use ma_klaude.Correlate.UnionFind.Unites.{Together-sym}

-- The unions of a list of pairs, in order.
unfoldable pub unite : UnionFind → List (ℕ × ℕ) → UnionFind
unite uf [] = uf
unite uf ((i, j) ∷ links) = unite (union uf i j) links

-- The least equivalence relation that holds of the pairs.
pub data Connected (links : List (ℕ × ℕ)) : ℕ → ℕ → Type 0 where
  linked : (i j : ℕ) → Elem (i, j) links → Connected links i j
  itself : (i : ℕ) → Connected links i i
  back : (i j : ℕ) → Connected links i j → Connected links j i
  through : (i j k : ℕ) → Connected links i j → Connected links j k → Connected links i k

-- Both ends are slots.
abbrev pub Inside : ℕ → ℕ × ℕ → Type 0
Inside n (i, j) = (i < n) × (j < n)

Together-self : (n : ℕ) (uf : UnionFind) (x : ℕ) → IsForest n uf → Together uf x x
Together-self n uf x f = let (r, v) = root_of n uf x f in (r, (v, v))

Together-trans : (uf : UnionFind) (x y z : ℕ) → Together uf x y → Together uf y z → Together uf x z
Together-trans uf x y z (r, (v, w)) (s, (w', u)) =
    (s, (subst (Reaches uf x) (Reaches-unique uf y r s w w') v, u))

pub unite-IsForest :
    (n : ℕ) (uf : UnionFind) (links : List (ℕ × ℕ))
    → IsForest n uf
    → All (Inside n) links
    → IsForest n (unite uf links)
unfolding unite
unite-IsForest n uf [] f h = f
unite-IsForest n uf ((i, j) ∷ links) f h =
    unite-IsForest n (union uf i j) links (union-Unites n uf i j f h.0.0 h.0.1).forest h.1

unite-keeps :
    (n : ℕ) (uf : UnionFind) (links : List (ℕ × ℕ)) (x y : ℕ)
    → IsForest n uf
    → All (Inside n) links
    → Together uf x y
    → Together (unite uf links) x y
unfolding unite
unite-keeps n uf [] x y f h t = t
unite-keeps n uf ((i, j) ∷ links) x y f h t =
    let u = union-Unites n uf i j f h.0.0 h.0.1 in
    unite-keeps n (union uf i j) links x y u.forest h.1 ((u.together x y).1 (inl t))

unite-linked :
    (n : ℕ) (uf : UnionFind) (links : List (ℕ × ℕ)) (x y : ℕ)
    → IsForest n uf
    → All (Inside n) links
    → Elem (x, y) links
    → Together (unite uf links) x y
unfolding unite
unite-linked n uf [] x y f h m = absurd m
unite-linked n uf ((i, j) ∷ links) x y f h (inl e) =
    let u = union-Unites n uf i j f h.0.0 h.0.1 in
    let now : Together (union uf i j) i j =
      (u.together i j).1 (inr (inl (Together-self n uf i f, Together-self n uf j f))) in
    unite-keeps n (union uf i j) links x y u.forest h.1
      (subst (λ (p : ℕ × ℕ). Together (union uf i j) p.0 p.1) e now)
unite-linked n uf ((i, j) ∷ links) x y f h (inr m) =
    let u = union-Unites n uf i j f h.0.0 h.0.1 in
    unite-linked n (union uf i j) links x y u.forest h.1 m

Connected-Together :
    (n : ℕ) (uf : UnionFind) (links : List (ℕ × ℕ)) (x y : ℕ)
    → IsForest n uf
    → All (Inside n) links
    → Connected links x y
    → Together (unite uf links) x y
Connected-Together n uf links x y f h (linked _ _ m) = unite-linked n uf links x y f h m
Connected-Together n uf links x y f h (itself _) =
    Together-self n (unite uf links) x (unite-IsForest n uf links f h)
Connected-Together n uf links x y f h (back _ _ c) =
    Together-sym (unite uf links) y x (Connected-Together n uf links y x f h c)
Connected-Together n uf links x y f h (through _ j _ c d) =
    Together-trans (unite uf links) x j y (Connected-Together n uf links x j f h c)
      (Connected-Together n uf links j y f h d)

-- `all` holds the pairs still to come, and it connects the slots that are together now.
Together-Connected :
    (n : ℕ) (all : List (ℕ × ℕ)) (uf : UnionFind) (links : List (ℕ × ℕ)) (x y : ℕ)
    → IsForest n uf
    → All (Inside n) links
    → ((i j : ℕ) → Elem (i, j) links → Elem (i, j) all)
    → ((i j : ℕ) → Together uf i j → Connected all i j)
    → Together (unite uf links) x y
    → Connected all x y
unfolding unite
Together-Connected n all uf [] x y f h sub now t = now x y t
Together-Connected n all uf ((i, j) ∷ links) x y f h sub now t =
    let u = union-Unites n uf i j f h.0.0 h.0.1 in
    let link : Connected all i j = linked i j (sub i j (inl refl)) in
    Together-Connected n all (union uf i j) links x y u.forest h.1 (λ a b m. sub a b (inr m))
      (λ a b s. elim ((u.together a b).0 s) [
        | inl c ↦ now a b c
        | inr (inl (c, d)) ↦ through a i b (now a i c) (through i j b link (now j b d))
        | inr (inr (c, d)) ↦ through a j b (now a j c) (through j i b (back i j link) (now i b d))
      ])
      t

new-Together : (n x y : ℕ) → Together (new_union_find n) x y → x ≡ y
new-Together n x y (r, (v, w)) =
    let root : (z s : ℕ) → Reaches (new_union_find n) z s → s ≡ z =
      λ z s u. Reaches-unique (new_union_find n) z s z u (here z (new-parent n z)) in
    sym (root x r v) ∙ root y r w

-- After the unions of pairs of slots, in any order of the list, two slots have one root exactly
-- if the least equivalence relation over the pairs holds of them.
pub unite-Connected :
    (n : ℕ) (links : List (ℕ × ℕ)) (x y : ℕ)
    → All (Inside n) links
    → Together (unite (new_union_find n) links) x y ↔ Connected links x y
unite-Connected n links x y h = (
  Together-Connected n links (new_union_find n) links x y (new-IsForest n) h (λ i j m. m)
      (λ i j t. subst (Connected links i) (new-Together n i j t) (itself i)),
  Connected-Together n (new_union_find n) links x y (new-IsForest n) h,
)
