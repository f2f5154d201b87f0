-- ===== src/Correlate/UnionFind/Forest.antt =====
-- Forests: the size grows from every slot to its parent, so every slot reaches a root.
use ma_klaude.Prelude.{
  ℕ, zero, suc, ◌+◌, ◌≤◌, ◌<◌, ◌≡◌, ◌≢◌, refl, ◌∙◌, ap, subst, ◌⊎◌, inl, inr, false, length,
  nat_beq, arith, Bool-cases, nat_beq_iff,
}
use ma_klaude.Prelude.Arrays.{get_or, sum, get_or-le-sum}
use ma_klaude.Correlate.UnionFind.{UnionFind, parent_of, size_of, upwards, ones, new_union_find}

pub same_or_not : (a b : ℕ) → (a ≡ b) ⊎ (a ≢ b)
same_or_not a b = elim (Bool-cases (nat_beq a b)) [
  | inl t ↦ inl ((nat_beq_iff a b).0 t)
  | inr t ↦ inr (λ e. ground (arith, nat_beq_iff a b))
]

pub nat_beq_of_ne : (a b : ℕ) → a ≢ b → nat_beq a b ≡ false
nat_beq_of_ne a b m = elim (Bool-cases (nat_beq a b)) [
  | inl t ↦ absurd (m ((nat_beq_iff a b).0 t))
  | inr t ↦ t
]

-- A forest over `n` slots.
pub record IsForest (n : ℕ) (uf : UnionFind) : Type 0 where
  pub parents : length uf.parent ≡ n
  pub sizes : length uf.size ≡ n
  pub inside : (x : ℕ) → x < n → parent_of uf x < n
  pub positive : (x : ℕ) → x < n → 0 < size_of uf x
  pub grows : (x : ℕ) → parent_of uf x ≢ x → size_of uf x < size_of uf (parent_of uf x)

-- The root of the tree that a slot stands in.
pub data Reaches (uf : UnionFind) : ℕ → ℕ → Type 0 where
  here : (x : ℕ) → parent_of uf x ≡ x → Reaches uf x x
  up : (x r : ℕ) → parent_of uf x ≢ x → Reaches uf (parent_of uf x) r → Reaches uf x r

pub Reaches-root : (uf : UnionFind) (x r : ℕ) → Reaches uf x r → parent_of uf r ≡ r
Reaches-root uf x r (here _ e) = e
Reaches-root uf x r (up _ _ n w) = Reaches-root uf (parent_of uf x) r w

pub Reaches-unique : (uf : UnionFind) (x r s : ℕ) → Reaches uf x r → Reaches uf x s → r ≡ s
Reaches-unique uf x r s (here _ e) (here _ e') = refl
Reaches-unique uf x r s (here _ e) (up _ _ n w) = absurd (n e)
Reaches-unique uf x r s (up _ _ n w) (here _ e) = absurd (n e)
Reaches-unique uf x r s (up _ _ n w) (up _ _ n' w') = Reaches-unique uf (parent_of uf x) r s w w'

Reaches-within :
    (fuel n : ℕ) (uf : UnionFind) (x : ℕ)
    → IsForest n uf
    → sum uf.size ≤ fuel + size_of uf x
    → (r : ℕ) × Reaches uf x r
Reaches-within zero n uf x f h = elim (Bool-cases (nat_beq (parent_of uf x) x)) [
  | inl t ↦ (x, here x ((nat_beq_iff (parent_of uf x) x).0 t))
  | inr f' ↦
      let more = f.grows x (λ e. ground (arith, nat_beq_iff (parent_of uf x) x)) in
      absurd (omega (arith, more, get_or-le-sum uf.size (parent_of uf x)))
]
Reaches-within (suc fuel) n uf x f h = elim (Bool-cases (nat_beq (parent_of uf x) x)) [
  | inl t ↦ (x, here x ((nat_beq_iff (parent_of uf x) x).0 t))
  | inr f' ↦
      let up_there : parent_of uf x ≢ x = λ e. ground (arith, nat_beq_iff (parent_of uf x) x) in
      let more = f.grows x up_there in
      let (r, w) = Reaches-within fuel n uf (parent_of uf x) f (omega (arith, more)) in
      (r, up x r up_there w)
]

-- Every slot has a root.
pub root_of : (n : ℕ) (uf : UnionFind) (x : ℕ) → IsForest n uf → (r : ℕ) × Reaches uf x r
root_of n uf x f = Reaches-within (sum uf.size) n uf x f (omega arith)

-- A root that a slot inside reaches is inside.
pub Reaches-inside :
    (n : ℕ) (uf : UnionFind) (x r : ℕ) → IsForest n uf → Reaches uf x r → x < n → r < n
Reaches-inside n uf x r f (here _ e) h = h
Reaches-inside n uf x r f (up _ _ m w) h = Reaches-inside n uf (parent_of uf x) r f w (f.inside x h)

get_or-upwards : (n i j : ℕ) → get_or (upwards n i) j (i + j) ≡ i + j
get_or-upwards zero i j = refl
get_or-upwards (suc n) i zero = omega arith
get_or-upwards (suc n) i (suc j) =
    ap (get_or (upwards n (suc i)) j) (omega arith) ∙ get_or-upwards n (suc i) j ∙ omega arith

length-upwards : (n i : ℕ) → length (upwards n i) ≡ n
length-upwards zero i = refl
length-upwards (suc n) i = omega (arith, length-upwards n (suc i))

length-ones : (n : ℕ) → length (ones n) ≡ n
length-ones zero = refl
length-ones (suc n) = omega (arith, length-ones n)

get_or-ones : (n j : ℕ) → j < n → get_or (ones n) j 0 ≡ 1
get_or-ones zero j h = absurd (omega arith)
get_or-ones (suc n) zero h = refl
get_or-ones (suc n) (suc j) h = get_or-ones n j (omega arith)

pub new-parent : (n x : ℕ) → parent_of (new_union_find n) x ≡ x
unfolding new_union_find
new-parent n x = subst (λ d. get_or (upwards n 0) x d ≡ d) (omega arith) (get_or-upwards n 0 x)

pub new-IsForest : (n : ℕ) → IsForest n (new_union_find n)
new-IsForest n = record {
  parents = unfold new_union_find in length-upwards n 0;
  sizes = unfold new_union_find in length-ones n;
  inside = λ x h. omega (arith, new-parent n x, h);
  positive = λ x h. unfold new_union_find in omega (arith, get_or-ones n x h);
  grows = λ x h. absurd (h (new-parent n x));
}
