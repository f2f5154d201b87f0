-- ===== src/Correlate/UnionFind.antt =====
-- The union-find of internal/correlate/correlate.go. The two slices are lists.
pub mod Forest
pub mod Find
pub mod Union
pub mod Unites
use ma_klaude.Prelude.{
  ℕ, zero, suc, ◌+◌, Bool, ◌&&◌, ◌||◌, List, [], ◌∷◌, ltb, nat_beq, if◌then◌else◌,
}
use ma_klaude.Prelude.Arrays.{get_or, set_at, sum}

-- A slot that is never read (past the end) would be its own parent, with size 0.
pub record UnionFind : Type 0 where
  pub parent : List ℕ
  pub size : List ℕ

abbrev pub parent_of : UnionFind → ℕ → ℕ
parent_of uf i = get_or uf.parent i i

abbrev pub size_of : UnionFind → ℕ → ℕ
size_of uf i = get_or uf.size i 0

-- `n` numbers from `i` on.
abbrev pub upwards : ℕ → ℕ → List ℕ
upwards zero i = []
upwards (suc n) i = i ∷ upwards n (suc i)

abbrev pub ones : ℕ → List ℕ
ones zero = []
ones (suc n) = 1 ∷ ones n

-- `newUnionFind`.
unfoldable pub new_union_find : ℕ → UnionFind
new_union_find n = record { parent = upwards n 0; size = ones n }

-- One round of the loop of `find`: the parent of `i` becomes its grandparent.
unfoldable pub halve : UnionFind → ℕ → UnionFind
halve uf i = record uf { parent = set_at uf.parent i (parent_of uf (parent_of uf i)) }

-- The loop of `find`, with a bound on its rounds.
unfoldable pub find_loop : ℕ → UnionFind → ℕ → UnionFind × ℕ
find_loop zero uf i = (uf, i)
find_loop (suc fuel) uf i =
    let uf' = halve uf i in
    let rest = find_loop fuel uf' (parent_of uf' i) in
    if nat_beq (parent_of uf i) i then (uf, i) else rest

-- `find`. Each round meets a larger size, so the sum of the sizes bounds the rounds.
unfoldable pub find : UnionFind → ℕ → UnionFind × ℕ
find uf i = find_loop (sum uf.size) uf i

-- The last two lines of `union`: `rj` goes under `ri`.
unfoldable pub link : UnionFind → ℕ → ℕ → UnionFind
link uf ri rj = record {
  parent = set_at uf.parent rj ri;
  size = set_at uf.size ri (size_of uf ri + size_of uf rj);
}

-- The test under which `union` swaps the two roots.
unfoldable pub swaps : UnionFind → ℕ → ℕ → Bool
swaps uf ri rj =
    ltb (size_of uf ri) (size_of uf rj) || (nat_beq (size_of uf ri) (size_of uf rj) && ltb rj ri)

-- What `union` does with the two roots.
unfoldable pub join : UnionFind → ℕ → ℕ → UnionFind
join uf ri rj =
    if nat_beq ri rj then uf else if swaps uf ri rj then link uf rj ri else link uf ri rj

-- `union`.
unfoldable pub union : UnionFind → ℕ → ℕ → UnionFind
union uf i j = let (uf₁, ri) = find uf i in let (uf₂, rj) = find uf₁ j in join uf₂ ri rj
