-- ===== src/Correlate/Groups.antt =====
-- The unions of `Correlate` in internal/correlate/correlate.go: findings about one object, then
-- findings along the structural edges.
pub mod Relation
pub mod Sound
pub mod Classes
use Prim.Native.String.{◌++◌}
use mathlib.Core.List.{◌++◌ as ◌+++◌}
use ma_klaude.Prelude.{
  ℕ, suc, String, List, [], ◌∷◌, Option, none, some, length, if◌then◌else◌, ◌==◌, string_comparable,
}
use ma_klaude.Prelude.Assoc.{fetch, store}
use ma_klaude.Health.{Snapshot, PodSignal}
use ma_klaude.Detect.Finding.{Finding, Object, object_text}
use ma_klaude.Correlate.UnionFind.{UnionFind, new_union_find, union}
use ma_klaude.Correlate.Edges.{names_in, cause_objects}

-- The text that names the object of a finding.
abbrev pub key_of : Finding → String
key_of f = object_text f.object

-- The loop that fills `findingByObject`, from index `i` on: the first finding stays.
unfoldable pub index_objects : List (String × ℕ) → ℕ → List Finding → List (String × ℕ)
index_objects m i [] = m
index_objects m i (f ∷ fs) = elim (fetch m (key_of f)) [
  | none ↦ index_objects (store m (key_of f) i) (suc i) fs
  | some k ↦ index_objects m (suc i) fs
]

-- The loop that fills `deployNamesByNS`.
unfoldable pub deploy_names :
    List (String × List String) → List Finding → List (String × List String)
deploy_names m [] = m
deploy_names m (f ∷ fs) =
    let ns = f.object.namespace in
    deploy_names
      (if f.object.kind == "deployment"
        then store m ns (names_in m ns +++ (f.object.name ∷ []))
        else m)
      fs

-- The loop that fills `podByKey`: the last pod of a key stays.
unfoldable pub index_pods : List (String × PodSignal) → List PodSignal → List (String × PodSignal)
index_pods m [] = m
index_pods m (p ∷ ps) = index_pods (store m (p.namespace ++ "/" ++ p.name) p) ps

-- Step 1, with `firstByObject`, from index `i` on.
unfoldable pub union_same : List (String × ℕ) → UnionFind → ℕ → List Finding → UnionFind
union_same m uf i [] = uf
union_same m uf i (f ∷ fs) = elim (fetch m (key_of f)) [
  | none ↦ union_same (store m (key_of f) i) uf (suc i) fs
  | some first ↦ union_same m (union uf first i) (suc i) fs
]

-- The inner loop of step 2: the targets of finding `i`.
unfoldable pub union_targets : List (String × ℕ) → UnionFind → ℕ → List Object → UnionFind
union_targets by_object uf i [] = uf
union_targets by_object uf i (target ∷ targets) = elim (fetch by_object (object_text target)) [
  | none ↦ union_targets by_object uf i targets
  | some j ↦ union_targets by_object (union uf i j) i targets
]

-- Step 2, from index `i` on, with the causes of each finding.
unfoldable pub union_causes :
    (Finding → List Object) → List (String × ℕ) → UnionFind → ℕ → List Finding → UnionFind
union_causes causes by_object uf i [] = uf
union_causes causes by_object uf i (f ∷ fs) =
    union_causes causes by_object (union_targets by_object uf i (causes f)) (suc i) fs

-- `causeObjects` with the maps that `Correlate` has built.
unfoldable pub causes_of : Snapshot → List Finding → Finding → List Object
causes_of snap findings f = cause_objects f (index_pods [] snap.pods) (deploy_names [] findings)

-- The union-find after steps 1 and 2.
unfoldable pub unions : Snapshot → List Finding → UnionFind
unions snap findings =
    let same = union_same [] (new_union_find (length findings)) 0 findings in
    union_causes (causes_of snap findings) (index_objects [] 0 findings) same 0 findings
