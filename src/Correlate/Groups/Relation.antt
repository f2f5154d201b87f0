-- ===== src/Correlate/Groups/Relation.antt =====
-- The unions as pairs of findings: which pairs there are.
use mathlib.Core.List.{◌++◌ as ◌+++◌}
use mathlib.Core.Option.{some_inj, none-ne-some}
use ma_klaude.Prelude.{
  Bool-cases, ℕ, zero, suc, ◌+◌, ◌≡◌, ◌⊎◌, refl, sym, ◌∙◌, ap, subst, inl, inr, String, List, [],
  ◌∷◌, none, some, get_elem?, Elem, Option-cases, if◌then◌else◌, ◌==◌, string_comparable, arith,
  eq_iff,
}
use ma_klaude.Prelude.Assoc.{fetch-store_self, fetch, store, fetch-store}
use ma_klaude.Detect.Finding.{Finding, Object, object_text}
use ma_klaude.Correlate.UnionFind.{UnionFind, union}
use ma_klaude.Correlate.UnionFind.Union.Links.{unite}
use ma_klaude.Correlate.Groups.{key_of, index_objects, union_same, union_targets, union_causes}

-- The unions of step 1 as pairs.
unfoldable pub same_links : List (String × ℕ) → ℕ → List Finding → List (ℕ × ℕ)
same_links m i [] = []
same_links m i (f ∷ fs) = elim (fetch m (key_of f)) [
  | none ↦ same_links (store m (key_of f) i) (suc i) fs
  | some first ↦ (first, i) ∷ same_links m (suc i) fs
]

unfoldable pub target_links : List (String × ℕ) → ℕ → List Object → List (ℕ × ℕ)
target_links by_object i [] = []
target_links by_object i (target ∷ targets) = elim (fetch by_object (object_text target)) [
  | none ↦ target_links by_object i targets
  | some j ↦ (i, j) ∷ target_links by_object i targets
]

unfoldable pub cause_links :
    (Finding → List Object) → List (String × ℕ) → ℕ → List Finding → List (ℕ × ℕ)
cause_links causes by_object i [] = []
cause_links causes by_object i (f ∷ fs) =
    target_links by_object i (causes f) +++ cause_links causes by_object (suc i) fs

pub unite-append :
    (uf : UnionFind) (xs ys : List (ℕ × ℕ)) → unite uf (xs +++ ys) ≡ unite (unite uf xs) ys
unfolding unite
unite-append uf [] ys = refl
unite-append uf ((i, j) ∷ xs) ys = unite-append (union uf i j) xs ys

pub union_same-unite :
    (m : List (String × ℕ)) (uf : UnionFind) (i : ℕ) (fs : List Finding)
    → union_same m uf i fs ≡ unite uf (same_links m i fs)
unfolding union_same same_links unite
union_same-unite m uf i [] = refl
union_same-unite m uf i (f ∷ fs) = elim (Option-cases (fetch m (key_of f))) [
  | inl e ↦ rw (e, union_same, same_links) (union_same-unite (store m (key_of f) i) uf (suc i) fs)
  | inr (k, e) ↦ rw (e, union_same, same_links) (union_same-unite m (union uf k i) (suc i) fs)
]

union_targets-unite :
    (m : List (String × ℕ)) (uf : UnionFind) (i : ℕ) (ts : List Object)
    → union_targets m uf i ts ≡ unite uf (target_links m i ts)
unfolding union_targets target_links unite
union_targets-unite m uf i [] = refl
union_targets-unite m uf i (t ∷ ts) = elim (Option-cases (fetch m (object_text t))) [
  | inl e ↦ rw (e, union_targets, target_links) (union_targets-unite m uf i ts)
  | inr (k, e) ↦ rw (e, union_targets, target_links) (union_targets-unite m (union uf i k) i ts)
]

pub union_causes-unite :
    (causes : Finding → List Object) (m : List (String × ℕ)) (uf : UnionFind) (i : ℕ)
    (fs : List Finding)
    → union_causes causes m uf i fs ≡ unite uf (cause_links causes m i fs)
unfolding union_causes cause_links unite
union_causes-unite causes m uf i [] = refl
union_causes-unite causes m uf i (f ∷ fs) =
    union_causes-unite causes m (union_targets m uf i (causes f)) (suc i) fs
    ∙ ap (λ u. unite u (cause_links causes m (suc i) fs)) (union_targets-unite m uf i (causes f))
    ∙ sym (unite-append uf (target_links m i (causes f)) (cause_links causes m (suc i) fs))

-- A finding of the list with its number and the text that names its object.
abbrev pub Named : List Finding → ℕ → String → Type 0
Named all k key = (f : Finding) × ((get_elem? all k ≡ some f) × (key_of f ≡ key))

-- A map that sends the text of an object to a finding about it.
abbrev pub Labels : List Finding → List (String × ℕ) → Type 0
Labels all m = (key : String) (k : ℕ) → fetch m key ≡ some k → Named all k key

-- The rest of a list from number `i` on.
abbrev pub IsFrom : List Finding → ℕ → List Finding → Type 0
IsFrom all i fs = (k : ℕ) → get_elem? fs k ≡ get_elem? all (i + k)

pub IsFrom-rest :
    (all : List Finding) (i : ℕ) (f : Finding) (fs : List Finding)
    → IsFrom all i (f ∷ fs)
    → IsFrom all (suc i) fs
IsFrom-rest all i f fs at k = at (suc k) ∙ ap (get_elem? all) (omega arith)

pub IsFrom-first :
    (all : List Finding) (i : ℕ) (f : Finding) (fs : List Finding)
    → IsFrom all i (f ∷ fs)
    → Named all i (key_of f)
IsFrom-first all i f fs at = (f, (sym (at 0 ∙ ap (get_elem? all) (omega arith)), refl))

pub Labels-store :
    (all : List Finding) (m : List (String × ℕ)) (key : String) (i : ℕ)
    → Labels all m
    → Named all i key
    → Labels all (store m key i)
Labels-store all m key i lab named want k e = elim (Bool-cases (key == want)) [
  | inl t ↦
      let same = (eq_iff key want).0 t in
      let here : some k ≡ some i =
        sym e ∙ fetch-store m key i want ∙ ap (λ b. if b then some i else fetch m want) t in
      subst (λ n. Named all n want) (sym (some_inj.0 here)) (subst (Named all i) same named)
  | inr t ↦
      lab want k
        (sym (fetch-store m key i want ∙ ap (λ b. if b then some i else fetch m want) t) ∙ e)
]

pub index_objects-Labels :
    (all : List Finding) (m : List (String × ℕ)) (i : ℕ) (fs : List Finding)
    → Labels all m
    → IsFrom all i fs
    → Labels all (index_objects m i fs)
unfolding index_objects
index_objects-Labels all m i [] lab at = lab
index_objects-Labels all m i (f ∷ fs) lab at = elim (Option-cases (fetch m (key_of f))) [
  | inl e ↦
      rw (e, index_objects)
        (index_objects-Labels all (store m (key_of f) i) (suc i) fs
          (Labels-store all m (key_of f) i lab (IsFrom-first all i f fs at))
          (IsFrom-rest all i f fs at))
  | inr (k, e) ↦
      rw (e, index_objects) (index_objects-Labels all m (suc i) fs lab (IsFrom-rest all i f fs at))
]

store-kept :
    (m : List (String × ℕ)) (new : String) (i : ℕ) (key : String) (k : ℕ)
    → fetch m new ≡ none
    → fetch m key ≡ some k
    → fetch (store m new i) key ≡ some k
store-kept m new i key k e h = elim (Bool-cases (new == key)) [
  | inl t ↦ absurd (none-ne-some _ (sym e ∙ ap (fetch m) ((eq_iff new key).0 t) ∙ h))
  | inr t ↦ fetch-store m new i key ∙ ap (λ b. if b then some i else fetch m key) t ∙ h
]

index_objects-keeps :
    (m : List (String × ℕ)) (i : ℕ) (fs : List Finding) (key : String) (k : ℕ)
    → fetch m key ≡ some k
    → fetch (index_objects m i fs) key ≡ some k
unfolding index_objects
index_objects-keeps m i [] key k h = h
index_objects-keeps m i (f ∷ fs) key k h = elim (Option-cases (fetch m (key_of f))) [
  | inl e ↦
      rw (e, index_objects)
        (index_objects-keeps (store m (key_of f) i) (suc i) fs key k
          (store-kept m (key_of f) i key k e h))
  | inr (j, e) ↦ rw (e, index_objects) (index_objects-keeps m (suc i) fs key k h)
]

moved_on :
    (i k a : ℕ) (links : List (ℕ × ℕ))
    → (a ≡ suc i + k) ⊎ Elem (a, suc i + k) links
    → (a ≡ i + suc k) ⊎ Elem (a, i + suc k) links
moved_on i k a links from =
    let same : suc i + k ≡ i + suc k = omega arith in
    subst (λ j. (a ≡ j) ⊎ Elem (a, j) links) same from

-- The index gives every finding a first one of its object, to which step 1 links it.
pub same_links_complete :
    (m : List (String × ℕ)) (i : ℕ) (fs : List Finding) (k : ℕ) (f : Finding)
    → get_elem? fs k ≡ some f
    → (a : ℕ) × ((fetch (index_objects m i fs) (key_of f) ≡ some a)
        × ((a ≡ i + k) ⊎ Elem (a, i + k) (same_links m i fs)))
unfolding index_objects same_links
same_links_complete m i [] k f h = absurd (none-ne-some _ h)
same_links_complete m i (g ∷ fs) zero f h =
    let is_f : key_of g ≡ key_of f = ap key_of (some_inj.0 h) in
    elim (Option-cases (fetch m (key_of g))) [
      | inl e ↦
          rw (e, index_objects, same_links)
            (
              i,
              (
                index_objects-keeps (store m (key_of g) i) (suc i) fs (key_of f) i (
                    subst (λ key. fetch (store m (key_of g) i) key ≡ some i) is_f
                      (fetch-store_self m (key_of g) i)),
                inl (omega arith),
              ),
            )
      | inr (a, e) ↦
          rw (e, index_objects, same_links)
            (
              a,
              (
                index_objects-keeps m (suc i) fs (key_of f) a
                    (subst (λ key. fetch m key ≡ some a) is_f e),
                inr (inl (ap (λ j. (a, j)) (omega arith))),
              ),
            )
    ]
same_links_complete m i (g ∷ fs) (suc k) f h = elim (Option-cases (fetch m (key_of g))) [
  | inl e ↦
      let (a, (at, from)) = same_links_complete (store m (key_of g) i) (suc i) fs k f h in
      rw (e, index_objects, same_links)
        (a, (at, moved_on i k a (same_links (store m (key_of g) i) (suc i) fs) from))
  | inr (b, e) ↦
      let (a, (at, from)) = same_links_complete m (suc i) fs k f h in
      rw (e, index_objects, same_links)
        (
          a,
          (
            at,
            elim (moved_on i k a (same_links m (suc i) fs) from) [
              | inl q ↦ inl q
              | inr q ↦ inr (inr q)
            ],
          ),
        )
]
