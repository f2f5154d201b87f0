-- ===== src/Correlate/Groups/Classes.antt =====
-- Which findings the unions bring together: the classes of a relation that names no index.
use mathlib.Core.List.{◌++◌ as ◌+++◌}
use mathlib.Core.Option.{some_inj, none-ne-some}
use ma_klaude.Prelude.{
  Elem-split, Elem-after, ℕ, zero, suc, ◌+◌, ◌<◌, ◌≡◌, ◌↔◌, refl, sym, ◌∙◌, ap, subst, inl, inr,
  String, List, [], ◌∷◌, some, length, get_elem?, Elem, All, Elem-append, string_comparable, arith,
}
use ma_klaude.Prelude.Assoc.{fetch}
use ma_klaude.Health.{Snapshot}
use ma_klaude.Detect.Finding.{Finding, Object, object_text}
use ma_klaude.Correlate.UnionFind.{new_union_find}
use ma_klaude.Correlate.UnionFind.Forest.{IsForest, new-IsForest}
use ma_klaude.Correlate.UnionFind.Union.{Together}
use ma_klaude.Correlate.UnionFind.Union.Links.{
  unite, unite-IsForest, unite-Connected, Connected, linked, itself, back, through, Inside,
}
use ma_klaude.Correlate.Groups.{index_objects, union_same, causes_of, unions}
use ma_klaude.Correlate.Groups.Relation.{
  same_links, target_links, cause_links, unite-append, union_same-unite, union_causes-unite, Named,
  Labels, IsFrom, IsFrom-rest, index_objects-Labels, same_links_complete,
}
use ma_klaude.Correlate.Groups.Sound.{target_links_complete}
use ma_klaude.Correlate.Groups.Sound.{target_links_sound}
use ma_klaude.Correlate.Groups.Sound.{same_links_sound}

-- Two findings of a list, by number: about one object, or the second about an object that the
-- first points to as its cause; and what follows by symmetry and transitivity.
pub data Related (causes : Finding → List Object) (all : List Finding) : ℕ → ℕ → Type 0 where
  same_object :
      (i j : ℕ) (key : String) → Named all i key → Named all j key → Related causes all i j
  cause :
      (i j : ℕ) (f : Finding) (target : Object)
      → get_elem? all i ≡ some f
      → Elem target (causes f)
      → Named all j (object_text target)
      → Related causes all i j
  alone : (i : ℕ) → Related causes all i i
  swapped : (i j : ℕ) → Related causes all i j → Related causes all j i
  chained : (i j k : ℕ) → Related causes all i j → Related causes all j k → Related causes all i k

-- The pairs that the two steps unite.
all_links : (Finding → List Object) → List Finding → List (ℕ × ℕ)
all_links causes all = same_links [] 0 all +++ cause_links causes (index_objects [] 0 all) 0 all

inside_of : (all : List Finding) (k : ℕ) (f : Finding) → get_elem? all k ≡ some f → k < length all
inside_of [] k f h = absurd (none-ne-some _ h)
inside_of (g ∷ all) zero f h = omega arith
inside_of (g ∷ all) (suc k) f h = omega (arith, inside_of all k f h)

All-of : {A : Type 0} (P : A → Type 0) (xs : List A) → ((x : A) → Elem x xs → P x) → All P xs
All-of P [] h = tt
All-of P (x ∷ xs) h = (h x (inl refl), All-of P xs (λ y m. h y (inr m)))

module _ (causes : Finding → List Object) (all : List Finding) where
  at_first :
      (i : ℕ) (f : Finding) (fs : List Finding) → IsFrom all i (f ∷ fs) → get_elem? all i ≡ some f
  at_first i f fs at = sym (at 0 ∙ ap (get_elem? all) (omega arith))

  -- A pair of step 2, taken apart.
  cause_links_sound :
      (m : List (String × ℕ)) (i : ℕ) (fs : List Finding) (a b : ℕ)
      → IsFrom all i fs
      → Elem (a, b) (cause_links causes m i fs)
      → (f : Finding) × ((get_elem? all a ≡ some f)
          × ((t : Object) × (Elem t (causes f) × (fetch m (object_text t) ≡ some b))))
  unfolding cause_links
  cause_links_sound m i [] a b at h = absurd h
  cause_links_sound m i (f ∷ fs) a b at h =
      elim (Elem-split (a, b) (target_links m i (causes f)) (cause_links causes m (suc i) fs) h) [
        | inl k ↦
            let (same, found) = target_links_sound m i (causes f) a b k in
            (f, (ap (get_elem? all) same ∙ at_first i f fs at, found))
        | inr k ↦ cause_links_sound m (suc i) fs a b (IsFrom-rest all i f fs at) k
      ]

  cause_links_complete :
      (m : List (String × ℕ)) (i : ℕ) (fs : List Finding) (k : ℕ) (f : Finding) (t : Object) (b : ℕ)
      → get_elem? fs k ≡ some f
      → Elem t (causes f)
      → fetch m (object_text t) ≡ some b
      → Elem (i + k, b) (cause_links causes m i fs)
  unfolding cause_links
  cause_links_complete m i [] k f t b h c e = absurd (none-ne-some _ h)
  cause_links_complete m i (g ∷ fs) zero f t b h c e =
      let here : Elem (i, b) (target_links m i (causes g)) =
        target_links_complete m i (causes g) t b
          (subst (λ d. Elem t (causes d)) (sym (some_inj.0 h)) c) e in
      subst (λ n. Elem (n, b) (target_links m i (causes g) +++ cause_links causes m (suc i) fs))
        (omega arith)
        (Elem-append (i, b) (target_links m i (causes g)) (cause_links causes m (suc i) fs) here)
  cause_links_complete m i (g ∷ fs) (suc k) f t b h c e =
      let rest = cause_links_complete m (suc i) fs k f t b h c e in
      Elem-after (i + suc k, b) (target_links m i (causes g)) (cause_links causes m (suc i) fs)
        (subst (λ n. Elem (n, b) (cause_links causes m (suc i) fs)) (omega arith) rest)

  -- The index of the first findings.
  abbrev by_object : List (String × ℕ)
  by_object = index_objects [] 0 all

  IsFrom-start : IsFrom all 0 all
  IsFrom-start k = ap (get_elem? all) (omega arith)

  no-Labels : Labels all []
  unfolding fetch
  no-Labels key k e = absurd (none-ne-some _ e)

  by_object-Labels : Labels all by_object
  by_object-Labels = index_objects-Labels all [] 0 all no-Labels IsFrom-start

  -- A pair relates two findings of the list.
  link-Related : (a b : ℕ) → Elem (a, b) (all_links causes all) → Related causes all a b
  unfolding all_links
  link-Related a b h =
      elim (Elem-split (a, b) (same_links [] 0 all) (cause_links causes by_object 0 all) h) [
        | inl k ↦
            let (key, (na, nb)) = same_links_sound all [] 0 all a b no-Labels IsFrom-start k in
            same_object a b key na nb
        | inr k ↦
            let (f, (at, (t, (c, e)))) = cause_links_sound by_object 0 all a b IsFrom-start k in
            cause a b f t at c (by_object-Labels (object_text t) b e)
      ]

  link-Inside : (a b : ℕ) → Elem (a, b) (all_links causes all) → Inside (length all) (a, b)
  unfolding all_links
  link-Inside a b h =
      elim (Elem-split (a, b) (same_links [] 0 all) (cause_links causes by_object 0 all) h) [
        | inl k ↦
            let (key, ((f, (na, _)), (g, (nb, _)))) =
              same_links_sound all [] 0 all a b no-Labels IsFrom-start k in
            (inside_of all a f na, inside_of all b g nb)
        | inr k ↦
            let (f, (at, (t, (c, e)))) = cause_links_sound by_object 0 all a b IsFrom-start k in
            let (g, (nb, _)) = by_object-Labels (object_text t) b e in
            (inside_of all a f at, inside_of all b g nb)
      ]

  all_links-Inside : All (Inside (length all)) (all_links causes all)
  all_links-Inside =
      All-of (Inside (length all)) (all_links causes all) (λ (a, b) h. link-Inside a b h)

  Connected-Related : (i j : ℕ) → Connected (all_links causes all) i j → Related causes all i j
  Connected-Related i j (linked _ _ h) = link-Related i j h
  Connected-Related i j (itself _) = alone i
  Connected-Related i j (back _ _ c) = swapped j i (Connected-Related j i c)
  Connected-Related i j (through _ k _ c d) =
      chained i k j (Connected-Related i k c) (Connected-Related k j d)

  -- A finding is connected to the first one about its object.
  to_first :
      (i : ℕ) (key : String)
      → Named all i key
      → (a : ℕ) × ((fetch by_object key ≡ some a) × Connected (all_links causes all) a i)
  unfolding all_links
  to_first i key (f, (at, named)) =
      let (a, (first, from)) = same_links_complete [] 0 all i f at in
      let joined : Connected (all_links causes all) a i = elim from [
        | inl e ↦
            subst (λ n. Connected (all_links causes all) n i) (sym (e ∙ omega arith)) (itself i)
        | inr h ↦ linked a i (
            subst (λ n. Elem (a, n) (all_links causes all)) (omega arith)
              (Elem-append (a, 0 + i) (same_links [] 0 all) (cause_links causes by_object 0 all) h))
      ] in
      (a, (subst (λ k. fetch by_object k ≡ some a) named first, joined))

  Related-Connected : (i j : ℕ) → Related causes all i j → Connected (all_links causes all) i j
  unfolding all_links
  Related-Connected i j (same_object _ _ key ni nj) =
      let (a, (e, c)) = to_first i key ni in
      let (b, (e', d)) = to_first j key nj in
      let same : b ≡ a = some_inj.0 (sym e' ∙ e) in
      through i a j (back a i c) (subst (λ n. Connected (all_links causes all) n j) same d)
  Related-Connected i j (cause _ _ f t at c nj) =
      let (a, (e, d)) = to_first j (object_text t) nj in
      let step = cause_links_complete by_object 0 all i f t a at c e in
      let link =
        Elem-after (0 + i, a) (same_links [] 0 all) (cause_links causes by_object 0 all) step in
      through i a j
        (linked i a (subst (λ n. Elem (n, a) (all_links causes all)) (omega arith) link)) d
  Related-Connected i j (alone _) = itself i
  Related-Connected i j (swapped _ _ r) = back j i (Related-Connected j i r)
  Related-Connected i j (chained _ k _ r q) =
      through i k j (Related-Connected i k r) (Related-Connected k j q)

module _ (snap : Snapshot) (findings : List Finding) where
  unions-unite :
      unions snap findings
      ≡ unite (new_union_find (length findings)) (all_links (causes_of snap findings) findings)
  unfolding unions all_links
  unions-unite =
      union_causes-unite (causes_of snap findings) (index_objects [] 0 findings)
        (union_same [] (new_union_find (length findings)) 0 findings) 0 findings
      ∙ ap
          (λ u.
            unite u
              (cause_links (causes_of snap findings) (index_objects [] 0 findings) 0 findings))
          (union_same-unite [] (new_union_find (length findings)) 0 findings)
      ∙ sym (
          unite-append (new_union_find (length findings)) (same_links [] 0 findings)
            (cause_links (causes_of snap findings) (index_objects [] 0 findings) 0 findings))

  pub unions-IsForest : IsForest (length findings) (unions snap findings)
  unions-IsForest = subst (IsForest (length findings)) (sym unions-unite) (
      unite-IsForest (length findings) (new_union_find (length findings))
        (all_links (causes_of snap findings) findings) (new-IsForest (length findings))
        (all_links-Inside (causes_of snap findings) findings))

  -- After the unions two findings have one root exactly if they are about one object, or one points
  -- to the other's object as its cause, or a chain of such steps leads from one to the other.
  pub unions-Related :
      (i j : ℕ)
      → Together (unions snap findings) i j ↔ Related (causes_of snap findings) findings i j
  unions-Related i j =
      let links = all_links (causes_of snap findings) findings in
      let whole =
        unite-Connected (length findings) links i j
          (all_links-Inside (causes_of snap findings) findings) in
      (
        λ t.
            Connected-Related (causes_of snap findings) findings i j
              (whole.0 (subst (λ u. Together u i j) unions-unite t)),
        λ r.
            subst (λ u. Together u i j) (sym unions-unite)
              (whole.1 (Related-Connected (causes_of snap findings) findings i j r)),
      )
