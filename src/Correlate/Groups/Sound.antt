-- ===== src/Correlate/Groups/Sound.antt =====
-- What the pairs of the unions say of the findings.
use ma_klaude.Prelude.{
  ℕ, suc, ◌≡◌, refl, sym, ◌∙◌, ap, subst, inl, inr, String, List, [], ◌∷◌, none, some, Elem,
  Option-cases, string_comparable,
}
use ma_klaude.Prelude.Assoc.{fetch, store}
use ma_klaude.Detect.Finding.{Finding, Object, object_text}
use ma_klaude.Correlate.Groups.{key_of}
use ma_klaude.Correlate.Groups.Relation.{
  IsFrom, IsFrom-first, IsFrom-rest, Labels, Labels-store, Named, same_links, target_links,
}

module _ (m : List (String × ℕ)) (i : ℕ) where
  same_links-new :
      (f : Finding) (fs : List Finding)
      → fetch m (key_of f) ≡ none
      → same_links m i (f ∷ fs) ≡ same_links (store m (key_of f) i) (suc i) fs
  unfolding same_links
  same_links-new f fs e = rw (e, same_links) refl

  same_links-old :
      (f : Finding) (fs : List Finding) (k : ℕ)
      → fetch m (key_of f) ≡ some k
      → same_links m i (f ∷ fs) ≡ ((k, i) ∷ same_links m (suc i) fs)
  unfolding same_links
  same_links-old f fs k e = rw (e, same_links) refl

  target_links-none :
      (t : Object) (ts : List Object)
      → fetch m (object_text t) ≡ none
      → target_links m i (t ∷ ts) ≡ target_links m i ts
  unfolding target_links
  target_links-none t ts e = rw (e, target_links) refl

  target_links-some :
      (t : Object) (ts : List Object) (k : ℕ)
      → fetch m (object_text t) ≡ some k
      → target_links m i (t ∷ ts) ≡ ((i, k) ∷ target_links m i ts)
  unfolding target_links
  target_links-some t ts k e = rw (e, target_links) refl

-- Both ends of a link of step 1 are findings about one object.
pub same_links_sound :
    (all : List Finding) (m : List (String × ℕ)) (i : ℕ) (fs : List Finding) (a b : ℕ)
    → Labels all m
    → IsFrom all i fs
    → Elem (a, b) (same_links m i fs)
    → (key : String) × (Named all a key × Named all b key)
unfolding same_links
same_links_sound all m i [] a b lab at h = absurd h
same_links_sound all m i (f ∷ fs) a b lab at h = elim (Option-cases (fetch m (key_of f))) [
  | inl e ↦
      same_links_sound all (store m (key_of f) i) (suc i) fs a b
        (Labels-store all m (key_of f) i lab (IsFrom-first all i f fs at))
        (IsFrom-rest all i f fs at) (subst (Elem (a, b)) (same_links-new m i f fs e) h)
  | inr (k, e) ↦ elim (subst (Elem (a, b)) (same_links-old m i f fs k e) h) [
    | inl p ↦ (
      key_of f,
      (
        subst (λ n. Named all n (key_of f)) (ap (λ (q : ℕ × ℕ). q.0) p) (lab (key_of f) k e),
        subst (λ n. Named all n (key_of f)) (ap (λ (q : ℕ × ℕ). q.1) p)
            (IsFrom-first all i f fs at),
      ),
    )
    | inr q ↦ same_links_sound all m (suc i) fs a b lab (IsFrom-rest all i f fs at) q
  ]
]

pub target_links_sound :
    (m : List (String × ℕ)) (i : ℕ) (ts : List Object) (a b : ℕ)
    → Elem (a, b) (target_links m i ts)
    → (a ≡ i) × ((t : Object) × (Elem t ts × (fetch m (object_text t) ≡ some b)))
unfolding target_links
target_links_sound m i [] a b h = absurd h
target_links_sound m i (t ∷ ts) a b h = elim (Option-cases (fetch m (object_text t))) [
  | inl e ↦
      let (same, (u, (here, at))) =
        target_links_sound m i ts a b (subst (Elem (a, b)) (target_links-none m i t ts e) h) in
      (same, (u, (inr here, at)))
  | inr (k, e) ↦ elim (subst (Elem (a, b)) (target_links-some m i t ts k e) h) [
    | inl p ↦ (ap (λ (q : ℕ × ℕ). q.0) (sym p), (t, (inl refl, e ∙ ap (λ (q : ℕ × ℕ). some q.1) p)))
    | inr q ↦
        let (same, (u, (here, at))) = target_links_sound m i ts a b q in (same, (u, (inr here, at)))
  ]
]

pub target_links_complete :
    (m : List (String × ℕ)) (i : ℕ) (ts : List Object) (t : Object) (b : ℕ)
    → Elem t ts
    → fetch m (object_text t) ≡ some b
    → Elem (i, b) (target_links m i ts)
unfolding target_links
target_links_complete m i [] t b h e = absurd h
target_links_complete m i (u ∷ ts) t b (inl p) e =
    let here : fetch m (object_text u) ≡ some b = ap (λ o. fetch m (object_text o)) p ∙ e in
    subst (Elem (i, b)) (sym (target_links-some m i u ts b here)) (inl refl)
target_links_complete m i (u ∷ ts) t b (inr h) e = elim (Option-cases (fetch m (object_text u))) [
  | inl q ↦
      subst (Elem (i, b)) (sym (target_links-none m i u ts q))
        (target_links_complete m i ts t b h e)
  | inr (k, q) ↦
      subst (Elem (i, b)) (sym (target_links-some m i u ts k q))
        (inr (target_links_complete m i ts t b h e))
]
