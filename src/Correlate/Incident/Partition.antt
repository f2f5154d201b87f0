-- ===== src/Correlate/Incident/Partition.antt =====
-- Every finding lands in one incident.
pub mod Components
use mathlib.Core.List.{◌++◌ as ◌+++◌, append_assoc, Permᴰ}
use mathlib.Core.List.Permᴰ
use ma_klaude.Prelude.{
  Option, none, ◌<◌, ap₂, ℕ, zero, suc, ◌+◌, Bool, true, false, List, [], ◌∷◌, map, length, nat_beq,
  if◌then◌else◌, arith, ◌≡◌, ◌≢◌, refl, sym, ◌∙◌, ap, subst, inl, inr, ◌⊎◌, All, Elem, NoDup,
  Bool-cases, nat_beq_iff, Elem-append, nat_comparable,
}
use ma_klaude.Prelude.Arrays.{get_or}
use ma_klaude.Prelude.Assoc.{fetch, store}
use ma_klaude.Prelude.Perms.{NoDup-perm}
use ma_klaude.Prelude.Sorts.{sort_by-perm}
use ma_klaude.Health.{Snapshot}
use ma_klaude.Detect.Finding.{Finding}
use ma_klaude.Correlate.UnionFind.{UnionFind, upwards, find}
use ma_klaude.Correlate.UnionFind.Forest.{same_or_not, nat_beq_of_ne}
use ma_klaude.Correlate.Groups.{unions}
use ma_klaude.Correlate.Incident.{
  some, Incident, findings_of, members_of, gather, more_primary, pick, others, by_identity,
  build_incident, build_all, more_urgent, components, correlate, finding_at,
}

-- The numbers in all components.
abbrev indices : List (ℕ × List ℕ) → List ℕ
indices [] = []
indices ((root, members) ∷ groups) = members +++ indices groups

-- The findings of all incidents.
abbrev pub all_findings : List Incident → List Finding
all_findings [] = []
all_findings (incident ∷ incidents) = findings_of incident +++ all_findings incidents

abbrev pub members_or_nil : Option (List ℕ) → List ℕ
members_or_nil o = elim o [ none ↦ [] | some members ↦ members ]

store-perm :
    (groups : List (ℕ × List ℕ)) (root i : ℕ) (ws : List ℕ)
    → members_of groups root ≡ ws
    → Permᴰ (indices (store groups root (ws +++ (i ∷ [])))) (i ∷ indices groups)
unfolding store fetch
store-perm [] root i ws h =
    subst (λ l. Permᴰ (l +++ (i ∷ []) +++ []) (i ∷ [])) h (Permᴰ.refl (i ∷ []))
store-perm ((other, w) ∷ groups) root i ws h = elim (Bool-cases (nat_beq other root)) [
  | inl t ↦
      let same : w ≡ ws =
        sym (ap (λ b. members_or_nil (if b then some w else fetch groups root)) t) ∙ h in
      rw t (
        subst (λ l. Permᴰ ((l +++ (i ∷ [])) +++ indices groups) (i ∷ (w +++ indices groups))) same
          (subst (λ l. Permᴰ l (i ∷ (w +++ indices groups)))
            (sym (append_assoc w (i ∷ []) (indices groups))) (Permᴰ.middle i w (indices groups))))
  | inr t ↦
      let same : members_of groups root ≡ ws =
        sym (ap (λ b. members_or_nil (if b then some w else fetch groups root)) t) ∙ h in
      rw t (
        Permᴰ.trans (Permᴰ.append_left w (store-perm groups root i ws same))
          (Permᴰ.middle i w (indices groups)))
]

gather-perm :
    (uf : UnionFind) (groups : List (ℕ × List ℕ)) (i : ℕ) (fs : List Finding)
    → Permᴰ (indices (gather uf groups i fs)) (upwards (length fs) i +++ indices groups)
unfolding gather
gather-perm uf groups i [] = Permᴰ.refl (indices groups)
gather-perm uf groups i (f ∷ fs) =
    let root = (find uf i).1 in
    let groups' = store groups root (members_of groups root +++ (i ∷ [])) in
    Permᴰ.trans (gather-perm (find uf i).0 groups' (suc i) fs) (
      Permᴰ.trans
        (Permᴰ.append_left (upwards (length fs) (suc i))
          (store-perm groups root i (members_of groups root) refl))
        (Permᴰ.middle i (upwards (length fs) (suc i)) (indices groups)))

others-absent : (p : ℕ) (members : List ℕ) → ¬ Elem p members → others p members ≡ members
unfolding others
others-absent p [] n = refl
others-absent p (i ∷ members) n =
    rw (nat_beq_of_ne i p (λ e. n (inl e))) (ap (◌∷◌ i) (others-absent p members (λ m. n (inr m))))

-- The primary and the others are the members.
others-perm :
    (p : ℕ) (members : List ℕ)
    → NoDup members
    → Elem p members
    → Permᴰ (p ∷ others p members) members
unfolding others
others-perm p [] d m = absurd m
others-perm p (i ∷ members) d m = elim (same_or_not i p) [
  | inl e ↦ rw ((nat_beq_iff i p).1 e) (
      Permᴰ.cons (sym e) (
        subst (λ l. Permᴰ l members)
          (sym (others-absent p members (λ k. d.0 (subst (λ n. Elem n members) (sym e) k))))
          (Permᴰ.refl members)))
  | inr e ↦ elim m [
    | inl e' ↦ absurd (e e')
    | inr k ↦
        rw (nat_beq_of_ne i p e)
          (Permᴰ.trans (Permᴰ.swap refl refl) (Permᴰ.cons refl (others-perm p members d.1 k)))
  ]
]

map-perm : {A B : Type 0} (f : A → B) {xs ys : List A} → Permᴰ xs ys → Permᴰ (map f xs) (map f ys)
map-perm f Permᴰ.nil = Permᴰ.nil
map-perm f (Permᴰ.cons e p) = Permᴰ.cons (ap f e) (map-perm f p)
map-perm f (Permᴰ.swap e e') = Permᴰ.swap (ap f e) (ap f e')
map-perm f (Permᴰ.trans p q) = Permᴰ.trans (map-perm f p) (map-perm f q)

NoDup-append : (xs ys : List ℕ) → NoDup (xs +++ ys) → NoDup xs × NoDup ys
NoDup-append [] ys d = (tt, d)
NoDup-append (x ∷ xs) ys d =
    let (dx, dy) = NoDup-append xs ys d.1 in ((λ m. d.0 (Elem-append x xs ys m), dx), dy)

module _ (nth : ℕ → Finding) where
  pick-Elem : (first : ℕ) (rest : List ℕ) → Elem (pick nth first rest) (first ∷ rest)
  unfolding pick
  pick-Elem first [] = inl refl
  pick-Elem first (i ∷ rest) =
      let step : (b : Bool)
          → more_primary (nth i) (nth first) ≡ b
          → pick nth (if b then i else first) rest ≡ pick nth first (i ∷ rest) =
        λ b t. ap (λ c. pick nth (if c then i else first) rest) (sym t) in
      elim (Bool-cases (more_primary (nth i) (nth first))) [
        | inl t ↦ subst (λ k. Elem k (first ∷ i ∷ rest)) (step true t) (inr (pick-Elem i rest))
        | inr t ↦
            subst (λ k. Elem k (first ∷ i ∷ rest)) (step false t)
              (elim (pick-Elem first rest) [ inl e ↦ inl e | inr m ↦ inr (inr m) ])
      ]

  build-perm :
      (first : ℕ) (rest : List ℕ)
      → NoDup (first ∷ rest)
      → Permᴰ (findings_of (build_incident nth first rest)) (map nth (first ∷ rest))
  unfolding build_incident
  build-perm first rest d =
      let k = pick nth first rest in
      let effects = map nth (others k (first ∷ rest)) in
      Permᴰ.trans (Permᴰ.cons refl (Permᴰ.symm (sort_by-perm by_identity effects)))
        (map-perm nth (others-perm k (first ∷ rest) d (pick-Elem first rest)))

  map-append : (xs ys : List ℕ) → map nth (xs +++ ys) ≡ (map nth xs +++ map nth ys)
  map-append [] ys = refl
  map-append (x ∷ xs) ys = ap (◌∷◌ (nth x)) (map-append xs ys)

  build_all-perm :
      (groups : List (ℕ × List ℕ))
      → NoDup (indices groups)
      → Permᴰ (all_findings (build_all nth groups)) (map nth (indices groups))
  unfolding build_all
  build_all-perm [] d = Permᴰ.nil
  build_all-perm ((root, []) ∷ groups) d = build_all-perm groups d
  build_all-perm ((root, first ∷ rest) ∷ groups) d =
      let (here, there) = NoDup-append (first ∷ rest) (indices groups) d in
      let built = build_all nth groups in
      subst (Permᴰ (findings_of (build_incident nth first rest) +++ all_findings built))
        (sym (map-append (first ∷ rest) (indices groups)))
        (Permᴰ.trans (Permᴰ.append_right (all_findings built) (build-perm first rest here))
          (Permᴰ.append_left (map nth (first ∷ rest)) (build_all-perm groups there)))

append-swap : (xs ys zs : List Finding) → Permᴰ (xs +++ (ys +++ zs)) (ys +++ (xs +++ zs))
append-swap [] ys zs = Permᴰ.refl (ys +++ zs)
append-swap (x ∷ xs) ys zs =
    Permᴰ.trans (Permᴰ.cons refl (append-swap xs ys zs))
      (Permᴰ.symm (Permᴰ.middle x ys (xs +++ zs)))

all_findings-perm :
    {xs ys : List Incident} → Permᴰ xs ys → Permᴰ (all_findings xs) (all_findings ys)
all_findings-perm Permᴰ.nil = Permᴰ.nil
all_findings-perm (Permᴰ.cons {a = a} {l₁ = l} {l₂ = l'} e p) =
    subst (λ b. Permᴰ (all_findings (a ∷ l)) (findings_of b +++ all_findings l')) e
      (Permᴰ.append_left (findings_of a) (all_findings-perm p))
all_findings-perm (Permᴰ.swap {a = a} {b = b} {l = l} e e') =
    subst
      (λ (q : Incident × Incident). Permᴰ (all_findings (a ∷ b ∷ l)) (all_findings (q.0 ∷ q.1 ∷ l)))
      (ap₂ (λ x y. (x, y)) e' e) (append-swap (findings_of a) (findings_of b) (all_findings l))
all_findings-perm (Permᴰ.trans p q) = Permᴰ.trans (all_findings-perm p) (all_findings-perm q)

upwards-above : (n i j : ℕ) → i < j → ¬ Elem i (upwards n j)
upwards-above zero i j h m = m
upwards-above (suc n) i j h (inl e) = omega (arith, e)
upwards-above (suc n) i j h (inr m) = upwards-above n i (suc j) (omega arith) m

upwards-NoDup : (n i : ℕ) → NoDup (upwards n i)
upwards-NoDup zero i = tt
upwards-NoDup (suc n) i = (upwards-above n i (suc i) (omega arith), upwards-NoDup n (suc i))

nth-upwards :
    (d : Finding) (all fs : List Finding) (i : ℕ)
    → ((k : ℕ) → get_or all (i + k) d ≡ get_or fs k d)
    → map (finding_at d all) (upwards (length fs) i) ≡ fs
nth-upwards d all [] i h = refl
nth-upwards d all (f ∷ fs) i h =
    ap₂ (◌∷◌) (ap (λ n. get_or all n d) (omega arith) ∙ h 0)
      (nth-upwards d all fs (suc i) (λ k. ap (λ n. get_or all n d) (omega arith) ∙ h (suc k)))

-- The findings of all incidents, counted with their repetitions, are the findings: none is dropped
-- and none stands in two incidents.
pub correlate-perm :
    (snap : Snapshot) (findings : List Finding)
    → Permᴰ (all_findings (correlate snap findings)) findings
unfolding correlate components
correlate-perm snap [] = Permᴰ.nil
correlate-perm snap (f ∷ fs) =
    let all = f ∷ fs in
    let groups = gather (unions snap all) [] 0 all in
    let numbers : Permᴰ (indices groups) (upwards (length all) 0) =
      Permᴰ.trans (gather-perm (unions snap all) [] 0 all)
        (Permᴰ.append-nil (upwards (length all) 0)) in
    let apart = NoDup-perm (Permᴰ.symm numbers) (upwards-NoDup (length all) 0) in
    let built = build_all (finding_at f all) groups in
    Permᴰ.trans (Permᴰ.symm (all_findings-perm (sort_by-perm more_urgent built))) (
      Permᴰ.trans (build_all-perm (finding_at f all) groups apart) (
        subst (Permᴰ (map (finding_at f all) (indices groups)))
          (nth-upwards f all all 0 (λ k. ap (λ n. get_or all n f) (omega arith)))
          (map-perm (finding_at f all) numbers)))
