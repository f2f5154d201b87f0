-- ===== src/Prelude/Maps.antt =====
-- Laws of Go maps as association lists with no key twice.
use ma_klaude.Prelude.Tests.{if◌then◌else◌, Bool-cases}
use ma_klaude.Prelude.Keys.{Comparable, ◌==◌, beq_of_ne, ne_of_beq}
use ma_klaude.Prelude.Lists.{Elem, NoDup}
use ma_klaude.Prelude.Assoc.{fetch, store, retain}
use mathlib.Core.Path.{◌≡◌, refl, sym, ◌∙◌, ap, subst}
use mathlib.Core.Logic.{◌⊎◌, inl, inr}
use mathlib.Core.Bool.{Bool}
use mathlib.Core.Option
use mathlib.Core.Option.{Option, none, some}
use mathlib.Core.List.{List, [], ◌∷◌, map}
use native.Mathlib.Omega.{arith}

abbrev pub keys : {K V : Type 0} → List (K × V) → List K
keys = map (λ entry. entry.0)

-- A map: each key comes once.
abbrev pub IsMap : {K V : Type 0} → List (K × V) → Type 0
IsMap m = NoDup (keys m)

-- A function on the values.
abbrev pub map_values : {K V W : Type 0} → (V → W) → List (K × V) → List (K × W)
map_values f = map (λ entry. (entry.0, f entry.1))

abbrev pub keep_if : {K V : Type 0} → (K → V → Bool) → K → Option V → Option V
keep_if p k none = none
keep_if p k (some v) = if p k v then some v else none

module _ {K V : Type 0} ⦃c : Comparable K⦄ where
  pub fetch_absent : (m : List (K × V)) (k : K) → ¬ Elem k (keys m) → fetch m k ≡ none
  unfolding fetch
  fetch_absent [] k n = refl
  fetch_absent ((j, v) ∷ m) k n =
      rw (beq_of_ne j k (λ e. n (inl e))) (fetch_absent m k (λ e. n (inr e)))

  Elem-keys-retain :
      (p : K → V → Bool) (m : List (K × V)) (k : K) → Elem k (keys (retain p m)) → Elem k (keys m)
  unfolding retain
  Elem-keys-retain p [] k h = h
  Elem-keys-retain p ((j, v) ∷ m) k h = elim (Bool-cases (p j v)) [
    | inl t ↦ elim (rw t at h) [ inl e ↦ inl e | inr e ↦ inr (Elem-keys-retain p m k e) ]
    | inr f ↦ inr (Elem-keys-retain p m k (rw f at h))
  ]

  pub retain-IsMap : (p : K → V → Bool) (m : List (K × V)) → IsMap m → IsMap (retain p m)
  unfolding retain
  retain-IsMap p [] h = h
  retain-IsMap p ((j, v) ∷ m) h = elim (Bool-cases (p j v)) [
    | inl t ↦ rw t (λ e. h.0 (Elem-keys-retain p m j e), retain-IsMap p m h.1)
    | inr f ↦ rw f (retain-IsMap p m h.1)
  ]

  pub fetch-retain :
      (p : K → V → Bool) (m : List (K × V)) (k : K)
      → IsMap m
      → fetch (retain p m) k ≡ keep_if p k (fetch m k)
  unfolding fetch retain
  fetch-retain p [] k h = refl
  fetch-retain p ((j, v) ∷ m) k h = elim (Bool-cases (j == k)) [
    | inl t ↦
        let e : j ≡ k = (c.decides j k).0 t in
        let gone : fetch m k ≡ none = fetch_absent m k (subst (λ x. ¬ Elem x (keys m)) e h.0) in
        let ih : fetch (retain p m) k ≡ none = fetch-retain p m k h.1 ∙ ap (keep_if p k) gone in
        rw t (
          subst
            (λ x.
              fetch (if p j v then (j, v) ∷ retain p m else retain p m) k
              ≡ (if p x v then some v else none))
            e (elim (Bool-cases (p j v)) [ inl y ↦ rw y (rw t) | inr n ↦ rw n ih ]))
    | inr f ↦ rw f (elim (Bool-cases (p j v)) [
      | inl y ↦ rw y (rw f (fetch-retain p m k h.1))
      | inr n ↦ rw n (fetch-retain p m k h.1)
    ])
  ]

  Elem-keys-store :
      (m : List (K × V)) (j : K) (v : V) (k : K)
      → Elem k (keys (store m j v))
      → (j ≡ k) ⊎ Elem k (keys m)
  unfolding store
  Elem-keys-store [] j v k (inl e) = inl e
  Elem-keys-store [] j v k (inr e) = absurd e
  Elem-keys-store ((i, w) ∷ m) j v k h = elim (Bool-cases (i == j)) [
    | inl t ↦ inr (rw t at h)
    | inr f ↦ elim (rw f at h) [
      | inl e ↦ inr (inl e)
      | inr e ↦ elim (Elem-keys-store m j v k e) [ inl x ↦ inl x | inr x ↦ inr (inr x) ]
    ]
  ]

  pub store-IsMap : (m : List (K × V)) (j : K) (v : V) → IsMap m → IsMap (store m j v)
  unfolding store
  store-IsMap [] j v h = (λ e. e, tt)
  store-IsMap ((i, w) ∷ m) j v h = elim (Bool-cases (i == j)) [
    | inl t ↦ rw t h
    | inr f ↦ rw f (
      λ e. elim (Elem-keys-store m j v i e) [ inl x ↦ ne_of_beq i j f (sym x) | inr x ↦ h.0 x ],
      store-IsMap m j v h.1,
    )
  ]

module _ {K V W : Type 0} ⦃c : Comparable K⦄ (f : V → W) where
  pub keys-map_values : (m : List (K × V)) → keys (map_values f m) ≡ keys m
  keys-map_values [] = refl
  keys-map_values ((j, v) ∷ m) = ap (λ ks. j ∷ ks) (keys-map_values m)

  pub fetch-map_values :
      (m : List (K × V)) (k : K) → fetch (map_values f m) k ≡ Option.map f (fetch m k)
  unfolding fetch
  fetch-map_values [] k = refl
  fetch-map_values ((j, v) ∷ m) k = ground (arith, fetch-map_values m k)
