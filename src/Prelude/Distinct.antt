-- ===== src/Prelude/Distinct.antt =====
-- A loop that checks each element and remembers the keys that it has seen finds no problem exactly
-- when every element is in order and no key comes twice.
use ma_klaude.Prelude.Lists.{Elem, NoDup, All, Fresh, Fresh-cons, Fresh-nil}
use Prim.Native.Nat.{ℕ, suc}
use mathlib.Core.Path.{◌≡◌}
use mathlib.Core.Logic.{◌↔◌}
use mathlib.Core.Option.{Option, none}
use mathlib.Core.List.{List, [], ◌∷◌, map}

module _ {A B E : Type 0} (key : B → A) (Ok : B → Type 0) (loop : ℕ → List A → List B → Option E)
    (stop : (i : ℕ) (seen : List A) → loop i seen [] ≡ none)
    (step : (i : ℕ) (seen : List A) (b : B) (bs : List B)
      → (loop i seen (b ∷ bs) ≡ none)
        ↔ (Ok b × (¬ Elem (key b) seen) × (loop (suc i) (key b ∷ seen) bs ≡ none))) where
  pub distinct_iff :
      (i : ℕ) (seen : List A) (bs : List B)
      → (loop i seen bs ≡ none) ↔ (All Ok bs × NoDup (map key bs) × Fresh seen (map key bs))
  distinct_iff i seen [] = (λ h. (tt, tt, tt), λ h. stop i seen)
  distinct_iff i seen (b ∷ bs) =
      let ih = distinct_iff (suc i) (key b ∷ seen) bs in
      let here = step i seen b bs in
      let fresh = Fresh-cons (key b) seen (map key bs) in
      (
        λ h.
            let (fine, unseen, more) = here.0 h in
            let (rest, apart, new) = ih.0 more in
            ((fine, rest), ((fresh.0 new).0, apart), (unseen, (fresh.0 new).1)),
        λ h. here.1 (h.0.0, h.2.0, ih.1 (h.0.1, h.1.1, fresh.1 (h.1.0, h.2.1))),
      )

  pub distinct_from_nothing_iff :
      (i : ℕ) (bs : List B) → (loop i [] bs ≡ none) ↔ (All Ok bs × NoDup (map key bs))
  distinct_from_nothing_iff i bs = (
    λ h. let (fine, apart, _) = (distinct_iff i [] bs).0 h in (fine, apart),
    λ h. (distinct_iff i [] bs).1 (h.0, h.1, Fresh-nil (map key bs)),
  )
