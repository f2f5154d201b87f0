-- ===== src/Prelude/Lists.antt =====
-- Lists measured by native numbers, predicates over their elements, and membership by recursion.
use Prim.Native.Nat.{ℕ, zero, suc, ◌+◌}
use mathlib.Core.Path.{◌≡◌, sym}
use mathlib.Core.Logic.{◌⊎◌, ◌↔◌, inl, inr}
use mathlib.Core.Bool.{Bool, true, false}
use mathlib.Core.Option.{Option, none, some}
use mathlib.Core.List.{List, [], ◌∷◌, ◌++◌}
use native.Mathlib.Omega.{arith}

module _ {ℓ} {A : Type ℓ} where
  abbrev pub length : List A → ℕ
  length [] = 0
  length (x ∷ xs) = suc (length xs)

  abbrev pub is_empty : List A → Bool
  is_empty [] = true
  is_empty (x ∷ xs) = false

  abbrev pub get_elem? : List A → ℕ → Option A
  get_elem? [] i = none
  get_elem? (x ∷ xs) zero = some x
  get_elem? (x ∷ xs) (suc i) = get_elem? xs i

  abbrev pub take : ℕ → List A → List A
  take zero xs = []
  take (suc n) [] = []
  take (suc n) (x ∷ xs) = x ∷ take n xs

  abbrev pub drop : ℕ → List A → List A
  drop zero xs = xs
  drop (suc n) [] = []
  drop (suc n) (x ∷ xs) = drop n xs

  pub length-append : (xs ys : List A) → length (xs ++ ys) ≡ length xs + length ys
  length-append [] ys = omega arith
  length-append (x ∷ xs) ys = omega (arith, length-append xs ys)

  abbrev pub All {κ} : (A → Type κ) → List A → Type κ
  All P [] = Unit
  All P (x ∷ xs) = P x × All P xs

module _ {A : Type 0} where
  -- Membership that a proof can take apart.
  abbrev pub Elem : A → List A → Type 0
  Elem a [] = ⊥
  Elem a (x ∷ xs) = (x ≡ a) ⊎ Elem a xs

  abbrev pub NoDup : List A → Type 0
  NoDup [] = Unit
  NoDup (x ∷ xs) = ¬ Elem x xs × NoDup xs

  -- No element of the second list is in the first.
  abbrev pub Fresh : List A → List A → Type 0
  Fresh seen = All (λ v. ¬ Elem v seen)

  pub Fresh-cons : (v : A) (seen vs : List A) → Fresh (v ∷ seen) vs ↔ (¬ Elem v vs × Fresh seen vs)
  Fresh-cons v seen [] = (λ h. (λ e. e, tt), λ h. tt)
  Fresh-cons v seen (u ∷ vs) =
      let ih = Fresh-cons v seen vs in
      (
        λ h. (
          λ e. elim e [ inl p ↦ h.0 (inl (sym p)) | inr q ↦ (ih.0 h.1).0 q ],
          (λ e. h.0 (inr e), (ih.0 h.1).1),
        ),
        λ h. (
          λ e. elim e [ inl p ↦ h.0 (inl (sym p)) | inr q ↦ h.1.0 q ],
          ih.1 (λ e. h.0 (inr e), h.1.1),
        ),
      )

  pub Fresh-nil : (vs : List A) → Fresh [] vs
  Fresh-nil [] = tt
  Fresh-nil (v ∷ vs) = (λ e. e, Fresh-nil vs)

  pub Elem-append : (x : A) (xs ys : List A) → Elem x xs → Elem x (xs ++ ys)
  Elem-append x [] ys m = absurd m
  Elem-append x (y ∷ xs) ys (inl e) = inl e
  Elem-append x (y ∷ xs) ys (inr m) = inr (Elem-append x xs ys m)

  pub Elem-after : (x : A) (xs ys : List A) → Elem x ys → Elem x (xs ++ ys)
  Elem-after x [] ys m = m
  Elem-after x (y ∷ xs) ys m = inr (Elem-after x xs ys m)

  pub Elem-split : (x : A) (xs ys : List A) → Elem x (xs ++ ys) → Elem x xs ⊎ Elem x ys
  Elem-split x [] ys m = inr m
  Elem-split x (y ∷ xs) ys (inl e) = inl (inl e)
  Elem-split x (y ∷ xs) ys (inr m) = elim (Elem-split x xs ys m) [
    | inl k ↦ inl (inr k)
    | inr k ↦ inr k
  ]
