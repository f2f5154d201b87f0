-- ===== src/Prelude/Sorts.antt =====
-- Go's `sort.Slice` as an insertion sort, and the order on texts and on a rank before a text.
use Prim.Native.Nat.{ℕ}
use Prim.Native.Char.{code}
use Prim.Native.String.{String}
use mathlib.Core.Path.{◌≡◌, refl, sym}
use mathlib.Core.Bool.{Bool, true, false, false≢true}
use mathlib.Core.Logic.{inl, inr}
use mathlib.Core.List.{List, [], ◌∷◌, Permᴰ}
use mathlib.Core.List.Permᴰ
use native.Mathlib.Omega.{arith}
use ma_klaude.Prelude.Tests.{ltb, nat_beq, if◌then◌else◌, Bool-cases}
use ma_klaude.Prelude.Lists.{All}
use ma_klaude.Prelude.Perms.{All-perm}

-- `s < t` on strings. Code points and the bytes of UTF-8 have the same order.
unfoldable pub text_less : String → String → Bool
text_less String.[] String.[] = false
text_less String.[] (String.◌∷◌ d t) = true
text_less (String.◌∷◌ c s) String.[] = false
text_less (String.◌∷◌ c s) (String.◌∷◌ d t) =
    let rest = text_less s t in if nat_beq (code c) (code d) then rest else ltb (code c) (code d)

-- What `sort.Slice` asks of its `less`.
pub record IsOrder {A : Type 0} (less : A → A → Bool) : Type 0 where
  pub asymmetric : (x y : A) → less x y ≡ true → less y x ≡ false
  pub transitive : (x y z : A) → less x y ≡ false → less y z ≡ false → less x z ≡ false

text_less-asym : (s t : String) → text_less s t ≡ true → text_less t s ≡ false
unfolding text_less
text_less-asym String.[] String.[] h = refl
text_less-asym String.[] (String.◌∷◌ d t) h = refl
text_less-asym (String.◌∷◌ c s) String.[] h = sym h
text_less-asym (String.◌∷◌ c s) (String.◌∷◌ d t) h = ground (arith, text_less-asym s t)

text_less_trans :
    (s t u : String) → text_less s t ≡ false → text_less t u ≡ false → text_less s u ≡ false
unfolding text_less
text_less_trans String.[] String.[] u h k = k
text_less_trans String.[] (String.◌∷◌ d t) u h k = absurd (false≢true (sym h))
text_less_trans (String.◌∷◌ c s) t String.[] h k = refl
text_less_trans (String.◌∷◌ c s) String.[] (String.◌∷◌ e u) h k = absurd (false≢true (sym k))
text_less_trans (String.◌∷◌ c s) (String.◌∷◌ d t) (String.◌∷◌ e u) h k =
    ground (arith, text_less_trans s t u)

pub text_less-IsOrder : IsOrder text_less
text_less-IsOrder = record { asymmetric = text_less-asym; transitive = text_less_trans }

-- The larger rank first, then the smaller text.
abbrev pub ranked : {A : Type 0} → (A → ℕ) → (A → String) → A → A → Bool
ranked rank key x y =
    if nat_beq (rank x) (rank y) then text_less (key x) (key y) else ltb (rank y) (rank x)

pub ranked-IsOrder : {A : Type 0} (rank : A → ℕ) (key : A → String) → IsOrder (ranked rank key)
ranked-IsOrder rank key = record {
  asymmetric = λ x y h. ground (arith, text_less-asym (key x) (key y));
  transitive = λ x y z h k. ground (arith, text_less_trans (key x) (key y) (key z));
}

module _ {A : Type 0} (less : A → A → Bool) where
  unfoldable pub insert_by : A → List A → List A
  insert_by x [] = x ∷ []
  insert_by x (y ∷ ys) = if less y x then y ∷ insert_by x ys else x ∷ y ∷ ys

  unfoldable pub sort_by : List A → List A
  sort_by [] = []
  sort_by (x ∷ xs) = insert_by x (sort_by xs)

  -- No later element is less than an earlier one.
  abbrev pub IsSorted : List A → Type 0
  IsSorted [] = Unit
  IsSorted (x ∷ xs) = All (λ y. less y x ≡ false) xs × IsSorted xs

  insert_by-perm : (x : A) (ys : List A) → Permᴰ (x ∷ ys) (insert_by x ys)
  unfolding insert_by
  insert_by-perm x [] = Permᴰ.cons refl Permᴰ.nil
  insert_by-perm x (y ∷ ys) = elim (Bool-cases (less y x)) [
    | inl t ↦ rw t (Permᴰ.trans (Permᴰ.swap refl refl) (Permᴰ.cons refl (insert_by-perm x ys)))
    | inr f ↦ rw f (Permᴰ.refl (x ∷ y ∷ ys))
  ]

  pub sort_by-perm : (xs : List A) → Permᴰ xs (sort_by xs)
  unfolding sort_by
  sort_by-perm [] = Permᴰ.nil
  sort_by-perm (x ∷ xs) =
      Permᴰ.trans (Permᴰ.cons refl (sort_by-perm xs)) (insert_by-perm x (sort_by xs))

  module _ (o : IsOrder less) where
    below :
        (x y : A) (ys : List A)
        → less y x ≡ false
        → All (λ z. less z y ≡ false) ys
        → All (λ z. less z x ≡ false) ys
    below x y [] h k = tt
    below x y (z ∷ ys) h k = (o.transitive z y x k.0 h, below x y ys h k.1)

    insert_by-IsSorted : (x : A) (ys : List A) → IsSorted ys → IsSorted (insert_by x ys)
    unfolding insert_by
    insert_by-IsSorted x [] s = (tt, tt)
    insert_by-IsSorted x (y ∷ ys) s = elim (Bool-cases (less y x)) [
      | inl t ↦ rw t (
        All-perm (λ z. less z y ≡ false) (insert_by-perm x ys) (o.asymmetric y x t, s.0),
        insert_by-IsSorted x ys s.1,
      )
      | inr f ↦ rw f ((f, below x y ys f s.0), s)
    ]

    pub sort_by-IsSorted : (xs : List A) → IsSorted (sort_by xs)
    unfolding sort_by
    sort_by-IsSorted [] = tt
    sort_by-IsSorted (x ∷ xs) = insert_by-IsSorted x (sort_by xs) (sort_by-IsSorted xs)
