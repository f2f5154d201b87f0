-- ===== src/Prelude/Keys.antt =====
-- Types whose values the program compares with Go's `==`: numbers, texts, and what is built of them.
use Prim.Native.Nat.{ℕ}
use Prim.Native.String.{String}
use mathlib.Core.Path.{◌≡◌, refl}
use mathlib.Core.Logic.{◌≢◌, ◌↔◌, inl, inr}
use mathlib.Core.Bool.{Bool, true, false, ◌||◌}
use mathlib.Core.List.{List, [], ◌∷◌}
use native.Mathlib.Omega.{arith}
use text.Mathlib.Text.{◌==◌ as str_beq}
use text.Mathlib.TextEquality.{eq_iff}
use ma_klaude.Prelude.Tests.{nat_beq, nat_beq_iff, Bool-cases}
use ma_klaude.Prelude.Lists.{Elem}

-- Go's `==` on a comparable type, with what it decides.
pub record Comparable (A : Type 0) : Type 0 where
  pub same : A → A → Bool
  pub decides : (x y : A) → (same x y ≡ true) ↔ (x ≡ y)

instance abbrev pub string_comparable : Comparable String
string_comparable = record { same = str_beq; decides = eq_iff }

instance abbrev pub nat_comparable : Comparable ℕ
nat_comparable = record { same = nat_beq; decides = nat_beq_iff }

infix 50 ◌==◌
abbrev pub ◌==◌ : {A : Type 0} ⦃c : Comparable A⦄ → A → A → Bool
◌==◌ ⦃c⦄ x y = c.same x y

module _ {A : Type 0} ⦃c : Comparable A⦄ where
  pub beq_self : (a : A) → (a == a) ≡ true
  beq_self a = (c.decides a a).1 refl

  pub beq_of_ne : (a b : A) → a ≢ b → (a == b) ≡ false
  beq_of_ne a b h = elim (Bool-cases (a == b)) [
    | inl t ↦ absurd (h ((c.decides a b).0 t))
    | inr f ↦ f
  ]

  pub ne_of_beq : (a b : A) → (a == b) ≡ false → a ≢ b
  ne_of_beq a b h p = cc (h, (c.decides a b).1 p)

  -- The lookup in a Go `map[T]bool` or a scan of a slice for one value.
  unfoldable pub contains : List A → A → Bool
  contains [] want = false
  contains (v ∷ vs) want = v == want || contains vs want

  pub contains→Elem : (vs : List A) (want : A) → contains vs want ≡ true → Elem want vs
  unfolding contains
  contains→Elem [] want h = cc
  contains→Elem (v ∷ vs) want h = elim (Bool-cases (v == want)) [
    | inl t ↦ inl ((c.decides v want).0 t)
    | inr f ↦ inr (contains→Elem vs want (rw f at h))
  ]

  pub Elem→contains : (vs : List A) (want : A) → Elem want vs → contains vs want ≡ true
  unfolding contains
  Elem→contains [] want h = absurd h
  Elem→contains (v ∷ vs) want (inl p) = rw (p, beq_self want)
  Elem→contains (v ∷ vs) want (inr q) = ground (arith, Elem→contains vs want q)

  pub contains-false : (vs : List A) (want : A) → (contains vs want ≡ false) ↔ ¬ Elem want vs
  contains-false vs want = (
    λ h q. cc (h, Elem→contains vs want q),
    λ n. elim (Bool-cases (contains vs want)) [
      | inl t ↦ absurd (n (contains→Elem vs want t))
      | inr f ↦ f
    ],
  )
