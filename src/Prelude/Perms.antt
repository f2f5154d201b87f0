-- ===== src/Prelude/Perms.antt =====
-- What a rearrangement of a list keeps.
use mathlib.Core.List.{List, Permᴰ}
use mathlib.Core.List.Permᴰ
use mathlib.Core.Path.{sym, subst, ◌∙◌}
use mathlib.Core.Logic.{inl, inr}
use ma_klaude.Prelude.Lists.{Elem, NoDup, All}

module _ {A : Type 0} where
  pub Elem-perm : {xs ys : List A} (x : A) → Permᴰ xs ys → Elem x xs → Elem x ys
  Elem-perm x Permᴰ.nil m = absurd m
  Elem-perm x (Permᴰ.cons e p) (inl h) = inl (sym e ∙ h)
  Elem-perm x (Permᴰ.cons e p) (inr m) = inr (Elem-perm x p m)
  Elem-perm x (Permᴰ.swap e f) (inl h) = inr (inl (sym e ∙ h))
  Elem-perm x (Permᴰ.swap e f) (inr (inl h)) = inl (sym f ∙ h)
  Elem-perm x (Permᴰ.swap e f) (inr (inr m)) = inr (inr m)
  Elem-perm x (Permᴰ.trans p q) m = Elem-perm x q (Elem-perm x p m)

  pub All-perm {κ} : {xs ys : List A} (P : A → Type κ) → Permᴰ xs ys → All P xs → All P ys
  All-perm P Permᴰ.nil h = h
  All-perm P (Permᴰ.cons e p) h = (subst P e h.0, All-perm P p h.1)
  All-perm P (Permᴰ.swap e f) h = (subst P f h.1.0, (subst P e h.0, h.1.1))
  All-perm P (Permᴰ.trans p q) h = All-perm P q (All-perm P p h)

  pub NoDup-perm : {xs ys : List A} → Permᴰ xs ys → NoDup xs → NoDup ys
  NoDup-perm Permᴰ.nil h = h
  NoDup-perm (Permᴰ.cons {l₁ = l} e p) h =
      (λ m. h.0 (subst (λ x. Elem x l) (sym e) (Elem-perm _ (Permᴰ.symm p) m)), NoDup-perm p h.1)
  NoDup-perm (Permᴰ.swap {l = l} e f) h = (
    λ m. elim m [
      | inl g ↦ h.0 (inl (f ∙ sym g ∙ sym e))
      | inr n ↦ h.1.0 (subst (λ x. Elem x l) (sym f) n)
    ],
    (λ m. h.0 (inr (subst (λ x. Elem x l) (sym e) m)), h.1.1),
  )
  NoDup-perm (Permᴰ.trans p q) h = NoDup-perm q (NoDup-perm p h)
