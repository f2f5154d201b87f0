-- ===== src/Rules/Results.antt =====
-- Go's pair of a value and an error, of which one is there.
use mathlib.Core.Option.{Option, none, some, some_inj, none-ne-some}
use ma_klaude.Prelude.{
  sym, inl, inr, ◌⊎◌, false≢true, false, true, if◌then◌else◌, Bool, ◌≡◌, ◌↔◌, refl, ◌∙◌, ap,
}

pub data Result (E A : Type 0) : Type 0 where
  err : E → Result E A
  ok : A → Result E A

-- `if err != nil { return err }`, and what follows.
abbrev pub and_then : {E A B : Type 0} → Result E A → (A → Result E B) → Result E B
and_then (err e) k = err e
and_then (ok a) k = k a

module _ {E A : Type 0} where
  abbrev value : Result E A → Option A
  value (err e) = none
  value (ok a) = some a

  pub ok_inj : {a b : A} → Path (Result E A) (ok a) (ok b) → a ≡ b
  ok_inj p = some_inj.0 (ap value p)

  pub err≢ok : {e : E} {a : A} → ¬ Path (Result E A) (err e) (ok a)
  err≢ok p = none-ne-some _ (ap value p)

pub and_then_iff :
    {E A B : Type 0} (m : Result E A) (k : A → Result E B) (b : B)
    → (and_then m k ≡ ok b) ↔ ((a : A) × ((m ≡ ok a) × (k a ≡ ok b)))
and_then_iff (err e) k b = (λ h. absurd (err≢ok h), λ (a, (p, q)). absurd (err≢ok p))
and_then_iff (ok a) k b = (λ h. (a, (refl, h)), λ (c, (p, q)). ap k (ok_inj p) ∙ q)

-- A guard that returns an error.
pub guard_iff :
    {E A : Type 0} (b : Bool) (e : E) (m : Result E A) (a : A)
    → ((if b then err e else m) ≡ ok a) ↔ ((b ≡ false) × (m ≡ ok a))
guard_iff true e m a = (λ h. absurd (err≢ok h), λ (p, q). absurd (false≢true (sym p)))
guard_iff false e m a = (λ h. (refl, h), λ (p, q). q)

pub choose_iff :
    {E A : Type 0} (b : Bool) (m n : Result E A) (a : A)
    → ((if b then m else n) ≡ ok a) ↔ (((b ≡ true) × (m ≡ ok a)) ⊎ ((b ≡ false) × (n ≡ ok a)))
choose_iff true m n a =
    (λ h. inl (refl, h), λ h. elim h [ inl (p, q) ↦ q | inr (p, q) ↦ absurd (false≢true (sym p)) ])
choose_iff false m n a =
    (λ h. inr (refl, h), λ h. elim h [ inl (p, q) ↦ absurd (false≢true p) | inr (p, q) ↦ q ])
