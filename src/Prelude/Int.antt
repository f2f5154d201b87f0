-- ===== src/Prelude/Int.antt =====
-- Go's signed `int` and `time.Duration` as integers, and instants as nanoseconds after Go's zero
-- time. Comparison is on the integer; `Sub` saturates at the ends of a 64-bit duration.
use Prim.Native.Nat.{ℕ, ◌-◌, min}
use mathlib.Core.Path.{◌≡◌, refl, sym, ap, subst}
use mathlib.Core.Logic.{◌↔◌}
use mathlib.Core.Bool.{Bool, true, false, false≢true}
use ma_klaude.Prelude.Tests.{ltb, leb, nat_beq, nat_beq_iff, if◌then◌else◌}

-- `negsuc n` is -(n + 1).
pub data ℤ : Type 0 where
  pos : ℕ → ℤ
  negsuc : ℕ → ℤ

abbrev pub ltb_ℤ : ℤ → ℤ → Bool
ltb_ℤ (pos a) (pos b) = ltb a b
ltb_ℤ (pos a) (negsuc b) = false
ltb_ℤ (negsuc a) (pos b) = true
ltb_ℤ (negsuc a) (negsuc b) = ltb b a

abbrev pub leb_ℤ : ℤ → ℤ → Bool
leb_ℤ (pos a) (pos b) = leb a b
leb_ℤ (pos a) (negsuc b) = false
leb_ℤ (negsuc a) (pos b) = true
leb_ℤ (negsuc a) (negsuc b) = leb b a

abbrev pub eqb_ℤ : ℤ → ℤ → Bool
eqb_ℤ (pos a) (pos b) = nat_beq a b
eqb_ℤ (pos a) (negsuc b) = false
eqb_ℤ (negsuc a) (pos b) = false
eqb_ℤ (negsuc a) (negsuc b) = nat_beq a b

-- An instant; `UTC()` does not change it, and the zero `time.Time` is 0.
abbrev pub Time : Type 0
Time = ℕ

abbrev pub max_duration : ℕ
max_duration = 9223372036854775807

-- `t.Sub(u)`.
unfoldable pub time_sub : Time → Time → ℤ
time_sub t u =
    if leb u t then pos (min (t - u) max_duration) else negsuc (min (u - t - 1) max_duration)

abbrev pub is_zero : Time → Bool
is_zero t = nat_beq t 0

pub eqb_ℤ_iff : (a : ℤ) (n : ℕ) → (eqb_ℤ a (pos n) ≡ true) ↔ (a ≡ pos n)
eqb_ℤ_iff (pos a) n = (
  λ h. ap pos ((nat_beq_iff a n).0 h),
  λ e. subst (λ x. eqb_ℤ x (pos n) ≡ true) (sym e) ((nat_beq_iff n n).1 refl),
)
eqb_ℤ_iff (negsuc a) n = (
  λ h. absurd (false≢true h),
  λ e. subst (λ x. eqb_ℤ x (pos n) ≡ true) (sym e) ((nat_beq_iff n n).1 refl),
)
