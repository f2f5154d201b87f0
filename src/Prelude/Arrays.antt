-- ===== src/Prelude/Arrays.antt =====
-- Go slices that are written in place: a read and a write at an index, on lists.
use Prim.Native.Nat.{ℕ, zero, suc, ◌+◌, ◌≤◌}
use mathlib.Core.Path.{◌≡◌, refl}
use mathlib.Core.Bool.{◌&&◌}
use mathlib.Core.List.{List, [], ◌∷◌}
use native.Mathlib.Omega.{arith}
use ma_klaude.Prelude.Tests.{ltb, nat_beq, if◌then◌else◌}
use ma_klaude.Prelude.Lists.{length}

-- `xs[i]`; `d` stands for the panic past the end.
abbrev pub get_or {ℓ} : {A : Type ℓ} → List A → ℕ → A → A
get_or [] i d = d
get_or (x ∷ xs) zero d = x
get_or (x ∷ xs) (suc i) d = get_or xs i d

-- `xs[i] = v`.
abbrev pub set_at {ℓ} : {A : Type ℓ} → List A → ℕ → A → List A
set_at [] i v = []
set_at (x ∷ xs) zero v = v ∷ xs
set_at (x ∷ xs) (suc i) v = x ∷ set_at xs i v

abbrev pub sum : List ℕ → ℕ
sum [] = 0
sum (x ∷ xs) = x + sum xs

pub length-set_at {ℓ} :
    {A : Type ℓ} (xs : List A) (i : ℕ) (v : A) → length (set_at xs i v) ≡ length xs
length-set_at [] i v = refl
length-set_at (x ∷ xs) zero v = refl
length-set_at (x ∷ xs) (suc i) v = omega (arith, length-set_at xs i v)

pub get_or-set_at {ℓ} :
    {A : Type ℓ} (xs : List A) (i : ℕ) (v : A) (j : ℕ) (d : A)
    → get_or (set_at xs i v) j d ≡ (if nat_beq i j && ltb i (length xs) then v else get_or xs j d)
get_or-set_at [] i v j d = ground arith
get_or-set_at (x ∷ xs) zero v zero d = ground arith
get_or-set_at (x ∷ xs) zero v (suc j) d = ground arith
get_or-set_at (x ∷ xs) (suc i) v zero d = ground arith
get_or-set_at (x ∷ xs) (suc i) v (suc j) d = ground (arith, get_or-set_at xs i v j d)

pub get_or-le-sum : (xs : List ℕ) (i : ℕ) → get_or xs i 0 ≤ sum xs
get_or-le-sum [] i = omega arith
get_or-le-sum (x ∷ xs) zero = omega arith
get_or-le-sum (x ∷ xs) (suc i) = omega (arith, get_or-le-sum xs i)
