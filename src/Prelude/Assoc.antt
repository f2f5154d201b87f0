-- ===== src/Prelude/Assoc.antt =====
-- A Go map as an association list: the first entry of a key counts. The program sorts the keys
-- wherever the order of iteration could show.
use mathlib.Core.Path.{◌≡◌, refl}
use mathlib.Core.Bool.{Bool}
use mathlib.Core.Option.{Option, none, some}
use mathlib.Core.List.{List, [], ◌∷◌}
use native.Mathlib.Omega.{arith}
use ma_klaude.Prelude.Tests.{if◌then◌else◌}
use ma_klaude.Prelude.Keys.{Comparable, ◌==◌, beq_self}

module _ {K V : Type 0} ⦃c : Comparable K⦄ where
  -- `v, ok := m[want]`.
  unfoldable pub fetch : List (K × V) → K → Option V
  fetch [] want = none
  fetch ((key, v) ∷ rest) want = if key == want then some v else fetch rest want

  -- `m[key] = v`.
  unfoldable pub store : List (K × V) → K → V → List (K × V)
  store [] key v = (key, v) ∷ []
  store ((other, w) ∷ rest) key v =
      if other == key then (other, v) ∷ rest else (other, w) ∷ store rest key v

  pub fetch-store :
      (m : List (K × V)) (key : K) (v : V) (want : K)
      → fetch (store m key v) want ≡ (if key == want then some v else fetch m want)
  unfolding fetch store
  fetch-store [] key v want = refl
  fetch-store ((other, w) ∷ rest) key v want = ground (
    arith,
    fetch-store rest key v want,
    c.decides other key,
    c.decides key want,
    c.decides other want,
  )

  pub fetch-store_self : (m : List (K × V)) (key : K) (v : V) → fetch (store m key v) key ≡ some v
  fetch-store_self m key v = rw (fetch-store m key v key) (rw (beq_self key))

  -- Drop every entry that a test on its key and value does not keep (`delete` in a `range` loop).
  unfoldable pub retain : (K → V → Bool) → List (K × V) → List (K × V)
  retain p [] = []
  retain p ((j, v) ∷ m) = let rest = retain p m in if p j v then (j, v) ∷ rest else rest
