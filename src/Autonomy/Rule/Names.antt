-- ===== src/Autonomy/Rule/Names.antt =====
-- What `validateName` of internal/autonomy/rule.go accepts, said without its loop.
use mathlib.Core.Logic.{◌⊎◌}
use ma_klaude.Prelude.{
  ℕ, suc, ◌+◌, ◌≤◌, String, ◌≡◌, ◌≢◌, ◌↔◌, refl, true, none, List, [], ◌∷◌, arith, eq_iff, length,
  All, and_iff, ◌<◌,
}
use ma_klaude.Prelude.Text.{codes}
use ma_klaude.Autonomy.Rule.{name_char, name_chars, validate_name}

-- A lowercase letter, a digit or a hyphen.
abbrev pub IsNameChar : ℕ → Type 0
IsNameChar c = ((b'a' ≤ c) × (c ≤ b'z')) ⊎ ((b'0' ≤ c) × (c ≤ b'9')) ⊎ (c ≡ b'-')

-- The first character of a list, and its last, is no hyphen.
abbrev pub StartsPlain : List ℕ → Type 0
StartsPlain [] = Unit
StartsPlain (c ∷ cs) = c ≢ b'-'

abbrev pub EndsPlain : List ℕ → Type 0
EndsPlain [] = Unit
EndsPlain (c ∷ []) = c ≢ b'-'
EndsPlain (c ∷ d ∷ cs) = EndsPlain (d ∷ cs)

pub record IsRuleName (name : String) : Type 0 where
  pub nonempty : name ≢ ""
  pub chars : All IsNameChar (codes name)
  pub starts : StartsPlain (codes name)
  pub ends : EndsPlain (codes name)

-- A character with one before it and one behind it.
name_char_inner : (n i c : ℕ) → suc (suc i) < n → (name_char n (suc i) c ≡ true) ↔ IsNameChar c
unfolding name_char
name_char_inner n i c h = (λ t. ground arith, λ t. ground arith)

name_char_first : (n c : ℕ) → (name_char n 0 c ≡ true) ↔ (IsNameChar c × (c ≢ b'-'))
unfolding name_char
name_char_first n c = (λ t. (ground arith, ground arith), λ t. ground arith)

name_char_last : (n i c : ℕ) → n ≡ suc i → (name_char n i c ≡ true) ↔ (IsNameChar c × (c ≢ b'-'))
unfolding name_char
name_char_last n i c e = (λ t. (ground arith, ground arith), λ t. ground arith)

-- Past the first place.
name_chars_inner :
    (n i : ℕ) (cs : List ℕ)
    → n ≡ suc i + length cs
    → (name_chars n (suc i) cs ≡ true) ↔ (All IsNameChar cs × EndsPlain cs)
unfolding name_chars
name_chars_inner n i [] e = (λ h. (tt, tt), λ h. refl)
name_chars_inner n i (c ∷ []) e =
    let here = name_char_last n (suc i) c (omega arith) in
    (
      λ h. let (x, y) = here.0 ((and_iff _ _).0 h).0 in ((x, tt), y),
      λ h. (and_iff _ _).1 (here.1 (h.0.0, h.1), refl),
    )
name_chars_inner n i (c ∷ d ∷ cs) e =
    let ih = name_chars_inner n (suc i) (d ∷ cs) (omega arith) in
    let here = name_char_inner n i c (omega arith) in
    (
      λ h. let (x, y) = (and_iff _ _).0 h in ((here.0 x, (ih.0 y).0), (ih.0 y).1),
      λ h. (and_iff _ _).1 (here.1 h.0.0, ih.1 (h.0.1, h.1)),
    )

name_chars_iff :
    (cs : List ℕ)
    → (name_chars (length cs) 0 cs ≡ true) ↔ (All IsNameChar cs × StartsPlain cs × EndsPlain cs)
unfolding name_chars
name_chars_iff [] = (λ h. (tt, tt, tt), λ h. refl)
name_chars_iff (c ∷ []) =
    let here = name_char_first 1 c in
    (
      λ h. let (x, y) = here.0 ((and_iff _ _).0 h).0 in ((x, tt), y, y),
      λ h. (and_iff _ _).1 (here.1 (h.0.0, h.1), refl),
    )
name_chars_iff (c ∷ d ∷ cs) =
    let inner = name_chars_inner (length (c ∷ d ∷ cs)) 0 (d ∷ cs) (omega arith) in
    let here = name_char_first (length (c ∷ d ∷ cs)) c in
    (
      λ h.
          let (x, y) = (and_iff _ _).0 h in
          let (ok, plain) = here.0 x in ((ok, (inner.0 y).0), plain, (inner.0 y).1),
      λ h. (and_iff _ _).1 (here.1 (h.0.0, h.1), inner.1 (h.0.1, h.2)),
    )

-- A name passes exactly when it is not empty, holds lowercase letters, digits and hyphens only, and
-- neither begins nor ends with a hyphen.
pub validate_name_iff : (name : String) → (validate_name name ≡ none) ↔ IsRuleName name
unfolding validate_name
validate_name_iff name = (
  λ h.
      let (x, y, z) = (name_chars_iff (codes name)).0 (ground arith) in
      record { nonempty = ground (arith, eq_iff name ""); chars = x; starts = y; ends = z },
  λ h. ground (
    arith,
    eq_iff name "",
    (name_chars_iff (codes name)).1 (h.chars, h.starts, h.ends),
    h.nonempty,
  ),
)
