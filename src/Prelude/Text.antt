-- ===== src/Prelude/Text.antt =====
-- `strings.TrimSpace` over the characters of a text.
use Prim.Native.Nat.{ℕ}
use Prim.Native.Char.{Char, code}
use Prim.Native.String.{String}
use mathlib.Core.Path.{◌≡◌, refl}
use mathlib.Core.Bool.{Bool, ◌&&◌, ◌||◌}
use mathlib.Core.List.{List, [], ◌∷◌}
use ma_klaude.Prelude.Tests.{leb, nat_beq, if◌then◌else◌}

-- `unicode.IsSpace`.
unfoldable pub is_space : ℕ → Bool
is_space c =
    (leb 9 c && leb c 13)
    || nat_beq c 32
    || nat_beq c 0x85
    || nat_beq c 0xa0
    || nat_beq c 0x1680
    || (leb 0x2000 c && leb c 0x200a)
    || nat_beq c 0x2028
    || nat_beq c 0x2029
    || nat_beq c 0x202f
    || nat_beq c 0x205f
    || nat_beq c 0x3000

-- The code points of a text.
abbrev pub codes : String → List ℕ
codes String.[] = []
codes (String.◌∷◌ c s) = code c ∷ codes s

unfoldable pub trim_left : String → String
unfolding is_space
trim_left String.[] = String.[]
trim_left (String.◌∷◌ c s) =
    let rest = trim_left s in if is_space (code c) then rest else String.◌∷◌ c s

-- A character before trailing space: it stays unless it is space and nothing else stays.
keep_before : Char → String → String
unfolding is_space
keep_before c String.[] = if is_space (code c) then String.[] else String.◌∷◌ c String.[]
keep_before c (String.◌∷◌ d s) = String.◌∷◌ c (String.◌∷◌ d s)

unfoldable pub trim_right : String → String
unfolding keep_before
trim_right String.[] = String.[]
trim_right (String.◌∷◌ c s) = keep_before c (trim_right s)

unfoldable pub trim_space : String → String
unfolding trim_left trim_right
trim_space s = trim_right (trim_left s)

trims : trim_space " \tweb api \n" ≡ "web api"
unfolding trim_space
trims = refl
