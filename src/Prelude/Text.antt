-- ===== src/Prelude/Text.antt =====
-- Text: the native `String` where the program compares whole texts, its code points where it walks
-- them, and `strings.TrimSpace`'s notion of blank text.
use Prim.Native.Nat.{ℕ}
use Prim.Native.Char.{Char, code}
use Prim.Native.String.append.{cons}
use Prim.Native.String.{String}
pub use Prim.Native.String.{◌++◌ as concat}
pub use text.Mathlib.Text.{◌==◌ as str_eq}
pub use text.Mathlib.TextEquality.{eq_iff}
pub use text.Mathlib.TextPositions.{eq_refl}
use mathlib.Core.Path.{◌≡◌, ap}
use mathlib.Core.Logic.{◌≢◌}
use mathlib.Core.Bool.{Bool, true, false, ◌&&◌, ◌||◌}
use mathlib.Core.List.{List, [], ◌∷◌}
use native.Mathlib.Omega.{arith}
use spec_powers.Prelude.Tests.{leb, ◌==◌}

-- The code points of a text: its bytes, if it is ASCII.
abbrev pub codes : String → List ℕ
codes String.[] = []
codes (String.◌∷◌ c s) = code c ∷ codes s

-- Go's `unicode.IsSpace`.
unfoldable pub is_space : ℕ → Bool
is_space c =
    (leb 9 c && leb c 13)
    || c == 32
    || c == 0x85
    || c == 0xa0
    || c == 0x1680
    || (leb 0x2000 c && leb c 0x200a)
    || c == 0x2028
    || c == 0x2029
    || c == 0x202f
    || c == 0x205f
    || c == 0x3000

unfoldable pub all_space : List ℕ → Bool
all_space [] = true
all_space (c ∷ cs) = is_space c && all_space cs

-- `strings.TrimSpace(s) == ""`.
unfoldable pub is_blank : String → Bool
unfolding all_space is_space
is_blank s = all_space (codes s)

pub str_eq-ne : (s t : String) → s ≢ t → str_eq s t ≡ false
str_eq-ne s t h = ground (arith, eq_iff s t)

pub str_eq_comm : (s t : String) → str_eq s t ≡ str_eq t s
str_eq_comm s t = ground (arith, eq_iff s t, eq_iff t s)

-- A text that starts with a character is not empty.
pub codes-concat :
    (c : Char) (s t : String) → codes (concat (String.◌∷◌ c s) t) ≡ code c ∷ codes (concat s t)
codes-concat c s t = ap codes (cons c s t)
