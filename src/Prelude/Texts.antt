-- ===== src/Prelude/Texts.antt =====
-- Go strings as native texts: comparison, the code points that `range` visits, and keys.
use Prim.Native.Nat.{ℕ}
use Prim.Native.Char.{code}
pub use Prim.Native.String.{String}
use mathlib.Core.Path.{◌≡◌, refl}
use mathlib.Core.Logic.{◌≢◌}
use mathlib.Core.Bool.{Bool, true, false, ◌||◌}
use mathlib.Core.List.{List, [], ◌∷◌}
use native.Mathlib.Omega.{arith}
use text.Mathlib.Text.{◌==◌ as str_eq}
use text.Mathlib.TextEquality.{eq_iff}
use text.Mathlib.TextPositions.{eq_refl}

infix 50 ◌==◌
abbrev pub ◌==◌ : String → String → Bool
s == t = str_eq s t

abbrev pub is_empty : String → Bool
is_empty s = str_eq s ""

-- The code points of a text, in order: what `range` over a Go string visits.
abbrev pub codes : String → List ℕ
codes String.[] = []
codes (String.◌∷◌ c s) = code c ∷ codes s

pub is_empty-ne : (s : String) → is_empty s ≡ false → s ≢ ""
is_empty-ne s h e = ground (arith, eq_iff s "")

-- slices.Contains
unfoldable pub contains : List String → String → Bool
contains [] s = false
contains (x ∷ xs) s = x == s || contains xs s

-- No text stands twice.
abbrev pub IsDistinct : List String → Type 0
IsDistinct [] = Unit {0}
IsDistinct (x ∷ xs) = (contains xs x ≡ false) × IsDistinct xs

module _ (x s : String) (xs : List String) where
  pub contains-cons : contains (x ∷ xs) s ≡ (x == s || contains xs s)
  unfolding contains
  contains-cons = refl

pub eq_self : (s : String) → (s == s) ≡ true
eq_self = eq_refl

pub ne→eq : (s t : String) → s ≢ t → (s == t) ≡ false
ne→eq s t h = ground (arith, eq_iff s t)

pub eq→path : (s t : String) → (s == t) ≡ true → s ≡ t
eq→path s t = (eq_iff s t).0
