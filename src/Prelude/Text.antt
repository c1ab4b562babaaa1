-- ===== src/Prelude/Text.antt =====
-- Texts: whole strings compared by `str_eq`, and their characters as code points.
use Prim.Native.Char.{code}
use Prim.Native.Nat.{ℕ}
use Prim.Native.String.{String}
use mathlib.Core.Path.{◌≡◌, refl, ◌∙◌}
use mathlib.Core.Bool.{Bool, true, false, ◌||◌}
use mathlib.Core.Logic.{inl, inr}
use mathlib.Core.List.{List, [], ◌∷◌, ◌++◌}
use native.Mathlib.Omega.{arith}
use cosmos_indexer.Prelude.Tests.{if◌then◌else◌, Bool-cases}
pub use text.Mathlib.Text.{◌==◌ as str_eq}
pub use text.Mathlib.TextEquality.{eq_iff}
pub use text.Mathlib.TextPositions.{eq_refl}

-- The code points of a text: its bytes, if it is ASCII.
abbrev pub codes : String → List ℕ
codes String.[] = []
codes (String.◌∷◌ c s) = code c ∷ codes s

-- A Go map with string keys of which only the key set matters: the keys in order of insertion.
abbrev pub str_elem : String → List String → Bool
str_elem s [] = false
str_elem s (t ∷ ts) = str_eq t s || str_elem s ts

unfoldable pub add_key : String → List String → List String
add_key s ts = if str_elem s ts then ts else ts ++ s ∷ []

pub str_elem-append :
    (s : String) (xs ys : List String) → str_elem s (xs ++ ys) ≡ (str_elem s xs || str_elem s ys)
str_elem-append s [] ys = refl
str_elem-append s (x ∷ xs) ys = ground (arith, str_elem-append s xs ys)

pub str_elem-add_key :
    (s t : String) (ts : List String) → str_elem s (add_key t ts) ≡ (str_eq t s || str_elem s ts)
unfolding add_key
str_elem-add_key s t ts = elim (Bool-cases (str_elem t ts)) [
  | inl e ↦ rw e (absorb s t ts e)
  | inr e ↦ rw e (str_elem-append s ts (t ∷ []) ∙ ground arith)
]
  where
    absorb :
        (s t : String) (ts : List String)
        → str_elem t ts ≡ true
        → str_elem s ts ≡ (str_eq t s || str_elem s ts)
    absorb s t [] e = cc
    absorb s t (u ∷ ts) e = ground (arith, absorb s t ts, eq_iff u t, eq_iff t s, eq_iff u s)
