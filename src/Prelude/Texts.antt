-- ===== src/Prelude/Texts.antt =====
-- Texts: tests on code points, splitting, and the last separator.
use Prim.Native.Nat.{ℕ}
use Prim.Native.Char.{code}
use Prim.Native.String.{String}
use mathlib.Core.Bool.{Bool, false}
use mathlib.Core.Option.{Option, none, some}
use mathlib.Core.List.{List, [], ◌∷◌}
use mathlib.Core.Path.{◌≡◌}
use mathlib.Core.Logic.{◌⊎◌, inl, inr}
use text.Mathlib.Text.{◌==◌}
use text.Mathlib.TextEquality.{eq_iff}
use native.Mathlib.Omega.{arith}
use mrkt.Prelude.Tests.{eqb, if◌then◌else◌, Bool-cases}
use mrkt.Prelude.Lists.{any}

-- The code points of a text: its bytes, if it is ASCII.
abbrev pub codes : String → List ℕ
codes String.[] = []
codes (String.◌∷◌ c s) = code c ∷ codes s

-- `slices.Contains`.
abbrev pub contains : List String → String → Bool
contains xs s = any (λ x. x == s) xs

-- What stands before the last occurrence of a code point: `s[:strings.LastIndexByte(s, c)]`, and
-- `none` where that index is -1.
unfoldable pub before_last : ℕ → String → Option String
before_last c String.[] = none
before_last c (String.◌∷◌ a s) = elim (before_last c s) [
  | some p ↦ some (String.◌∷◌ a p)
  | none ↦ if eqb (code a) c then some String.[] else none
]

abbrev cons_head : List String → (String → String) → List String
cons_head [] f = f String.[] ∷ []
cons_head (p ∷ ps) f = f p ∷ ps

-- `strings.Split` by one ASCII character.
unfoldable pub split : ℕ → String → List String
split c String.[] = String.[] ∷ []
split c (String.◌∷◌ a s) =
    let rest = split c s in
    if eqb (code a) c then String.[] ∷ rest else cons_head rest (λ p. String.◌∷◌ a p)

-- Two texts are one or differ.
pub String-cases : (a b : String) → (a ≡ b) ⊎ ¬ (a ≡ b)
String-cases a b = elim (Bool-cases (a == b)) [
  | inl t ↦ inl ((eq_iff a b).0 t)
  | inr f ↦ inr (λ q. ground (arith, eq_iff a b))
]

-- Texts that a test tells apart are not equal.
pub ne_of_test : (a b : String) → (a == b) ≡ false → a ≡ b → ⊥
ne_of_test a b h e = ground (arith, eq_iff a b)
