-- ===== src/Engine/Addresses.antt =====
-- internal/engine/catalog.go: `normalizeEmail`.
use mrkt.Prelude.{
  ℕ, String, ◌==◌, Bool, true, false, ◌||◌, Option, none, some, List, [], ◌∷◌, codes, any,
  before_last, eqb, ltb, if◌then◌else◌,
}
use mrkt.Engine.Env.{Env}

abbrev last_is : ℕ → List ℕ → Bool
last_is c [] = false
last_is c (x ∷ []) = eqb x c
last_is c (x ∷ y ∷ xs) = last_is c (y ∷ xs)

-- `strings.ContainsAny(v, "\r\n")`.
abbrev breaks_line : String → Bool
breaks_line v = any (λ c. eqb c 13 || eqb c 10) (codes v)

-- `none` is the error "invalid_email": no `@`, one at the start or the end, a line break, or more
-- than 320 bytes. 64 is the code of `@`.
unfoldable pub normalize_email : Env → String → Option String
normalize_email env raw =
    let v = env.fold_case raw in
    let starts : Bool = elim (before_last 64 v) [ none ↦ true | some p ↦ p == "" ] in
    let ends = last_is 64 (codes v) in
    if starts || ends || breaks_line v || ltb 320 (env.size v) then none else some v
