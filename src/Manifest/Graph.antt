-- ===== src/Manifest/Graph.antt =====
-- internal/manifest/manifest.go, lines 289 to 314: the depth-first search of `Validate` for cycles
-- among the steps of a sequence.
pub mod Order
pub mod Fuel
pub mod Size
use mrkt.Prelude.{
  ℕ, zero, suc, String, ◌==◌, Bool, Option, none, some, List, [], ◌∷◌, length, find, eqb,
  if◌then◌else◌,
}
use mrkt.Manifest.Types.{Step}

-- `map[string]Step`, filled by `steps[s.ID] = s` in order: the last write of a key stands first.
abbrev pub index_from : List Step → List Step → List Step
index_from m [] = m
index_from m (s ∷ steps) = index_from (s ∷ m) steps

abbrev pub index : List Step → List Step
index = index_from []

-- `steps[id]`.
abbrev pub lookup : List Step → String → Option Step
lookup m id = find (λ s. s.id == id) m

-- `colors`, a `map[string]int`: 0 for a missing key. A write goes in front.
abbrev pub Colors : Type 0
Colors = List (String × ℕ)

unfoldable pub color : Colors → String → ℕ
color [] id = 0
color ((k, n) ∷ c) id = if k == id then n else color c id

-- What `visit` returns with the colours that it leaves. `out_of_fuel` is of the model only.
pub data Visit : Type 0 where
  finished : Colors → Visit
  cycle : Visit
  out_of_fuel : Visit

infixl 5 ◌>>=◌
abbrev pub ◌>>=◌ : Visit → (Colors → Visit) → Visit
finished c >>= f = f c
cycle >>= f = cycle
out_of_fuel >>= f = out_of_fuel

-- One round of `for _, next := range []string{st.Next, st.Else}`.
abbrev pub follow : (String → Colors → Visit) → String → Colors → Visit
follow v next c = if next == "" then finished c else v next c

-- Both rounds; a missing key gives the zero step, which has no successor.
unfoldable pub follow_both : (String → Colors → Visit) → Option Step → Colors → Visit
follow_both v none c = finished c
follow_both v (some st) c = do c' ← follow v st.next c; follow v st.otherwise c'

unfoldable pub visit : ℕ → List Step → String → Colors → Visit
visit zero steps id c = out_of_fuel
visit (suc f) steps id c =
    let walk : Visit = follow_both (visit f steps) (lookup steps id) ((id, 1) ∷ c) >>= λ c'.
    finished ((id, 2) ∷ c') in
    if eqb (color c id) 1 then cycle else if eqb (color c id) 2 then finished c else walk

-- `for id := range steps`.
unfoldable pub visit_all : (String → Colors → Visit) → List String → Colors → Visit
visit_all v [] c = finished c
visit_all v (id ∷ ids) c = do c' ← v id c; visit_all v ids c'

-- Each visit colours a step that has no colour yet, so the depth is at most the number of steps.
abbrev pub enough : List Step → ℕ
enough steps = suc (length steps)
