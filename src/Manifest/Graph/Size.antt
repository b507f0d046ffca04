-- ===== src/Manifest/Graph/Size.antt =====
-- A list of distinct steps is no longer than the map.
use mrkt.Prelude.{
  suc, ◌≤◌, String, ◌==◌, eq_iff, ◌≡◌, refl, ap, ◌∙◌, inl, inr, some, List, [], ◌∷◌, Memᴰ, arith,
  if◌then◌else◌, length, Bool-cases,
}
use mrkt.Manifest.Types.{Step}
use mrkt.Manifest.Graph.{lookup}
use mrkt.Manifest.Graph.Order.{Known, IsTopological}

-- The map without the first entry of a key.
without : String → List Step → List Step
without id [] = []
without id (s ∷ steps) = if s.id == id then steps else s ∷ without id steps

length-without :
    (steps : List Step) (id : String) (st : Step)
    → lookup steps id ≡ some st
    → suc (length (without id steps)) ≡ length steps
unfolding without
length-without [] id st e = cc
length-without (s ∷ steps) id st e = elim (Bool-cases (s.id == id)) [
  | inl t ↦ rw t
  | inr f ↦ rw f (ap suc (length-without steps id st (rw f at e)))
]

lookup-without_ne :
    (steps : List Step) (id x : String) → ¬ (id ≡ x) → lookup (without id steps) x ≡ lookup steps x
unfolding without
lookup-without_ne [] id x h = refl
lookup-without_ne (s ∷ steps) id x h =
    ground (arith, eq_iff s.id id, eq_iff s.id x, lookup-without_ne steps id x)

-- Steps of the map, each once.
abbrev Distinct : List Step → List String → Type 0
Distinct steps [] = Unit
Distinct steps (id ∷ bs) = Known steps id × ¬ Memᴰ id bs × Distinct steps bs

Distinct-without :
    (steps : List Step) (id : String) (bs : List String)
    → ¬ Memᴰ id bs
    → Distinct steps bs
    → Distinct (without id steps) bs
Distinct-without steps id [] h d = tt
Distinct-without steps id (x ∷ bs) h ((st, e), new, d) = (
  (st, lookup-without_ne steps id x (λ q. h (Memᴰ.head q)) ∙ e),
  new,
  Distinct-without steps id bs (λ m. h (Memᴰ.tail m)) d,
)

length-Distinct :
    (steps : List Step) (bs : List String) → Distinct steps bs → length bs ≤ length steps
length-Distinct steps [] d = omega arith
length-Distinct steps (id ∷ bs) ((st, e), new, d) = omega (
  arith,
  length-without steps id st e,
  length-Distinct (without id steps) bs (Distinct-without steps id bs new d),
)

topological-Distinct :
    (steps : List Step) (bs : List String) → IsTopological steps bs → Distinct steps bs
topological-Distinct steps [] t = tt
topological-Distinct steps (id ∷ bs) ((st, e, _, _), new, t) =
    ((st, e), new, topological-Distinct steps bs t)

-- A topological order lists at most as many steps as the map has.
pub topological-length :
    (steps : List Step) (bs : List String) → IsTopological steps bs → length bs ≤ length steps
topological-length steps bs t = length-Distinct steps bs (topological-Distinct steps bs t)
