-- ===== src/Manifest/Graph/Fuel.antt =====
-- The search colours a white step before it goes deeper, so its depth is bounded by their number.
use mrkt.Prelude.{
  ℕ, zero, suc, ◌+◌, ◌≤◌, ◌<◌, String, ◌==◌, eq_iff, ◌≡◌, refl, sym, subst, ◌⊎◌, inl, inr, Bool,
  true, false, ◌||◌, Option, none, some, List, [], ◌∷◌, Memᴰ, arith, eqb, if◌then◌else◌, length,
  Bool-cases, String-cases,
}
use mrkt.Manifest.Types.{Step}
use mrkt.Manifest.Graph.{
  lookup, Colors, color, Visit, finished, cycle, out_of_fuel, ◌>>=◌, follow, follow_both, visit,
  visit_all, enough,
}
use mrkt.Manifest.Graph.Order.{
  Known, IsClosed, color-cons_eq, color-cons_ne, finished-injective, >>=-eq-finished,
  visit_inversion, Known-next,
}

abbrev pub colored : ℕ → Bool
colored n = eqb n 1 || eqb n 2

-- The steps with no colour.
abbrev pub whites : List Step → Colors → ℕ
whites [] c = 0
whites (s ∷ steps) c = (if colored (color c s.id) then 0 else 1) + whites steps c

-- No step loses its colour.
abbrev pub Keeps : (c c' : Colors) → Type 0
Keeps c c' = (x : String) → colored (color c x) ≡ true → colored (color c' x) ≡ true

whites_mono : (steps : List Step) (c c' : Colors) → Keeps c c' → whites steps c' ≤ whites steps c
whites_mono [] c c' k = omega arith
whites_mono (s ∷ steps) c c' k = ground (arith, whites_mono steps c c' k, k s.id)

whites_lt :
    (steps : List Step) (id : String) (st : Step) (c c' : Colors)
    → Keeps c c'
    → lookup steps id ≡ some st
    → colored (color c id) ≡ false
    → colored (color c' id) ≡ true
    → whites steps c' < whites steps c
whites_lt [] id st c c' k e w n = cc
whites_lt (s ∷ steps) id st c c' k e w n = elim (Bool-cases (s.id == id)) [
  | inl t ↦
      let same = (eq_iff s.id id).0 t in
      rw (subst (λ x. colored (color c x) ≡ false) (sym same) w) (
        rw (subst (λ x. colored (color c' x) ≡ true) (sym same) n)
          (omega (arith, whites_mono steps c c' k)))
  | inr f ↦ ground (arith, whites_lt steps id st c c' k (rw f at e) w n, k s.id)
]

Keeps-cons : (id : String) (n : ℕ) (c : Colors) → colored n ≡ true → Keeps c ((id, n) ∷ c)
Keeps-cons id n c q x h = elim (String-cases id x) [
  | inl t ↦ rw (color-cons_eq id x n c t) q
  | inr f ↦ rw (color-cons_ne id x n c f) h
]

module _ (steps : List Step) where
  abbrev AllKeep : (String → Colors → Visit) → Type 0
  AllKeep v = (id : String) (c c' : Colors) → v id c ≡ finished c' → Keeps c c'

  follow-Keeps :
      (v : String → Colors → Visit) (next : String) (c c' : Colors)
      → AllKeep v
      → follow v next c ≡ finished c'
      → Keeps c c'
  follow-Keeps v next c c' k e = elim (Bool-cases (next == "")) [
    | inl t ↦ subst (λ x. Keeps c x) (finished-injective (rw t at e)) (λ x h. h)
    | inr f ↦ k next c c' (rw f at e)
  ]

  follow_both-Keeps :
      (v : String → Colors → Visit) (o : Option Step) (c c' : Colors)
      → AllKeep v
      → follow_both v o c ≡ finished c'
      → Keeps c c'
  unfolding follow_both
  follow_both-Keeps v none c c' k e = subst (λ x. Keeps c x) (finished-injective e) (λ x h. h)
  follow_both-Keeps v (some st) c c' k e =
      let (c₁, e₁, e₂) = >>=-eq-finished (follow v st.next c) (follow v st.otherwise) e in
      λ x h. follow-Keeps v st.otherwise c₁ c' k e₂ x (follow-Keeps v st.next c c₁ k e₁ x h)

  visit-Keeps : (f : ℕ) → AllKeep (visit f steps)
  unfolding visit
  visit-Keeps zero id c c' e = cc
  visit-Keeps (suc f) id c c' e = elim (visit_inversion steps f id c c' e) [
    | inl (black, same) ↦ subst (λ x. Keeps c x) same (λ x h. h)
    | inr (not_grey, white, (c₁, e₁, done)) ↦
        subst (λ x. Keeps c x) done
          (λ x h. Keeps-cons id 2 c₁ refl x (
            follow_both-Keeps (visit f steps) (lookup steps id) ((id, 1) ∷ c) c₁ (visit-Keeps f) e₁
              x (Keeps-cons id 1 c refl x h)))
  ]

  -- With more fuel than white steps no visit runs out.
  abbrev Fueled : ℕ → (String → Colors → Visit) → Type 0
  Fueled n v =
      (id : String) (c : Colors) → Known steps id → whites steps c < n → ¬ (v id c ≡ out_of_fuel)

  >>=-eq-out_of_fuel :
      (m : Visit) (f : Colors → Visit)
      → (m >>= f) ≡ out_of_fuel
      → (m ≡ out_of_fuel) ⊎ ((c : Colors) × (m ≡ finished c) × (f c ≡ out_of_fuel))
  >>=-eq-out_of_fuel (finished c) f e = inr (c, refl, e)
  >>=-eq-out_of_fuel cycle f e = cc
  >>=-eq-out_of_fuel out_of_fuel f e = inl refl

  follow-Fueled :
      (n : ℕ) (v : String → Colors → Visit) (next : String) (c : Colors)
      → Fueled n v
      → (next ≡ "") ⊎ Known steps next
      → whites steps c < n
      → ¬ (follow v next c ≡ out_of_fuel)
  follow-Fueled n v next c fu k w e = elim (Bool-cases (next == "")) [
    | inl t ↦ cc (rw t at e)
    | inr f ↦ fu next c (Known-next steps next k f) w (rw f at e)
  ]

  follow_both-Fueled :
      (n : ℕ) (v : String → Colors → Visit) (id : String) (st : Step) (c : Colors)
      → Fueled n v
      → AllKeep v
      → IsClosed steps
      → lookup steps id ≡ some st
      → whites steps c < n
      → ¬ (follow_both v (some st) c ≡ out_of_fuel)
  unfolding follow_both
  follow_both-Fueled n v id st c fu k closed known w e =
      elim (>>=-eq-out_of_fuel (follow v st.next c) (follow v st.otherwise) e) [
        | inl e₁ ↦ follow-Fueled n v st.next c fu (closed id st known).0 w e₁
        | inr (c₁, e₁, e₂) ↦
            let fewer = whites_mono steps c c₁ (follow-Keeps v st.next c c₁ k e₁) in
            follow-Fueled n v st.otherwise c₁ fu (closed id st known).1 (omega (arith, fewer)) e₂
      ]

  visit-Fueled : (f : ℕ) → IsClosed steps → Fueled f (visit f steps)
  unfolding visit
  visit-Fueled zero closed id c k w e = absurd (omega arith)
  visit-Fueled (suc f) closed id c (st, known) w e = elim (Bool-cases (eqb (color c id) 1)) [
    | inl grey ↦ cc (rw (grey, eqb) at e)
    | inr not_grey ↦ elim (Bool-cases (eqb (color c id) 2)) [
      | inl black ↦ cc (rw (not_grey, black) at e)
      | inr not_black ↦
          let grey = (id, 1) ∷ c in
          let fewer =
            whites_lt steps id st c grey (Keeps-cons id 1 c refl) known (rw (not_grey, not_black))
              (rw (color-cons_eq id id 1 c refl)) in
          elim (>>=-eq-out_of_fuel (follow_both (visit f steps) (lookup steps id) grey)
            (λ c₂. finished ((id, 2) ∷ c₂)) (rw (not_grey, not_black) at e)) [
              | inl e₁ ↦
                  follow_both-Fueled f (visit f steps) id st grey (visit-Fueled f closed)
                    (visit-Keeps f) closed known (omega (arith, fewer)) (rw known at e₁)
              | inr (c₁, e₁, e₂) ↦ cc
            ]
    ]
  ]

  visit_all-Fueled :
      (n : ℕ) (v : String → Colors → Visit) (ids : List String) (c : Colors)
      → Fueled n v
      → AllKeep v
      → ((x : String) → Memᴰ x ids → Known steps x)
      → whites steps c < n
      → ¬ (visit_all v ids c ≡ out_of_fuel)
  unfolding visit_all
  visit_all-Fueled n v [] c fu k known w e = cc
  visit_all-Fueled n v (id ∷ ids) c fu k known w e =
      elim (>>=-eq-out_of_fuel (v id c) (visit_all v ids) e) [
        | inl e₁ ↦ fu id c (known id (Memᴰ.head refl)) w e₁
        | inr (c₁, e₁, e₂) ↦
            visit_all-Fueled n v ids c₁ fu k (λ x m. known x (Memᴰ.tail m))
              (omega (arith, whites_mono steps c c₁ (k id c c₁ e₁))) e₂
      ]

whites-le-length : (steps : List Step) (c : Colors) → whites steps c ≤ length steps
whites-le-length [] c = omega arith
whites-le-length (s ∷ steps) c = ground (arith, whites-le-length steps c)

-- The recursion of `visit` ends: fuel for one call more than there are steps is never used up.
pub visit_all_terminates :
    (steps : List Step) (ids : List String)
    → IsClosed steps
    → ((x : String) → Memᴰ x ids → Known steps x)
    → ¬ (visit_all (visit (enough steps) steps) ids [] ≡ out_of_fuel)
visit_all_terminates steps ids closed known =
    visit_all-Fueled steps (enough steps) (visit (enough steps) steps) ids []
      (visit-Fueled steps (enough steps) closed) (visit-Keeps steps (enough steps)) known
      (omega (arith, whites-le-length steps []))
