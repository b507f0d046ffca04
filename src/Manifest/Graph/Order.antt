-- ===== src/Manifest/Graph/Order.antt =====
-- A search that finds no cycle has put the steps in an order in which each comes after its
-- successors.
use mrkt.Prelude.{
  ℕ, zero, suc, String, ◌==◌, eq_iff, ◌≡◌, refl, sym, ◌∙◌, subst, ◌⊎◌, inl, inr, false, some, List,
  [], ◌∷◌, Memᴰ, arith, eqb, Bool-cases, String-cases,
}
use mathlib.Core.List.Memᴰ
use mrkt.Manifest.Types.{Step}
use mrkt.Manifest.Graph.{
  lookup, Colors, color, Visit, finished, cycle, out_of_fuel, ◌>>=◌, follow, follow_both, visit,
  visit_all,
}

-- The end of a branch, or a step that is done.
abbrev pub Done : List String → String → Type 0
Done bs next = (next ≡ "") ⊎ Memᴰ next bs

-- Each step of the list is a step of the map, stands there once, and both its successors come
-- after it.
abbrev pub IsTopological : List Step → List String → Type 0
IsTopological steps [] = Unit
IsTopological steps (id ∷ bs) =
    ((st : Step) × (lookup steps id ≡ some st) × Done bs st.next × Done bs st.otherwise)
    × ¬ Memᴰ id bs
    × IsTopological steps bs

abbrev pub Known : List Step → String → Type 0
Known steps id = (st : Step) × (lookup steps id ≡ some st)

-- Every successor is the end or a step of the map, which `Validate` has tested before.
abbrev pub IsClosed : List Step → Type 0
IsClosed steps =
    (id : String) (st : Step)
    → lookup steps id ≡ some st
    → ((st.next ≡ "") ⊎ Known steps st.next) × ((st.otherwise ≡ "") ⊎ Known steps st.otherwise)

pub color-cons_eq : (id x : String) (n : ℕ) (c : Colors) → id ≡ x → color ((id, n) ∷ c) x ≡ n
unfolding color
color-cons_eq id x n c h = rw ((eq_iff id x).1 h)

pub color-cons_ne :
    (id x : String) (n : ℕ) (c : Colors) → ¬ (id ≡ x) → color ((id, n) ∷ c) x ≡ color c x
unfolding color
color-cons_ne id x n c h = ground (arith, eq_iff id x)

pub finished-injective : {c c' : Colors} → finished c ≡ finished c' → c ≡ c'
finished-injective e = cc

-- Inversion of a search that goes on after another.
pub >>=-eq-finished :
    (m : Visit) (f : Colors → Visit) {c' : Colors}
    → (m >>= f) ≡ finished c'
    → (c : Colors) × (m ≡ finished c) × (f c ≡ finished c')
>>=-eq-finished (finished c) f e = (c, refl, e)
>>=-eq-finished cycle f e = cc
>>=-eq-finished out_of_fuel f e = cc

module _ (steps : List Step) where
  -- The black steps are those of the list.
  pub record Inv (c : Colors) (bs : List String) : Type 0 where
    pub black : (x : String) → color c x ≡ 2 → Memᴰ x bs
    pub listed : (x : String) → Memᴰ x bs → color c x ≡ 2
    pub topological : IsTopological steps bs

  -- From `c` to `c'` grey steps stay grey, and what was done stays done.
  pub record Extends (c c' : Colors) (bs bs' : List String) : Type 0 where
    pub inv : Inv c' bs'
    pub grey : (x : String) → color c x ≡ 1 → color c' x ≡ 1
    pub more : (x : String) → Memᴰ x bs → Memᴰ x bs'

  abbrev pub Goes : String → (c c' : Colors) → List String → Type 0
  Goes next c c' bs = (bs' : List String) × Extends c c' bs bs' × Done bs' next

  -- The claim on visits of one depth.
  abbrev pub Sound : (String → Colors → Visit) → Type 0
  Sound v =
      (id : String) (c c' : Colors) (bs : List String)
      → Known steps id
      → Inv c bs
      → v id c ≡ finished c'
      → (bs' : List String) × Extends c c' bs bs' × Memᴰ id bs'

  Extends-refl : {c : Colors} {bs : List String} → Inv c bs → Extends c c bs bs
  Extends-refl i = record { inv = i; grey = λ x h. h; more = λ x h. h }

  Extends-trans :
      {c c' c'' : Colors} {bs bs' bs'' : List String}
      → Extends c c' bs bs'
      → Extends c' c'' bs' bs''
      → Extends c c'' bs bs''
  Extends-trans a b = record {
    inv = b.inv;
    grey = λ x h. b.grey x (a.grey x h);
    more = λ x h. b.more x (a.more x h);
  }

  Done-more :
      {c c' : Colors} {bs bs' : List String} (next : String)
      → Extends c c' bs bs'
      → Done bs next
      → Done bs' next
  Done-more next x (inl e) = inl e
  Done-more next x (inr m) = inr (x.more next m)

  pub Known-next :
      (next : String) → (next ≡ "") ⊎ Known steps next → (next == "") ≡ false → Known steps next
  Known-next next (inl e) f = absurd (ground (arith, eq_iff next ""))
  Known-next next (inr k) f = k

  follow-Sound :
      (v : String → Colors → Visit) (next : String) (c c' : Colors) (bs : List String)
      → Sound v
      → (next ≡ "") ⊎ Known steps next
      → Inv c bs
      → follow v next c ≡ finished c'
      → Goes next c c' bs
  follow-Sound v next c c' bs s k i e = elim (Bool-cases (next == "")) [
    | inl t ↦
        subst (λ x. Goes next c x bs) (finished-injective (rw t at e))
          (bs, Extends-refl i, inl ((eq_iff next "").0 t))
    | inr f ↦
        let (bs', x, m) = s next c c' bs (Known-next next k f) i (rw f at e) in (bs', x, inr m)
  ]

  follow_both-Sound :
      (v : String → Colors → Visit) (id : String) (st : Step) (c c' : Colors) (bs : List String)
      → Sound v
      → IsClosed steps
      → lookup steps id ≡ some st
      → Inv c bs
      → follow_both v (some st) c ≡ finished c'
      → (bs' : List String) × Extends c c' bs bs' × Done bs' st.next × Done bs' st.otherwise
  unfolding follow_both
  follow_both-Sound v id st c c' bs s closed known i e =
      let (c₁, e₁, e₂) = >>=-eq-finished (follow v st.next c) (follow v st.otherwise) e in
      let (bs₁, x₁, d₁) = follow-Sound v st.next c c₁ bs s (closed id st known).0 i e₁ in
      let (bs₂, x₂, d₂) =
        follow-Sound v st.otherwise c₁ c' bs₁ s (closed id st known).1 x₁.inv e₂ in
      (bs₂, Extends-trans x₁ x₂, Done-more st.next x₂ d₁, d₂)

  -- To grey a step that is not black changes no black one.
  Inv-grey :
      (id : String) (c : Colors) (bs : List String)
      → ¬ (color c id ≡ 2)
      → Inv c bs
      → Inv ((id, 1) ∷ c) bs
  Inv-grey id c bs white i = record {
    black = λ x h. elim (String-cases id x) [
      | inl t ↦ absurd (omega (arith, color-cons_eq id x 1 c t))
      | inr f ↦ i.black x (sym (color-cons_ne id x 1 c f) ∙ h)
    ];
    listed = λ x m. elim (String-cases id x) [
      | inl t ↦ absurd (white (rw t (i.listed x m)))
      | inr f ↦ color-cons_ne id x 1 c f ∙ i.listed x m
    ];
    topological = i.topological;
  }

  -- A grey step whose successors are done may be blackened.
  Inv-black :
      (id : String) (st : Step) (c : Colors) (bs : List String)
      → color c id ≡ 1
      → lookup steps id ≡ some st
      → Done bs st.next
      → Done bs st.otherwise
      → Inv c bs
      → Inv ((id, 2) ∷ c) (id ∷ bs)
  Inv-black id st c bs grey known d₁ d₂ i = record {
    black = λ x h. elim (String-cases id x) [
      | inl t ↦ Memᴰ.head (sym t)
      | inr f ↦ Memᴰ.tail (i.black x (sym (color-cons_ne id x 2 c f) ∙ h))
    ];
    listed = λ x m. elim (String-cases id x) [
      | inl t ↦ color-cons_eq id x 2 c t
      | inr f ↦ color-cons_ne id x 2 c f ∙ i.listed x (drop_head f m)
    ];
    topological =
        ((st, known, d₁, d₂), λ m. absurd (omega (arith, grey, i.listed id m)), i.topological);
  }
    where
      drop_head : {x : String} → ¬ (id ≡ x) → Memᴰ x (id ∷ bs) → Memᴰ x bs
      drop_head f (Memᴰ.head e) = absurd (f (sym e))
      drop_head f (Memᴰ.tail m) = m

  -- What a finished visit did: nothing at a black step, and else a search of both successors.
  pub visit_inversion :
      (f : ℕ) (id : String) (c c' : Colors)
      → visit (suc f) steps id c ≡ finished c'
      → (color c id ≡ 2) × (c ≡ c')
        ⊎ ¬ (color c id ≡ 1)
          × ¬ (color c id ≡ 2)
          × ((c₁ : Colors) × (follow_both (visit f steps) (lookup steps id) ((id, 1) ∷ c)
                ≡ finished c₁)
              × ((id, 2) ∷ c₁ ≡ c'))
  unfolding visit
  visit_inversion f id c c' e = elim (Bool-cases (eqb (color c id) 1)) [
    | inl grey ↦ cc (rw (grey, eqb) at e)
    | inr not_grey ↦ elim (Bool-cases (eqb (color c id) 2)) [
      | inl black ↦ inl (ground arith, finished-injective (rw (not_grey, black) at e))
      | inr not_black ↦
          let (c₁, e₁, e₂) =
            >>=-eq-finished (follow_both (visit f steps) (lookup steps id) ((id, 1) ∷ c))
              (λ c₂. finished ((id, 2) ∷ c₂)) (rw (not_grey, not_black) at e) in
          inr (ground arith, ground arith, (c₁, e₁, finished-injective e₂))
    ]
  ]

  visit-Sound : (f : ℕ) → IsClosed steps → Sound (visit f steps)
  unfolding visit
  visit-Sound zero closed id c c' bs k i e = cc
  visit-Sound (suc f) closed id c c' bs (st, known) i e = elim (visit_inversion f id c c' e) [
    | inl (black, same) ↦
        subst (λ x. (bs' : List String) × Extends c x bs bs' × Memᴰ id bs') same
          (bs, Extends-refl i, i.black id black)
    | inr (not_grey, white, (c₁, e₁, done)) ↦
        let (bs₁, x, d₁, d₂) =
          follow_both-Sound (visit f steps) id st ((id, 1) ∷ c) c₁ bs (visit-Sound f closed) closed
            known (Inv-grey id c bs white i) (rw known at e₁) in
        subst (λ x. (bs' : List String) × Extends c x bs bs' × Memᴰ id bs') done
          (
            id ∷ bs₁,
            record {
              inv =
                  Inv-black id st c₁ bs₁ (x.grey id (color-cons_eq id id 1 c refl)) known d₁ d₂
                    x.inv;
              grey = λ y h. elim (String-cases id y) [
                | inl t ↦ absurd (not_grey (rw t h))
                | inr f ↦ color-cons_ne id y 2 c₁ f ∙ x.grey y (color-cons_ne id y 1 c f ∙ h)
              ];
              more = λ y m. Memᴰ.tail (x.more y m);
            },
            Memᴰ.head refl,
          )
  ]

  -- A search from every listed step leaves each of them done.
  visit_all-Sound :
      (v : String → Colors → Visit) (ids : List String) (c c' : Colors) (bs : List String)
      → Sound v
      → ((x : String) → Memᴰ x ids → Known steps x)
      → Inv c bs
      → visit_all v ids c ≡ finished c'
      → (bs' : List String) × Extends c c' bs bs' × ((x : String) → Memᴰ x ids → Memᴰ x bs')
  unfolding visit_all
  visit_all-Sound v [] c c' bs s k i e =
      subst
        (λ x. (bs' : List String) × Extends c x bs bs' × ((y : String) → Memᴰ y [] → Memᴰ y bs'))
        (finished-injective e) (bs, Extends-refl i, λ x m. absurd (Memᴰ.not-nil m))
  visit_all-Sound v (id ∷ ids) c c' bs s k i e =
      let (c₁, e₁, e₂) = >>=-eq-finished (v id c) (visit_all v ids) e in
      let (bs₁, x₁, m₁) = s id c c₁ bs (k id (Memᴰ.head refl)) i e₁ in
      let (bs₂, x₂, m₂) = visit_all-Sound v ids c₁ c' bs₁ s (λ x m. k x (Memᴰ.tail m)) x₁.inv e₂ in
      (bs₂, Extends-trans x₁ x₂, cases bs₂ (x₂.more id m₁) m₂)
    where
      cases :
          (bs₂ : List String)
          → Memᴰ id bs₂
          → ((x : String) → Memᴰ x ids → Memᴰ x bs₂)
          → (x : String) → Memᴰ x (id ∷ ids)
          → Memᴰ x bs₂
      cases bs₂ m h x (Memᴰ.head p) = subst (λ y. Memᴰ y bs₂) (sym p) m
      cases bs₂ m h x (Memᴰ.tail n) = h x n

  Inv-start : Inv [] []
  unfolding color
  Inv-start = record {
    black = λ x h. absurd (omega (arith, h));
    listed = λ x m. absurd (Memᴰ.not-nil m);
    topological = tt;
  }

  -- A search of all steps that finds no cycle yields a topological order of them.
  pub visit_all-IsTopological :
      (f : ℕ) (ids : List String) (c : Colors)
      → IsClosed steps
      → ((x : String) → Memᴰ x ids → Known steps x)
      → visit_all (visit f steps) ids [] ≡ finished c
      → (bs : List String) × IsTopological steps bs × ((x : String) → Memᴰ x ids → Memᴰ x bs)
  visit_all-IsTopological f ids c closed k e =
      let (bs, x, m) =
        visit_all-Sound (visit f steps) ids [] c [] (visit-Sound f closed) k Inv-start e in
      (bs, x.inv.topological, m)
