-- ===== src/Store/Query/Laws/Counts.antt =====
-- Laws of `count(*)` and of changed rows.
use mrkt.Prelude.{
  ◌+◌, ◌≤◌, ◌<◌, ◌≡◌, refl, sym, ap, ◌∙◌, inl, inr, Bool, true, false, none, List, [], ◌∷◌, ◌++◌,
  Memᴰ, arith, All, any, find, if◌then◌else◌, Bool-cases,
}
use mathlib.Core.List.Memᴰ
use mrkt.Store.Query.{count_where, update_where, insert_or_ignore}

module _ {ℓ} {A : Type ℓ} where
  -- A positive count comes from a row.
  pub count_where-pos :
      (p : A → Bool) (xs : List A) → ¬ (count_where p xs ≡ 0) → (x : A) × Memᴰ x xs × (p x ≡ true)
  count_where-pos p [] h = absurd (h refl)
  count_where-pos p (x ∷ xs) h = elim (Bool-cases (p x)) [
    | inl t ↦ (x, Memᴰ.head refl, t)
    | inr f ↦
        let (y, m, t) = count_where-pos p xs (λ e. h (rw f (omega arith))) in (y, Memᴰ.tail m, t)
  ]

  pub count_where-zero :
      (p : A → Bool) (xs : List A) → All (λ x. p x ≡ false) xs → count_where p xs ≡ 0
  count_where-zero p [] h = refl
  count_where-zero p (x ∷ xs) h = rw (h.0) (omega (arith, count_where-zero p xs h.1))

  pub count_where-append :
      (p : A → Bool) (xs : List A) (y : A)
      → count_where p (xs ++ y ∷ []) ≡ count_where p xs + (if p y then 1 else 0)
  count_where-append p [] y = omega arith
  count_where-append p (x ∷ xs) y = omega (arith, count_where-append p xs y)

  pub count_where-same :
      (p q : A → Bool) (f : A → A) (xs : List A)
      → ((y : A) → p (f y) ≡ p y)
      → count_where p (update_where q f xs) ≡ count_where p xs
  count_where-same p q f [] same = refl
  count_where-same p q f (y ∷ xs) same = elim (Bool-cases (q y)) [
    | inl t ↦ rw (t, same y) (omega (arith, count_where-same p q f xs same))
    | inr n ↦ rw n (omega (arith, count_where-same p q f xs same))
  ]

  -- Where a search finds nothing, no stronger condition holds of a row.
  pub count_where_of_find :
      (p q : A → Bool) (xs : List A)
      → ((x : A) → q x ≡ true → p x ≡ true)
      → find p xs ≡ none
      → count_where q xs ≡ 0
  count_where_of_find p q [] h e = refl
  count_where_of_find p q (x ∷ xs) h e = elim (Bool-cases (p x)) [
    | inl t ↦ cc (rw t at e)
    | inr f ↦ elim (Bool-cases (q x)) [
      | inl u ↦ cc (h x u)
      | inr g ↦ rw g (omega (arith, count_where_of_find p q xs h (rw f at e)))
    ]
  ]

  pub count_where_mono :
      (p q : A → Bool) (xs : List A)
      → ((x : A) → q x ≡ true → p x ≡ true)
      → count_where q xs ≤ count_where p xs
  count_where_mono p q [] h = omega arith
  count_where_mono p q (x ∷ xs) h = elim (Bool-cases (q x)) [
    | inl t ↦ rw (t, h x t) (omega (arith, count_where_mono p q xs h))
    | inr f ↦ rw f (omega (arith, count_where_mono p q xs h))
  ]

  pub count_where-none :
      (p q : A → Bool) (f : A → A) (xs : List A)
      → ((x : A) → q x ≡ true → p (f x) ≡ false)
      → ((x : A) → q x ≡ false → p x ≡ false)
      → count_where p (update_where q f xs) ≡ 0
  count_where-none p q f [] changed kept = refl
  count_where-none p q f (x ∷ xs) changed kept = elim (Bool-cases (q x)) [
    | inl t ↦ rw (t, changed x t) (omega (arith, count_where-none p q f xs changed kept))
    | inr n ↦ rw (n, kept x n) (omega (arith, count_where-none p q f xs changed kept))
  ]

  -- `INSERT OR IGNORE` adds its row unless one clashes with it.
  pub count_where-insert_or_ignore :
      (p q : A → Bool) (new : A) (xs : List A)
      → count_where p (insert_or_ignore q new xs)
        ≡ (if any q xs then count_where p xs else count_where p xs + (if p new then 1 else 0))
  count_where-insert_or_ignore p q new [] = omega arith
  count_where-insert_or_ignore p q new (x ∷ xs) = elim (Bool-cases (q x)) [
    | inl t ↦ rw t refl
    | inr n ↦
        let rest = count_where-insert_or_ignore p q new xs in
        elim (Bool-cases (any q xs)) [
          | inl t ↦ rw (n, t) (omega (arith, rw t at rest))
          | inr f ↦ rw (n, f) (omega (arith, rw f at rest))
        ]
  ]

  pub count_where-pos_of_any : (p : A → Bool) (xs : List A) → any p xs ≡ true → 1 ≤ count_where p xs
  count_where-pos_of_any p [] h = cc
  count_where-pos_of_any p (x ∷ xs) h = elim (Bool-cases (p x)) [
    | inl t ↦ rw t (omega arith)
    | inr f ↦ rw f (omega (arith, count_where-pos_of_any p xs (rw f at h)))
  ]

  pub count_where-zero_of_any :
      (p : A → Bool) (xs : List A) → any p xs ≡ false → count_where p xs ≡ 0
  count_where-zero_of_any p [] h = refl
  count_where-zero_of_any p (x ∷ xs) h = elim (Bool-cases (p x)) [
    | inl t ↦ cc (rw t at h)
    | inr f ↦ rw f (omega (arith, count_where-zero_of_any p xs (rw f at h)))
  ]

  count_where-fewer :
      (p q : A → Bool) (f : A → A) (xs : List A)
      → ((y : A) → p (f y) ≡ false)
      → count_where p (update_where q f xs) ≤ count_where p xs
  count_where-fewer p q f [] off = omega arith
  count_where-fewer p q f (y ∷ xs) off = elim (Bool-cases (q y)) [
    | inl h ↦ rw (h, off y) (omega (arith, count_where-fewer p q f xs off))
    | inr n ↦ rw n (omega (arith, count_where-fewer p q f xs off))
  ]

  -- An UPDATE that makes a condition false of every row that it changes, one of which it holds of.
  pub count_where-less :
      (p q : A → Bool) (f : A → A) (xs : List A) (x : A)
      → ((y : A) → p (f y) ≡ false)
      → Memᴰ x xs
      → p x ≡ true
      → q x ≡ true
      → count_where p (update_where q f xs) < count_where p xs
  count_where-less p q f [] x off m t u = absurd (Memᴰ.not-nil m)
  count_where-less p q f (y ∷ xs) x off (Memᴰ.head e) t u =
      let hit : q y ≡ true = ap q (sym e) ∙ u in
      let was : p y ≡ true = ap p (sym e) ∙ t in
      rw (hit, off y, was) (omega (arith, count_where-fewer p q f xs off))
  count_where-less p q f (y ∷ xs) x off (Memᴰ.tail m) t u =
      let rest = count_where-less p q f xs x off m t u in
      elim (Bool-cases (q y)) [
        | inl h ↦ rw (h, off y) (omega (arith, rest))
        | inr n ↦ rw n (omega (arith, rest))
      ]
