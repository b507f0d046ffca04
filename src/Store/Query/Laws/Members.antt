-- ===== src/Store/Query/Laws/Members.antt =====
-- Which rows a query yields.
use mrkt.Prelude.{
  ℕ, zero, suc, ◌≡◌, refl, ap, sym, ◌∙◌, inl, inr, Bool, true, false, some, List, [], ◌∷◌, Memᴰ,
  find, ◌++◌, Option-cases, if◌then◌else◌, Bool-cases,
}
use mathlib.Core.List.Memᴰ
use mrkt.Store.Query.{
  delete_where, update_where, select_where, upsert, least, insert_by, order_by, limit,
}

module _ {ℓ} {A : Type ℓ} where
  pub mem-select_where :
      (p : A → Bool) (xs : List A) (x : A) → Memᴰ x (select_where p xs) → Memᴰ x xs × (p x ≡ true)
  mem-select_where p [] x m = absurd (Memᴰ.not-nil m)
  mem-select_where p (y ∷ xs) x m = elim (Bool-cases (p y)) [
    | inl t ↦ first (mem-select_where p xs x) t (rw t at m)
    | inr f ↦ let (n, q) = mem-select_where p xs x (rw f at m) in (Memᴰ.tail n, q)
  ]
    where
      first :
          (Memᴰ x (select_where p xs) → Memᴰ x xs × (p x ≡ true))
          → p y ≡ true
          → Memᴰ x (y ∷ select_where p xs)
          → Memᴰ x (y ∷ xs) × (p x ≡ true)
      first ih t (Memᴰ.head e) = (Memᴰ.head e, ap p e ∙ t)
      first ih t (Memᴰ.tail n) = let (k, q) = ih n in (Memᴰ.tail k, q)

  -- A row after an UPDATE is a row before it, changed if the condition holds of it.
  pub mem-update_where :
      (p : A → Bool) (f : A → A) (xs : List A) (y : A)
      → Memᴰ y (update_where p f xs)
      → (x : A) × Memᴰ x xs × (y ≡ (if p x then f x else x))
  mem-update_where p f [] y m = absurd (Memᴰ.not-nil m)
  mem-update_where p f (x ∷ xs) y (Memᴰ.head e) = (x, Memᴰ.head refl, e)
  mem-update_where p f (x ∷ xs) y (Memᴰ.tail m) =
      let (z, n, e) = mem-update_where p f xs y m in (z, Memᴰ.tail n, e)

  -- A row of which the condition does not hold is still there.
  pub update_where-mem :
      (p : A → Bool) (f : A → A) (xs : List A) (x : A)
      → Memᴰ x xs
      → p x ≡ false
      → Memᴰ x (update_where p f xs)
  update_where-mem p f [] x m h = absurd (Memᴰ.not-nil m)
  update_where-mem p f (y ∷ xs) x (Memᴰ.head e) h = Memᴰ.head (rw (ap p (sym e) ∙ h) e)
  update_where-mem p f (y ∷ xs) x (Memᴰ.tail m) h = Memᴰ.tail (update_where-mem p f xs x m h)

  -- `least` yields a row of the list.
  pub mem-least :
      (before : A → A → Bool) (xs : List A) (x : A) → least before xs ≡ some x → Memᴰ x xs
  mem-least before [] x e = cc
  mem-least before (y ∷ xs) x e = elim (Option-cases (least before xs)) [
    | inl z ↦ Memᴰ.head (cc (rw z at e))
    | inr (w, z) ↦ elim (Bool-cases (before w y)) [
      | inl t ↦ Memᴰ.tail (mem-least before xs x (z ∙ rw (z, t) at e))
      | inr f ↦ Memᴰ.head (cc (rw (z, f) at e))
    ]
  ]

  -- An upsert whose row does not satisfy a condition, neither before nor after.
  pub select_where-upsert :
      (p q : A → Bool) (f : A → A) (new : A) (xs : List A)
      → p new ≡ false
      → ((x : A) → p (f x) ≡ false)
      → ((x : A) → find q xs ≡ some x → p x ≡ false)
      → select_where p (upsert q f new xs) ≡ select_where p xs
  select_where-upsert p q f new [] fresh changed first = rw fresh refl
  select_where-upsert p q f new (x ∷ xs) fresh changed first = elim (Bool-cases (q x)) [
    | inl t ↦ rw (t, changed x, first x (rw t refl)) refl
    | inr n ↦
        let rest = select_where-upsert p q f new xs fresh changed (λ y e. first y (rw n e)) in
        rw (n, rest) refl
  ]

  -- There is a least row where there is a row.
  pub least-found :
      (before : A → A → Bool) (p : A → Bool) (xs : List A) (x : A)
      → Memᴰ x xs
      → p x ≡ true
      → (y : A) × (least before (select_where p xs) ≡ some y)
  least-found before p [] x m t = absurd (Memᴰ.not-nil m)
  least-found before p (z ∷ xs) x m t = elim (Bool-cases (p z)) [
    | inl u ↦ rw u (_, refl)
    | inr u ↦ rw u (least-found before p xs x (later m u) t)
  ]
    where
      later : Memᴰ x (z ∷ xs) → p z ≡ false → Memᴰ x xs
      later (Memᴰ.head e) u = cc (ap p e)
      later (Memᴰ.tail n) u = n

  pub update_where-append :
      (q : A → Bool) (f : A → A) (xs : List A) (y : A)
      → update_where q f (xs ++ y ∷ []) ≡ update_where q f xs ++ (if q y then f y else y) ∷ []
  update_where-append q f [] y = refl
  update_where-append q f (x ∷ xs) y =
      ap (λ rest. (if q x then f x else x) ∷ rest) (update_where-append q f xs y)

  pub delete_where-mem :
      (p : A → Bool) (xs : List A) (x : A) → Memᴰ x xs → p x ≡ false → Memᴰ x (delete_where p xs)
  delete_where-mem p [] x m h = absurd (Memᴰ.not-nil m)
  delete_where-mem p (y ∷ xs) x (Memᴰ.head e) h = rw (ap p (sym e) ∙ h) (Memᴰ.head e)
  delete_where-mem p (y ∷ xs) x (Memᴰ.tail m) h = elim (Bool-cases (p y)) [
    | inl t ↦ rw t (delete_where-mem p xs x m h)
    | inr n ↦ rw n (Memᴰ.tail (delete_where-mem p xs x m h))
  ]

  pub select_where-mem :
      (p : A → Bool) (xs : List A) (x : A) → Memᴰ x xs → p x ≡ true → Memᴰ x (select_where p xs)
  select_where-mem p [] x m h = absurd (Memᴰ.not-nil m)
  select_where-mem p (y ∷ xs) x (Memᴰ.head e) h = rw (ap p (sym e) ∙ h) (Memᴰ.head e)
  select_where-mem p (y ∷ xs) x (Memᴰ.tail m) h = elim (Bool-cases (p y)) [
    | inl t ↦ rw t (Memᴰ.tail (select_where-mem p xs x m h))
    | inr n ↦ rw n (select_where-mem p xs x m h)
  ]

  pub mem-find : (p : A → Bool) (xs : List A) (x : A) → find p xs ≡ some x → Memᴰ x xs
  mem-find p [] x e = cc
  mem-find p (y ∷ xs) x e = elim (Bool-cases (p y)) [
    | inl t ↦ Memᴰ.head (cc (rw t at e))
    | inr n ↦ Memᴰ.tail (mem-find p xs x (rw n at e))
  ]

  pub mem-widen :
      (y x : A) (xs ys : List A) → (Memᴰ x xs → Memᴰ x ys) → Memᴰ x (y ∷ xs) → Memᴰ x (y ∷ ys)
  mem-widen y x xs ys f (Memᴰ.head e) = Memᴰ.head e
  mem-widen y x xs ys f (Memᴰ.tail m) = Memᴰ.tail (f m)

  pub mem-swap : (y z x : A) (xs : List A) → Memᴰ x (z ∷ y ∷ xs) → Memᴰ x (y ∷ z ∷ xs)
  mem-swap y z x xs (Memᴰ.head e) = Memᴰ.tail (Memᴰ.head e)
  mem-swap y z x xs (Memᴰ.tail m) = mem-widen y x xs (z ∷ xs) (λ k. Memᴰ.tail k) m

  pub mem-insert_by :
      (before : A → A → Bool) (y : A) (xs : List A) (x : A)
      → Memᴰ x (insert_by before y xs)
      → Memᴰ x (y ∷ xs)
  mem-insert_by before y [] x m = m
  mem-insert_by before y (z ∷ xs) x m = elim (Bool-cases (before z y)) [
    | inl t ↦
        mem-swap y z x xs
          (mem-widen z x (insert_by before y xs) (y ∷ xs) (mem-insert_by before y xs x) (rw t at m))
    | inr n ↦ rw n at m
  ]

  pub mem-order_by :
      (before : A → A → Bool) (xs : List A) (x : A) → Memᴰ x (order_by before xs) → Memᴰ x xs
  mem-order_by before [] x m = m
  mem-order_by before (y ∷ xs) x m =
      mem-widen y x (order_by before xs) xs (mem-order_by before xs x)
        (mem-insert_by before y (order_by before xs) x m)

  pub mem-limit : (n : ℕ) (xs : List A) (x : A) → Memᴰ x (limit n xs) → Memᴰ x xs
  mem-limit zero xs x m = absurd (Memᴰ.not-nil m)
  mem-limit (suc n) [] x m = m
  mem-limit (suc n) (y ∷ xs) x (Memᴰ.head e) = Memᴰ.head e
  mem-limit (suc n) (y ∷ xs) x (Memᴰ.tail m) = Memᴰ.tail (mem-limit n xs x m)

  -- A row of which the condition holds is there as it is changed.
  pub update_where-hit :
      (p : A → Bool) (f : A → A) (xs : List A) (x : A)
      → Memᴰ x xs
      → p x ≡ true
      → Memᴰ (f x) (update_where p f xs)
  update_where-hit p f [] x m h = absurd (Memᴰ.not-nil m)
  update_where-hit p f (y ∷ xs) x (Memᴰ.head e) h = rw (ap p (sym e) ∙ h) (Memᴰ.head (ap f e))
  update_where-hit p f (y ∷ xs) x (Memᴰ.tail m) h = Memᴰ.tail (update_where-hit p f xs x m h)
