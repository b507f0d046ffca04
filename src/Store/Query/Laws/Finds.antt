-- ===== src/Store/Query/Laws/Finds.antt =====
-- Laws of the first row that is found, and of whether there is one.
use mrkt.Prelude.{
  ◌≡◌, refl, ap, sym, ◌∙◌, inl, inr, Bool, true, false, none, some, List, [], ◌∷◌, Memᴰ, arith, any,
  find, subst, ◌++◌, if◌then◌else◌, Bool-cases,
}
use mathlib.Core.List.Memᴰ
use mrkt.Store.Query.{delete_where, update_where, upsert, insert_or_ignore}

module _ {ℓ} {A : Type ℓ} where
  pub any-mem : (p : A → Bool) (xs : List A) → any p xs ≡ true → (x : A) × Memᴰ x xs × (p x ≡ true)
  any-mem p [] h = cc
  any-mem p (x ∷ xs) h = elim (Bool-cases (p x)) [
    | inl t ↦ (x, Memᴰ.head refl, t)
    | inr f ↦ let (y, m, t) = any-mem p xs (rw f at h) in (y, Memᴰ.tail m, t)
  ]

  pub any-false : (p : A → Bool) (xs : List A) (x : A) → any p xs ≡ false → Memᴰ x xs → p x ≡ false
  any-false p [] x h m = absurd (Memᴰ.not-nil m)
  any-false p (y ∷ xs) x h (Memᴰ.head e) = ap p e ∙ ground arith
  any-false p (y ∷ xs) x h (Memᴰ.tail m) = any-false p xs x (ground arith) m

  pub find-append :
      (p : A → Bool) (xs : List A) (y : A)
      → find p xs ≡ none
      → p y ≡ true
      → find p (xs ++ y ∷ []) ≡ some y
  find-append p [] y e t = rw t
  find-append p (x ∷ xs) y e t = elim (Bool-cases (p x)) [
    | inl q ↦ cc (rw q at e)
    | inr f ↦ rw f (find-append p xs y (rw f at e) t)
  ]

  -- An UPDATE that changes nothing of what a search tests.
  pub find-update_where :
      (p q : A → Bool) (f : A → A) (xs : List A) (x : A)
      → ((y : A) → p (f y) ≡ p y)
      → find p xs ≡ some x
      → find p (update_where q f xs) ≡ some (if q x then f x else x)
  find-update_where p q f [] x same e = cc
  find-update_where p q f (y ∷ xs) x same e = elim (Bool-cases (p y)) [
    | inl t ↦
        let first : y ≡ x = cc (rw t at e) in
        subst (λ z. find p (update_where q f (y ∷ xs)) ≡ some (if q z then f z else z)) first
          (rw (kept y ∙ t))
    | inr n ↦ rw (kept y ∙ n) (find-update_where p q f xs x same (rw n at e))
  ]
    where
      kept : (z : A) → p (if q z then f z else z) ≡ p z
      kept z = elim (Bool-cases (q z)) [ inl t ↦ rw t (same z) | inr n ↦ rw n ]

  pub find-true : (p : A → Bool) (xs : List A) (x : A) → find p xs ≡ some x → p x ≡ true
  find-true p [] x e = cc
  find-true p (y ∷ xs) x e = elim (Bool-cases (p y)) [
    | inl t ↦ ap p (sym (first t)) ∙ t
    | inr f ↦ find-true p xs x (rw f at e)
  ]
    where
      first : p y ≡ true → y ≡ x
      first t = cc (rw t at e)

  pub find-none :
      (p q : A → Bool) (f : A → A) (xs : List A)
      → ((x : A) → q x ≡ true → p (f x) ≡ false)
      → ((x : A) → q x ≡ false → p x ≡ false)
      → find p (update_where q f xs) ≡ none
  find-none p q f [] changed kept = refl
  find-none p q f (x ∷ xs) changed kept = elim (Bool-cases (q x)) [
    | inl t ↦ rw (t, changed x t) (find-none p q f xs changed kept)
    | inr n ↦ rw (n, kept x n) (find-none p q f xs changed kept)
  ]

  pub any-none :
      (p q : A → Bool) (f : A → A) (xs : List A)
      → ((x : A) → q x ≡ true → p (f x) ≡ false)
      → ((x : A) → q x ≡ false → p x ≡ false)
      → any p (update_where q f xs) ≡ false
  any-none p q f [] changed kept = refl
  any-none p q f (x ∷ xs) changed kept = elim (Bool-cases (q x)) [
    | inl t ↦ rw (t, changed x t) (any-none p q f xs changed kept)
    | inr n ↦ rw (n, kept x n) (any-none p q f xs changed kept)
  ]

  -- A row that a search finds is found again when rows are added at the end.
  pub find-grown :
      (p : A → Bool) (xs ys : List A) (x : A) → find p xs ≡ some x → find p (xs ++ ys) ≡ some x
  find-grown p [] ys x e = cc
  find-grown p (y ∷ xs) ys x e = elim (Bool-cases (p y)) [
    | inl t ↦ rw t (rw t at e)
    | inr f ↦ rw f (find-grown p xs ys x (rw f at e))
  ]

  pub any-of_mem : (p : A → Bool) (xs : List A) (x : A) → Memᴰ x xs → p x ≡ true → any p xs ≡ true
  any-of_mem p [] x m t = absurd (Memᴰ.not-nil m)
  any-of_mem p (y ∷ xs) x (Memᴰ.head e) t = rw (ap p (sym e) ∙ t)
  any-of_mem p (y ∷ xs) x (Memᴰ.tail m) t = let rest = any-of_mem p xs x m t in ground arith

  pub any-upsert-hit :
      (p q : A → Bool) (f : A → A) (new : A) (xs : List A)
      → p new ≡ true
      → ((x : A) → q x ≡ true → p (f x) ≡ true)
      → any p (upsert q f new xs) ≡ true
  any-upsert-hit p q f new [] h g = rw h
  any-upsert-hit p q f new (x ∷ xs) h g = elim (Bool-cases (q x)) [
    | inl t ↦ rw t (rw (g x t))
    | inr n ↦ let rest = any-upsert-hit p q f new xs h g in rw n (ground arith)
  ]

  pub any-upsert-kept :
      (p q : A → Bool) (f : A → A) (new : A) (xs : List A)
      → ((x : A) → p x ≡ true → p (f x) ≡ true)
      → any p xs ≡ true
      → any p (upsert q f new xs) ≡ true
  any-upsert-kept p q f new [] g h = cc
  any-upsert-kept p q f new (x ∷ xs) g h = elim (Bool-cases (q x)) [
    | inl t ↦ elim (Bool-cases (p x)) [
      | inl u ↦ rw t (rw (g x u))
      | inr u ↦ let rest : any p xs ≡ true = rw u at h in rw t (ground arith)
    ]
    | inr n ↦ elim (Bool-cases (p x)) [
      | inl u ↦ rw n (rw u)
      | inr u ↦ let rest = any-upsert-kept p q f new xs g (rw u at h) in rw n (ground arith)
    ]
  ]

  pub find-absent :
      (p : A → Bool) (xs : List A) (y : A)
      → find p xs ≡ none
      → p y ≡ false
      → find p (xs ++ y ∷ []) ≡ none
  find-absent p [] y e h = rw h refl
  find-absent p (x ∷ xs) y e h = elim (Bool-cases (p x)) [
    | inl t ↦ cc (rw t at e)
    | inr f ↦ rw f (find-absent p xs y (rw f at e) h)
  ]

  pub find-delete_where :
      (p q : A → Bool) (xs : List A) (y : A)
      → find p xs ≡ none
      → q y ≡ true
      → find p (delete_where q (xs ++ y ∷ [])) ≡ none
  find-delete_where p q [] y e h = rw h refl
  find-delete_where p q (x ∷ xs) y e h = elim (Bool-cases (p x)) [
    | inl t ↦ cc (rw t at e)
    | inr f ↦
        let rest = find-delete_where p q xs y (rw f at e) h in
        elim (Bool-cases (q x)) [ inl t ↦ rw t rest | inr n ↦ rw n (rw f rest) ]
  ]

  pub any-insert_or_ignore :
      (p q : A → Bool) (new : A) (xs : List A)
      → any p xs ≡ true
      → any p (insert_or_ignore q new xs) ≡ true
  any-insert_or_ignore p q new [] h = cc
  any-insert_or_ignore p q new (x ∷ xs) h = elim (Bool-cases (q x)) [
    | inl t ↦ rw t h
    | inr n ↦ elim (Bool-cases (p x)) [
      | inl u ↦ rw (n, u) refl
      | inr u ↦ rw (n, u) (any-insert_or_ignore p q new xs (rw u at h))
    ]
  ]

  -- The row that clashes, or the new one, is there.
  pub any-inserted :
      (q : A → Bool) (new : A) (xs : List A)
      → q new ≡ true
      → any q (insert_or_ignore q new xs) ≡ true
  any-inserted q new [] h = rw h refl
  any-inserted q new (x ∷ xs) h = elim (Bool-cases (q x)) [
    | inl t ↦ rw t (rw t refl)
    | inr n ↦ rw n (rw n (any-inserted q new xs h))
  ]

  pub find-kept_none :
      (p q : A → Bool) (f : A → A) (xs : List A)
      → ((y : A) → p (f y) ≡ p y)
      → find p xs ≡ none
      → find p (update_where q f xs) ≡ none
  find-kept_none p q f [] same e = refl
  find-kept_none p q f (x ∷ xs) same e = elim (Bool-cases (p x)) [
    | inl t ↦ cc (rw t at e)
    | inr n ↦
        let rest = find-kept_none p q f xs same (rw n at e) in
        elim (Bool-cases (q x)) [ inl t ↦ rw (t, same x, n) rest | inr m ↦ rw (m, n) rest ]
  ]

  pub any-of_find :
      (p q : A → Bool) (xs : List A) (x : A) → find p xs ≡ some x → q x ≡ true → any q xs ≡ true
  any-of_find p q [] x e t = cc
  any-of_find p q (y ∷ xs) x e t = elim (Bool-cases (p y)) [
    | inl u ↦ let same : y ≡ x = cc (rw u at e) in rw (ap q same ∙ t) refl
    | inr n ↦ let rest = any-of_find p q xs x (rw n at e) t in ground arith
  ]

  -- An UPDATE that changes nothing of what is asked.
  pub any-update_where :
      (p q : A → Bool) (f : A → A) (xs : List A)
      → ((y : A) → p (f y) ≡ p y)
      → any p (update_where q f xs) ≡ any p xs
  any-update_where p q f [] same = refl
  any-update_where p q f (x ∷ xs) same = elim (Bool-cases (q x)) [
    | inl t ↦ rw (t, same x, any-update_where p q f xs same) refl
    | inr n ↦ rw (n, any-update_where p q f xs same) refl
  ]

  pub any-grown : (p : A → Bool) (xs ys : List A) → any p xs ≡ true → any p (xs ++ ys) ≡ true
  any-grown p [] ys h = cc
  any-grown p (x ∷ xs) ys h = elim (Bool-cases (p x)) [
    | inl t ↦ rw t refl
    | inr n ↦ rw n (any-grown p xs ys (rw n at h))
  ]
