-- ===== src/Store/Query/Laws/Keys.antt =====
-- What the statements on a table with a key leave of a row that they do not touch.
use mrkt.Prelude.{
  ◌≡◌, refl, ap, ◌∙◌, Bool, true, false, none, some, List, [], ◌∷◌, arith, any, find, inl, inr,
  Bool-cases,
}
use mrkt.Store.Query.{update_where, delete_where, insert_or_ignore}

module _ {ℓ} {A : Type ℓ} where
  -- A row that a DELETE spares is found as before.
  pub find-delete_spared :
      (p q : A → Bool) (xs : List A) (x : A)
      → find p xs ≡ some x
      → q x ≡ false
      → find p (delete_where q xs) ≡ some x
  find-delete_spared p q [] x e n = cc
  find-delete_spared p q (y ∷ xs) x e n = elim (Bool-cases (p y)) [
    | inl t ↦
        let same : some y ≡ some x = rw t at e in
        let here : y ≡ x = cc in let kept : q y ≡ false = ap q here ∙ n in rw kept (rw t same)
    | inr f ↦
        let rest = find-delete_spared p q xs x (rw f at e) n in
        elim (Bool-cases (q y)) [ inl t ↦ rw t rest | inr m ↦ rw m (rw f rest) ]
  ]

  -- An INSERT of whatever row leaves the row that a search finds.
  pub find-insert_or_ignore :
      (p clash : A → Bool) (new : A) (xs : List A) (x : A)
      → find p xs ≡ some x
      → find p (insert_or_ignore clash new xs) ≡ some x
  find-insert_or_ignore p clash new [] x e = cc
  find-insert_or_ignore p clash new (y ∷ xs) x e = elim (Bool-cases (clash y)) [
    | inl t ↦ rw t e
    | inr n ↦ elim (Bool-cases (p y)) [
      | inl u ↦ rw (n, u) (rw u at e)
      | inr u ↦ rw (n, u) (find-insert_or_ignore p clash new xs x (rw u at e))
    ]
  ]

  -- A new key is inserted, and found.
  pub find-inserted_new :
      (p : A → Bool) (new : A) (xs : List A)
      → any p xs ≡ false
      → p new ≡ true
      → find p (insert_or_ignore p new xs) ≡ some new
  find-inserted_new p new [] h t = rw t refl
  find-inserted_new p new (y ∷ xs) h t =
      let f : p y ≡ false = ground arith in
      let rest : any p xs ≡ false = rw f at h in rw f (rw f (find-inserted_new p new xs rest t))

  pub any-none_of_find : (p : A → Bool) (xs : List A) → find p xs ≡ none → any p xs ≡ false
  any-none_of_find p [] e = refl
  any-none_of_find p (y ∷ xs) e = elim (Bool-cases (p y)) [
    | inl t ↦ cc (rw t at e)
    | inr f ↦ rw f (any-none_of_find p xs (rw f at e))
  ]

  -- Statements that make no row of a kind leave none of it.
  pub any-false_of_update :
      (p q : A → Bool) (f : A → A) (xs : List A)
      → ((y : A) → q y ≡ true → p y ≡ false → p (f y) ≡ false)
      → any p xs ≡ false
      → any p (update_where q f xs) ≡ false
  any-false_of_update p q f [] keep h = refl
  any-false_of_update p q f (y ∷ xs) keep h =
      let n : p y ≡ false = ground arith in
      let rest = any-false_of_update p q f xs keep (rw n at h) in
      elim (Bool-cases (q y)) [ inl t ↦ rw t (rw (keep y t n) rest) | inr m ↦ rw m (rw n rest) ]

  pub any-false_of_delete :
      (p q : A → Bool) (xs : List A) → any p xs ≡ false → any p (delete_where q xs) ≡ false
  any-false_of_delete p q [] h = refl
  any-false_of_delete p q (y ∷ xs) h =
      let n : p y ≡ false = ground arith in
      let rest = any-false_of_delete p q xs (rw n at h) in
      elim (Bool-cases (q y)) [ inl t ↦ rw t rest | inr m ↦ rw m (rw n rest) ]

  pub any-false_of_insert :
      (p clash : A → Bool) (new : A) (xs : List A)
      → p new ≡ false
      → any p xs ≡ false
      → any p (insert_or_ignore clash new xs) ≡ false
  any-false_of_insert p clash new [] f h = rw f refl
  any-false_of_insert p clash new (y ∷ xs) f h =
      let n : p y ≡ false = ground arith in
      let rest = any-false_of_insert p clash new xs f (rw n at h) in
      elim (Bool-cases (clash y)) [ inl t ↦ rw t h | inr m ↦ rw m (rw n rest) ]

  -- Where every row of a kind is deleted, none is found.
  pub find-none_of_delete :
      (p q left : A → Bool) (xs : List A)
      → ((y : A) → p y ≡ true → left y ≡ false → q y ≡ true)
      → any left xs ≡ false
      → find p (delete_where q xs) ≡ none
  find-none_of_delete p q left [] all h = refl
  find-none_of_delete p q left (y ∷ xs) all h =
      let n : left y ≡ false = ground arith in
      let rest = find-none_of_delete p q left xs all (rw n at h) in
      elim (Bool-cases (p y)) [
        | inl t ↦ rw (all y t n) rest
        | inr f ↦ elim (Bool-cases (q y)) [ inl t ↦ rw t rest | inr m ↦ rw m (rw f rest) ]
      ]

  pub any-false_of_fewer :
      (p q : A → Bool) (xs : List A)
      → ((y : A) → p y ≡ false → q y ≡ false)
      → any p xs ≡ false
      → any q xs ≡ false
  any-false_of_fewer p q [] fewer h = refl
  any-false_of_fewer p q (y ∷ xs) fewer h =
      let n : p y ≡ false = ground arith in
      rw (fewer y n) (any-false_of_fewer p q xs fewer (rw n at h))
