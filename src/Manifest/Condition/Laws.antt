-- ===== src/Manifest/Condition/Laws.antt =====
-- How the operators of a condition relate.
use mrkt.Prelude.{
  ℕ, String, ◌≡◌, ◌↔◌, refl, sym, ap, ◌∙◌, ◌⊎◌, inl, inr, Bool, true, not, ◌||◌, some, Option-cases,
  split,
}
use mrkt.Manifest.Types.{
  ℤ, Value, Fields, Condition, Runtime, null, text, bool, int, int64, float, number, array, object,
}
use mrkt.Manifest.Condition.{
  descend, as_number, both, loosely_equal, compare_values, evaluate_at, evaluate,
}

-- The condition with another operator.
abbrev pub with_op : Condition → String → Condition
with_op c op = record c { op = op }

-- IEEE 754: `==` is symmetric, and `<=` is `<` or `==`.
pub record FloatLaws (rt : Runtime) : Type 0 where
  pub eq_comm : (a b : ℕ) → rt.float_eq a b ≡ rt.float_eq b a
  pub le_iff : (a b : ℕ) → rt.float_le a b ≡ (rt.float_lt a b || rt.float_eq a b)

some_injective : {x y : ℕ} → some x ≡ some y → x ≡ y
some_injective e = cc

-- The values that stand for a number, and for which one: Go's integers, floats and `json.Number`.
abbrev pub Denotes : Runtime → Value → ℕ → Type 0
Denotes rt v x =
    ((n : ℤ) × (v ≡ int n) × (rt.float_of_int n ≡ x))
    ⊎ ((n : ℤ) × (v ≡ int64 n) × (rt.float_of_int n ≡ x))
    ⊎ (v ≡ float x)
    ⊎ ((s : String) × (v ≡ number s) × (rt.float_of_number s ≡ some x))

as_number-of : (rt : Runtime) (v : Value) (x : ℕ) → Denotes rt v x → as_number rt v ≡ some x
unfolding as_number
as_number-of rt v x (inl (n, e, h)) = rw e (ap (λ y. some y) h)
as_number-of rt v x (inr (inl (n, e, h))) = rw e (ap (λ y. some y) h)
as_number-of rt v x (inr (inr (inl e))) = rw e refl
as_number-of rt v x (inr (inr (inr (s, e, h)))) = rw e h

as_number-Denotes : (rt : Runtime) (v : Value) (x : ℕ) → as_number rt v ≡ some x → Denotes rt v x
unfolding as_number
as_number-Denotes rt null x h = cc
as_number-Denotes rt (text s) x h = cc
as_number-Denotes rt (bool b) x h = cc
as_number-Denotes rt (int n) x h = inl (n, refl, some_injective h)
as_number-Denotes rt (int64 n) x h = inr (inl (n, refl, some_injective h))
as_number-Denotes rt (float y) x h = inr (inr (inl (ap (λ z. float z) (some_injective h))))
as_number-Denotes rt (number s) x h = inr (inr (inr (s, refl, h)))
as_number-Denotes rt (array xs) x h = cc
as_number-Denotes rt (object m) x h = cc

-- The value that the path of a condition leads to.
abbrev pub LeadsTo : Condition → Fields → Value → Type 0
LeadsTo c vars got = descend (split b'.' c.field) (object vars) ≡ some got

evaluate_value :
    (rt : Runtime) (c : Condition) (vars : Fields) (got : Value)
    → LeadsTo c vars got
    → evaluate rt (some c) vars ≡ evaluate_at rt c (some got)
unfolding evaluate
evaluate_value rt c vars got h = ap (evaluate_at rt c) h

abbrev pub says : Runtime → Condition → Fields → String → Bool
says rt c vars op = evaluate rt (some (with_op c op)) vars

module _ (rt : Runtime) (c : Condition) (vars : Fields) (got : Value)
    (at : LeadsTo c vars got) where
  says_value : (op : String) → says rt c vars op ≡ evaluate_at rt (with_op c op) (some got)
  says_value op = evaluate_value rt (with_op c op) vars got at

  loosely_equal_numbers :
      (a b : ℕ)
      → as_number rt got ≡ some a
      → as_number rt c.value ≡ some b
      → loosely_equal rt got c.value ≡ rt.float_eq a b
  unfolding loosely_equal
  loosely_equal_numbers a b ha hb = rw (ha, hb, loosely_equal)

  -- Where the value that the path of the condition leads to and the constant are numbers, under the
  -- two laws of IEEE comparisons: `ne` says the contrary of `eq`, `gte` says that `gt` or `eq` does,
  -- and `lte` that `lt` or `eq` does.
  pub evaluate_numbers :
      (a b : ℕ)
      → FloatLaws rt
      → Denotes rt got a
      → Denotes rt c.value b
      → (says rt c vars "ne" ≡ not (says rt c vars "eq"))
        × (says rt c vars "gte" ≡ (says rt c vars "gt" || says rt c vars "eq"))
        × (says rt c vars "lte" ≡ (says rt c vars "lt" || says rt c vars "eq"))
  unfolding compare_values
  evaluate_numbers a b laws da db =
      let ha = as_number-of rt got a da in
      let hb = as_number-of rt c.value b db in
      let eq = says_value "eq" ∙ loosely_equal_numbers a b ha hb in
      let gt : says rt c vars "gt" ≡ rt.float_lt b a = says_value "gt" ∙ rw (ha, hb) in
      let gte : says rt c vars "gte" ≡ rt.float_le b a = says_value "gte" ∙ rw (ha, hb) in
      let lt : says rt c vars "lt" ≡ rt.float_lt a b = says_value "lt" ∙ rw (ha, hb) in
      let lte : says rt c vars "lte" ≡ rt.float_le a b = says_value "lte" ∙ rw (ha, hb) in
      (
        says_value "ne" ∙ ap not (sym (says_value "eq")),
        cc (gte, gt, eq, laws.le_iff b a, laws.eq_comm b a),
        cc (lte, lt, eq, laws.le_iff a b),
      )

  -- Both are numbers, and in the relation.
  abbrev pub Ordered : (ℕ → ℕ → Bool) → Type 0
  Ordered r = (a : ℕ) × (b : ℕ) × Denotes rt got a × Denotes rt c.value b × (r a b ≡ true)

  both-Ordered :
      (r : ℕ → ℕ → Bool) → (both r (as_number rt got) (as_number rt c.value) ≡ true) ↔ Ordered r
  both-Ordered r = (
    λ h. elim (Option-cases (as_number rt got)) [
      | inl n ↦ cc (rw n at h)
      | inr (a, n) ↦ elim (Option-cases (as_number rt c.value)) [
        | inl k ↦ cc (rw (n, k) at h)
        | inr (b, k) ↦
            (a, b, as_number-Denotes rt got a n, as_number-Denotes rt c.value b k, rw (n, k) at h)
      ]
    ],
    λ (a, b, da, db, h). rw (as_number-of rt got a da, as_number-of rt c.value b db) h,
  )

  orders :
      (op : String) (r : ℕ → ℕ → Bool)
      → says rt c vars op ≡ both r (as_number rt got) (as_number rt c.value)
      → (says rt c vars op ≡ true) ↔ Ordered r
  orders op r e = let (there, back) = both-Ordered r in (λ h. there (sym e ∙ h), λ o. e ∙ back o)

  -- On a value that the path of the condition leads to, each of `gt`, `gte`, `lt` and `lte` holds
  -- exactly where the value and the constant are both numbers, of whichever of the four types, and
  -- these are in that order.
  pub evaluate_orders :
      ((says rt c vars "gt" ≡ true) ↔ Ordered (λ x y. rt.float_lt y x))
      × ((says rt c vars "gte" ≡ true) ↔ Ordered (λ x y. rt.float_le y x))
      × ((says rt c vars "lt" ≡ true) ↔ Ordered rt.float_lt)
      × ((says rt c vars "lte" ≡ true) ↔ Ordered rt.float_le)
  unfolding compare_values
  evaluate_orders = (
    orders "gt" (λ x y. rt.float_lt y x) (says_value "gt"),
    orders "gte" (λ x y. rt.float_le y x) (says_value "gte"),
    orders "lt" rt.float_lt (says_value "lt"),
    orders "lte" rt.float_le (says_value "lte"),
  )
