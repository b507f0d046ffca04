-- ===== src/Store/Query.antt =====
-- What the engine's SQL does to a table: a table is the list of its rows.
pub mod Laws
use Prim.Native.String.{compare}
use text.Mathlib.Text.{is_lt, is_le}
use mrkt.Prelude.{
  ℕ, zero, suc, ◌+◌, String, ◌==◌, Bool, true, false, Option, none, some, List, [], ◌∷◌,
  if◌then◌else◌,
}

-- SQLite compares texts by their bytes.
abbrev pub text_lt : String → String → Bool
text_lt a b = is_lt (compare a b)

abbrev pub text_le : String → String → Bool
text_le a b = is_le (compare a b)

-- `column = ?` is not true of NULL.
abbrev pub equals : Option String → String → Bool
equals none s = false
equals (some t) s = t == s

module _ {ℓ} {A : Type ℓ} where
  -- `SELECT count(*) … WHERE p`, and the rows that an UPDATE affects.
  abbrev pub count_where : (A → Bool) → List A → ℕ
  count_where p [] = 0
  count_where p (x ∷ xs) = (if p x then 1 else 0) + count_where p xs

  -- `UPDATE … SET f WHERE p`.
  abbrev pub update_where : (A → Bool) → (A → A) → List A → List A
  update_where p f [] = []
  update_where p f (x ∷ xs) = (if p x then f x else x) ∷ update_where p f xs

  -- `DELETE … WHERE p`.
  abbrev pub delete_where : (A → Bool) → List A → List A
  delete_where p [] = []
  delete_where p (x ∷ xs) = let rest = delete_where p xs in if p x then rest else x ∷ rest

  -- `SELECT … WHERE p`.
  abbrev pub select_where : (A → Bool) → List A → List A
  select_where p [] = []
  select_where p (x ∷ xs) = let rest = select_where p xs in if p x then x ∷ rest else rest

  -- `INSERT OR IGNORE`, where `clash` says which rows a unique index sets against the new one.
  abbrev pub insert_or_ignore : (A → Bool) → A → List A → List A
  insert_or_ignore clash new [] = new ∷ []
  insert_or_ignore clash new (x ∷ xs) =
      if clash x then x ∷ xs else x ∷ insert_or_ignore clash new xs

  -- `INSERT … ON CONFLICT … DO UPDATE SET f`.
  abbrev pub upsert : (A → Bool) → (A → A) → A → List A → List A
  upsert clash f new [] = new ∷ []
  upsert clash f new (x ∷ xs) = if clash x then f x ∷ xs else x ∷ upsert clash f new xs

  -- The first row in an order, of those in a list: `ORDER BY … LIMIT 1`.
  abbrev pub better : (A → A → Bool) → A → Option A → A
  better before x none = x
  better before x (some y) = if before y x then y else x

  abbrev pub least : (A → A → Bool) → List A → Option A
  least before [] = none
  least before (x ∷ xs) = some (better before x (least before xs))

  -- `ORDER BY`, and `LIMIT n`.
  abbrev pub insert_by : (A → A → Bool) → A → List A → List A
  insert_by before x [] = x ∷ []
  insert_by before x (y ∷ ys) =
      let rest = insert_by before x ys in if before y x then y ∷ rest else x ∷ y ∷ ys

  abbrev pub order_by : (A → A → Bool) → List A → List A
  order_by before [] = []
  order_by before (x ∷ xs) = insert_by before x (order_by before xs)

  abbrev pub limit : ℕ → List A → List A
  limit zero xs = []
  limit (suc n) [] = []
  limit (suc n) (x ∷ xs) = x ∷ limit n xs
