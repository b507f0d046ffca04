-- ===== src/Manifest/Condition.antt =====
-- internal/manifest/simulation.go, `Evaluate`, and internal/manifest/manifest.go,
-- `validateCondition`.

pub mod Laws
use mrkt.Prelude.{
  ℕ, String, ◌==◌, Bool, true, false, not, ◌&&◌, ◌||◌, Option, none, some, List, [], ◌∷◌, codes,
  contains, split, length, leb, eqb, if◌then◌else◌,
}
use mrkt.Manifest.Types.{
  Value, Fields, end, Condition, Runtime, ValidationError, invalid, null, text, bool, int, int64,
  float, number, object,
}

-- `m[key]` of a `map[string]any`: nil where the key is missing.
unfoldable pub member : String → Fields → Value
member key end = null
member key (Fields.entry k v rest) = if k == key then v else member key rest

-- The loop over the path: `none` where a value on the way is no object.
unfoldable pub descend : List String → Value → Option Value
descend [] got = some got
descend (key ∷ path) (object m) = descend path (member key m)
descend (key ∷ path) _ = none

abbrev pub is_null : Value → Bool
is_null null = true
is_null _ = false

-- `number := func(v any) (float64, bool)`.
unfoldable pub as_number : Runtime → Value → Option ℕ
as_number rt (int n) = some (rt.float_of_int n)
as_number rt (int64 n) = some (rt.float_of_int n)
as_number rt (float x) = some x
as_number rt (number s) = rt.float_of_number s
as_number rt _ = none

-- `an && bn && a R b`.
abbrev pub both : (ℕ → ℕ → Bool) → Option ℕ → Option ℕ → Bool
both r (some a) (some b) = r a b
both r _ _ = false

-- `equal`: numeric where both sides are numbers, and `reflect.DeepEqual` otherwise.
pub loosely_equal : Runtime → Value → Value → Bool
unfolding as_number
loosely_equal rt got v = elim (as_number rt got) [
  | none ↦ rt.deep_equal got v
  | some a ↦ elim (as_number rt v) [ none ↦ rt.deep_equal got v | some b ↦ rt.float_eq a b ]
]

-- The operators but `exists`.
pub compare_values : Runtime → String → Value → Value → Bool
unfolding loosely_equal as_number
compare_values rt op got v =
    let a = as_number rt got in
    let b = as_number rt v in
    if op == "eq"
    then loosely_equal rt got v
    else if op == "ne"
    then not (loosely_equal rt got v)
    else if op == "gt"
    then both (λ x y. rt.float_lt y x) a b
    else if op == "gte"
    then both (λ x y. rt.float_le y x) a b
    else if op == "lt"
    then both rt.float_lt a b
    else if op == "lte"
    then both rt.float_le a b
    else false

abbrev pub evaluate_at : Runtime → Condition → Option Value → Bool
evaluate_at rt c none = false
evaluate_at rt c (some got) =
    if c.op == "exists" then not (is_null got) else compare_values rt c.op got c.value

unfoldable pub evaluate : Runtime → Option Condition → Fields → Bool
unfolding descend member compare_values
evaluate rt none vars = false
evaluate rt (some c) vars = evaluate_at rt c (descend (split b'.' c.field) (object vars))

abbrev pub is_lower : ℕ → Bool
is_lower c = leb b'a' c && leb c b'z'

abbrev pub is_digit : ℕ → Bool
is_digit c = leb b'0' c && leb c b'9'

abbrev pub is_alnum : ℕ → Bool
is_alnum c = is_lower c || leb b'A' c && leb c b'Z' || is_digit c

abbrev pub every : (ℕ → Bool) → List ℕ → Bool
every p [] = true
every p (c ∷ cs) = p c && every p cs

-- What follows a literal prefix of a pattern.
abbrev pub after : List ℕ → List ℕ → Option (List ℕ)
after [] s = some s
after (p ∷ ps) [] = none
after (p ∷ ps) (c ∷ cs) = if eqb p c then after ps cs else none

-- `[A-Za-z0-9_.]{1,80}`.
abbrev pub is_field_path : Option (List ℕ) → Bool
is_field_path none = false
is_field_path (some s) =
    leb 1 (length s) && leb (length s) 80 && every (λ c. is_alnum c || eqb c b'_' || eqb c b'.') s

-- `^(Attributes|Event)\.[A-Za-z0-9_.]{1,80}$|^(Locale|Email)$`.
pub is_condition_field : String → Bool
is_condition_field s =
    is_field_path (after (codes "Attributes.") (codes s))
    || is_field_path (after (codes "Event.") (codes s))
    || s == "Locale"
    || s == "Email"

abbrev pub is_scalar : Value → Bool
is_scalar null = true
is_scalar (text _) = true
is_scalar (bool _) = true
is_scalar (int _) = true
is_scalar (int64 _) = true
is_scalar (float _) = true
is_scalar _ = false

abbrev operators : List String
operators = "eq" ∷ "ne" ∷ "gt" ∷ "gte" ∷ "lt" ∷ "lte" ∷ "exists" ∷ []

unfoldable pub validate_condition : Condition → Option ValidationError
unfolding is_condition_field
validate_condition c =
    if not (is_condition_field c.field)
    then some (invalid "condition.field" "use Attributes.*, Event.*, Locale or Email")
    else if not (contains operators c.op)
    then some (invalid "condition.op" "unsupported operator")
    else if not (is_scalar c.value)
    then some (invalid "condition.value" "must be scalar")
    else none
