-- ===== src/Manifest/Patterns.antt =====
-- internal/manifest/manifest.go, lines 107 to 109 and `SafePath`: the patterns of names.
use mrkt.Prelude.{
  ℕ, String, ◌==◌, Bool, true, false, not, ◌&&◌, ◌||◌, List, [], ◌∷◌, codes, any, split, length,
  leb, eqb,
}
use mrkt.Manifest.Types.{Runtime}
use mrkt.Manifest.Condition.{is_lower, is_digit, is_alnum, every}

abbrev is_identifier_codes : List ℕ → Bool
is_identifier_codes [] = false
is_identifier_codes (c ∷ cs) =
    is_alnum c
    && leb (length cs) 79
    && every (λ x. is_alnum x || eqb x b'_' || eqb x b'.' || eqb x b'-') cs

-- `^[a-zA-Z0-9][a-zA-Z0-9_.-]{0,79}$`.
unfoldable pub identifier : String → Bool
identifier s = is_identifier_codes (codes s)

abbrev is_between : ℕ → ℕ → (ℕ → Bool) → List ℕ → Bool
is_between lo hi p s = leb lo (length s) && leb (length s) hi && every p s

abbrev all_parts : (String → Bool) → List String → Bool
all_parts p [] = true
all_parts p (s ∷ parts) = p s && all_parts p parts

abbrev is_locale : List String → Bool
is_locale [] = false
is_locale (language ∷ parts) =
    is_between 2 3 is_lower (codes language)
    && all_parts (λ s. is_between 2 8 is_alnum (codes s)) parts

-- `^[a-z]{2,3}(-[A-Za-z0-9]{2,8})*$`: no part holds a dash, so the parts are those of a split.
unfoldable pub locale_pattern : String → Bool
unfolding split
locale_pattern s = is_locale (split b'-' s)

-- `^[a-f0-9]{64}$`.
unfoldable pub hash_pattern : String → Bool
hash_pattern s = is_between 64 64 (λ c. leb b'a' c && leb c b'f' || is_digit c) (codes s)

-- The characters of "\\\x00:\r\n".
abbrev is_forbidden : ℕ → Bool
is_forbidden c = eqb c 92 || eqb c 0 || eqb c b':' || eqb c 13 || eqb c 10

unfoldable pub safe_path : Runtime → String → Bool
safe_path rt p =
    not (p == "")
    && rt.valid_path p
    && not (any is_forbidden (codes p))
    && not (p == ".")
    && rt.clean_path p == p
