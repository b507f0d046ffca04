-- ===== src/Manifest/Locale/Laws.antt =====
-- A locale is resolved to the longest supported one that it extends, or to the default.
use Prim.Native.Char.{code}
use Prim.Native.String.{String}
use mrkt.Prelude.{
  ℕ, zero, suc, ◌<◌, String, ◌==◌, eq_iff, ◌≡◌, refl, sym, ap, ◌∙◌, subst, inl, inr, Bool, not,
  ◌&&◌, Option, none, some, List, [], ◌∷◌, ◌++◌, map, arith, length, find, length-append, codes,
  contains, before_last, eqb, if◌then◌else◌, Bool-cases, Option-cases,
}
use mrkt.Manifest.Locale.{resolve, resolve_locale}

-- What `before_last` finds is followed by the separator.
pub codes-before_last :
    (c : ℕ) (s p : String)
    → before_last c s ≡ some p
    → (rest : List ℕ) × (codes s ≡ codes p ++ c ∷ rest)
unfolding before_last
codes-before_last c String.[] p e = cc
codes-before_last c (String.◌∷◌ a s) p e = elim (Option-cases (before_last c s)) [
  | inr (q, found) ↦
      let (rest, h) = codes-before_last c s q found in
      let same : String.◌∷◌ a q ≡ p = some_eq (rw (found, before_last) at e) in
      (rest, ap (λ t. code a ∷ t) h ∙ ap (λ t. codes t ++ c ∷ rest) same)
  | inl missing ↦ elim (Bool-cases (eqb (code a) c)) [
    | inl t ↦
        let same : String.[] ≡ p = some_eq (rw (missing, before_last, t) at e) in
        (codes s, ap (λ n. n ∷ codes s) (ground arith) ∙ ap (λ t. codes t ++ c ∷ codes s) same)
    | inr f ↦ cc (rw (missing, before_last, f) at e)
  ]
]
  where
    some_eq : {x y : String} → some x ≡ some y → x ≡ y
    some_eq q = cc

-- What stands before each dash of a locale, the longest first: `it-CH-x` has `it-CH` and `it`.
abbrev pub prefixes : String → List String
prefixes String.[] = []
prefixes (String.◌∷◌ a s) =
    map (λ (p : String). String.◌∷◌ a p) (prefixes s)
    ++ (if eqb (code a) b'-' then String.[] ∷ [] else [])

prefixes-none : (s : String) → before_last b'-' s ≡ none → prefixes s ≡ []
unfolding before_last
prefixes-none String.[] e = refl
prefixes-none (String.◌∷◌ a s) e = elim (Option-cases (before_last b'-' s)) [
  | inr (q, found) ↦ cc (rw (found, before_last) at e)
  | inl missing ↦ elim (Bool-cases (eqb (code a) b'-')) [
    | inl t ↦ cc (rw (missing, before_last, t) at e)
    | inr f ↦ rw (prefixes-none s missing, f) refl
  ]
]

-- The longest prefix is what `before_last` finds, and the others are those of that one.
prefixes-some : (s p : String) → before_last b'-' s ≡ some p → prefixes s ≡ p ∷ prefixes p
unfolding before_last
prefixes-some String.[] p e = cc
prefixes-some (String.◌∷◌ a s) p e = elim (Option-cases (before_last b'-' s)) [
  | inr (q, found) ↦
      let same : String.◌∷◌ a q ≡ p = cc (rw (found, before_last) at e) in
      subst (λ (r : String). prefixes (String.◌∷◌ a s) ≡ r ∷ prefixes r) same
        (rw (prefixes-some s q found) refl)
  | inl missing ↦ elim (Bool-cases (eqb (code a) b'-')) [
    | inl t ↦
        let same : String.[] ≡ p = cc (rw (missing, before_last, t) at e) in
        subst (λ (r : String). prefixes (String.◌∷◌ a s) ≡ r ∷ prefixes r) same
          (rw (prefixes-none s missing, t) refl)
    | inr f ↦ cc (rw (missing, before_last, f) at e)
  ]
]

abbrev pub usable : List String → String → Bool
usable supported s = not (s == "") && contains supported s

abbrev pub or_default : String → Option String → String
or_default def none = def
or_default def (some r) = r

-- The answer, described by the list of all that may be tried.
abbrev pub first_supported : String → String → List String → String
first_supported requested def supported =
    or_default def (find (usable supported) (requested ∷ prefixes requested))

resolve-first :
    (f : ℕ) (requested def : String) (supported : List String)
    → length (codes requested) < f
    → resolve f requested def supported ≡ some (first_supported requested def supported)
unfolding resolve
resolve-first zero requested def supported h = absurd (omega arith)
resolve-first (suc f) requested def supported h = elim (Bool-cases (requested == "")) [
  | inl z ↦
      subst (λ s. resolve (suc f) s def supported ≡ some (first_supported s def supported))
        (sym ((eq_iff requested "").0 z)) refl
  | inr s ↦ elim (Bool-cases (contains supported requested)) [
    | inl t ↦ rw (s, t) refl
    | inr n ↦ elim (Option-cases (before_last b'-' requested)) [
      | inl e ↦ rw (s, n, e, prefixes-none requested e) refl
      | inr (p, e) ↦
          let (rest, g) = codes-before_last b'-' requested p e in
          let shorter =
            resolve-first f p def supported
              (omega (arith, ap length g, length-append (codes p) (b'-' ∷ rest))) in
          rw (s, n, e, prefixes-some requested p e) shorter
    ]
  ]
]

-- `ResolveLocale` returns, for every request, the first of the request and its prefixes before a
-- dash, from the longest to the shortest, that is supported and not empty, and the default locale if
-- there is none.
pub resolve_locale_first :
    (requested def : String) (supported : List String)
    → resolve_locale requested def supported ≡ some (first_supported requested def supported)
unfolding resolve_locale
resolve_locale_first requested def supported =
    resolve-first (suc (length (codes requested))) requested def supported (omega arith)
