-- ===== src/Manifest/Locale.antt =====
-- internal/manifest/manifest.go, `ResolveLocale`.
pub mod Laws
use mrkt.Prelude.{
  ℕ, zero, suc, String, ◌==◌, Option, none, some, List, codes, contains, before_last, length,
  if◌then◌else◌,
}

-- The loop; `none` where the fuel is used up, which is of the model only.
pub resolve : ℕ → String → String → List String → Option String
resolve zero requested def supported = none
resolve (suc f) requested def supported =
    let shorter : Option String = elim (before_last b'-' requested) [
      | none ↦ some def
      | some parent ↦ resolve f parent def supported
    ] in
    if requested == ""
    then some def
    else if contains supported requested
    then some requested
    else shorter

-- Each round drops a dash and what follows it, so there are at most as many as code points, and one.
pub resolve_locale : String → String → List String → Option String
unfolding resolve
resolve_locale requested def supported =
    resolve (suc (length (codes requested))) requested def supported
