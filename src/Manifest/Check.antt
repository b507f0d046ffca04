-- ===== src/Manifest/Check.antt =====
-- The errors of `Validate`: it returns the first one found, and nil, here `none`, if there is none.
use mrkt.Prelude.{
  String, Bool, true, false, ◌≡◌, Option, none, some, List, [], ◌∷◌, Memᴰ, if◌then◌else◌,
}
use mathlib.Core.List.Memᴰ
use mrkt.Manifest.Types.{ValidationError, invalid}

abbrev pub Check : Type 0
Check = Option ValidationError

-- `if err := a; err != nil { return err }` and then `b`.
infixl 5 ◌>>◌
abbrev pub ◌>>◌ : Check → Check → Check
none >> k = k
some e >> k = some e

-- `if bad { return invalid(field, msg) }`.
abbrev pub refuse_if : Bool → String → String → Check
refuse_if b f m = if b then some (invalid f m) else none

-- A loop whose body may return an error.
abbrev pub for_each {ℓ} : {A : Type ℓ} → (A → Check) → List A → Check
for_each f [] = none
for_each f (x ∷ xs) = f x >> for_each f xs

-- A loop that also fills a map with the keys that it has met: `seen` holds those before `x`.
abbrev pub for_each_new {ℓ} :
    {A : Type ℓ} → (A → String) → (List String → A → Check) → List String → List A → Check
for_each_new key f seen [] = none
for_each_new key f seen (x ∷ xs) = f seen x >> for_each_new key f (key x ∷ seen) xs

pub >>-eq-none : (a b : Check) → (a >> b) ≡ none → (a ≡ none) × (b ≡ none)
>>-eq-none none b h = (cc, h)
>>-eq-none (some e) b h = cc

pub refuse_if-eq-none : (b : Bool) (f m : String) → refuse_if b f m ≡ none → b ≡ false
refuse_if-eq-none true f m h = cc
refuse_if-eq-none false f m h = cc

pub for_each-eq-none {ℓ} :
    {A : Type ℓ} (f : A → Check) (xs : List A) (x : A)
    → for_each f xs ≡ none
    → Memᴰ x xs
    → f x ≡ none
for_each-eq-none f [] x h m = absurd (Memᴰ.not-nil m)
for_each-eq-none f (y ∷ xs) x h (Memᴰ.head e) = rw e ((>>-eq-none (f y) (for_each f xs) h).0)
for_each-eq-none f (y ∷ xs) x h (Memᴰ.tail m) =
    for_each-eq-none f xs x ((>>-eq-none (f y) (for_each f xs) h).1) m
