-- ===== src/Engine/Entry/Tests.antt =====
-- Operations with an idempotency key, run on a table of keys, and the theorems applied there.
use Prim.Native.String.{◌++◌ as concat}
use mrkt.Prelude.{ℕ, String, ◌==◌, ◌≡◌, refl, false, not, none, some, List, [], ◌∷◌, if◌then◌else◌}
use mrkt.Store.Rows.{IdempotencyRow}
use mrkt.Engine.Sample.{env}
use mrkt.Engine.Authority.{Authority, Operation, authorize_operation, has_scope, required_scope}
use mrkt.Engine.Entry.{
  Response, ok, Codec, TableWrite, claims, records, redacts, Meanwhile, write, writes, do_operation,
  pending,
}
use mrkt.Engine.Entry.Routes.{route}

abbrev caller : Authority
caller = record { project = "p"; admin = false; is_public = false; scopes = "operate" ∷ [] }

abbrev call : String → Operation
call id = record {
  project = "";
  resource = "lists";
  action = "retire";
  id = id;
  key = "k";
  input = "{}";
  limit = 0;
  cursor = "";
}

-- The codec of the tests: texts with an ID are the responses about a contact.
abbrev codec : Codec
codec = record {
  canonical = λ s. s;
  print = λ p r a i s. concat p (concat r (concat a (concat i s)));
  is_json = λ s. not (s == pending);
  id_of = λ s. if s == "{\"id\":\"c1\"}" then some "c1" else none;
}

abbrev other_call : Operation
other_call = record (call "other") { key = "k2" }

-- While a call runs, another key is claimed and recorded, and a contact is deleted.
abbrev during : Response → Meanwhile
during answer = record {
  before_claim = claims "p" other_call "x" "0" ∷ [];
  during = records "p" other_call "x" "{}" ∷ redacts "p" "c1" ∷ [];
  answer = answer;
}

abbrev later_writes : List TableWrite
later_writes = redacts "p" "c1" ∷ claims "p" (record (call "new") { key = "k3" }) "y" "1" ∷ []

abbrev run : Operation → Response → ℕ → List IdempotencyRow → Response × List IdempotencyRow
run op answer now rows = do_operation env codec caller op (during answer) now rows

abbrev left : Operation → Response → List IdempotencyRow
left op answer = (run op answer 1 []).1

abbrev responses : List IdempotencyRow → List String
responses [] = []
responses (r ∷ rows) = r.response ∷ responses rows

both_recorded :
    responses (left (call "news") (ok "{\"done\":true}")) ≡ "{}" ∷ "{\"done\":true}" ∷ []
unfolding authorize_operation has_scope required_scope do_operation route
both_recorded = refl

-- The answer of a call that makes a contact, kept until the contact is deleted.
abbrev contact_call : Operation
contact_call = record (call "_") { resource = "contacts"; action = "create" }

redacted_later :
    responses (writes codec later_writes (left contact_call (ok "{\"id\":\"c1\"}")))
    ≡ "{}" ∷ "{\"redacted\":true}" ∷ pending ∷ []
unfolding authorize_operation has_scope required_scope do_operation route write
redacted_later = refl
