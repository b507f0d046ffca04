-- ===== src/Manifest/Tests.antt =====
-- Runs of internal/manifest at concrete inputs, and the theorems applied there.
use mrkt.Prelude.{
  ℕ, ◌+◌, ◌*◌, ◌≤◌, String, ◌==◌, ◌≡◌, ◌↔◌, refl, inl, inr, Bool, true, false, not, ◌||◌, Option,
  none, some, List, [], ◌∷◌, arith, length, eqb, leb, ltb, if◌then◌else◌, split,
}
use mrkt.Manifest.Types.{
  ℤ, pos, negsuc, Value, Fields, end, Condition, Step, Sequence, Manifest, Runtime, float, text,
  object,
}
use mrkt.Manifest.Condition.{evaluate, descend, member}
use mrkt.Manifest.Condition.Laws.{
  FloatLaws, LeadsTo, says, evaluate_numbers, evaluate_orders, Ordered,
}
use mrkt.Manifest.Locale.{resolve_locale}
use mrkt.Manifest.Locale.Laws.{first_supported, resolve_locale_first}
use mrkt.Manifest.Patterns.{identifier, locale_pattern}
use mrkt.Manifest.Sequences.{validate_sequence}
use mrkt.Manifest.Validate.{validate}
use mrkt.Manifest.Accepted.{Ranges}
use mrkt.Manifest.Simulate.{Trace, simulate, traced}
use mrkt.Manifest.Simulate.Total.{NoRepeat, simulate_total}
use mrkt.Manifest.Simulate.Times.{IsChronological, simulate-IsChronological}

abbrev magnitude : ℤ → ℕ
magnitude (pos n) = n
magnitude (negsuc n) = 0

-- Go's library at the inputs below: floats that are whole numbers, and one duration.
abbrev pub go : Runtime
go = record {
  float_of_int = magnitude;
  float_of_number = λ s. none;
  float_eq = eqb;
  float_lt = ltb;
  float_le = leb;
  deep_equal = λ a b. false;
  parse_duration = λ s. if s == "24h" then some (pos (24 * 3600 * 1000000000)) else none;
  parse_media_type = λ s. some s;
  valid_path = λ p. true;
  clean_path = λ p. p;
  range_keys = λ keys. keys;
}

abbrev go_ranges : Ranges go
go_ranges keys x = (λ m. m, λ m. m)

abbrev total_over : ℕ → Condition
total_over n = record { field = "Event.total"; op = "gte"; value = Value.int (pos n) }

abbrev event : ℕ → Fields
event n = Fields.entry "Event" (object (Fields.entry "total" (float n) end)) end

abbrev step : String → String → String → String → Step
step id type next otherwise = record {
  id = id;
  type = type;
  message = "";
  delay = "24h";
  next = next;
  otherwise = otherwise;
  condition = some (total_over 10);
}

-- The steps of `TestDeterministicSimulation`, but for the message.
abbrev welcome : Sequence
welcome = record {
  stream = "";
  id = "welcome";
  list = "news";
  event = "";
  entry = "subscription";
  reentry = "once";
  steps =
      step "branch" "condition" "wait" "done"
      ∷ step "wait" "delay" "done" ""
      ∷ step "done" "complete" "" ""
      ∷ [];
  exit = none;
}

abbrev pub sample : Manifest
sample = record {
  version = pos 1;
  project = record {
    transport = "";
    domain = "";
    name = "Sample";
    default_locale = "en";
    locales = "en" ∷ "it" ∷ [];
  };
  lists = record { id = "news"; name = "News"; purpose = "updates"; policy_version = "1" } ∷ [];
  files = [];
  messages = [];
  sequences = welcome ∷ [];
  broadcasts = [];
}

sample_accepted : validate go sample ≡ none
unfolding validate validate_sequence identifier locale_pattern
sample_accepted = refl

abbrev steps_met : List Trace → List String
steps_met [] = []
steps_met (t ∷ ts) = t.step ∷ steps_met ts

abbrev day : ℕ
day = 24 * 3600 * 1000000000

abbrev trace : String → String → ℕ → Option Bool → String → Trace
trace id type at c reason = record {
  step = id;
  type = type;
  at = at;
  message = "";
  condition = c;
  reason = reason;
}

abbrev sample_traces : List Trace
sample_traces =
    trace "branch" "condition" 7 (some true) ""
    ∷ trace "wait" "delay" 7 none
        "duration elapsed in UTC; timezone/DST changes do not alter elapsed delay"
    ∷ trace "done" "complete" (7 + day) none ""
    ∷ []

sample_run : simulate go sample "welcome" (event 15) 7 ≡ traced sample_traces
unfolding simulate validate validate_sequence identifier locale_pattern evaluate
sample_run = refl

simulate_total_example :
    (ts : List Trace) × (simulate go sample "welcome" (event 15) 7 ≡ traced ts)
    × (1 ≤ length ts)
    × (length ts ≤ 3)
    × NoRepeat ts
simulate_total_example =
    simulate_total go go_ranges sample sample_accepted "welcome" welcome (event 15) 7 refl

simulate-IsChronological_example : IsChronological 7 sample_traces
simulate-IsChronological_example =
    simulate-IsChronological go sample "welcome" (event 15) 7 sample_traces sample_run

go_floats : FloatLaws go
go_floats = record { eq_comm = λ a b. ground arith; le_iff = λ a b. ground arith }

found : LeadsTo (total_over 10) (event 15) (float 15)
unfolding descend member split
found = refl

evaluate_numbers_example :
    let says_it = says go (total_over 10) (event 15) in
    (says_it "ne" ≡ not (says_it "eq"))
    × (says_it "gte" ≡ (says_it "gt" || says_it "eq"))
    × (says_it "lte" ≡ (says_it "lt" || says_it "eq"))
evaluate_numbers_example =
    evaluate_numbers go (total_over 10) (event 15) (float 15) found 15 10 go_floats
      (inr (inr (inl refl))) (inl (pos 10, refl, refl))

abbrev named : Fields
named = Fields.entry "Event" (object (Fields.entry "total" (text "much") end)) end

found_text : LeadsTo (total_over 10) named (text "much")
unfolding descend member split
found_text = refl

evaluate_orders_example :
    let says_it = says go (total_over 10) named in
    let ordered = Ordered go (total_over 10) named (text "much") found_text in
    ((says_it "gt" ≡ true) ↔ ordered (λ x y. go.float_lt y x))
    × ((says_it "gte" ≡ true) ↔ ordered (λ x y. go.float_le y x))
    × ((says_it "lt" ≡ true) ↔ ordered go.float_lt)
    × ((says_it "lte" ≡ true) ↔ ordered go.float_le)
evaluate_orders_example = evaluate_orders go (total_over 10) named (text "much") found_text

it_of_switzerland : first_supported "it-CH" "en" ("en" ∷ "it" ∷ []) ≡ "it"
it_of_switzerland = refl

resolve_locale_first_example :
    resolve_locale "it-CH-x" "en" ("en" ∷ "it" ∷ [])
    ≡ some (first_supported "it-CH-x" "en" ("en" ∷ "it" ∷ []))
resolve_locale_first_example = resolve_locale_first "it-CH-x" "en" ("en" ∷ "it" ∷ [])
