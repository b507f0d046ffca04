-- ===== src/Manifest/Sequences.antt =====
-- internal/manifest/manifest.go, lines 225 to 320: what `Validate` demands of the sequences.
use mrkt.Prelude.{
  ℕ, ◌*◌, String, ◌==◌, Bool, true, false, not, ◌&&◌, ◌||◌, Option, none, some, List, [], ◌∷◌, map,
  length, contains, leb, ltb, if◌then◌else◌,
}
use mrkt.Manifest.Types.{ℤ, pos, negsuc, Condition, Content, Step, Sequence, Runtime, invalid}
use mrkt.Manifest.Check.{Check, ◌>>◌, refuse_if, for_each, for_each_new}
use mrkt.Manifest.Condition.{validate_condition}
use mrkt.Manifest.Patterns.{identifier}
use mrkt.Manifest.Graph.{
  lookup, index, color, Visit, finished, cycle, out_of_fuel, follow_both, visit, visit_all, enough,
}

abbrev pub Messages : Type 0
Messages = List (String × List (String × Content))

-- `m.Messages[id]`.
abbrev pub translations : Messages → String → Option (List (String × Content))
translations [] id = none
translations ((k, t) ∷ ms) id = if k == id then some t else translations ms id

abbrev pub is_some {ℓ} : {A : Type ℓ} → Option A → Bool
is_some none = false
is_some (some _) = true

-- 366 days in nanoseconds.
abbrev pub longest_delay : ℕ
longest_delay = 366 * 24 * 3600 * 1000000000

-- `err != nil || d < 0 || d > 366*24*time.Hour`.
abbrev pub bad_delay : Option ℤ → Bool
bad_delay none = true
bad_delay (some (negsuc _)) = true
bad_delay (some (pos d)) = ltb longest_delay d

abbrev pub validate_optional : Option Condition → Check
validate_optional none = none
validate_optional (some c) = validate_condition c

-- The `switch st.Type`.
unfoldable pub validate_type : Runtime → Messages → Step → Check
validate_type rt messages st =
    if st.type == "send"
    then refuse_if (not (is_some (translations messages st.message))) "steps.message"
        "unknown message"
    else if st.type == "delay"
    then refuse_if (bad_delay (rt.parse_duration st.delay)) "steps.delay"
        "requires Go duration between 0 and 366 days"
    else if st.type == "condition"
    then (refuse_if (not (is_some st.condition) || st.next == "" || st.otherwise == "")
          "steps.condition" "condition and both branches required"
        >> validate_optional st.condition)
    else if st.type == "complete"
    then refuse_if (not (st.next == "") || not (st.otherwise == "")) "steps.complete"
        "cannot have successor"
    else some (invalid "steps.type" "unknown step type")

abbrev pub validate_next : List Step → String → Check
validate_next steps next =
    refuse_if (not (next == "") && not (is_some (lookup steps next))) "steps.next" "unknown step"

-- One round of the second loop over the steps.
unfoldable pub validate_step : Runtime → Messages → List Step → Step → Check
unfolding validate_type
validate_step rt messages steps st = do
  validate_type rt messages st
  validate_next steps st.next
  validate_next steps st.otherwise

-- `visit` fails with one error only.
abbrev pub cycle_error : Visit → Check
cycle_error (finished _) = none
cycle_error cycle = some (invalid "steps" "cycles forbidden")
cycle_error out_of_fuel = some (invalid "model" "out of fuel")

abbrev pub step_ids : List Step → List String
step_ids = map (λ s. s.id)

unfoldable pub validate_graph : Runtime → List Step → Check
unfolding visit_all visit follow_both color
validate_graph rt steps =
    cycle_error (visit_all (visit (enough steps) steps) (rt.range_keys (step_ids steps)) [])

-- The list, the entry and the reentry of a sequence.
pub validate_entry : List String → List String → Sequence → Check
validate_entry lists seen s = do
  refuse_if (not (identifier s.id) || contains seen s.id || not (contains lists s.list)) "sequences"
      "unique ID and existing list required"
  refuse_if (not (s.entry == "subscription") && not (s.entry == "event")) "sequences.entry"
      "must be subscription or event"
  refuse_if (s.entry == "event" && not (identifier s.event)) "sequences.event" "event name required"
  refuse_if (not (s.reentry == "once") && not (s.reentry == "event")) "sequences.reentry"
      "must be once or event"
  refuse_if (s.entry == "subscription" && not (s.reentry == "once")) "sequences.reentry"
      "subscriptions require once"

-- `len(s.Steps) == 0 || len(s.Steps) > 100`.
abbrev pub validate_length : List Step → Check
validate_length steps =
    refuse_if (leb (length steps) 0 || ltb 100 (length steps)) "sequences.steps"
      "requires 1–100 steps"

-- One round of the first loop over the steps.
abbrev pub validate_id : List String → Step → Check
validate_id seen st =
    refuse_if (not (identifier st.id)) "steps.id" "invalid"
    >> refuse_if (contains seen st.id) "steps.id" "duplicate"

unfoldable pub validate_sequence : Runtime → Messages → List String → List String → Sequence → Check
unfolding validate_entry validate_step validate_graph validate_condition
validate_sequence rt messages lists seen s = do
  validate_entry lists seen s
  validate_length s.steps
  for_each_new (λ st. st.id) validate_id [] s.steps
  for_each (validate_step rt messages (index s.steps)) s.steps
  validate_graph rt (index s.steps)
  validate_optional s.exit
