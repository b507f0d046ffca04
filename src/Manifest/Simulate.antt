-- ===== src/Manifest/Simulate.antt =====
-- internal/manifest/simulation.go, `Trace` and `Simulate`. An instant is the number of
-- nanoseconds since the zero `time.Time`, so the change to UTC does not show.
pub mod Total
pub mod Times
use mrkt.Prelude.{
  ℕ, zero, suc, ◌+◌, ◌-◌, String, ◌==◌, Bool, true, false, Option, none, some, List, [], ◌∷◌, find,
  if◌then◌else◌,
}
use mrkt.Manifest.Types.{ℤ, pos, negsuc, Fields, Step, Sequence, Manifest, Runtime, ValidationError}
use mrkt.Manifest.Condition.{evaluate}
use mrkt.Manifest.Graph.{lookup, index}
use mrkt.Manifest.Validate.{validate}

pub record Trace : Type 0 where
  pub step : String
  pub type : String
  pub at : ℕ
  pub message : String
  pub condition : Option Bool
  pub reason : String

-- The errors of `Simulate`, and the panic of `seq.Steps[0]` on a sequence with no step.
pub data Failure : Type 0 where
  refused : ValidationError → Failure
  unknown_sequence unknown_step : String → Failure
  step_limit no_first_step : Failure

pub data Outcome : Type 0 where
  traced : List Trace → Outcome
  failed : Failure → Outcome

-- `at.Add(d)`: an accepted delay is not negative.
abbrev pub add_duration : ℕ → ℤ → ℕ
add_duration at (pos d) = at + d
add_duration at (negsuc d) = at - suc d

-- `d, _ := time.ParseDuration(s.Delay)`.
abbrev pub delay_of : Runtime → Step → ℤ
delay_of rt s = elim (rt.parse_duration s.delay) [ none ↦ pos 0 | some d ↦ d ]

-- The instant, the successor and the trace of a step, by the `switch s.Type`.
unfoldable pub at_after : Runtime → Step → ℕ → ℕ
at_after rt s at = if s.type == "delay" then add_duration at (delay_of rt s) else at

unfoldable pub next_after : Runtime → Fields → Step → String
next_after rt vars s =
    if s.type == "condition"
    then if evaluate rt s.condition vars then s.next else s.otherwise
    else if s.type == "complete"
    then ""
    else s.next

pub trace_of : Runtime → Fields → Step → String → ℕ → Trace
trace_of rt vars s id at = record {
  step = id;
  type = s.type;
  at = at;
  message = s.message;
  condition = if s.type == "condition" then some (evaluate rt s.condition vars) else none;
  reason =
      if s.type == "delay"
      then "duration elapsed in UTC; timezone/DST changes do not alter elapsed delay"
      else "";
}

abbrev pub exit_trace : String → ℕ → Trace
exit_trace id at = record {
  step = id;
  type = "exit";
  at = at;
  message = "";
  condition = none;
  reason = "exit condition matched";
}

abbrev pub prepend : Trace → Outcome → Outcome
prepend t (traced ts) = traced (t ∷ ts)
prepend t (failed e) = failed e

module _ (rt : Runtime) (seq : Sequence) (steps : List Step) (vars : Fields) where
  -- The loop, by the rounds that `count >= 100` leaves.
  pub run : ℕ → String → ℕ → Outcome
  run zero id at = if id == "" then traced [] else failed step_limit
  run (suc rounds) id at =
      let round : Outcome = elim (lookup steps id) [
        | none ↦ failed (unknown_step id)
        | some s ↦
            let rest = run rounds (next_after rt vars s) (at_after rt s at) in
            if evaluate rt seq.exit vars
            then traced (exit_trace id at ∷ [])
            else prepend (trace_of rt vars s id at) rest
      ] in
      if id == "" then traced [] else round

-- `seq.Steps[0].ID`, and the loop.
pub start_run : Runtime → Fields → ℕ → Sequence → List Step → Outcome
unfolding run
start_run rt vars start seq [] = failed no_first_step
start_run rt vars start seq (s ∷ rest) = run rt seq (index seq.steps) vars 100 s.id start

unfoldable pub simulate : Runtime → Manifest → String → Fields → ℕ → Outcome
unfolding start_run at_after next_after trace_of
simulate rt m sequence vars start = elim (validate rt m) [
  | some e ↦ failed (refused e)
  | none ↦ elim (find (λ (s : Sequence). s.id == sequence) m.sequences) [
    | none ↦ failed (unknown_sequence sequence)
    | some seq ↦ start_run rt vars start seq seq.steps
  ]
]
