-- ===== src/Manifest/Simulate/Times.antt =====
-- The instants of a simulation.
use mrkt.Prelude.{
  ℕ, zero, suc, ◌+◌, ◌≤◌, String, ◌==◌, ◌≡◌, refl, sym, inl, inr, true, some, List, [], ◌∷◌, arith,
  find, Bool-cases, Option-cases,
}
use mrkt.Manifest.Types.{pos, Fields, Step, Sequence, Manifest, Runtime}
use mrkt.Manifest.Condition.{evaluate}
use mrkt.Manifest.Graph.{lookup, index}
use mrkt.Manifest.Sequences.{longest_delay}
use mrkt.Manifest.Validate.{validate}
use mrkt.Manifest.Accepted.{validate-IsAccepted, accepted_delay, find-mem}
use mrkt.Manifest.Simulate.{
  Trace, Outcome, traced, failed, next_after, at_after, trace_of, exit_trace, prepend, delay_of,
  run, start_run, simulate,
}

-- From one instant to the next no time runs back, and at most 366 days pass.
abbrev pub IsChronological : ℕ → List Trace → Type 0
IsChronological at [] = Unit
IsChronological at (t ∷ ts) = (at ≤ t.at) × (t.at ≤ at + longest_delay) × IsChronological t.at ts

-- What a round of the loop gives, if it gives a trace.
data Round (rt : Runtime) (seq : Sequence) (steps : List Step) (vars : Fields) (rounds : ℕ)
    (id : String) (at : ℕ) (ts : List Trace) : Type 0 where
  ended : ts ≡ [] → Round rt seq steps vars rounds id at ts
  left : ts ≡ exit_trace id at ∷ [] → Round rt seq steps vars rounds id at ts
  went :
      (st : Step) (rest : List Trace)
      → lookup steps id ≡ some st
      → run rt seq steps vars rounds (next_after rt vars st) (at_after rt st at) ≡ traced rest
      → ts ≡ trace_of rt vars st id at ∷ rest
      → Round rt seq steps vars rounds id at ts

traced-injective : {ts us : List Trace} → traced ts ≡ traced us → ts ≡ us
traced-injective e = cc

prepend-eq-traced :
    (t : Trace) (o : Outcome) (ts : List Trace)
    → prepend t o ≡ traced ts
    → (rest : List Trace) × (o ≡ traced rest) × (ts ≡ t ∷ rest)
prepend-eq-traced t (traced rest) ts e = (rest, refl, cc)
prepend-eq-traced t (failed f) ts e = cc

module _ (rt : Runtime) (seq : Sequence) (steps : List Step) (vars : Fields) where
  run-Round :
      (rounds : ℕ) (id : String) (at : ℕ) (ts : List Trace)
      → run rt seq steps vars (suc rounds) id at ≡ traced ts
      → Round rt seq steps vars rounds id at ts
  unfolding run
  run-Round rounds id at ts e = elim (Bool-cases (id == "")) [
    | inl z ↦ ended (cc (rw (z, run) at e))
    | inr s ↦ elim (Option-cases (lookup steps id)) [
      | inl missing ↦ cc (rw (s, missing) at e)
      | inr (st, known) ↦ elim (Bool-cases (evaluate rt seq.exit vars)) [
        | inl y ↦ left (cc (rw (s, known, y) at e))
        | inr n ↦
            let o = run rt seq steps vars rounds (next_after rt vars st) (at_after rt st at) in
            let (rest, e₁, e₂) =
              prepend-eq-traced (trace_of rt vars st id at) o ts (rw (s, known, n) at e) in
            went st rest known e₁ e₂
      ]
    ]
  ]

  module _
      (delays : (id : String) (st : Step)
        → lookup steps id ≡ some st
        → (st.type == "delay") ≡ true
        → (d : ℕ) × (rt.parse_duration st.delay ≡ some (pos d)) × (d ≤ longest_delay)) where
    at_after_bounds :
        (id : String) (st : Step) (at : ℕ)
        → lookup steps id ≡ some st
        → (at ≤ at_after rt st at) × (at_after rt st at ≤ at + longest_delay)
    unfolding at_after
    at_after_bounds id st at known = elim (Bool-cases (st.type == "delay")) [
      | inl t ↦ let (d, e, h) = delays id st known t in rw (t, delay_of, e) (omega arith)
      | inr f ↦ rw f (omega arith)
    ]

    run-IsChronological :
        (rounds : ℕ) (id : String) (before at : ℕ) (ts : List Trace)
        → before ≤ at
        → at ≤ before + longest_delay
        → run rt seq steps vars rounds id at ≡ traced ts
        → IsChronological before ts
    unfolding run trace_of
    run-IsChronological zero id before at ts h₁ h₂ e = elim (Bool-cases (id == "")) [
      | inl z ↦ rw (traced-injective (rw (z, run) at (sym e))) tt
      | inr s ↦ cc (rw (s, run) at e)
    ]
    run-IsChronological (suc rounds) id before at ts h₁ h₂ e = elim (run-Round rounds id at ts e) [
      | ended q ↦ rw q tt
      | left q ↦ rw q (h₁, h₂, tt)
      | went st rest known e₁ q ↦
          let (b₁, b₂) = at_after_bounds id st at known in
          rw q (
            h₁,
            h₂,
            run-IsChronological rounds (next_after rt vars st) at (at_after rt st at) rest b₁ b₂ e₁,
          )
    ]

start_run-IsChronological :
    (rt : Runtime) (seq : Sequence) (vars : Fields) (start : ℕ) (xs : List Step) (ts : List Trace)
    → ((id : String) (st : Step)
        → lookup (index seq.steps) id ≡ some st
        → (st.type == "delay") ≡ true
        → (d : ℕ) × (rt.parse_duration st.delay ≡ some (pos d)) × (d ≤ longest_delay))
    → start_run rt vars start seq xs ≡ traced ts
    → IsChronological start ts
unfolding start_run
start_run-IsChronological rt seq vars start [] ts delays e = cc
start_run-IsChronological rt seq vars start (st ∷ rest) ts delays e =
    run-IsChronological rt seq (index seq.steps) vars delays 100 st.id start start ts (omega arith)
      (omega arith) e

-- The instants of a trace begin at the start or later and never run back, and from each to the next
-- at most 366 days pass, whatever the manifest.
pub simulate-IsChronological :
    (rt : Runtime) (m : Manifest) (sequence : String) (vars : Fields) (start : ℕ) (ts : List Trace)
    → simulate rt m sequence vars start ≡ traced ts
    → IsChronological start ts
unfolding simulate
simulate-IsChronological rt m sequence vars start ts e = elim (Option-cases (validate rt m)) [
  | inr (err, bad) ↦ cc (rw (bad, simulate) at e)
  | inl ok ↦ elim (Option-cases (find (λ (s : Sequence). s.id == sequence) m.sequences)) [
    | inl missing ↦ cc (rw (ok, missing, simulate) at e)
    | inr (seq, found) ↦
        let (mem, _) = find-mem (λ (s : Sequence). s.id == sequence) m.sequences seq found in
        let a = validate-IsAccepted rt m seq ok mem in
        start_run-IsChronological rt seq vars start seq.steps ts
          (accepted_delay rt m.messages seq a) (rw (ok, found, simulate) at e)
  ]
]
