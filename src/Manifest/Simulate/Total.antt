-- ===== src/Manifest/Simulate/Total.antt =====
-- A simulation of an accepted manifest ends within the limit and meets no unknown step.
use mrkt.Prelude.{
  ℕ, zero, suc, ◌≤◌, String, ◌==◌, eq_iff, ◌≡◌, refl, ap, ◌∙◌, subst, inl, inr, true, none, some,
  List, [], ◌∷◌, Memᴰ, arith, length, find, All, Bool-cases,
}
use mathlib.Core.List.Memᴰ
use mrkt.Manifest.Types.{Fields, Step, Sequence, Manifest, Runtime}
use mrkt.Manifest.Condition.{evaluate}
use mrkt.Manifest.Patterns.{identifier}
use mrkt.Manifest.Graph.{lookup, index}
use mrkt.Manifest.Graph.Order.{Done, IsTopological}
use mrkt.Manifest.Graph.Size.{topological-length}
use mrkt.Manifest.Validate.{validate}
use mrkt.Manifest.Accepted.{
  Ranges, validate-IsAccepted, accepted-IsTopological, length-index, find-mem,
}
use mrkt.Manifest.Simulate.{
  Trace, Outcome, traced, next_after, at_after, trace_of, exit_trace, prepend, run, start_run,
  simulate,
}

-- No step is met twice.
abbrev pub NoRepeat : List Trace → Type 0
NoRepeat [] = Unit
NoRepeat (t ∷ ts) = All (λ (u : Trace). ¬ (u.step ≡ t.step)) ts × NoRepeat ts

-- What a run over a part of the order yields.
abbrev Follows : List String → Outcome → Type 0
Follows bs o =
    (ts : List Trace) × (o ≡ traced ts)
    × (length ts ≤ length bs)
    × All (λ (t : Trace). Memᴰ t.step bs) ts
    × NoRepeat ts

All-map {ℓ κ μ} :
    {A : Type ℓ} (P : A → Type κ) (Q : A → Type μ) (xs : List A)
    → ((x : A) → P x → Q x)
    → All P xs
    → All Q xs
All-map P Q [] f a = tt
All-map P Q (x ∷ xs) f a = (f x a.0, All-map P Q xs f a.1)

module _ (rt : Runtime) (seq : Sequence) (steps : List Step) (vars : Fields) where
  Done-next_after :
      (st : Step) (bs : List String)
      → Done bs st.next
      → Done bs st.otherwise
      → Done bs (next_after rt vars st)
  unfolding next_after
  Done-next_after st bs d₁ d₂ = elim (Bool-cases (st.type == "condition")) [
    | inl t ↦ elim (Bool-cases (evaluate rt st.condition vars)) [
      | inl y ↦ rw (t, y) d₁
      | inr n ↦ rw (t, n) d₂
    ]
    | inr f ↦ elim (Bool-cases (st.type == "complete")) [
      | inl t ↦ rw (f, t) (inl refl)
      | inr g ↦ rw (f, g) d₁
    ]
  ]

  run-end :
      (rounds at : ℕ) (bs : List String) (id : String)
      → id ≡ ""
      → Follows bs (run rt seq steps vars rounds id at)
  unfolding run
  run-end zero at bs id e = ([], rw ((eq_iff id "").1 e), omega arith, tt, tt)
  run-end (suc rounds) at bs id e = ([], rw ((eq_iff id "").1 e), omega arith, tt, tt)

  Follows-cons :
      (t : Trace) (bs : List String) (o : Outcome)
      → ¬ Memᴰ t.step bs
      → Follows bs o
      → Follows (t.step ∷ bs) (prepend t o)
  Follows-cons t bs o new (ts, e, n, within, simple) = (
    t ∷ ts,
    rw e,
    omega arith,
    (Memᴰ.head refl, All-map _ _ ts (λ x m. Memᴰ.tail m) within),
    (All-map _ _ ts (λ (x : Trace) m q. new (subst (λ y. Memᴰ y bs) q m)) within, simple),
  )

  run-Follows :
      (bs : List String) (rounds : ℕ) (id : String) (at : ℕ)
      → IsTopological steps bs
      → length bs ≤ rounds
      → Done bs id
      → Follows bs (run rt seq steps vars rounds id at)
  unfolding run trace_of
  run-Follows bs rounds id at t n (inl e) = run-end rounds at bs id e
  run-Follows [] rounds id at t n (inr m) = absurd (Memᴰ.not-nil m)
  run-Follows (x ∷ bs) rounds id at t n (inr (Memᴰ.tail m)) =
      let (ts, e, l, within, simple) = run-Follows bs rounds id at t.2 (omega arith) (inr m) in
      (ts, e, omega arith, All-map _ _ ts (λ y q. Memᴰ.tail q) within, simple)
  run-Follows (x ∷ bs) zero id at t n (inr (Memᴰ.head e)) = absurd (omega arith)
  run-Follows (x ∷ bs) (suc rounds) id at t n (inr (Memᴰ.head e)) =
      let ((st, known, d₁, d₂), new, t') = t in
      let rest =
        run-Follows bs rounds (next_after rt vars st) (at_after rt st at) t' (omega arith)
          (Done-next_after st bs d₁ d₂) in
      elim (Bool-cases (id == "")) [
        | inl z ↦ run-end (suc rounds) at (x ∷ bs) id ((eq_iff id "").0 z)
        | inr s ↦ elim (Bool-cases (evaluate rt seq.exit vars)) [
          | inl y ↦ (
            exit_trace id at ∷ [],
            rw (s, ap (lookup steps) e ∙ known, y),
            omega arith,
            (Memᴰ.head e, tt),
            (tt, tt),
          )
          | inr no_exit ↦
              let o = run rt seq steps vars rounds (next_after rt vars st) (at_after rt st at) in
              let (ts, ends, l, within, simple) =
                Follows-cons (trace_of rt vars st id at) bs o
                  (λ m. new (subst (λ y. Memᴰ y bs) e m)) rest in
              (
                ts,
                rw (s, ap (lookup steps) e ∙ known, no_exit) ends,
                l,
                subst (λ y. All (λ (u : Trace). Memᴰ u.step (y ∷ bs)) ts) e within,
                simple,
              )
        ]
      ]

  -- A run from a step is not empty.
  run-pos :
      (rounds : ℕ) (id : String) (at : ℕ) (ts : List Trace)
      → ¬ (id ≡ "")
      → run rt seq steps vars (suc rounds) id at ≡ traced ts
      → 1 ≤ length ts
  unfolding run
  run-pos rounds id at [] named e = ground (arith, eq_iff id "")
  run-pos rounds id at (t ∷ ts) named e = omega arith

identifier-ne : (id : String) → identifier id ≡ true → ¬ (id ≡ "")
unfolding identifier
identifier-ne id h e = cc (rw e at h)

module _ (rt : Runtime) (ranges : Ranges rt) (m : Manifest) (ok : validate rt m ≡ none) where
  start_run_total :
      (seq : Sequence) (vars : Fields) (start : ℕ) (xs : List Step) (bs : List String)
      → 1 ≤ length xs
      → IsTopological (index seq.steps) bs
      → length bs ≤ 100
      → ((st : Step) → Memᴰ st xs → Memᴰ st.id bs × ¬ (st.id ≡ ""))
      → (ts : List Trace) × (start_run rt vars start seq xs ≡ traced ts)
        × (1 ≤ length ts)
        × (length ts ≤ length bs)
        × NoRepeat ts
  unfolding start_run
  start_run_total seq vars start [] bs pos t n all = absurd (omega arith)
  start_run_total seq vars start (st ∷ rest) bs pos t n all =
      let (mem, named) = all st (Memᴰ.head refl) in
      let (ts, e, l, within, simple) =
        run-Follows rt seq (index seq.steps) vars bs 100 st.id start t n (inr mem) in
      (ts, e, run-pos rt seq (index seq.steps) vars 99 st.id start ts named e, l, simple)

  simulate-eq_start_run :
      (sequence : String) (seq : Sequence) (vars : Fields) (start : ℕ)
      → find (λ (s : Sequence). s.id == sequence) m.sequences ≡ some seq
      → simulate rt m sequence vars start ≡ start_run rt vars start seq seq.steps
  unfolding simulate
  simulate-eq_start_run sequence seq vars start found = rw (ok, found, simulate)

  -- Where `range` meets exactly the keys of a map, each simulation of a sequence of an accepted
  -- manifest returns a trace, of at least one step and at most as many as the sequence has, in which
  -- no step occurs twice.
  pub simulate_total :
      (sequence : String) (seq : Sequence) (vars : Fields) (start : ℕ)
      → find (λ (s : Sequence). s.id == sequence) m.sequences ≡ some seq
      → (ts : List Trace) × (simulate rt m sequence vars start ≡ traced ts)
        × (1 ≤ length ts)
        × (length ts ≤ length seq.steps)
        × NoRepeat ts
  simulate_total sequence seq vars start found =
      let (mem, _) = find-mem (λ (s : Sequence). s.id == sequence) m.sequences seq found in
      let a = validate-IsAccepted rt m seq ok mem in
      let (bs, t, all) = accepted-IsTopological rt m.messages seq a ranges in
      let (ts, e, pos, l, simple) =
        start_run_total seq vars start seq.steps bs a.some_step t
          (omega (
            arith,
            topological-length (index seq.steps) bs t,
            length-index rt m.messages seq a,
            a.few_steps,
          ))
          (λ st q. (all st q, identifier-ne st.id (a.named st q))) in
      (
        ts,
        simulate-eq_start_run sequence seq vars start found ∙ e,
        pos,
        omega
            (arith, l, topological-length (index seq.steps) bs t, length-index rt m.messages seq a),
        simple,
      )
