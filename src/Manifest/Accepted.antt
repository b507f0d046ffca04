-- ===== src/Manifest/Accepted.antt =====
-- What an accepted manifest guarantees of its sequences (internal/manifest/manifest.go, `Validate`).
use mrkt.Prelude.{
  ℕ, ◌+◌, ◌≤◌, String, ◌==◌, eq_iff, ◌≡◌, refl, sym, ap, ◌∙◌, ◌↔◌, ◌⊎◌, inl, inr, Bool, true, false,
  Option, none, some, List, [], ◌∷◌, Memᴰ, arith, length, find, Bool-cases, Option-cases,
  ltb-false→le,
}
use mathlib.Core.List.Memᴰ
use mrkt.Manifest.Types.{ℤ, pos, negsuc, Step, Sequence, Manifest, MailingList, Broadcast, Runtime}
use mrkt.Manifest.Check.{
  Check, ◌>>◌, for_each, for_each_new, >>-eq-none, refuse_if-eq-none, for_each-eq-none,
}
use mrkt.Manifest.Patterns.{identifier}
use mrkt.Manifest.Graph.{
  lookup, index, index_from, Colors, Visit, finished, cycle, out_of_fuel, visit, visit_all, enough,
}
use mrkt.Manifest.Graph.Order.{Known, IsClosed, IsTopological, visit_all-IsTopological}
use mrkt.Manifest.Sequences.{
  Messages, step_ids, cycle_error, validate_step, validate_graph, validate_sequence, validate_entry,
  validate_length, validate_id, validate_optional, validate_type, validate_next, bad_delay,
  longest_delay,
}
use mrkt.Manifest.Validate.{
  list_ids, validate, validate_header, validate_list, validate_message, validate_broadcast,
}

-- `range` meets each key of a map, and nothing else.
abbrev pub Ranges : Runtime → Type 0
Ranges rt = (keys : List String) (x : String) → Memᴰ x (rt.range_keys keys) ↔ Memᴰ x keys

for_each_new-eq-none {ℓ} :
    {A : Type ℓ} (key : A → String) (f : List String → A → Check) (seen : List String) (xs : List A)
    (x : A)
    → for_each_new key f seen xs ≡ none
    → Memᴰ x xs
    → (before : List String) × (f before x ≡ none)
for_each_new-eq-none key f seen [] x h m = absurd (Memᴰ.not-nil m)
for_each_new-eq-none key f seen (y ∷ xs) x h (Memᴰ.head e) =
    (seen, rw e ((>>-eq-none (f seen y) (for_each_new key f (key y ∷ seen) xs) h).0))
for_each_new-eq-none key f seen (y ∷ xs) x h (Memᴰ.tail m) =
    for_each_new-eq-none key f (key y ∷ seen) xs x
      ((>>-eq-none (f seen y) (for_each_new key f (key y ∷ seen) xs) h).1) m

pub find-mem {ℓ} :
    {A : Type ℓ} (p : A → Bool) (xs : List A) (x : A)
    → find p xs ≡ some x
    → Memᴰ x xs × (p x ≡ true)
find-mem p [] x e = cc
find-mem p (y ∷ xs) x e = elim (Bool-cases (p y)) [
  | inl t ↦ let same : y ≡ x = cc (rw t at e) in (Memᴰ.head (sym same), ap p (sym same) ∙ t)
  | inr f ↦ let (m, q) = find-mem p xs x (rw f at e) in (Memᴰ.tail m, q)
]

mem-index_from :
    (m steps : List Step) (s : Step) → Memᴰ s (index_from m steps) ↔ (Memᴰ s m ⊎ Memᴰ s steps)
mem-index_from m [] s = (inl, elim [ inl a ↦ a | inr b ↦ absurd (Memᴰ.not-nil b) ])
mem-index_from m (t ∷ steps) s = (
  λ a. forward ((mem-index_from (t ∷ m) steps s).0 a),
  λ b. (mem-index_from (t ∷ m) steps s).1 (backward b),
)
  where
    forward : Memᴰ s (t ∷ m) ⊎ Memᴰ s steps → Memᴰ s m ⊎ Memᴰ s (t ∷ steps)
    forward (inl (Memᴰ.head e)) = inr (Memᴰ.head e)
    forward (inl (Memᴰ.tail a)) = inl a
    forward (inr b) = inr (Memᴰ.tail b)

    backward : Memᴰ s m ⊎ Memᴰ s (t ∷ steps) → Memᴰ s (t ∷ m) ⊎ Memᴰ s steps
    backward (inl a) = inl (Memᴰ.tail a)
    backward (inr (Memᴰ.head e)) = inl (Memᴰ.head e)
    backward (inr (Memᴰ.tail b)) = inr b

length-index_from : (m steps : List Step) → length (index_from m steps) ≡ length m + length steps
length-index_from m [] = omega arith
length-index_from m (s ∷ steps) = omega (arith, length-index_from (s ∷ m) steps)

-- A key of the map is found.
Known-step_ids : (steps : List Step) (x : String) → Memᴰ x (step_ids steps) → Known steps x
Known-step_ids [] x m = absurd (Memᴰ.not-nil m)
Known-step_ids (s ∷ steps) x (Memᴰ.head e) = (s, rw ((eq_iff s.id x).1 (sym e)))
Known-step_ids (s ∷ steps) x (Memᴰ.tail m) = elim (Bool-cases (s.id == x)) [
  | inl t ↦ (s, rw t)
  | inr f ↦ let (st, e) = Known-step_ids steps x m in (st, rw f e)
]

mem-step_ids : (steps : List Step) (s : Step) → Memᴰ s steps → Memᴰ s.id (step_ids steps)
mem-step_ids [] s m = absurd (Memᴰ.not-nil m)
mem-step_ids (t ∷ steps) s (Memᴰ.head e) = Memᴰ.head (ap (λ (x : Step). x.id) e)
mem-step_ids (t ∷ steps) s (Memᴰ.tail m) = Memᴰ.tail (mem-step_ids steps s m)

-- The facts about one sequence.
pub record IsAccepted (rt : Runtime) (messages : Messages) (seq : Sequence) : Type 0 where
  pub some_step : 1 ≤ length seq.steps
  pub few_steps : length seq.steps ≤ 100
  pub named : (s : Step) → Memᴰ s seq.steps → identifier s.id ≡ true
  pub each : (s : Step) → Memᴰ s seq.steps → validate_step rt messages (index seq.steps) s ≡ none
  pub graph : validate_graph rt (index seq.steps) ≡ none

validate_id-eq-none :
    (seen : List String) (s : Step) → validate_id seen s ≡ none → identifier s.id ≡ true
validate_id-eq-none seen s h = ground arith

validate_sequence-IsAccepted :
    (rt : Runtime) (messages : Messages) (lists seen : List String) (s : Sequence)
    → validate_sequence rt messages lists seen s ≡ none
    → IsAccepted rt messages s
unfolding validate_sequence
validate_sequence-IsAccepted rt messages lists seen s h =
    let steps = index s.steps in
    let g = validate_graph rt steps >> validate_optional s.exit in
    let e = for_each (validate_step rt messages steps) s.steps in
    let i = for_each_new (λ (st : Step). st.id) validate_id [] s.steps in
    let h₁ =
      (>>-eq-none (validate_entry lists seen s) (validate_length s.steps >> (i >> (e >> g))) h).1 in
    let h₂ = >>-eq-none (validate_length s.steps) (i >> (e >> g)) h₁ in
    let h₃ = >>-eq-none i (e >> g) h₂.1 in
    let h₄ = >>-eq-none e g h₃.1 in
    let size = refuse_if-eq-none _ _ _ h₂.0 in
    record {
      some_step = ground arith;
      few_steps = ground arith;
      named = λ st m.
          let (before, q) =
            for_each_new-eq-none (λ (x : Step). x.id) validate_id [] s.steps st h₃.0 m in
          validate_id-eq-none before st q;
      each = λ st m. for_each-eq-none (validate_step rt messages steps) s.steps st h₄.0 m;
      graph = (>>-eq-none (validate_graph rt steps) (validate_optional s.exit) h₄.1).0;
    }

-- Every sequence of an accepted manifest is accepted.
pub validate-IsAccepted :
    (rt : Runtime) (m : Manifest) (s : Sequence)
    → validate rt m ≡ none
    → Memᴰ s m.sequences
    → IsAccepted rt m.messages s
unfolding validate
validate-IsAccepted rt m s h mem =
    let lists = list_ids m.lists in
    let b = for_each_new (λ (b : Broadcast). b.id) (validate_broadcast m) [] m.broadcasts in
    let q =
      for_each_new (λ (s : Sequence). s.id) (validate_sequence rt m.messages lists) []
        m.sequences in
    let t = for_each (validate_message m) m.messages in
    let l = for_each_new (λ (l : MailingList). l.id) validate_list [] m.lists in
    let h₁ = (>>-eq-none (validate_header rt m) (l >> (t >> (q >> b))) h).1 in
    let h₂ = (>>-eq-none l (t >> (q >> b)) h₁).1 in
    let h₃ = (>>-eq-none t (q >> b) h₂).1 in
    let (seen, e) =
      for_each_new-eq-none (λ (s : Sequence). s.id) (validate_sequence rt m.messages lists) []
        m.sequences s ((>>-eq-none q b h₃).0) mem in
    validate_sequence-IsAccepted rt m.messages lists seen s e

bad_delay-cases :
    (o : Option ℤ) → bad_delay o ≡ false → (d : ℕ) × (o ≡ some (pos d)) × (d ≤ longest_delay)
bad_delay-cases none h = cc
bad_delay-cases (some (negsuc n)) h = cc
bad_delay-cases (some (pos d)) h = (d, refl, ltb-false→le longest_delay d h)

module _ (rt : Runtime) (messages : Messages) (s : Sequence) (a : IsAccepted rt messages s) where
  abbrev steps : List Step
  steps = index s.steps

  mem-index : (st : Step) → Memᴰ st steps ↔ Memᴰ st s.steps
  mem-index st =
      let i = mem-index_from [] s.steps st in
      (λ m. elim (i.0 m) [ inl n ↦ absurd (Memᴰ.not-nil n) | inr n ↦ n ], λ m. i.1 (inr m))

  validate_next-eq-none :
      (next : String) → validate_next steps next ≡ none → (next ≡ "") ⊎ Known steps next
  validate_next-eq-none next h = elim (Bool-cases (next == "")) [
    | inl t ↦ inl ((eq_iff next "").0 t)
    | inr f ↦ elim (Option-cases (lookup steps next)) [
      | inl e ↦ absurd (ground arith)
      | inr k ↦ inr k
    ]
  ]

  -- Both successors of a step are the end or steps.
  pub index-IsClosed : IsClosed steps
  unfolding validate_step
  index-IsClosed id st e =
      let (mem, _) = find-mem (λ (x : Step). x.id == id) steps st e in
      let h = a.each st ((mem-index st).0 mem) in
      let t = validate_type rt messages st in
      let n = validate_next steps st.next in
      let h₁ = (>>-eq-none t (n >> validate_next steps st.otherwise) h).1 in
      let (h₂, h₃) = >>-eq-none n (validate_next steps st.otherwise) h₁ in
      (validate_next-eq-none st.next h₂, validate_next-eq-none st.otherwise h₃)

  pub length-index : length steps ≡ length s.steps
  length-index = omega (arith, length-index_from [] s.steps)

  cycle_error-eq-none : (v : Visit) → cycle_error v ≡ none → (c : Colors) × (v ≡ finished c)
  cycle_error-eq-none (finished c) h = (c, refl)
  cycle_error-eq-none cycle h = cc
  cycle_error-eq-none out_of_fuel h = cc

  -- The steps have a topological order, which holds all of them.
  pub accepted-IsTopological :
      Ranges rt
      → (bs : List String) × IsTopological steps bs
        × ((st : Step) → Memᴰ st s.steps → Memᴰ st.id bs)
  unfolding validate_graph
  accepted-IsTopological ranges =
      let keys = rt.range_keys (step_ids steps) in
      let (c, e) = cycle_error-eq-none (visit_all (visit (enough steps) steps) keys []) a.graph in
      let (bs, t, all) =
        visit_all-IsTopological steps (enough steps) keys c index-IsClosed
          (λ x m. Known-step_ids steps x ((ranges (step_ids steps) x).0 m)) e in
      (
        bs,
        t,
        λ st m.
            all st.id
              ((ranges (step_ids steps) st.id).1 (mem-step_ids steps st ((mem-index st).1 m))),
      )

  -- The delay of a delay step is read, is not negative and is at most 366 days.
  pub accepted_delay :
      (id : String) (st : Step)
      → lookup steps id ≡ some st
      → (st.type == "delay") ≡ true
      → (d : ℕ) × (rt.parse_duration st.delay ≡ some (pos d)) × (d ≤ longest_delay)
  unfolding validate_step validate_type
  accepted_delay id st e is_delay =
      let (mem, _) = find-mem (λ (x : Step). x.id == id) steps st e in
      let h = a.each st ((mem-index st).0 mem) in
      let n = validate_next steps st.next in
      let (h₁, _) =
        >>-eq-none (validate_type rt messages st) (n >> validate_next steps st.otherwise) h in
      bad_delay-cases (rt.parse_duration st.delay) (delay_type h₁)
    where
      delay_type :
          validate_type rt messages st ≡ none → bad_delay (rt.parse_duration st.delay) ≡ false
      delay_type q =
          let other : (st.type == "send") ≡ false =
            ap (λ x. x == "send") ((eq_iff st.type "delay").0 is_delay) in
          ground arith
