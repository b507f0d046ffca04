-- ===== src/Engine/Events/Once.antt =====
-- An event's key is accepted once.
use mrkt.Prelude.{
  ℕ, String, ◌==◌, eq_iff, eq_refl, ◌≡◌, ◌≢◌, refl, sym, ap, ◌∙◌, inl, inr, true, false, not, ◌&&◌,
  ◌||◌, none, some, List, [], ◌∷◌, ◌++◌, arith, find, eqb, Bool-cases, Option-cases,
}
use mrkt.Manifest.Types.{Broadcast, Manifest}
use mrkt.Store.Rows.{EventRow, BroadcastRow, Db}
use mrkt.Store.Query.{count_where, select_where}
use mrkt.Store.Query.Laws.{find-append}
use mrkt.Engine.Env.{Env}
use mrkt.Engine.Lookup.{active_manifest}
use mrkt.Engine.Completion.{is_outstanding, is_finishable, insert_outbox, maybe_complete_broadcast}
use mrkt.Engine.Events.{
  EventInput, EventIds, EventResult, is_owned, answer_known, created, duplicate, same_key, print_of,
  new_event, queue_broadcast, queue_broadcasts, begin, unowned, record_event, is_begun, settle_each,
  settle, succeeds, occurrence, create_event,
}

-- What the operations below leave as it is.
abbrev pub Stays : (db db' : Db) → Type 0
Stays db db' = (db'.events ≡ db.events) × (db'.contacts ≡ db.contacts)

queue_broadcasts-Stays :
    (ids : EventIds) (r : EventInput) (p rid now : String) (bs : List Broadcast) (db : Db)
    → Stays db (queue_broadcasts ids r p rid now bs db)
unfolding queue_broadcasts queue_broadcast
queue_broadcasts-Stays ids r p rid now [] db = (refl, refl)
queue_broadcasts-Stays ids r p rid now (b ∷ bs) db = elim (Bool-cases (b.event == r.type)) [
  | inl t ↦
      rw (t, queue_broadcasts)
        (queue_broadcasts-Stays ids r p rid now bs (queue_broadcast ids p rid now b db))
  | inr f ↦ rw (f, queue_broadcasts) (queue_broadcasts-Stays ids r p rid now bs db)
]

begin-Stays :
    (ids : EventIds) (r : EventInput) (p rid now : String) (m : Manifest) (db : Db)
    → Stays db (begin ids r p rid now m db)
unfolding begin
begin-Stays ids r p rid now m db = elim (Bool-cases (r.contact_id == "")) [
  | inl t ↦ rw (t, queue_broadcasts) (queue_broadcasts-Stays ids r p rid now m.broadcasts db)
  | inr f ↦ rw f (refl, refl)
]

maybe_complete_broadcast-Stays :
    (env : Env) (at : ℕ) (event p id : String) (db : Db)
    → Stays db (maybe_complete_broadcast env at event p id db)
unfolding maybe_complete_broadcast insert_outbox
maybe_complete_broadcast-Stays env at event p id db =
    elim (Bool-cases (not (eqb (count_where (is_outstanding p id) db.jobs) 0))) [
      | inl t ↦ rw t (refl, refl)
      | inr f ↦ elim (Bool-cases (eqb (count_where (is_finishable p id) db.broadcasts) 0)) [
        | inl t ↦ rw (f, t) (refl, refl)
        | inr g ↦ rw (f, g) (refl, refl)
      ]
    ]

settle_each-Stays :
    (env : Env) (ids : EventIds) (p : String) (bs : List BroadcastRow) (db : Db)
    → Stays db (settle_each env ids p bs db)
unfolding settle_each
settle_each-Stays env ids p [] db = (refl, refl)
settle_each-Stays env ids p (b ∷ bs) db =
    let done = maybe_complete_broadcast env ids.clock (ids.completion b.id) p b.id db in
    let first = maybe_complete_broadcast-Stays env ids.clock (ids.completion b.id) p b.id db in
    let rest = settle_each-Stays env ids p bs done in (rest.0 ∙ first.0, rest.1 ∙ first.1)

settle-Stays : (env : Env) (ids : EventIds) (p : String) (db : Db) → Stays db (settle env ids p db)
unfolding settle
settle-Stays env ids p db =
    settle_each-Stays env ids p (select_where (is_begun p ids.event) db.broadcasts) db

-- What a request that is created says of the database.
abbrev pub Recorded : Env → EventIds → EventInput → String → ℕ → ℕ → Db → Db → Type 0
Recorded env ids r p occurred now db db' =
    (unowned r p db ≡ false)
    × (find (same_key p r.key) db.events ≡ none)
    × (db'.events ≡ db.events ++ new_event env ids r p occurred now ∷ [])
    × (db'.contacts ≡ db.contacts)

answer_known-not-created :
    (env : Env) (r : EventInput) (old : EventRow) (id : String)
    → answer_known env r old ≢ created id
answer_known-not-created env r old id e = elim (Bool-cases (old.request_fingerprint == "")) [
  | inl t ↦ cc (rw t at e)
  | inr f ↦ elim (Bool-cases (old.request_fingerprint == print_of env r)) [
    | inl t ↦ cc (rw (f, t) at e)
    | inr g ↦ cc (rw (f, g) at e)
  ]
]

record_event-Recorded :
    (env : Env) (ids : EventIds) (r : EventInput) (p : String) (occurred now : ℕ) (db : Db)
    (id : String)
    → (record_event env ids r p occurred now db).0 ≡ created id
    → (id ≡ ids.event)
      × Recorded env ids r p occurred now db (record_event env ids r p occurred now db).1
unfolding record_event
record_event-Recorded env ids r p occurred now db id e =
    let stored = record db { events = db.events ++ new_event env ids r p occurred now ∷ [] } in
    elim (Bool-cases (unowned r p db)) [
      | inl t ↦ cc (rw (t, record_event) at e)
      | inr f ↦ elim (Option-cases (find (same_key p r.key) db.events)) [
        | inr (old, q) ↦
            absurd (answer_known-not-created env r old id (rw (f, q, record_event) at e))
        | inl n ↦ elim (Option-cases (active_manifest env stored p)) [
          | inl k ↦ cc (rw (f, n, k, record_event) at e)
          | inr ((m, rid), k) ↦
              let same : ids.event ≡ id = cc (rw (f, n, k, record_event) at e) in
              let begun = begin-Stays ids r p rid (env.format now) m stored in
              let after : (record_event env ids r p occurred now db).1
                  ≡ begin ids r p rid (env.format now) m stored =
                rw (f, n, k, record_event) refl in
              (
                sym same,
                (
                  f,
                  n,
                  ap (λ (x : Db). x.events) after ∙ begun.0,
                  ap (λ (x : Db). x.contacts) after ∙ begun.1,
                ),
              )
        ]
      ]
    ]

create_event-Recorded :
    (env : Env) (ids : EventIds) (r : EventInput) (p : String) (now : ℕ) (db db' : Db) (id : String)
    → create_event env ids r p now db ≡ (created id, db')
    → ((r.key == "" || r.type == "") ≡ false)
      × (id ≡ ids.event)
      × (occurred : ℕ) × (occurrence env r now ≡ some occurred)
      × Recorded env ids r p occurred now db db'
unfolding create_event settle
create_event-Recorded env ids r p now db db' id e = elim (Option-cases (occurrence env r now)) [
  | inl n ↦ cc (rw (n, create_event) at e)
  | inr (o, k) ↦ elim (Bool-cases (r.key == "" || r.type == "")) [
    | inl t ↦ cc (rw (k, t, create_event) at e)
    | inr f ↦ elim (Bool-cases (succeeds (record_event env ids r p o now db).0)) [
      | inr n ↦
          let result = ap (λ (x : EventResult × Db). x.0) (rw (k, f, n, create_event) at e) in
          let good : succeeds (record_event env ids r p o now db).0 ≡ true = ap succeeds result in
          cc
      | inl t ↦
          let whole = rw (k, f, t, create_event) at e in
          let result = ap (λ (x : EventResult × Db). x.0) whole in
          let left = ap (λ (x : EventResult × Db). x.1) whole in
          let (same, (owned, first, events, contacts)) =
            record_event-Recorded env ids r p o now db id result in
          let kept = settle-Stays env ids p (record_event env ids r p o now db).1 in
          (
            f,
            same,
            o,
            k,
            (
              owned,
              first,
              ap (λ (x : Db). x.events) (sym left) ∙ kept.0 ∙ events,
              ap (λ (x : Db). x.contacts) (sym left) ∙ kept.1 ∙ contacts,
            ),
          )
    ]
  ]
]

occurrence-again :
    (env : Env) (r : EventInput) (now later o : ℕ)
    → occurrence env r now ≡ some o
    → (o' : ℕ) × (occurrence env r later ≡ some o')
occurrence-again env r now later o e = elim (Bool-cases (r.occurred_at == "")) [
  | inl t ↦ (later, rw t refl)
  | inr f ↦ (o, rw f (rw f at e))
]

-- Once a request has created an event, the same request made again, at whatever instant, is answered
-- with that event's ID as a duplicate and changes nothing, as long as no fingerprint is the empty
-- text and no broadcast carries the ID that the second request drew for its own event.
pub create_event_once :
    (env : Env) (ids again : EventIds) (r : EventInput) (p : String) (now later : ℕ) (db db' : Db)
    → (id : String) → create_event env ids r p now db ≡ (created id, db')
    → print_of env r ≢ ""
    → select_where (is_begun p again.event) db'.broadcasts ≡ []
    → create_event env again r p later db' ≡ (duplicate id, db')
unfolding create_event record_event settle settle_each
create_event_once env ids again r p now later db db' id e fp fresh =
    let (named, same, o, k, (owned, first, events, contacts)) =
      create_event-Recorded env ids r p now db db' id e in
    let (o', k') = occurrence-again env r now later o k in
    let row = new_event env ids r p o now in
    let still : unowned r p db' ≡ false =
      ap (λ cs. not (r.contact_id == "") && not (eqb (count_where (is_owned p r.contact_id) cs) 1))
        contacts
      ∙ owned in
    let found : find (same_key p r.key) db'.events ≡ some row =
      ap (find (same_key p r.key)) events
      ∙ find-append (same_key p r.key) db.events row first
          (ground (arith, eq_refl p, eq_refl r.key)) in
    let printed : (print_of env r == "") ≡ false = ground (arith, eq_iff (print_of env r) "") in
    let matches = eq_refl (print_of env r) in
    let recorded : record_event env again r p o' later db' ≡ (duplicate id, db') =
      rw (still, found, record_event)
        (rw (printed, matches) (ap (λ x. (duplicate x, db')) (sym same))) in
    rw (k', named, recorded, create_event) (rw fresh refl)
