-- ===== src/Engine/Outbox/Leases.antt =====
-- internal/engine/outbox.go: the lease of a webhook delivery. Some delivery is leased where one is
-- due, which leaves fewer to lease, and a leased one is not leased again.
use mrkt.Prelude.{
  ℕ, ◌+◌, ◌<◌, String, ◌==◌, eq_iff, eq_refl, ◌≡◌, ◌≢◌, refl, sym, ap, ◌∙◌, subst, inl, inr, true,
  false, not, ◌&&◌, some, List, Memᴰ, ne_of_test, Bool-cases, Option-cases,
}
use mrkt.Store.Rows.{ProjectRow, WebhookRow, Db}
use mrkt.Store.Query.{count_where, text_le, text_lt, update_where, select_where, least}
use mrkt.Store.Query.Laws.{
  mem-select_where, mem-update_where, mem-least, least-found, any-of_mem, update_where-hit,
  count_where-less,
}
use mrkt.Engine.Env.{Env, minute}
use mrkt.Engine.Outbox.Attempts.{
  is_attemptable, attempted_before, leased, lease_webhook, project_runs,
}

-- What a lease says of the delivery and of the table.
pub record Leases (env : Env) (now : String) (at : ℕ) (attempt : String) (db : Db) (w : WebhookRow)
    (db' : Db) : Type 0 where
  pub stored : Memᴰ w db.webhook_deliveries
  pub attemptable : is_attemptable db now w ≡ true
  pub rows :
      db'.webhook_deliveries
      ≡ update_where
          (λ (x : WebhookRow). x.id == w.id)
          (leased attempt (env.format (at + minute)) now)
          db.webhook_deliveries
  pub projects : db'.projects ≡ db.projects

pub lease_webhook-Leases :
    (env : Env) (now : String) (at : ℕ) (attempt : String) (db db' : Db) (w : WebhookRow)
    → lease_webhook env now at attempt db ≡ some (w, db')
    → Leases env now at attempt db w db'
unfolding lease_webhook
lease_webhook-Leases env now at attempt db db' w e =
    elim (Option-cases
      (least attempted_before (select_where (is_attemptable db now) db.webhook_deliveries))) [
        | inl n ↦ cc (rw (n, lease_webhook) at e)
        | inr (x, f) ↦
            let (m, t) = mem-select_where (is_attemptable db now) db.webhook_deliveries x (
              mem-least attempted_before
                (select_where (is_attemptable db now) db.webhook_deliveries) x f) in
            subst (λ (q : WebhookRow × Db). Leases env now at attempt db q.0 q.1)
              (some_eq (rw (f, lease_webhook) at e))
              (record { stored = m; attemptable = t; rows = refl; projects = refl })
      ]
  where
    some_eq : {p q : WebhookRow × Db} → some p ≡ some q → p ≡ q
    some_eq e = cc

-- A leased row is not attempted while the lease runs.
leased_blocked :
    (now later until attempt : String) (db : Db)
    → text_lt until later ≡ false
    → (x : WebhookRow) → is_attemptable db later (leased attempt until now x) ≡ false
leased_blocked now later until attempt db busy x =
    rw busy (elim (Bool-cases (project_runs db x)) [ inl t ↦ rw t refl | inr f ↦ rw f refl ])

-- A row that was leased, or has another ID.
leased_busy :
    (now later until attempt id : String) (rows : List WebhookRow) (db : Db) (y : WebhookRow)
    → Memᴰ y (update_where (λ (x : WebhookRow). x.id == id) (leased attempt until now) rows)
    → y.id ≡ id
    → text_lt until later ≡ false
    → is_attemptable db later y ≡ false
leased_busy now later until attempt id rows db y m e busy =
    let (x, _, q) =
      mem-update_where (λ (x : WebhookRow). x.id == id) (leased attempt until now) rows y m in
    elim (Bool-cases (x.id == id)) [
      | inl t ↦
          subst (λ r. is_attemptable db later r ≡ false) (sym (rw t at q))
            (leased_blocked now later until attempt db busy x)
      | inr f ↦ absurd (ne_of_test x.id id f (ap (λ (r : WebhookRow). r.id) (sym (rw f at q)) ∙ e))
    ]

-- After a delivery is leased, no tick leases a delivery of the same ID if the text of the lease's end
-- does not sort before the text of the tick's instant. Within one second the order of these texts is
-- not that of the instants: "…:00.5Z" sorts before "…:00Z".
pub lease_webhook_exclusive :
    (env : Env) (now later : String) (at at' : ℕ) (attempt attempt' : String) (db db₁ db₂ : Db)
    (v w : WebhookRow)
    → lease_webhook env now at attempt db ≡ some (v, db₁)
    → lease_webhook env later at' attempt' db₁ ≡ some (w, db₂)
    → text_lt (env.format (at + minute)) later ≡ false
    → v.id ≢ w.id
lease_webhook_exclusive env now later at at' attempt attempt' db db₁ db₂ v w e₁ e₂ runs same =
    let first = lease_webhook-Leases env now at attempt db db₁ v e₁ in
    let second = lease_webhook-Leases env later at' attempt' db₁ db₂ w e₂ in
    let busy =
      leased_busy now later (env.format (at + minute)) attempt v.id db.webhook_deliveries db₁ w
        (subst (λ rows. Memᴰ w rows) first.rows second.stored) (sym same) runs in
    let free = second.attemptable in cc

-- A row of a running project that waits and is due can be attempted.
attemptable :
    (db : Db) (now : String) (x : WebhookRow) (p : ProjectRow)
    → Memᴰ p db.projects
    → p.id ≡ x.project_id
    → p.paused ≡ false
    → x.state ≡ "pending"
    → text_le x.next_at now ≡ true
    → is_attemptable db now x ≡ true
attemptable db now x p m own running waits due =
    let is_own : (p.id == x.project_id) ≡ true = (eq_iff p.id x.project_id).1 own in
    let there : project_runs db x ≡ true =
      any-of_mem (λ (q : ProjectRow). q.id == x.project_id && not q.paused) db.projects p m
        (rw (is_own, running) refl) in
    let pending : (x.state == "pending") ≡ true = (eq_iff x.state "pending").1 waits in
    rw (there, pending, due) refl

-- Where a delivery of a project that is not paused is pending and its next attempt is due, a lease
-- takes a delivery, which is then sending under the new attempt, and fewer deliveries are left to
-- lease at the tick's instant, provided that the end of the lease does not sort before that instant.
pub lease_webhook_progress :
    (env : Env) (now : String) (at : ℕ) (attempt : String) (db : Db) (x : WebhookRow)
    (p : ProjectRow)
    → Memᴰ x db.webhook_deliveries
    → Memᴰ p db.projects
    → p.id ≡ x.project_id
    → p.paused ≡ false
    → x.state ≡ "pending"
    → text_le x.next_at now ≡ true
    → text_lt (env.format (at + minute)) now ≡ false
    → (w : WebhookRow) × (db' : Db) × (lease_webhook env now at attempt db ≡ some (w, db'))
      × Memᴰ w db.webhook_deliveries
      × Memᴰ (leased attempt (env.format (at + minute)) now w) db'.webhook_deliveries
      × (count_where (is_attemptable db' now) db'.webhook_deliveries
          < count_where (is_attemptable db now) db.webhook_deliveries)
unfolding lease_webhook
lease_webhook_progress env now at attempt db x p m n own running waits due late =
    let ready = is_attemptable db now in
    let change = leased attempt (env.format (at + minute)) now in
    let (w, f) =
      least-found attempted_before ready db.webhook_deliveries x m
        (attemptable db now x p n own running waits due) in
    let mine = λ (y : WebhookRow). y.id == w.id in
    let next = record db { webhook_deliveries = update_where mine change db.webhook_deliveries } in
    let (stored, able) =
      mem-select_where ready db.webhook_deliveries w
        (mem-least attempted_before (select_where ready db.webhook_deliveries) w f) in
    (
      w,
      next,
      rw (lease_webhook, f) refl,
      stored,
      update_where-hit mine change db.webhook_deliveries w stored (eq_refl w.id),
      count_where-less ready mine change db.webhook_deliveries w
          (leased_blocked now now (env.format (at + minute)) attempt db late) stored able
          (eq_refl w.id),
    )
