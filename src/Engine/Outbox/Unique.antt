-- ===== src/Engine/Outbox/Unique.antt =====
-- internal/engine/outbox.go: each committed event is written once for each endpoint that wants it.
use mrkt.Prelude.{
  ◌≤◌, String, eq_iff, eq_refl, ◌≡◌, sym, subst, ◌⊎◌, inl, inr, Bool, true, false, some, List, [],
  ◌∷◌, Memᴰ, arith, any, Bool-cases, Option-cases,
}
use mathlib.Core.List.Memᴰ
use mrkt.Store.Rows.{OutboxRow, RegistryRow, WebhookRow, Db}
use mrkt.Store.Query.{count_where, select_where, order_by, limit, insert_or_ignore}
use mrkt.Store.Query.Laws.{
  count_where-insert_or_ignore, any-insert_or_ignore, any-inserted, count_where-pos_of_any,
  count_where-zero_of_any,
}
use mrkt.Engine.Configs.{WebhookConfig}
use mrkt.Engine.Env.{Env}
use mrkt.Engine.Outbox.FanOut.{
  Fan, is_pending, created_before, is_endpoint, wants, same_pair, new_webhook, to_endpoints,
  distributed, distribute, distribute_all, fan_out,
}

-- `UNIQUE(event_id,endpoint_id)` holds of the table.
abbrev pub IsUnique : List WebhookRow → Type 0
IsUnique rows = (event endpoint : String) → count_where (same_pair event endpoint) rows ≤ 1

-- What the endpoints of an event have, after the event is written for them.
pub record Reaches (env : Env) (v : OutboxRow) (eps : List RegistryRow)
    (rows rows' : List WebhookRow) : Type 0 where
  pub unique : IsUnique rows → IsUnique rows'
  pub kept : (p : WebhookRow → Bool) → any p rows ≡ true → any p rows' ≡ true
  pub reached :
      (ep : RegistryRow) (c : WebhookConfig)
      → Memᴰ ep eps
      → env.open_webhook v.project_id ep.id ep.config ≡ some c
      → wants c v.type ≡ true
      → any (same_pair v.id ep.id) rows' ≡ true

insert-IsUnique :
    (fan : Fan) (v : OutboxRow) (ep : RegistryRow) (rows : List WebhookRow)
    → IsUnique rows
    → IsUnique (insert_or_ignore (same_pair v.id ep.id) (new_webhook fan v ep) rows)
insert-IsUnique fan v ep rows u event endpoint =
    let clash = same_pair v.id ep.id in
    let new = new_webhook fan v ep in
    let here = same_pair event endpoint in
    let counted = count_where-insert_or_ignore here clash new rows in
    elim (Bool-cases (any clash rows)) [
      | inl t ↦ omega (arith, rw t at counted, u event endpoint)
      | inr f ↦ elim (Bool-cases (here new)) [
        | inr g ↦ omega (arith, rw (f, g) at counted, u event endpoint)
        | inl t ↦
            let a : v.id ≡ event = (eq_iff v.id event).0 (ground arith) in
            let b : ep.id ≡ endpoint = (eq_iff ep.id endpoint).0 (ground arith) in
            let none_yet : count_where here rows ≡ 0 = count_where-zero_of_any here rows (
              subst (λ e. any (same_pair e endpoint) rows ≡ false) a
                (subst (λ k. any (same_pair v.id k) rows ≡ false) b f)) in
            omega (arith, rw (f, t) at counted, none_yet)
      ]
    ]

pub to_endpoints-Reaches :
    (env : Env) (fan : Fan) (v : OutboxRow) (eps : List RegistryRow) (rows rows' : List WebhookRow)
    → to_endpoints env fan v eps rows ≡ some rows'
    → Reaches env v eps rows rows'
unfolding to_endpoints
to_endpoints-Reaches env fan v [] rows rows' e =
    let same : rows ≡ rows' = cc in
    subst (λ r. Reaches env v [] rows r) same
      (record { unique = λ u. u; kept = λ p h. h; reached = λ ep c m o w. absurd (Memᴰ.not-nil m) })
to_endpoints-Reaches env fan v (x ∷ eps) rows rows' e =
    elim (Option-cases (env.open_webhook v.project_id x.id x.config)) [
      | inl n ↦ cc (rw (n, to_endpoints) at e)
      | inr (c, o) ↦ elim (Bool-cases (wants c v.type)) [
        | inl t ↦
            let next = insert_or_ignore (same_pair v.id x.id) (new_webhook fan v x) rows in
            let rest =
              to_endpoints-Reaches env fan v eps next rows' (rw (o, t, to_endpoints) at e) in
            record {
              unique = λ u. rest.unique (insert-IsUnique fan v x rows u);
              kept = λ p h.
                  rest.kept p
                    (any-insert_or_ignore p (same_pair v.id x.id) (new_webhook fan v x) rows h);
              reached = λ ep d m q w. elim (first-or_rest m) [
                | inl s ↦
                    subst (λ (y : RegistryRow). any (same_pair v.id y.id) rows' ≡ true) (sym s)
                      (rest.kept (same_pair v.id x.id) (
                        any-inserted (same_pair v.id x.id) (new_webhook fan v x) rows
                          (rw (eq_refl v.id) (eq_refl x.id))))
                | inr k ↦ rest.reached ep d k q w
              ];
            }
        | inr f ↦
            let rest =
              to_endpoints-Reaches env fan v eps rows rows' (rw (o, f, to_endpoints) at e) in
            record {
              unique = rest.unique;
              kept = rest.kept;
              reached = λ ep d m q w. elim (first-or_rest m) [
                | inl s ↦ cc (unwanted c d ep s o f q w)
                | inr k ↦ rest.reached ep d k q w
              ];
            }
      ]
    ]
  where
    first-or_rest : {ep : RegistryRow} → Memᴰ ep (x ∷ eps) → (ep ≡ x) ⊎ Memᴰ ep eps
    first-or_rest (Memᴰ.head q) = inl q
    first-or_rest (Memᴰ.tail m) = inr m

    unwanted :
        (c d : WebhookConfig) (ep : RegistryRow)
        → ep ≡ x
        → env.open_webhook v.project_id x.id x.config ≡ some c
        → wants c v.type ≡ false
        → env.open_webhook v.project_id ep.id ep.config ≡ some d
        → wants d v.type ≡ true
        → true ≡ false
    unwanted c d ep s o f q w =
        let here =
          subst (λ (y : RegistryRow). env.open_webhook v.project_id y.id y.config ≡ some d) s q in
        let same : c ≡ d = cc in cc

count_one :
    {A : Type 0} (p : A → Bool) (rows : List A)
    → count_where p rows ≤ 1
    → any p rows ≡ true
    → count_where p rows ≡ 1
count_one p rows few some_row = omega (arith, few, count_where-pos_of_any p rows some_row)

-- The steps of the loop over the events, between which the registry stays as it is.
pub record Distributes (env : Env) (vs : List OutboxRow) (db db' : Db) : Type 0 where
  pub unique : IsUnique db.webhook_deliveries → IsUnique db'.webhook_deliveries
  pub kept :
      (p : WebhookRow → Bool)
      → any p db.webhook_deliveries ≡ true
      → any p db'.webhook_deliveries ≡ true
  pub reached :
      (v : OutboxRow) (ep : RegistryRow) (c : WebhookConfig)
      → Memᴰ v vs
      → Memᴰ ep (select_where (is_endpoint v.project_id) db.registry)
      → env.open_webhook v.project_id ep.id ep.config ≡ some c
      → wants c v.type ≡ true
      → any (same_pair v.id ep.id) db'.webhook_deliveries ≡ true

distribute_all-Distributes :
    (env : Env) (fan : Fan) (vs : List OutboxRow) (db db' : Db)
    → distribute_all env fan vs db ≡ some db'
    → Distributes env vs db db'
unfolding distribute_all distribute
distribute_all-Distributes env fan [] db db' e =
    let same : db ≡ db' = cc in
    subst (λ d. Distributes env [] db d) same
      (record {
        unique = λ u. u;
        kept = λ p h. h;
        reached = λ v ep c m n o w. absurd (Memᴰ.not-nil m);
      })
distribute_all-Distributes env fan (v ∷ vs) db db' e =
    elim (Option-cases (
      to_endpoints env fan v (select_where (is_endpoint v.project_id) db.registry)
        db.webhook_deliveries)) [
          | inl n ↦ cc (rw (n, distribute_all, distribute) at e)
          | inr (rows, t) ↦
              let next = distributed v.id (record db { webhook_deliveries = rows }) in
              let once =
                to_endpoints-Reaches env fan v (select_where (is_endpoint v.project_id) db.registry)
                  db.webhook_deliveries rows t in
              let rest =
                distribute_all-Distributes env fan vs next db'
                  (rw (t, distribute_all, distribute) at e) in
              record {
                unique = λ u. rest.unique (once.unique u);
                kept = λ p h. rest.kept p (once.kept p h);
                reached = λ ev ep c m n o w. elim (first-or_rest m) [
                  | inl s ↦ rest.kept (same_pair ev.id ep.id) (
                      subst
                        (λ (z : OutboxRow).
                          Memᴰ ep (select_where (is_endpoint z.project_id) db.registry)
                          → env.open_webhook z.project_id ep.id ep.config ≡ some c
                          → wants c z.type ≡ true
                          → any (same_pair z.id ep.id) rows ≡ true)
                        (sym s) (once.reached ep c) n o w)
                  | inr k ↦ rest.reached ev ep c k n o w
                ];
              }
        ]
  where
    first-or_rest : {ev : OutboxRow} → Memᴰ ev (v ∷ vs) → (ev ≡ v) ⊎ Memᴰ ev vs
    first-or_rest (Memᴰ.head q) = inl q
    first-or_rest (Memᴰ.tail m) = inr m

-- Where the pending events are distributed without an error, each event of the round has exactly one
-- delivery for each enabled endpoint of its project that wants events of its type, whatever earlier
-- rounds did; and no event has two deliveries for an endpoint if none had before.
pub fan_out-exactly_once :
    (env : Env) (fan : Fan) (db db' : Db) (v : OutboxRow) (ep : RegistryRow) (c : WebhookConfig)
    → IsUnique db.webhook_deliveries
    → fan_out env fan db ≡ some db'
    → Memᴰ v (limit 100 (order_by created_before (select_where is_pending db.outbox)))
    → Memᴰ ep (select_where (is_endpoint v.project_id) db.registry)
    → env.open_webhook v.project_id ep.id ep.config ≡ some c
    → wants c v.type ≡ true
    → (count_where (same_pair v.id ep.id) db'.webhook_deliveries ≡ 1)
      × IsUnique db'.webhook_deliveries
unfolding fan_out
fan_out-exactly_once env fan db db' v ep c u e m n o w =
    let batch = limit 100 (order_by created_before (select_where is_pending db.outbox)) in
    let run = distribute_all-Distributes env fan batch db db' e in
    let after = run.unique u in
    (
      count_one (same_pair v.id ep.id) db'.webhook_deliveries (after v.id ep.id)
          (run.reached v ep c m n o w),
      after,
    )
