-- ===== src/Engine/Transports/Laws.antt =====
-- Which transport a message is sent with.
use mrkt.Prelude.{
  String, ◌==◌, eq_iff, ◌≡◌, refl, sym, ap, ◌∙◌, subst, ◌⊎◌, inl, inr, true, some, List, [], ◌∷◌,
  Memᴰ, arith, find, Bool-cases, Option-cases,
}
use mrkt.Store.Rows.{RegistryRow, Db}
use mrkt.Store.Query.{select_where, order_by}
use mrkt.Store.Query.Laws.{mem-find, find-true, mem-order_by, mem-limit, mem-select_where}
use mrkt.Engine.Configs.{TransportConfig}
use mrkt.Engine.Env.{Env}
use mrkt.Engine.Registry.{is_enabled, registry_config}
use mrkt.Engine.Releases.Plan.{is_transport}
use mrkt.Engine.Transports.{
  Senders, installation_id, installation_config, installation, newer, Pick, failed, nothing, picked,
  pick, candidates, with_sender, unpinned, selected_transport,
}

-- An enabled transport of the project whose configuration is `c`.
pub record Serves (env : Env) (p : String) (db : Db) (id : String) (c : TransportConfig)
    : Type 0 where
  pub row : RegistryRow
  pub stored : Memᴰ row db.registry
  pub of_project : is_transport p row ≡ true
  pub same_id : row.id ≡ id
  pub config : env.open_transport p row.id row.config ≡ some c

-- The choice is the pinned transport; or, where none is pinned, one of the stream, or the
-- installation's for the empty stream.
abbrev pub Selects :
    Env → Senders → String → String → String → Db → String → TransportConfig → Type 0
Selects env sd p stream pinned db id c =
    ((id ≡ installation_id)
      × (c ≡ installation_config sd stream)
      × ((pinned ≡ installation_id) ⊎ (pinned ≡ "") × (stream ≡ "")))
    ⊎ (Serves env p db id c × ((pinned ≡ id) ⊎ (pinned ≡ "") × (c.stream ≡ stream)))

pair_injective : {x y : String × TransportConfig} → some x ≡ some y → x ≡ y
pair_injective e = cc

installation-is :
    (sd : Senders) (stream id : String) (c : TransportConfig)
    → installation sd stream ≡ some (id, c)
    → (id ≡ installation_id) × (c ≡ installation_config sd stream)
unfolding installation
installation-is sd stream id c e = elim (Bool-cases sd.has_sender) [
  | inr f ↦ cc (rw (f, installation) at e)
  | inl t ↦
      let q = pair_injective (rw (t, installation) at e) in
      (
        sym (ap (λ (x : String × TransportConfig). x.0) q),
        sym (ap (λ (x : String × TransportConfig). x.1) q),
      )
]

with_sender-is :
    (sd : Senders) (i id : String) (d c : TransportConfig)
    → with_sender sd i d ≡ some (id, c)
    → (i ≡ id) × (d ≡ c)
with_sender-is sd i id d c e = elim (Bool-cases (sd.makes_sender d)) [
  | inr f ↦ cc (rw f at e)
  | inl t ↦
      let q = pair_injective (rw t at e) in
      (ap (λ (x : String × TransportConfig). x.0) q, ap (λ (x : String × TransportConfig). x.1) q)
]

Pick-cases :
    (k : Pick)
    → (k ≡ failed) ⊎ (k ≡ nothing) ⊎ ((id : String) × (c : TransportConfig) × (k ≡ picked id c))
Pick-cases failed = inl refl
Pick-cases nothing = inr (inl refl)
Pick-cases (picked id c) = inr (inr (id, c, refl))

picked_injective :
    {i j : String} {c d : TransportConfig} → picked i c ≡ picked j d → (i ≡ j) × (c ≡ d)
picked_injective {i} {j} {c} q = (
  ap (λ (x : Pick). elim x [ failed ↦ i | nothing ↦ i | picked a _ ↦ a ]) q,
  ap (λ (x : Pick). elim x [ failed ↦ c | nothing ↦ c | picked _ b ↦ b ]) q,
)

pick-finds :
    (env : Env) (p stream : String) (rows : List RegistryRow) (id : String) (c : TransportConfig)
    → pick env p stream rows ≡ picked id c
    → (r : RegistryRow) × Memᴰ r rows
      × (r.id ≡ id)
      × (env.open_transport p r.id r.config ≡ some c)
      × (c.stream ≡ stream)
unfolding pick
pick-finds env p stream [] id c e = cc
pick-finds env p stream (r ∷ rs) id c e = elim (Option-cases (env.open_transport p r.id r.config)) [
  | inl n ↦ cc (rw (n, pick) at e)
  | inr (d, n) ↦ elim (Bool-cases (d.stream == stream)) [
    | inl t ↦
        let (a, b) = picked_injective (rw (n, t, pick) at e) in
        (
          r,
          Memᴰ.head refl,
          a,
          n ∙ ap (λ x. some x) b,
          sym (ap (λ (x : TransportConfig). x.stream) b) ∙ (eq_iff d.stream stream).0 t,
        )
    | inr f ↦
        let (x, m, same, opened, streamed) =
          pick-finds env p stream rs id c (rw (n, f, pick) at e) in
        (x, Memᴰ.tail m, same, opened, streamed)
  ]
]

mem-candidates :
    (p : String) (db : Db) (r : RegistryRow)
    → Memᴰ r (candidates p db)
    → Memᴰ r db.registry × (is_transport p r ≡ true)
unfolding candidates
mem-candidates p db r m =
    let rows = select_where (is_transport p) db.registry in
    mem-select_where (is_transport p) db.registry r
      (mem-order_by newer rows r (mem-limit 101 (order_by newer rows) r m))

unpinned-Selects :
    (env : Env) (sd : Senders) (p stream : String) (db : Db) (id : String) (c : TransportConfig)
    → unpinned env sd p stream db ≡ some (id, c)
    → Selects env sd p stream "" db id c
unfolding unpinned
unpinned-Selects env sd p stream db id c e =
    elim (Pick-cases (pick env p stream (candidates p db))) [
      | inl q ↦ cc (rw (q, unpinned) at e)
      | inr (inl q) ↦ elim (Bool-cases (stream == "")) [
        | inr f ↦ cc (rw (q, f, unpinned) at e)
        | inl t ↦
            let (a, b) = installation-is sd stream id c (rw (q, t, unpinned) at e) in
            inl (a, b, inr (refl, (eq_iff stream "").0 t))
      ]
      | inr (inr (i, d, q)) ↦
          let (a, b) = with_sender-is sd i id d c (rw (q, unpinned) at e) in
          let (r, m, same, opened, streamed) = pick-finds env p stream (candidates p db) i d q in
          let (stored, own) = mem-candidates p db r m in
          inr (
            record {
              row = r;
              stored = stored;
              of_project = own;
              same_id = same ∙ a;
              config = opened ∙ ap (λ x. some x) b;
            },
            inr (refl, ap (λ (x : TransportConfig). x.stream) (sym b) ∙ streamed),
          )
    ]

-- A message is sent with the installation's transport, if that is pinned or if nothing is pinned and
-- the stream is the empty one; or with an enabled transport of its project, which is the pinned one,
-- or, if nothing is pinned, one of its stream. What is pinned is never replaced by another.
pub selected_transport-Selects :
    (env : Env) (sd : Senders) (p stream pinned : String) (db : Db) (id : String)
    (c : TransportConfig)
    → selected_transport env sd p stream pinned db ≡ some (id, c)
    → Selects env sd p stream pinned db id c
unfolding selected_transport registry_config
selected_transport-Selects env sd p stream pinned db id c e =
    elim (Bool-cases (pinned == installation_id)) [
      | inl t ↦
          let (a, b) = installation-is sd stream id c (rw (t, selected_transport) at e) in
          inl (a, b, inl ((eq_iff pinned installation_id).0 t))
      | inr f ↦ elim (Bool-cases (pinned == "")) [
        | inl t ↦
            subst (λ x. Selects env sd p stream x db id c) (sym ((eq_iff pinned "").0 t))
              (unpinned-Selects env sd p stream db id c (rw (f, t, selected_transport) at e))
        | inr g ↦ elim (Option-cases (find (is_enabled p "transports" pinned) db.registry)) [
          | inl n ↦ cc (rw (f, g, selected_transport, registry_config, n) at e)
          | inr (r, n) ↦ elim (Option-cases (env.open_transport p pinned r.config)) [
            | inl k ↦ cc (rw (f, g, selected_transport, registry_config, n, k) at e)
            | inr (d, k) ↦
                let (a, b) =
                  with_sender-is sd pinned id d c
                    (rw (f, g, selected_transport, registry_config, n, k) at e) in
                let there = find-true (is_enabled p "transports" pinned) db.registry r n in
                let same : r.id ≡ pinned = (eq_iff r.id pinned).0 (ground arith) in
                inr (
                  record {
                    row = r;
                    stored = mem-find (is_enabled p "transports" pinned) db.registry r n;
                    of_project = ground arith;
                    same_id = same ∙ a;
                    config =
                        ap (λ x. env.open_transport p x r.config) same ∙ k ∙ ap (λ x. some x) b;
                  },
                  inl a,
                )
          ]
        ]
      ]
    ]
