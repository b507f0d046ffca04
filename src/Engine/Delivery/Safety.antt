-- ===== src/Engine/Delivery/Safety.antt =====
-- Nothing is handed to a transport without standing consent, and nothing twice.
use mrkt.Prelude.{
  ◌==◌, eq_iff, ◌≡◌, ◌≢◌, refl, ◌⊎◌, inl, inr, Bool, true, false, not, ◌&&◌, none, List, [], ◌∷◌,
  Memᴰ, arith, any, eqb, Bool-cases,
}
use mrkt.Store.Rows.{ProjectRow, ContactRow, ListRow, ConsentRow, SuppressionRow, Db}
use mrkt.Store.Query.{count_where}
use mrkt.Store.Query.Laws.{any-mem, any-false}
use mrkt.Engine.Env.{Env}
use mrkt.Engine.Lookup.{evaluate_condition}
use mrkt.Engine.Delivery.{
  Intent, Reservation, retried, reserved, is_waiting, is_queued, contact_live, is_live, is_current,
  is_open, is_suppression, policy_current, project_running, suppressed, is_eligible,
  reserve_delivery,
}

-- Whether a result lets the caller send.
abbrev pub sends : Reservation → Bool
sends (reserved _ _ _) = true
sends (retried _ _ _) = true
sends _ = false

-- The recipient has confirmed this list under its present policy, and nothing forbids the message.
pub record MaySend (env : Env) (i : Intent) (db : Db) : Type 0 where
  pub consent : ConsentRow
  pub stored : Memᴰ consent db.consent
  pub of_contact : consent.contact_id ≡ i.contact
  pub of_list : consent.list_id ≡ i.list
  pub of_project : consent.project_id ≡ i.p
  pub confirmed : consent.state ≡ "confirmed"
  pub list : ListRow
  pub list_stored : Memᴰ list db.lists
  pub list_found : (list.project_id ≡ i.p) × (list.id ≡ i.list)
  pub current : consent.policy_version ≡ list.policy_version
  pub not_retired : list.retired ≡ false
  pub contact : ContactRow
  pub contact_stored : Memᴰ contact db.contacts
  pub contact_found : (contact.id ≡ i.contact) × (contact.project_id ≡ i.p)
  pub not_deleted : contact.deleted_at ≡ none
  pub project : ProjectRow
  pub project_stored : Memᴰ project db.projects
  pub project_found : project.id ≡ i.p
  pub project_runs : project.paused ≡ false
  pub not_paused : db.installation.outbound_paused ≡ false
  pub not_suppressed :
      (s : SuppressionRow) → Memᴰ s db.suppressions → s.project_id ≡ i.p → s.email ≢ i.email
  pub no_exit : evaluate_condition env db i.p i.contact i.event i.exit ≡ false
  pub waiting : (i.enrollment ≡ "") ⊎ (count_where (is_waiting i) db.enrollments ≡ 1)
  pub queued : (i.broadcast ≡ "") ⊎ (count_where (is_queued i) db.broadcasts ≡ 1)

-- The tests that were passed where a result lets the caller send.
reserve_delivery-gates :
    (env : Env) (i : Intent) (db : Db)
    → sends (reserve_delivery env i db).0 ≡ true
    → (evaluate_condition env db i.p i.contact i.event i.exit ≡ false)
      × ((i.enrollment ≡ "") ⊎ (count_where (is_waiting i) db.enrollments ≡ 1))
      × ((i.broadcast ≡ "") ⊎ (count_where (is_queued i) db.broadcasts ≡ 1))
      × (any (is_eligible db i) db.consent ≡ true)
unfolding reserve_delivery
reserve_delivery-gates env i db h = ground (arith, eq_iff i.enrollment "", eq_iff i.broadcast "")

module _ (db : Db) (i : Intent) (c : ConsentRow) where
  record IsEligible : Type 0 where
    of_project : c.project_id ≡ i.p
    of_contact : c.contact_id ≡ i.contact
    of_list : c.list_id ≡ i.list
    confirmed : c.state ≡ "confirmed"
    live : contact_live db c ≡ true
    current : policy_current db c ≡ true
    running : project_running db c ≡ true
    free : suppressed db c.project_id i.email ≡ false
    open_installation : db.installation.outbound_paused ≡ false

  is_eligible-IsEligible : is_eligible db i c ≡ true → IsEligible
  is_eligible-IsEligible h = ground (
    arith,
    eq_iff c.project_id i.p,
    eq_iff c.contact_id i.contact,
    eq_iff c.list_id i.list,
    eq_iff c.state "confirmed",
  )

  list_parts :
      (l : ListRow)
      → c.project_id ≡ i.p
      → c.list_id ≡ i.list
      → is_current c l ≡ true
      → (l.project_id ≡ i.p)
        × (l.id ≡ i.list)
        × (c.policy_version ≡ l.policy_version)
        × (l.retired ≡ false)
  list_parts l e f h = ground (
    arith,
    eq_iff l.project_id c.project_id,
    eq_iff l.id c.list_id,
    eq_iff c.policy_version l.policy_version,
  )

  contact_parts :
      (x : ContactRow)
      → c.contact_id ≡ i.contact
      → c.project_id ≡ i.p
      → is_live c x ≡ true
      → (x.id ≡ i.contact) × (x.project_id ≡ i.p) × (x.deleted_at ≡ none)
  contact_parts x e f h = ground (arith, eq_iff x.id c.contact_id, eq_iff x.project_id c.project_id)

  project_parts :
      (p : ProjectRow) → c.project_id ≡ i.p → is_open c p ≡ true → (p.id ≡ i.p) × (p.paused ≡ false)
  project_parts p e h = ground (arith, eq_iff p.id c.project_id)

  free_parts :
      (s : SuppressionRow)
      → c.project_id ≡ i.p
      → suppressed db c.project_id i.email ≡ false
      → Memᴰ s db.suppressions
      → s.project_id ≡ i.p
      → s.email ≢ i.email
  free_parts s e free m q r =
      let f = any-false (is_suppression c.project_id i.email) db.suppressions s free m in
      ground (arith, eq_iff s.project_id c.project_id, eq_iff s.email i.email)

-- A result of `reserveDelivery` that lets `dispatch` send, new or retried, means that the contact has
-- confirmed the list under the list's present policy version, that list, contact and project are
-- there and neither retired, deleted nor paused, that the installation is not paused, that the
-- address is not suppressed, that the exit condition does not hold, and that the enrollment, if
-- there is one, is waiting and the broadcast, if there is one, is queued.
pub reserve_delivery-MaySend :
    (env : Env) (i : Intent) (db : Db)
    → sends (reserve_delivery env i db).0 ≡ true
    → MaySend env i db
reserve_delivery-MaySend env i db h =
    let (no_exit, waiting, queued, any_eligible) = reserve_delivery-gates env i db h in
    let (c, stored, t) = any-mem (is_eligible db i) db.consent any_eligible in
    let e = is_eligible-IsEligible db i c t in
    let (x, x_stored, x_ok) = any-mem (is_live c) db.contacts e.live in
    let (l, l_stored, l_ok) = any-mem (is_current c) db.lists e.current in
    let (p, p_stored, p_ok) = any-mem (is_open c) db.projects e.running in
    let (l₁, l₂, l₃, l₄) = list_parts db i c l e.of_project e.of_list l_ok in
    let (x₁, x₂, x₃) = contact_parts db i c x e.of_contact e.of_project x_ok in
    let (p₁, p₂) = project_parts db i c p e.of_project p_ok in
    record {
      consent = c;
      stored = stored;
      of_contact = e.of_contact;
      of_list = e.of_list;
      of_project = e.of_project;
      confirmed = e.confirmed;
      list = l;
      list_stored = l_stored;
      list_found = (l₁, l₂);
      current = l₃;
      not_retired = l₄;
      contact = x;
      contact_stored = x_stored;
      contact_found = (x₁, x₂);
      not_deleted = x₃;
      project = p;
      project_stored = p_stored;
      project_found = p₁;
      project_runs = p₂;
      not_paused = e.open_installation;
      not_suppressed = λ s m q. free_parts db i c s e.of_project e.free m q;
      no_exit = no_exit;
      waiting = waiting;
      queued = queued;
    }

-- Where no row of consent is eligible, nothing is sent and nothing is written.
pub reserve_delivery-blocked :
    (env : Env) (i : Intent) (db : Db)
    → any (is_eligible db i) db.consent ≡ false
    → (sends (reserve_delivery env i db).0 ≡ false) × ((reserve_delivery env i db).1 ≡ db)
unfolding reserve_delivery
reserve_delivery-blocked env i db stopped =
    elim (Bool-cases (evaluate_condition env db i.p i.contact i.event i.exit)) [
      | inl t ↦ rw t (refl, refl)
      | inr f ↦
          elim (Bool-cases
            (not (i.enrollment == "") && not (eqb (count_where (is_waiting i) db.enrollments) 1))) [
              | inl t ↦ rw (f, t) (refl, refl)
              | inr g ↦
                  elim (Bool-cases (
                    not (i.broadcast == "")
                    && not (eqb (count_where (is_queued i) db.broadcasts) 1))) [
                      | inl t ↦ rw (f, g, t) (refl, refl)
                      | inr h ↦ rw (f, g, h, stopped) (refl, refl)
                    ]
            ]
    ]

ineligible-All :
    (db : Db) (i : Intent) (rows : List ConsentRow)
    → suppressed db i.p i.email ≡ true
    → any (is_eligible db i) rows ≡ false
ineligible-All db i [] h = refl
ineligible-All db i (c ∷ rows) h =
    let rest = ineligible-All db i rows h in
    elim (Bool-cases (is_eligible db i c)) [
      | inr f ↦ rw f rest
      | inl t ↦
          let here : c.project_id ≡ i.p = (eq_iff c.project_id i.p).0 (ground arith) in
          let free : suppressed db c.project_id i.email ≡ false = ground arith in
          let clash : suppressed db i.p i.email ≡ false = rw⁻¹ here free in cc
    ]

-- A suppressed address gets nothing.
pub reserve_delivery-suppressed :
    (env : Env) (i : Intent) (db : Db)
    → suppressed db i.p i.email ≡ true
    → (sends (reserve_delivery env i db).0 ≡ false) × ((reserve_delivery env i db).1 ≡ db)
reserve_delivery-suppressed env i db h =
    reserve_delivery-blocked env i db (ineligible-All db i db.consent h)
