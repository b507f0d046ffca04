-- ===== src/Engine/Releases/Activate.antt =====
-- internal/engine/releases.go: the transaction of "deploy", and "rollback".
use mrkt.Prelude.{
  ℕ, String, ◌==◌, Bool, true, false, not, ◌&&◌, ◌||◌, Option, none, some, List, [], ◌∷◌, ◌++◌, map,
  any, find, eqb, if◌then◌else◌,
}
use mrkt.Manifest.Types.{Manifest, MailingList, File}
use mrkt.Store.Rows.{
  ProjectRow, ReleaseRow, ReleaseFileRow, AssetRow, ListRow, ConsentRow, HistoryRow, TokenRow, Db,
}
use mrkt.Store.Query.{
  count_where, update_where, select_where, delete_where, upsert, insert_or_ignore,
}
use mrkt.Engine.Env.{Env}
use mrkt.Engine.Releases.Plan.{
  Deployer, DeployInput, stale_release, stale_or_invalid_release, not_found, reconsent_required,
  ReleaseResult, deployed, rolled_back, refused, is_redefined, active_release, prepare,
}

-- `UNIQUE(project_id,digest)`.
abbrev pub same_digest : String → String → ReleaseRow → Bool
same_digest p digest r = r.project_id == p && r.digest == digest

abbrev pub new_release : Env → Deployer → String → Manifest → ReleaseRow
new_release env dp p m = record {
  id = dp.release_id;
  project_id = p;
  digest = dp.digest m;
  manifest = dp.encode m;
  status = "active";
  created_at = env.format dp.now;
  activated_at = some (env.format dp.now);
}

abbrev pub release_file : String → String → File → ReleaseFileRow
release_file rid p f = record {
  release_id = rid;
  project_id = p;
  path = f.path;
  hash = f.sha256;
  size = f.size;
  content_type = f.content_type;
  is_public = f.is_public;
}

-- The release of that digest, or a new one.
unfoldable pub store_release : Env → Deployer → String → Manifest → Db → String × Db
store_release env dp p m db = elim (find (same_digest p (dp.digest m)) db.releases) [
  | some r ↦ (r.id, db)
  | none ↦ (
    dp.release_id,
    record db {
      releases = db.releases ++ new_release env dp p m ∷ [];
      release_files = db.release_files ++ map (release_file dp.release_id p) m.files;
    },
  )
]

abbrev pub is_other : String → String → ReleaseRow → Bool
is_other p rid r = r.project_id == p && not (r.id == rid)

abbrev pub is_on_project : String → ListRow → Bool
is_on_project p l = l.project_id == p

-- The four UPDATEs that switch to the release and retire every list.
unfoldable pub switch_to : String → String → String → String → Db → Db
switch_to p name rid now db = record db {
  releases =
      update_where (λ (r : ReleaseRow). r.id == rid)
        (λ (r : ReleaseRow). record r { status = "active"; activated_at = some now })
        (update_where (is_other p rid) (λ (r : ReleaseRow). record r { status = "inactive" })
          db.releases);
  projects =
      update_where (λ (x : ProjectRow). x.id == p)
        (λ (x : ProjectRow). record x {
          name = name;
          active_release_id = some rid;
          updated_at = now;
        })
        db.projects;
  lists = update_where (is_on_project p) (λ (l : ListRow). record l { retired = true }) db.lists;
}

-- `project_id=? AND id=?`.
abbrev pub same_list : String → String → ListRow → Bool
same_list p id l = l.project_id == p && l.id == id

abbrev pub is_confirmed_on : String → String → ConsentRow → Bool
is_confirmed_on p list c = c.project_id == p && c.list_id == list && c.state == "confirmed"

abbrev pub is_consent_of : String → String → String → ConsentRow → Bool
is_consent_of p contact list c = c.project_id == p && c.contact_id == contact && c.list_id == list

abbrev pub is_unused_confirmation : String → String → TokenRow → Bool
is_unused_confirmation p list t =
    t.project_id == p
    && t.list_id == list
    && t.kind == "confirm"
    && elim t.used_at [ none ↦ true | some _ ↦ false ]

abbrev pub demote : MailingList → String → ConsentRow → ConsentRow
demote l now c = record c {
  state = "pending";
  policy_version = l.policy_version;
  confirmed_at = none;
  updated_at = now;
}

abbrev pub demoted_history : Deployer → String → MailingList → String → String → HistoryRow
demoted_history dp p l contact now = record {
  id = dp.history_id l.id contact;
  project_id = p;
  contact_id = contact;
  list_id = l.id;
  state = "pending";
  source = "release_policy_change";
  policy_version = l.policy_version;
  occurred_at = now;
  detail = "{\"reconsent_required\":true}";
}

-- The loop over the contacts whose consent was confirmed.
unfoldable pub demote_each : Deployer → String → MailingList → String → List String → Db → Db
demote_each dp p l now [] db = db
demote_each dp p l now (c ∷ cs) db = demote_each dp p l now cs (record db {
  consent = update_where (is_consent_of p c l.id) (demote l now) db.consent;
  consent_history = db.consent_history ++ demoted_history dp p l c now ∷ [];
})

unfoldable pub require_consent : Deployer → String → MailingList → String → Db → Db
unfolding demote_each
require_consent dp p l now db =
    demote_each dp p l now
      (map (λ (c : ConsentRow). c.contact_id) (select_where (is_confirmed_on p l.id) db.consent))
      (record db {
        consent_tokens = delete_where (is_unused_confirmation p l.id) db.consent_tokens;
      })

abbrev pub list_row : String → String → MailingList → ListRow
list_row p rid l = record {
  project_id = p;
  id = l.id;
  name = l.name;
  purpose = l.purpose;
  policy_version = l.policy_version;
  release_id = rid;
  retired = false;
}

abbrev pub listed_again : String → MailingList → ListRow → ListRow
listed_again rid l r = record r {
  name = l.name;
  purpose = l.purpose;
  policy_version = l.policy_version;
  release_id = rid;
  retired = false;
}

abbrev pub write_list : String → String → MailingList → Db → Db
write_list p rid l db = record db {
  lists = upsert (same_list p l.id) (listed_again rid l) (list_row p rid l) db.lists;
}

-- One round of the loop over the lists; `none` is "reconsent_required".
unfoldable pub put_list : Deployer → String → String → Bool → String → MailingList → Db → Option Db
unfolding require_consent
put_list dp p rid allow now l db = elim (find (same_list p l.id) db.lists) [
  | none ↦ some (write_list p rid l db)
  | some old ↦
      if not (is_redefined l old)
      then some (write_list p rid l db)
      else if not allow
      then none
      else some (write_list p rid l (require_consent dp p l now db))
]

unfoldable pub put_lists :
    Deployer → String → String → Bool → String → List MailingList → Db → Option Db
unfolding put_list
put_lists dp p rid allow now [] db = some db
put_lists dp p rid allow now (l ∷ ls) db = elim (put_list dp p rid allow now l db) [
  | none ↦ none
  | some db' ↦ put_lists dp p rid allow now ls db'
]

-- `PRIMARY KEY(project_id,hash,name)`.
abbrev pub same_asset : String → File → AssetRow → Bool
same_asset p f a = a.project_id == p && a.hash == f.sha256 && a.name == f.path

abbrev pub asset_row : String → String → File → AssetRow
asset_row p rid f = record {
  project_id = p;
  hash = f.sha256;
  name = f.path;
  content_type = f.content_type;
  size = f.size;
  release_id = rid;
}

unfoldable pub publish : String → String → List File → List AssetRow → List AssetRow
publish p rid [] rows = rows
publish p rid (f ∷ fs) rows =
    publish p rid fs
      (if f.is_public then insert_or_ignore (same_asset p f) (asset_row p rid f) rows else rows)

-- The transaction from the release on; `none` rolls it back.
unfoldable pub put_release : Env → Deployer → String → DeployInput → String → Db → Option Db
unfolding put_lists switch_to publish
put_release env dp p i rid db =
    let now = env.format dp.now in
    elim (put_lists dp p rid i.allow_destructive now i.manifest.lists
      (switch_to p i.manifest.project.name rid now db)) [
        | none ↦ none
        | some db' ↦
            some (record db' { public_assets = publish p rid i.manifest.files db'.public_assets })
      ]

unfoldable pub activate : Env → Deployer → String → DeployInput → Db → ReleaseResult × Db
unfolding put_release store_release
activate env dp p i db = elim (active_release p db) [
  | none ↦ (refused not_found, db)
  | some active ↦
      let (rid, stored) = store_release env dp p i.manifest db in
      let put : ReleaseResult × Db = elim (put_release env dp p i rid stored) [
        | none ↦ (refused reconsent_required, db)
        | some db' ↦ (deployed rid (dp.digest i.manifest), db')
      ] in
      if active == i.expected_release then put else (refused stale_release, db)
]

-- The actions "plan" and "deploy": `before` is the database that is read before the transaction, and
-- `db` the one that the transaction finds.
unfoldable pub deploy : Env → Deployer → Bool → String → DeployInput → Db → Db → ReleaseResult × Db
unfolding activate
deploy env dp deploys p i before db = elim (prepare env dp deploys p i before) [
  | some r ↦ (r, db)
  | none ↦ activate env dp p i db
]

abbrev pub expects : String → String → ProjectRow → Bool
expects p expected x =
    x.id == p && elim x.active_release_id [ none ↦ expected == "" | some id ↦ id == expected ]

abbrev pub is_release : String → String → ReleaseRow → Bool
is_release p id r = r.id == id && r.project_id == p

abbrev pub has_status : String → ReleaseRow → ReleaseRow
has_status id r = record r { status = if r.id == id then "active" else "inactive" }

-- The action "rollback". Its two UPDATEs are one step here; the source ignores an error of the second.
unfoldable pub rollback : Env → ℕ → String → String → String → Db → ReleaseResult × Db
rollback env at p id expected db =
    let now = env.format at in
    if not (any (is_release p id) db.releases)
      || eqb (count_where (expects p expected) db.projects) 0
    then (refused stale_or_invalid_release, db)
    else (
      rolled_back id,
      record db {
        projects =
            update_where (expects p expected)
              (λ (x : ProjectRow). record x { active_release_id = some id; updated_at = now })
              db.projects;
        releases = update_where (λ (r : ReleaseRow). r.project_id == p) (has_status id) db.releases;
      },
    )
