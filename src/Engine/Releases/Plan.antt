-- ===== src/Engine/Releases/Plan.antt =====
-- internal/engine/releases.go: what "plan" and "deploy" of `doReleases` test before the transaction.
use mrkt.Prelude.{
  ℕ, String, ◌==◌, Bool, true, false, not, ◌&&◌, ◌||◌, Option, none, some, List, [], ◌∷◌, ◌++◌, map,
  length, any, find, eqb, if◌then◌else◌,
}
use mrkt.Manifest.Types.{ℤ, pos, negsuc, Manifest, MailingList, File, Sequence, Broadcast}
use mrkt.Manifest.Validate.{validate}
use mrkt.Store.Rows.{ProjectRow, ReleaseRow, ListRow, RegistryRow, Db}
use mrkt.Store.Query.{equals, count_where, select_where, delete_where}
use mrkt.Engine.Env.{Env}
use mrkt.Engine.Registry.{registry_config}

-- What a deployment gets from outside: `Digest` and the JSON of a manifest, the order in which
-- `range` meets the lists that are left, the artifact store (whether there is one, the size and type
-- of an artifact, whether the upload of a digest succeeds), the configuration, the IDs of the release
-- and of the history rows by list and contact, and the instant.
pub record Deployer : Type 0 where
  pub digest : Manifest → String
  pub encode : Manifest → String
  pub range : List ListRow → List ListRow
  pub has_artifacts : Bool
  pub stat : String → String → Option (ℤ × String)
  pub put : String → String → Bool
  pub development : Bool
  pub release_id : String
  pub history_id : String → String → String
  pub now : ℕ

-- `deployInput`, decoded.
pub record DeployInput : Type 0 where
  pub manifest : Manifest
  pub expected_release : String
  pub allow_destructive : Bool

pub data ReleaseError : Type 0 where
  invalid_manifest not_found destructive_change stale_release artifacts_unavailable : ReleaseError
  invalid_transport_ref invalid_domain_ref unverified_domain invalid_stream : ReleaseError
  missing_artifact artifact_mismatch artifact_upload_failed reconsent_required : ReleaseError
  stale_or_invalid_release : ReleaseError

-- The texts "add list …", "require reconsent for list …" and "remove list …".
pub data ListChange : Type 0 where
  add_list require_reconsent remove_list : String → ListChange

pub record ReleasePlan : Type 0 where
  pub digest : String
  pub current_release : String
  pub expected_release : String
  pub destructive : Bool
  pub changes : List ListChange

-- `deployed` and `unchanged` carry the ID and the digest.
pub data ReleaseResult : Type 0 where
  planned : ReleasePlan → ReleaseResult
  unchanged deployed : String → String → ReleaseResult
  rolled_back : String → ReleaseResult
  refused : ReleaseError → ReleaseResult

abbrev pub is_live : String → ListRow → Bool
is_live p r = r.project_id == p && not r.retired

abbrev pub is_redefined : MailingList → ListRow → Bool
is_redefined l r = not (r.policy_version == l.policy_version) || not (r.purpose == l.purpose)

abbrev pub change_of : MailingList → Option ListRow → List ListChange
change_of l none = add_list l.id ∷ []
change_of l (some r) = if is_redefined l r then require_reconsent l.id ∷ [] else []

abbrev pub has_id : String → ListRow → Bool
has_id id r = r.id == id

-- The loop over the lists of the manifest: the changes, and what is left of `old`. The ID is a key
-- among the lists of a project, so that the map has one entry for each row.
unfoldable pub changes_of : List MailingList → List ListRow → List ListChange × List ListRow
changes_of [] old = ([], old)
changes_of (l ∷ ls) old =
    let (changes, left) = changes_of ls (delete_where (has_id l.id) old) in
    (change_of l (find (has_id l.id) old) ++ changes, left)

-- `c[:17] == "require reconsent"`.
abbrev pub is_reconsent : ListChange → Bool
is_reconsent (add_list id) = false
is_reconsent (require_reconsent id) = true
is_reconsent (remove_list id) = false

unfoldable pub release_changes : Deployer → String → Manifest → Db → Bool × List ListChange
unfolding changes_of
release_changes dp p m db =
    let (changes, left) = changes_of m.lists (select_where (is_live p) db.lists) in
    (
      not (eqb (length left) 0) || any is_reconsent changes,
      changes ++ map (λ (r : ListRow). remove_list r.id) (dp.range left),
    )

-- `activeRelease`: `none` is the error "not_found", and no release is the empty text.
unfoldable pub active_release : String → Db → Option String
active_release p db = elim (find (λ (x : ProjectRow). x.id == p) db.projects) [
  | none ↦ none
  | some x ↦ some (elim x.active_release_id [ none ↦ "" | some id ↦ id ])
]

-- The digest of the active release, or the empty text.
unfoldable pub active_digest : String → Db → String
active_digest p db = elim (find (λ (x : ProjectRow). x.id == p) db.projects) [
  | none ↦ ""
  | some x ↦ elim (find (λ (r : ReleaseRow). equals x.active_release_id r.id) db.releases) [
    | none ↦ ""
    | some r ↦ r.digest
  ]
]

abbrev pub is_transport : String → RegistryRow → Bool
is_transport p r = r.project_id == p && r.resource == "transports" && r.enabled

abbrev pub is_this_transport : String → String → RegistryRow → Bool
is_this_transport p id r = r.id == id && is_transport p r

-- The streams that sequences and broadcasts name. Go collects them in a map; which one it meets first
-- does not matter, since the error is the same for each.
abbrev pub streams_of : Manifest → List String
streams_of m =
    select_where (λ (s : String). not (s == ""))
      (map (λ (s : Sequence). s.stream) m.sequences
        ++ map (λ (b : Broadcast). b.stream) m.broadcasts)

abbrev pub serves : Env → String → String → RegistryRow → Bool
serves env p stream r =
    is_transport p r
    && elim (env.open_transport p r.id r.config) [ none ↦ false | some c ↦ c.stream == stream ]

abbrev pub domain_error : Env → Deployer → String → String → Db → Option ReleaseError
domain_error env dp p id db = elim (registry_config env.open_domain db p "domains" id) [
  | none ↦ some invalid_domain_ref
  | some c ↦ if not dp.development && not c.verified then some unverified_domain else none
]

unfoldable pub validate_release_runtime_refs :
    Env → Deployer → String → Manifest → Db → Option ReleaseError
validate_release_runtime_refs env dp p m db =
    let transport = m.project.transport in
    let domain : Option ReleaseError =
      if m.project.domain == "" then none else domain_error env dp p m.project.domain db in
    let streams : Option ReleaseError =
      if any (λ stream. not (any (serves env p stream) db.registry)) (streams_of m)
      then some invalid_stream
      else none in
    if not (transport == "")
      && not (eqb (count_where (is_this_transport p transport) db.registry) 1)
    then some invalid_transport_ref
    else elim domain [ some e ↦ some e | none ↦ streams ]

abbrev pub same_size : ℤ → ℤ → Bool
same_size (pos a) (pos b) = eqb a b
same_size (negsuc a) (negsuc b) = eqb a b
same_size (pos a) (negsuc b) = false
same_size (negsuc a) (pos b) = false

-- The loop over the files.
unfoldable pub check_files : Deployer → String → List File → Option ReleaseError
check_files dp p [] = none
check_files dp p (f ∷ fs) =
    let rest = check_files dp p fs in
    elim (dp.stat p f.sha256) [
      | none ↦ some missing_artifact
      | some (size, type) ↦
          if not (same_size size f.size) || not (type == f.content_type)
          then some artifact_mismatch
          else rest
    ]

-- From the comparison with the expected release to the upload.
unfoldable pub check_deploy :
    Env → Deployer → String → DeployInput → String → Db → Option ReleaseError
unfolding validate_release_runtime_refs check_files
check_deploy env dp p i current db =
    let uploaded : Option ReleaseError =
      if dp.put p (dp.digest i.manifest) then none else some artifact_upload_failed in
    let files : Option ReleaseError = elim (check_files dp p i.manifest.files) [
      | some e ↦ some e
      | none ↦ uploaded
    ] in
    if not (current == i.expected_release)
    then some stale_release
    else if not dp.has_artifacts
    then some artifacts_unavailable
    else elim (validate_release_runtime_refs env dp p i.manifest db) [
      | some e ↦ some e
      | none ↦ files
    ]

-- What is answered before the transaction; `none` is to go on. `deploys` is the action "deploy".
unfoldable pub prepare : Env → Deployer → Bool → String → DeployInput → Db → Option ReleaseResult
unfolding release_changes check_deploy
prepare env dp deploys p i db =
    let digest = dp.digest i.manifest in
    elim (validate env.runtime i.manifest) [
      | some e ↦ some (refused invalid_manifest)
      | none ↦ elim (active_release p db) [
        | none ↦ some (refused not_found)
        | some current ↦
            let (destructive, changes) = release_changes dp p i.manifest db in
            if destructive && not i.allow_destructive && deploys
            then some (refused destructive_change)
            else if not deploys
            then some (
                planned (record {
                  digest = digest;
                  current_release = current;
                  expected_release = i.expected_release;
                  destructive = destructive;
                  changes = changes;
                }))
            else if active_digest p db == digest
            then some (unchanged current digest)
            else elim (check_deploy env dp p i current db) [
              | some e ↦ some (refused e)
              | none ↦ none
            ]
      ]
    ]
