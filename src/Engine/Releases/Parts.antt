-- ===== src/Engine/Releases/Parts.antt =====
-- What the parts of a deployment leave as it was.
use mrkt.Prelude.{
  String, ◌==◌, ◌≡◌, refl, sym, ap, ◌∙◌, subst, ◌⊎◌, inl, inr, Bool, true, false, not, ◌&&◌, Option,
  none, some, List, [], ◌∷◌, ◌++◌, map, arith, find, Bool-cases, Option-cases,
}
use mrkt.Manifest.Types.{MailingList}
use mrkt.Manifest.Validate.{validate}
use mrkt.Store.Rows.{ConsentRow, Db}
use mrkt.Store.Query.{update_where, select_where, delete_where}
use mrkt.Engine.Env.{Env}
use mrkt.Engine.Releases.Plan.{
  Deployer, DeployInput, ReleaseResult, planned, unchanged, deployed, rolled_back, refused,
  is_redefined, active_release, active_digest, release_changes, check_deploy, prepare,
}
use mrkt.Engine.Releases.Activate.{
  demote_each, require_consent, write_list, put_list, put_lists, same_list, switch_to,
  store_release, put_release, activate, deploy, publish, is_confirmed_on, is_consent_of, demote,
  demoted_history, is_unused_confirmation,
}

-- The tables of projects and releases are the same.
pub record SameReleases (db db' : Db) : Type 0 where
  pub projects : db'.projects ≡ db.projects
  pub releases : db'.releases ≡ db.releases

same : (db : Db) → SameReleases db db
same db = record { projects = refl; releases = refl }

SameReleases-trans : (a b c : Db) → SameReleases a b → SameReleases b c → SameReleases a c
SameReleases-trans a b c r s = record {
  projects = s.projects ∙ r.projects;
  releases = s.releases ∙ r.releases;
}

demote_each-SameReleases :
    (dp : Deployer) (p : String) (l : MailingList) (now : String) (cs : List String) (db : Db)
    → SameReleases db (demote_each dp p l now cs db)
unfolding demote_each
demote_each-SameReleases dp p l now [] db = same db
demote_each-SameReleases dp p l now (c ∷ cs) db =
    let rest = demote_each-SameReleases dp p l now cs (record db {
      consent = update_where (is_consent_of p c l.id) (demote l now) db.consent;
      consent_history = db.consent_history ++ demoted_history dp p l c now ∷ [];
    }) in
    record { projects = rest.projects; releases = rest.releases }

require_consent-SameReleases :
    (dp : Deployer) (p : String) (l : MailingList) (now : String) (db : Db)
    → SameReleases db (require_consent dp p l now db)
unfolding require_consent
require_consent-SameReleases dp p l now db =
    let rest =
      demote_each-SameReleases dp p l now
        (map (λ (c : ConsentRow). c.contact_id) (select_where (is_confirmed_on p l.id) db.consent))
        (record db {
          consent_tokens = delete_where (is_unused_confirmation p l.id) db.consent_tokens;
        }) in
    record { projects = rest.projects; releases = rest.releases }

pub some_injective : {a b : Db} → some a ≡ some b → a ≡ b
some_injective e = cc

-- What a round of the loop over the lists does: it writes the list, after it has required a new
-- consent where the list is redefined and the request allows it.
pub put_list-cases :
    (dp : Deployer) (p rid : String) (allow : Bool) (now : String) (l : MailingList) (db db' : Db)
    → put_list dp p rid allow now l db ≡ some db'
    → (write_list p rid l db ≡ db')
      ⊎ ((allow ≡ true) × (write_list p rid l (require_consent dp p l now db) ≡ db'))
unfolding put_list
put_list-cases dp p rid allow now l db db' e =
    elim (Option-cases (find (same_list p l.id) db.lists)) [
      | inl n ↦ inl (some_injective (rw (n, put_list) at e))
      | inr (old, n) ↦ elim (Bool-cases (not (is_redefined l old))) [
        | inl t ↦ inl (some_injective (rw (n, t, put_list) at e))
        | inr f ↦ elim (Bool-cases (not allow)) [
          | inl t ↦ cc (rw (n, f, t, put_list) at e)
          | inr g ↦ inr (ground arith, some_injective (rw (n, f, g, put_list) at e))
        ]
      ]
    ]

pub put_lists-SameReleases :
    (dp : Deployer) (p rid : String) (allow : Bool) (now : String) (ls : List MailingList)
    (db db' : Db)
    → put_lists dp p rid allow now ls db ≡ some db'
    → SameReleases db db'
unfolding put_lists
put_lists-SameReleases dp p rid allow now [] db db' e =
    subst (λ x. SameReleases db x) (some_injective e) (same db)
put_lists-SameReleases dp p rid allow now (l ∷ ls) db db' e =
    elim (Option-cases (put_list dp p rid allow now l db)) [
      | inl n ↦ cc (rw (n, put_lists) at e)
      | inr (next, n) ↦
          SameReleases-trans db next db'
            (elim (put_list-cases dp p rid allow now l db next n) [
              | inl q ↦
                  subst (λ x. SameReleases db x) q (record { projects = refl; releases = refl })
              | inr (_, q) ↦
                  let kept = require_consent-SameReleases dp p l now db in
                  subst (λ x. SameReleases db x) q
                    (record { projects = kept.projects; releases = kept.releases })
            ])
            (put_lists-SameReleases dp p rid allow now ls next db' (rw (n, put_lists) at e))
    ]

-- A deployment that succeeds, by its parts: the release that is stored, and the tables after it.
pub record Deploys (env : Env) (dp : Deployer) (p : String) (i : DeployInput) (rid : String)
    (db db' : Db) : Type 0 where
  pub stored : Db
  pub storing : store_release env dp p i.manifest db ≡ (rid, stored)
  pub listed : Db
  pub listing :
      put_lists dp p rid i.allow_destructive
        (env.format dp.now)
        i.manifest.lists
        (switch_to p i.manifest.project.name rid (env.format dp.now) stored)
      ≡ some listed
  pub published :
      record listed { public_assets = publish p rid i.manifest.files listed.public_assets } ≡ db'

put_release-parts :
    (env : Env) (dp : Deployer) (p : String) (i : DeployInput) (rid : String) (stored db' : Db)
    → put_release env dp p i rid stored ≡ some db'
    → (listed : Db) × (put_lists dp p rid i.allow_destructive
          (env.format dp.now)
          i.manifest.lists
          (switch_to p i.manifest.project.name rid (env.format dp.now) stored)
        ≡ some listed)
      × (record listed { public_assets = publish p rid i.manifest.files listed.public_assets }
          ≡ db')
unfolding put_release
put_release-parts env dp p i rid stored db' e =
    elim (Option-cases (
      put_lists dp p rid i.allow_destructive (env.format dp.now) i.manifest.lists
        (switch_to p i.manifest.project.name rid (env.format dp.now) stored))) [
          | inl m ↦ cc (rw (put_release, m) at e)
          | inr (listed, m) ↦ (listed, m, some_injective (rw (put_release, m) at e))
        ]

name_of : String → ReleaseResult → String
name_of r (deployed s _) = s
name_of r (planned _) = r
name_of r (unchanged _ _) = r
name_of r (rolled_back _) = r
name_of r (refused _) = r

activate-put :
    (env : Env) (dp : Deployer) (p : String) (i : DeployInput) (db db' : Db) (rid digest : String)
    → activate env dp p i db ≡ (deployed rid digest, db')
    → ((store_release env dp p i.manifest db).0 ≡ rid)
      × (put_release env dp p i
            (store_release env dp p i.manifest db).0
            (store_release env dp p i.manifest db).1
          ≡ some db')
unfolding activate name_of
activate-put env dp p i db db' rid digest e =
    let made = store_release env dp p i.manifest db in
    elim (Option-cases (active_release p db)) [
      | inl n ↦ cc (rw (n, activate) at e)
      | inr (active, n) ↦ elim (Bool-cases (active == i.expected_release)) [
        | inr f ↦ cc (rw (n, f, activate) at e)
        | inl t ↦ elim (Option-cases (put_release env dp p i made.0 made.1)) [
          | inl m ↦ cc (rw (n, t, activate, m) at e)
          | inr (x, m) ↦
              let q = rw (n, t, activate, m) at e in
              let left : x ≡ db' = ap (λ (y : ReleaseResult × Db). y.1) q in
              (ap (λ (y : ReleaseResult × Db). name_of rid y.0) q, m ∙ ap (λ y. some y) left)
        ]
      ]
    ]

activate-Deploys :
    (env : Env) (dp : Deployer) (p : String) (i : DeployInput) (db db' : Db) (rid digest : String)
    → activate env dp p i db ≡ (deployed rid digest, db')
    → Deploys env dp p i rid db db'
activate-Deploys env dp p i db db' rid digest e =
    let made = store_release env dp p i.manifest db in
    let (name, put) = activate-put env dp p i db db' rid digest e in
    let (listed, listing, published) = put_release-parts env dp p i made.0 made.1 db' put in
    subst (λ r. Deploys env dp p i r db db') name
      (record {
        stored = made.1;
        storing = refl;
        listed = listed;
        listing = listing;
        published = published;
      })

-- What is answered before the transaction is no deployment.
abbrev answers : Option ReleaseResult → Bool
answers none = true
answers (some (deployed _ _)) = false
answers (some (planned _)) = true
answers (some (unchanged _ _)) = true
answers (some (rolled_back _)) = true
answers (some (refused _)) = true

prepare-answers :
    (env : Env) (dp : Deployer) (deploys : Bool) (p : String) (i : DeployInput) (db : Db)
    → answers (prepare env dp deploys p i db) ≡ true
unfolding prepare
prepare-answers env dp deploys p i db = elim (Option-cases (validate env.runtime i.manifest)) [
  | inr (_, q) ↦ rw (prepare, q) refl
  | inl q ↦ elim (Option-cases (active_release p db)) [
    | inl a ↦ rw (prepare, q, a) refl
    | inr (current, a) ↦
        elim (Bool-cases
          ((release_changes dp p i.manifest db).0 && not i.allow_destructive && deploys)) [
            | inl b ↦ rw (prepare, q, a, b) refl
            | inr b ↦ elim (Bool-cases (not deploys)) [
              | inl c ↦ rw (prepare, q, a, b, c) refl
              | inr c ↦ elim (Bool-cases (active_digest p db == dp.digest i.manifest)) [
                | inl d ↦ rw (prepare, q, a, b, c, d) refl
                | inr d ↦ elim (Option-cases (check_deploy env dp p i current db)) [
                  | inl k ↦ rw (prepare, q, a, b, c, d, k) refl
                  | inr (_, k) ↦ rw (prepare, q, a, b, c, d, k) refl
                ]
              ]
            ]
          ]
  ]
]

-- A deployment goes on only if it is not destructive, or is allowed to be.
pub prepare-careful :
    (env : Env) (dp : Deployer) (p : String) (i : DeployInput) (db : Db)
    → prepare env dp true p i db ≡ none
    → i.allow_destructive ≡ false
    → (release_changes dp p i.manifest db).0 ≡ false
unfolding prepare
prepare-careful env dp p i db e f = elim (Option-cases (validate env.runtime i.manifest)) [
  | inr (_, q) ↦ cc (rw (prepare, q) at e)
  | inl q ↦ elim (Option-cases (active_release p db)) [
    | inl a ↦ cc (rw (prepare, q, a) at e)
    | inr (current, a) ↦ elim (Bool-cases (release_changes dp p i.manifest db).0) [
      | inr b ↦ b
      | inl b ↦ cc (rw (prepare, q, a, b, f) at e)
    ]
  ]
]

pub deploy-Deploys :
    (env : Env) (dp : Deployer) (p : String) (i : DeployInput) (before db db' : Db)
    (rid digest : String)
    → deploy env dp true p i before db ≡ (deployed rid digest, db')
    → (prepare env dp true p i before ≡ none) × Deploys env dp p i rid db db'
unfolding deploy
deploy-Deploys env dp p i before db db' rid digest e =
    elim (Option-cases (prepare env dp true p i before)) [
      | inl n ↦ (n, activate-Deploys env dp p i db db' rid digest (rw (n, deploy) at e))
      | inr (r, n) ↦
          let same : r ≡ deployed rid digest =
            ap (λ (x : ReleaseResult × Db). x.0) (rw (n, deploy) at e) in
          let bad : answers (some r) ≡ true =
            ap answers (sym n) ∙ prepare-answers env dp true p i before in
          let never : answers (some r) ≡ false = ap (λ x. answers (some x)) same in cc
    ]
