-- ===== src/Engine/Releases/Rollback.antt =====
-- A rollback undoes what a deployment did to the choice of the active release.
use mrkt.Prelude.{
  ℕ, String, ◌==◌, eq_refl, ◌≡◌, refl, sym, ap, ◌∙◌, inl, inr, Bool, true, false, some, arith, any,
  find, eqb, Option-cases,
}
use mrkt.Store.Rows.{ProjectRow, ReleaseRow, Db}
use mrkt.Store.Query.{count_where, update_where}
use mrkt.Store.Query.Laws.{
  find-update_where, any-of_find, any-update_where, any-grown, count_where-pos_of_any, find-true,
}
use mrkt.Manifest.Types.{Manifest}
use mrkt.Engine.Env.{Env}
use mrkt.Engine.Releases.Plan.{Deployer, DeployInput, deployed, rolled_back, active_release}
use mrkt.Engine.Releases.Activate.{
  same_digest, is_other, store_release, switch_to, expects, is_release, has_status, rollback,
  deploy,
}
use mrkt.Engine.Releases.Parts.{put_lists-SameReleases, deploy-Deploys}

-- `WHERE id=?` on the projects.
abbrev is_project : String → ProjectRow → Bool
is_project p x = x.id == p

project_found :
    (p old : String) (db : Db)
    → active_release p db ≡ some old
    → (x : ProjectRow) × (find (is_project p) db.projects ≡ some x)
unfolding active_release
project_found p old db e = elim (Option-cases (find (is_project p) db.projects)) [
  | inl n ↦ cc (rw (active_release, n) at e)
  | inr (x, q) ↦ (x, q)
]

store_release-projects :
    (env : Env) (dp : Deployer) (p : String) (m : Manifest) (db : Db)
    → (store_release env dp p m db).1.projects ≡ db.projects
unfolding store_release
store_release-projects env dp p m db =
    elim (Option-cases (find (same_digest p (dp.digest m)) db.releases)) [
      | inl n ↦ rw (store_release, n) refl
      | inr (r, n) ↦ rw (store_release, n) refl
    ]

store_release-grows :
    (env : Env) (dp : Deployer) (p : String) (m : Manifest) (db : Db) (q : ReleaseRow → Bool)
    → any q db.releases ≡ true
    → any q (store_release env dp p m db).1.releases ≡ true
unfolding store_release
store_release-grows env dp p m db q h =
    elim (Option-cases (find (same_digest p (dp.digest m)) db.releases)) [
      | inl n ↦ rw (store_release, n) (any-grown q db.releases _ h)
      | inr (r, n) ↦ rw (store_release, n) h
    ]

switch_to-finds :
    (p name rid now : String) (db : Db) (x : ProjectRow)
    → find (is_project p) db.projects ≡ some x
    → (y : ProjectRow) × (find (is_project p) (switch_to p name rid now db).projects ≡ some y)
      × (expects p rid y ≡ true)
unfolding switch_to
switch_to-finds p name rid now db x e =
    let change = λ (z : ProjectRow). record z {
      name = name;
      active_release_id = some rid;
      updated_at = now;
    } in
    let mine : is_project p x ≡ true = find-true (is_project p) db.projects x e in
    (
      change x,
      find-update_where (is_project p) (is_project p) change db.projects x (λ z. refl) e
          ∙ rw mine refl,
      rw (mine, eq_refl rid) refl,
    )

switch_to-keeps :
    (p name rid now old : String) (db : Db)
    → any (is_release p old) (switch_to p name rid now db).releases
      ≡ any (is_release p old) db.releases
unfolding switch_to
switch_to-keeps p name rid now old db =
    any-update_where (is_release p old) (λ (r : ReleaseRow). r.id == rid)
      (λ (r : ReleaseRow). record r { status = "active"; activated_at = some now })
      (update_where (is_other p rid) (λ (r : ReleaseRow). record r { status = "inactive" })
        db.releases)
      (λ z. refl)
    ∙ any-update_where (is_release p old) (is_other p rid)
        (λ (r : ReleaseRow). record r { status = "inactive" }) db.releases (λ z. refl)

-- A rollback succeeds where the project points to the expected release and the other one is there.
rollback-succeeds :
    (env : Env) (at : ℕ) (p old rid : String) (db : Db) (y : ProjectRow)
    → find (is_project p) db.projects ≡ some y
    → expects p rid y ≡ true
    → any (is_release p old) db.releases ≡ true
    → (db' : Db) × (rollback env at p old rid db ≡ (rolled_back old, db'))
      × (active_release p db' ≡ some old)
unfolding rollback active_release
rollback-succeeds env at p old rid db y found expected there =
    let now = env.format at in
    let change = λ (x : ProjectRow). record x { active_release_id = some old; updated_at = now } in
    let some_row : eqb (count_where (expects p rid) db.projects) 0 ≡ false =
      let one =
        count_where-pos_of_any (expects p rid) db.projects
          (any-of_find (is_project p) (expects p rid) db.projects y found expected) in
      ground arith in
    let again : find (is_project p) (update_where (expects p rid) change db.projects)
        ≡ some (change y) =
      find-update_where (is_project p) (expects p rid) change db.projects y (λ z. refl) found
      ∙ rw expected refl in
    (
      record db {
        projects = update_where (expects p rid) change db.projects;
        releases =
            update_where (λ (r : ReleaseRow). r.project_id == p) (has_status old) db.releases;
      },
      rw (rollback, there, some_row) refl,
      rw (active_release, again) refl,
    )

-- Where a deployment has replaced the active release of a project, one of the releases that are
-- stored, the rollback to it that expects the deployed one succeeds, and that release is the active
-- one again.
pub deploy-rollback :
    (env : Env) (dp : Deployer) (at : ℕ) (p : String) (i : DeployInput) (before db db' : Db)
    → (rid digest old : String) → active_release p db ≡ some old
    → any (is_release p old) db.releases ≡ true
    → deploy env dp true p i before db ≡ (deployed rid digest, db')
    → (back : Db) × (rollback env at p old rid db' ≡ (rolled_back old, back))
      × (active_release p back ≡ some old)
deploy-rollback env dp at p i before db db' rid digest old was there e =
    let now = env.format dp.now in
    let name = i.manifest.project.name in
    let run = (deploy-Deploys env dp p i before db db' rid digest e).1 in
    let kept =
      put_lists-SameReleases dp p rid i.allow_destructive now i.manifest.lists
        (switch_to p name rid now run.stored) run.listed run.listing in
    let stored : (store_release env dp p i.manifest db).1 ≡ run.stored =
      ap (λ (x : String × Db). x.1) run.storing in
    let (x, found) = project_found p old db was in
    let (y, seen, expected) = switch_to-finds p name rid now run.stored x (
      ap (λ (z : Db). find (is_project p) z.projects) (sym stored)
      ∙ ap (find (is_project p)) (store_release-projects env dp p i.manifest db)
      ∙ found) in
    let projects : db'.projects ≡ (switch_to p name rid now run.stored).projects =
      sym (ap (λ (z : Db). z.projects) run.published) ∙ kept.projects in
    let releases : db'.releases ≡ (switch_to p name rid now run.stored).releases =
      sym (ap (λ (z : Db). z.releases) run.published) ∙ kept.releases in
    rollback-succeeds env at p old rid db' y (ap (find (is_project p)) projects ∙ seen) expected (
      ap (any (is_release p old)) releases
      ∙ switch_to-keeps p name rid now old run.stored
      ∙ ap (λ (z : Db). any (is_release p old) z.releases) (sym stored)
      ∙ store_release-grows env dp p i.manifest db (is_release p old) there)
