-- ===== src/Engine/Releases/Active.antt =====
-- Which release is active after a deployment.
use mrkt.Prelude.{String, ◌==◌, ◌≡◌, some, List, Memᴰ, if◌then◌else◌}
use mrkt.Store.Rows.{ProjectRow, ReleaseRow}
use mrkt.Engine.Env.{Env}

-- The releases of a project of which one is active, by its ID.
abbrev pub IsOnlyActive : String → String → List ReleaseRow → Type 0
IsOnlyActive p rid rows =
    (r : ReleaseRow)
    → Memᴰ r rows
    → r.project_id ≡ p
    → r.status ≡ (if r.id == rid then "active" else "inactive")

-- The project points to the release.
abbrev pub PointsTo : String → String → List ProjectRow → Type 0
PointsTo p rid rows = (x : ProjectRow) → Memᴰ x rows → x.id ≡ p → x.active_release_id ≡ some rid
