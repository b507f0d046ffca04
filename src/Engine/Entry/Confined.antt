-- ===== src/Engine/Entry/Confined.antt =====
-- No handler is reached without the authority that its operation needs.
use mrkt.Prelude.{◌≡◌, ◌≢◌, ◌⊎◌, true, false}
use mrkt.Engine.Authority.{
  Authority, Operation, has_scope, required_scope, is_public_consent, is_ingest,
}
use mrkt.Engine.Entry.Routes.{
  Handler, do_consent, do_asset, do_feedback, do_installation, do_projects,
}

-- Without a token: one of the public actions, on a named project.
abbrev pub IsOpenTo : Operation → Handler → Type 0
IsOpenTo op h =
    (op.project ≢ "")
    × ((h ≡ do_consent) × (is_public_consent op ≡ true)
        ⊎ (h ≡ do_asset) × (op.action ≡ "get")
        ⊎ (h ≡ do_feedback) × (is_ingest op ≡ true))

-- With a token: the installation is for administrators, `doProjects` tests the project itself, and
-- all else is on a named project, which is the token's own, with the scope for the operation, unless
-- the token is an administrator's.
abbrev pub IsGranted : Authority → Operation → Handler → Type 0
IsGranted a op h =
    ((h ≡ do_installation) × (a.admin ≡ true))
    ⊎ (h ≡ do_projects)
    ⊎ (op.project ≢ "")
      × ((a.admin ≡ true)
          ⊎ (a.project ≡ op.project) × (has_scope a.scopes (required_scope op) ≡ true))

abbrev pub Allowed : Authority → Operation → Handler → Type 0
Allowed a op h = ((a.is_public ≡ true) × IsOpenTo op h) ⊎ ((a.is_public ≡ false) × IsGranted a op h)
