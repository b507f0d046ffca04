-- ===== src/Engine/Registry.antt =====
-- internal/engine/registry.go: `registryConfig`, for each of its three kinds of configuration.
use mrkt.Prelude.{String, ◌==◌, Bool, ◌&&◌, Option, none, some, find}
use mrkt.Store.Rows.{RegistryRow, Db}

abbrev pub is_enabled : String → String → String → RegistryRow → Bool
is_enabled p resource id r = r.project_id == p && r.resource == resource && r.id == id && r.enabled

-- `none` is `sql.ErrNoRows`, or a configuration that is not opened.
unfoldable pub registry_config {ℓ} :
    {A : Type ℓ} → (String → String → String → Option A) → Db → String → String → String → Option A
registry_config open_as db p resource id = elim (find (is_enabled p resource id) db.registry) [
  | none ↦ none
  | some r ↦ open_as p id r.config
]
