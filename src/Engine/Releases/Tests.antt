-- ===== src/Engine/Releases/Tests.antt =====
-- A deployment and a rollback on a small database, and the theorems applied there.
use mrkt.Prelude.{◌≡◌, refl, true, false, none, some, Memᴰ, any}
use mrkt.Manifest.Patterns.{identifier, locale_pattern}
use mrkt.Manifest.Sequences.{validate_sequence}
use mrkt.Manifest.Validate.{validate}
use mrkt.Manifest.Tests.{sample}
use mrkt.Store.Rows.{ListRow, Db}
use mrkt.Engine.Sample.{env, store}
use mrkt.Engine.Releases.Plan.{
  Deployer, DeployInput, deployed, rolled_back, active_release, active_digest, prepare,
}
use mrkt.Engine.Releases.Activate.{deploy, rollback}
use mrkt.Engine.Releases.Rollback.{deploy-rollback}
use mrkt.Engine.Releases.Careful.{SameConsent, is_open_list, deploy-careful}

abbrev deployer : Deployer
deployer = record {
  digest = λ m. "new";
  encode = λ m. "{}";
  range = λ rows. rows;
  has_artifacts = true;
  stat = λ p hash. none;
  put = λ p digest. true;
  development = false;
  release_id = "rel2";
  history_id = λ list contact. "cnh";
  now = 1;
}

abbrev input : DeployInput
input = record { manifest = sample; expected_release = "rel"; allow_destructive = false }

abbrev before : Db
before = store "confirmed"

abbrev after : Db
after = (deploy env deployer true "p" input before before).1

abbrev news : ListRow
news = record {
  project_id = "p";
  id = "news";
  name = "News";
  purpose = "updates";
  policy_version = "1";
  release_id = "rel";
  retired = false;
}

runs : deploy env deployer true "p" input before before ≡ (deployed "rel2" "new", after)
unfolding deploy active_digest validate validate_sequence identifier locale_pattern prepare
    active_release
runs = refl

deploy-rollback_example :
    (back : Db) × (rollback env 2 "p" "rel" "rel2" after ≡ (rolled_back "rel", back))
    × (active_release "p" back ≡ some "rel")
unfolding active_release
deploy-rollback_example =
    deploy-rollback env deployer 2 "p" input before before after "rel2" "new" "rel" refl refl runs

deploy-careful_example :
    SameConsent before after × (any (is_open_list "p" "news") after.lists ≡ true)
deploy-careful_example =
    deploy-careful env deployer "p" input before before after "rel2" "new" news refl runs
      (Memᴰ.head refl) refl
