-- ===== src/Model/DbStatefulSet.antt =====
-- pkg/model/db-statefulset.go: the stateful set that runs the local database.
use janus_idp_operator.Prelude.{
  String, Bool, true, false, ◌^◌, Option, none, some, [], ◌∷◌, ◌++◌, non_empty, if◌then◌else◌,
}
use janus_idp_operator.GoError.{Outcome, ok, err, errorf, panic, ◌>>=◌}
use janus_idp_operator.Kube.{Secret, Workload, EnvFromSource, Container}
use janus_idp_operator.Platform.{Platform}
use janus_idp_operator.Utils.{generate_runtime_object_name}
use janus_idp_operator.Model.Objects.{RuntimeObject, db_stateful_set, db_secret}
use janus_idp_operator.Model.State.{BackstageModel, Ref, load, store, set_runtime_object}
use janus_idp_operator.Model.Pods.{backstage_app_label, change_container, label_workload}

abbrev pub local_db_image_env_var : String
local_db_image_env_var = "RELATED_IMAGE_postgresql"

unfoldable pub db_stateful_set_name : String → String
unfolding generate_runtime_object_name
db_stateful_set_name backstage_name = generate_runtime_object_name backstage_name "backstage-db"

-- c.Image = image
abbrev pub set_image_of : String → Container → Container
set_image_of image c = record c { image = image }

module _ (p : Platform) where
  -- if os.Getenv(LocalDbImageEnvVar) != "" { b.container().Image = … }
  unfoldable pub override_image : Workload → Outcome Workload
  unfolding change_container
  override_image w =
      if non_empty (p.getenv local_db_image_env_var)
      then change_container (set_image_of (p.getenv local_db_image_env_var)) w
      else ok w

  unfoldable pub add_to_model :
      Option Workload → Ref → BackstageModel → Outcome (Bool × BackstageModel)
  unfolding set_runtime_object override_image
  add_to_model none r m =
      if m.local_db_enabled
      then err (
          errorf
            "LocalDb StatefulSet not configured, make sure there is db-statefulset.yaml.yaml in default or raw configuration")
      else ok (false, m)
  add_to_model (some w) r m =
      if m.local_db_enabled
      then (override_image w >>= λ w'. ok (
        true,
        store r (db_stateful_set (some w')) (
            set_runtime_object r (db_stateful_set (some w))
              (record m { local_db_stateful_set = some r })),
      ))
      else ok (false, m)

abbrev pub add_env_from : EnvFromSource → Container → Container
add_env_from source c = record c { env_from = c.env_from ++ source ∷ [] }

unfoldable pub set_db_envs_from_secret : String → Workload → Outcome Workload
unfolding change_container
set_db_envs_from_secret name =
    change_container (add_env_from (record { config_map_ref = none; secret_ref = some name }))

-- model.LocalDbSecret.secret
abbrev pub secret_of : RuntimeObject → Outcome Secret
secret_of (db_secret (some s)) = ok s
secret_of _ = panic

unfoldable pub validate : Option Workload → Ref → BackstageModel → Outcome BackstageModel
unfolding set_db_envs_from_secret load
validate b r m = elim m.local_db_secret [
  | none ↦ ok m
  | some q ↦ do
    o ← load m q
    s ← secret_of o
    elim b [
      | none ↦ panic
      | some w ↦ do
        w' ← set_db_envs_from_secret s.meta.name w
        ok (store r (db_stateful_set (some w')) m)
    ]
]

unfoldable pub set_meta_info : Option Workload → String → Outcome (Option Workload)
unfolding db_stateful_set_name label_workload
set_meta_info none backstage_name = panic
set_meta_info (some w) backstage_name = do
  w' ←
      label_workload backstage_app_label ("backstage-db-" ^ backstage_name)
        (record w { meta = record w.meta { name = db_stateful_set_name backstage_name } })
  ok (some w')
